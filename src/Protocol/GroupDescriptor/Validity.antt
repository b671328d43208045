-- ===== src/Protocol/GroupDescriptor/Validity.antt =====
-- What `validate_group_descriptor` accepts, said of the fields.
use nekomata.Base.{◌≡◌, refl, ◌↔◌, true, false, List, [], ◌∷◌, ◌++◌, Option, none, some, arith, ok}
use nekomata.Text.{Bytes, codes, member_of}
use nekomata.Protocol.Codec.Laws.{
  is_identity, IsPortable, require_identity_iff, require_portable_iff,
}
use nekomata.Protocol.GroupDescriptor.{
  GroupDescriptor, reject, key_wording, invalid_field, validate_members, validate_hint, no_members,
  validate_group_descriptor,
}

-- Every member is a portable key and differs from those before it.
abbrev pub AreMembers : List Bytes → List Bytes → Type 0
AreMembers seen [] = Unit {0}
AreMembers seen (m ∷ ms) =
    IsPortable true m × (member_of m seen ≡ false) × AreMembers (seen ++ m ∷ []) ms

abbrev pub IsHint : Option Bytes → Type 0
IsHint none = Unit {0}
IsHint (some hint) = is_identity hint ≡ true

pub record IsValid (d : GroupDescriptor) : Type 0 where
  pub group_id : is_identity d.group_id ≡ true
  pub publication_key : IsPortable false d.publication_key
  pub compatibility_id : is_identity d.compatibility_id ≡ true
  pub abi_id : is_identity d.abi_id ≡ true
  pub hint : IsHint d.generation_root_hint
  pub some_member : no_members d.members ≡ false
  pub members : AreMembers [] d.members

validate_members-AreMembers :
    (source : Bytes) (seen ms : List Bytes)
    → (validate_members source seen ms ≡ ok tt) ↔ AreMembers seen ms
unfolding validate_members
validate_members-AreMembers source seen [] = (λ _. tt, λ _. refl)
validate_members-AreMembers source seen (m ∷ ms) = ground (
  arith,
  require_portable_iff (reject invalid_field source 0) key_wording m (codes "member") true,
  validate_members-AreMembers source (seen ++ m ∷ []) ms,
)

validate_hint-IsHint :
    (source : Bytes) (hint : Option Bytes) → (validate_hint source hint ≡ ok tt) ↔ IsHint hint
unfolding validate_hint
validate_hint-IsHint source none = (λ _. tt, λ _. refl)
validate_hint-IsHint source (some hint) =
    require_identity_iff (reject invalid_field source 0) hint (codes "generation_root_hint")

-- A descriptor passes validation exactly when each field is well formed, whatever the source name.
pub validate_group_descriptor-IsValid :
    (d : GroupDescriptor) (source : Bytes)
    → (validate_group_descriptor d source ≡ ok tt) ↔ IsValid d
unfolding validate_group_descriptor
validate_group_descriptor-IsValid d source = ground (
  arith,
  require_identity_iff (reject invalid_field source 0) d.group_id (codes "group_id"),
  require_portable_iff (reject invalid_field source 0) key_wording d.publication_key
      (codes "publication_key") false,
  require_identity_iff (reject invalid_field source 0) d.compatibility_id
      (codes "compatibility_id"),
  require_identity_iff (reject invalid_field source 0) d.abi_id (codes "abi_id"),
  validate_hint-IsHint source d.generation_root_hint,
  validate_members-AreMembers source [] d.members,
)
