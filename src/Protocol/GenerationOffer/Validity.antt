-- ===== src/Protocol/GenerationOffer/Validity.antt =====
-- What `validate_generation_offer` accepts, said of the fields.
use nekomata.Base.{
  ℕ, ◌≡◌, refl, ◌↔◌, true, false, not, ◌&&◌, List, [], ◌∷◌, ◌++◌, arith, ok, ◌==◌, length,
}
use nekomata.Text.{Bytes, codes, member_of, starts_with}
use nekomata.Protocol.Scanner.{contains_control_character}
use nekomata.Protocol.Codec.Laws.{
  is_identity, is_sha256, IsPortable, require_identity_iff, require_portable_iff, require_text_iff,
  require_sha256_iff,
}
use nekomata.Protocol.GenerationOffer.{
  GenerationOffer, GenerationOfferMember, reject, path_wording, invalid_field, validate_member,
  validate_members, validate_changed_inputs, require_new_member, no_members,
  validate_generation_offer,
}

pub record IsMember (m : GenerationOfferMember) : Type 0 where
  pub name : IsPortable true m.member
  pub path : IsPortable true m.object_path
  pub below_objects :
      (starts_with m.object_path (codes "objects/") && not (length m.object_path == 8)) ≡ true
  pub digest : is_sha256 m.sha256 ≡ true
  pub origin : is_identity m.source_identity ≡ true
  pub build : contains_control_character m.build_information ≡ false

-- Every member is well formed and shares neither its name nor its path with those before it.
abbrev pub AreMembers : List Bytes → List Bytes → List GenerationOfferMember → Type 0
AreMembers names paths [] = Unit {0}
AreMembers names paths (m ∷ ms) =
    IsMember m
    × (member_of m.member names ≡ false)
    × (member_of m.object_path paths ≡ false)
    × AreMembers (names ++ m.member ∷ []) (paths ++ m.object_path ∷ []) ms

abbrev pub AreInputs : List Bytes → List Bytes → Type 0
AreInputs seen [] = Unit {0}
AreInputs seen (input ∷ inputs) =
    (is_identity input ≡ true)
    × (member_of input seen ≡ false)
    × AreInputs (seen ++ input ∷ []) inputs

pub record IsValid (offer : GenerationOffer) : Type 0 where
  pub group_id : is_identity offer.group_id ≡ true
  pub generation_id : IsPortable false offer.generation_id
  pub compatibility_id : is_identity offer.compatibility_id ≡ true
  pub abi_id : is_identity offer.abi_id ≡ true
  pub some_member : no_members offer.members ≡ false
  pub members : AreMembers [] [] offer.members
  pub inputs : AreInputs [] offer.changed_inputs

pub validate_member-IsMember :
    (m : GenerationOfferMember) (source : Bytes) (line : ℕ)
    → (validate_member m source line ≡ ok tt) ↔ IsMember m
unfolding validate_member
validate_member-IsMember m source line = ground (
  arith,
  require_portable_iff (reject invalid_field source line) path_wording m.member (codes "member")
      true,
  require_portable_iff (reject invalid_field source line) path_wording m.object_path
      (codes "object_path") true,
  require_sha256_iff (reject invalid_field source line) m.sha256,
  require_identity_iff (reject invalid_field source line) m.source_identity
      (codes "source_identity"),
  require_text_iff (reject invalid_field source line) m.build_information
      (codes "build_information"),
)

validate_members-AreMembers :
    (source : Bytes) (names paths : List Bytes) (ms : List GenerationOfferMember)
    → (validate_members source names paths ms ≡ ok tt) ↔ AreMembers names paths ms
unfolding validate_members require_new_member
validate_members-AreMembers source names paths [] = (λ _. tt, λ _. refl)
validate_members-AreMembers source names paths (m ∷ ms) = ground (
  arith,
  validate_member-IsMember m source 0,
  validate_members-AreMembers source (names ++ m.member ∷ []) (paths ++ m.object_path ∷ []) ms,
)

validate_changed_inputs-AreInputs :
    (source : Bytes) (seen inputs : List Bytes)
    → (validate_changed_inputs source seen inputs ≡ ok tt) ↔ AreInputs seen inputs
unfolding validate_changed_inputs
validate_changed_inputs-AreInputs source seen [] = (λ _. tt, λ _. refl)
validate_changed_inputs-AreInputs source seen (input ∷ inputs) = ground (
  arith,
  require_identity_iff (reject invalid_field source 0) input (codes "changed_input"),
  validate_changed_inputs-AreInputs source (seen ++ input ∷ []) inputs,
)

-- An offer passes validation exactly when each field is well formed, whatever the source name.
pub validate_generation_offer-IsValid :
    (offer : GenerationOffer) (source : Bytes)
    → (validate_generation_offer offer source ≡ ok tt) ↔ IsValid offer
unfolding validate_generation_offer
validate_generation_offer-IsValid offer source = ground (
  arith,
  require_identity_iff (reject invalid_field source 0) offer.group_id (codes "group_id"),
  require_portable_iff (reject invalid_field source 0) path_wording offer.generation_id
      (codes "generation_id") false,
  require_identity_iff (reject invalid_field source 0) offer.compatibility_id
      (codes "compatibility_id"),
  require_identity_iff (reject invalid_field source 0) offer.abi_id (codes "abi_id"),
  validate_members-AreMembers source [] [] offer.members,
  validate_changed_inputs-AreInputs source [] offer.changed_inputs,
)
