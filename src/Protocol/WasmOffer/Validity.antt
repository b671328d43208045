-- ===== src/Protocol/WasmOffer/Validity.antt =====
-- What `validate_wasm_offer` accepts, said of the fields.
use nekomata.Base.{◌≡◌, refl, ◌↔◌, true, false, List, [], ◌∷◌, ◌++◌, arith, ok}
use nekomata.Text.{Bytes, codes, member_of}
use nekomata.Protocol.Codec.Laws.{
  is_identity, is_sha256, IsPortable, require_identity_iff, require_portable_iff,
  require_sha256_iff,
}
use nekomata.Protocol.WasmOffer.{
  WasmOffer, reject, path_wording, invalid_field, validate_entries, no_entries, validate_wasm_offer,
}

-- Every entry is one portable component and differs from those before it.
abbrev pub AreEntries : List Bytes → List Bytes → Type 0
AreEntries seen [] = Unit {0}
AreEntries seen (entry ∷ entries) =
    IsPortable false entry
    × (member_of entry seen ≡ false)
    × AreEntries (seen ++ entry ∷ []) entries

pub record IsValid (offer : WasmOffer) : Type 0 where
  pub group_id : is_identity offer.group_id ≡ true
  pub generation_id : IsPortable false offer.generation_id
  pub abi_id : is_identity offer.abi_id ≡ true
  pub artifact_path : IsPortable true offer.artifact_path
  pub sha256 : is_sha256 offer.sha256 ≡ true
  pub some_entry : no_entries offer.entries ≡ false
  pub entries : AreEntries [] offer.entries

validate_entries-AreEntries :
    (source : Bytes) (seen entries : List Bytes)
    → (validate_entries source seen entries ≡ ok tt) ↔ AreEntries seen entries
unfolding validate_entries
validate_entries-AreEntries source seen [] = (λ _. tt, λ _. refl)
validate_entries-AreEntries source seen (entry ∷ entries) = ground (
  arith,
  require_portable_iff (reject invalid_field source 0) path_wording entry (codes "entry") false,
  validate_entries-AreEntries source (seen ++ entry ∷ []) entries,
)

-- An offer passes validation exactly when each field is well formed, whatever the source name.
pub validate_wasm_offer-IsValid :
    (offer : WasmOffer) (source : Bytes)
    → (validate_wasm_offer offer source ≡ ok tt) ↔ IsValid offer
unfolding validate_wasm_offer
validate_wasm_offer-IsValid offer source = ground (
  arith,
  require_identity_iff (reject invalid_field source 0) offer.group_id (codes "group_id"),
  require_portable_iff (reject invalid_field source 0) path_wording offer.generation_id
      (codes "generation_id") false,
  require_identity_iff (reject invalid_field source 0) offer.abi_id (codes "abi_id"),
  require_portable_iff (reject invalid_field source 0) path_wording offer.artifact_path
      (codes "artifact") true,
  require_sha256_iff (reject invalid_field source 0) offer.sha256,
  validate_entries-AreEntries source [] offer.entries,
)
