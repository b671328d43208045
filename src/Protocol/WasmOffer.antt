-- ===== src/Protocol/WasmOffer.antt =====
-- src/protocol/wasm_offer.cpp and .hpp: the manifest of one browser generation.
pub mod Parse
pub mod Print
pub mod Validity
pub mod Ordering
mod Tests
use nekomata.Base.{
  ℕ, ◌+◌, Bool, true, false, not, ◌&&◌, List, [], ◌∷◌, ◌++◌, Result, ok, err, ◌>>=◌, ◌>>◌, guard,
}
use nekomata.Text.{Bytes, codes, to_string, member_of}
use nekomata.Protocol.Codec.{require_identity, require_portable, require_sha256}

pub record WasmOffer : Type 0 where
  pub group_id : Bytes
  pub sequence : ℕ
  pub generation_id : Bytes
  pub abi_id : Bytes
  pub artifact_path : Bytes
  pub sha256 : Bytes
  pub entries : List Bytes

pub data WasmOfferErrorCode : Type 0 where
  invalid_format unsupported_version unknown_directive malformed_value : WasmOfferErrorCode
  unexpected_value duplicate_field missing_field invalid_field duplicate_entry : WasmOfferErrorCode

pub record WasmOfferError : Type 0 where
  pub code : WasmOfferErrorCode
  pub line : ℕ
  pub message : Bytes

-- What `reject` throws.
pub reject : WasmOfferErrorCode → Bytes → ℕ → Bytes → WasmOfferError
reject code source line reason = record {
  code = code;
  line = line;
  message =
      codes "invalid wasm offer '"
      ++ source
      ++ codes "' at line "
      ++ to_string line
      ++ codes ": "
      ++ reason;
}

abbrev pub Parsed : Type 0 → Type 0
Parsed A = Result WasmOfferError A

abbrev pub format_name : Bytes
format_name = codes "nekomata-wasm"

abbrev pub format_version : ℕ
format_version = 1

abbrev pub path_wording : Bytes
path_wording = codes " must be a relative portable path"

abbrev pub identity : Bytes → ℕ → Bytes → Bytes → Parsed (Unit {0})
identity source line = require_identity (reject invalid_field source line)

abbrev pub portable : Bytes → ℕ → Bytes → Bytes → Bool → Parsed (Unit {0})
portable source line = require_portable (reject invalid_field source line) path_wording

abbrev pub duplicate : Bytes → Bytes
duplicate entry = codes "duplicate entry '" ++ entry ++ codes "'"

-- The loop over the entries; `seen` is the set of those before.
unfoldable pub validate_entries : Bytes → List Bytes → List Bytes → Parsed (Unit {0})
validate_entries source seen [] = ok tt
validate_entries source seen (entry ∷ entries) = do
  portable source 0 entry (codes "entry") false
  guard (not (member_of entry seen)) (reject duplicate_entry source 0 (duplicate entry))
  validate_entries source (seen ++ entry ∷ []) entries

unfoldable pub no_entries : List Bytes → Bool
no_entries [] = true
no_entries (entry ∷ entries) = false

unfoldable pub validate_wasm_offer : WasmOffer → Bytes → Parsed (Unit {0})
unfolding validate_entries no_entries
validate_wasm_offer offer source = do
  identity source 0 offer.group_id (codes "group_id")
  portable source 0 offer.generation_id (codes "generation_id") false
  identity source 0 offer.abi_id (codes "abi_id")
  portable source 0 offer.artifact_path (codes "artifact") true
  require_sha256 (reject invalid_field source 0) offer.sha256
  guard (not (no_entries offer.entries))
      (reject missing_field source 0 (codes "at least one entry is required"))
  validate_entries source [] offer.entries
