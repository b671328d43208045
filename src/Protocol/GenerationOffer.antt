-- ===== src/Protocol/GenerationOffer.antt =====
-- src/protocol/generation_offer.cpp and .hpp: the manifest of a published generation.
pub mod Parse
pub mod Print
pub mod Validity
pub mod Marker
pub mod Against
use nekomata.Base.{
  ℕ, ◌+◌, Bool, true, false, not, ◌&&◌, List, [], ◌∷◌, ◌++◌, ◌==◌, if◌then◌else◌, Result, ok, err,
  ◌>>=◌, ◌>>◌, guard, length,
}
use nekomata.Text.{Bytes, codes, to_string, member_of, starts_with}
use nekomata.Protocol.Codec.{require_identity, require_text, require_portable, require_sha256}

pub record GenerationOfferMember : Type 0 where
  pub member : Bytes
  pub object_path : Bytes
  pub sha256 : Bytes
  pub source_identity : Bytes
  pub build_information : Bytes

pub record GenerationOffer : Type 0 where
  pub group_id : Bytes
  pub sequence : ℕ
  pub generation_id : Bytes
  pub compatibility_id : Bytes
  pub abi_id : Bytes
  pub members : List GenerationOfferMember
  pub changed_inputs : List Bytes

pub record GenerationOfferReference : Type 0 where
  pub sequence : ℕ
  pub generation_id : Bytes

pub data GenerationOfferErrorCode : Type 0 where
  invalid_format unsupported_version unknown_directive : GenerationOfferErrorCode
  malformed_value unexpected_value duplicate_field : GenerationOfferErrorCode
  missing_field invalid_field duplicate_member : GenerationOfferErrorCode
  duplicate_object_path duplicate_changed_input invalid_marker : GenerationOfferErrorCode
  marker_mismatch group_mismatch compatibility_mismatch : GenerationOfferErrorCode
  abi_mismatch membership_mismatch : GenerationOfferErrorCode

pub record GenerationOfferError : Type 0 where
  pub code : GenerationOfferErrorCode
  pub line : ℕ
  pub message : Bytes

error_message : Bytes → ℕ → Bytes → Bytes
error_message source line reason =
    let head = codes "invalid generation offer '" ++ source ++ codes "'" in
    let placed = if line == 0 then head else head ++ codes " at line " ++ to_string line in
    placed ++ codes ": " ++ reason

-- What `reject` throws.
pub reject : GenerationOfferErrorCode → Bytes → ℕ → Bytes → GenerationOfferError
unfolding error_message
reject code source line reason = record {
  code = code;
  line = line;
  message = error_message source line reason;
}

abbrev pub Parsed : Type 0 → Type 0
Parsed A = Result GenerationOfferError A

abbrev pub format_name : Bytes
format_name = codes "nekomata-generation"

abbrev pub format_version : ℕ
format_version = 2

abbrev pub path_wording : Bytes
path_wording = codes " must be a relative portable path"

abbrev pub identity : Bytes → ℕ → Bytes → Bytes → Parsed (Unit {0})
identity source line = require_identity (reject invalid_field source line)

abbrev pub portable : Bytes → ℕ → Bytes → Bytes → Bool → Parsed (Unit {0})
portable source line = require_portable (reject invalid_field source line) path_wording

abbrev pub duplicate : Bytes → Bytes → Bytes
duplicate field name = codes "duplicate " ++ field ++ codes " '" ++ name ++ codes "'"

unfoldable pub validate_member : GenerationOfferMember → Bytes → ℕ → Parsed (Unit {0})
validate_member m source line = do
  portable source line m.member (codes "member") true
  portable source line m.object_path (codes "object_path") true
  guard (starts_with m.object_path (codes "objects/") && not (length m.object_path == 8))
      (reject invalid_field source line (codes "object_path must be below objects/"))
  require_sha256 (reject invalid_field source line) m.sha256
  identity source line m.source_identity (codes "source_identity")
  require_text (reject invalid_field source line) m.build_information (codes "build_information")

-- The two `insert(...).second` tests, on the sets of member names and of object paths.
unfoldable pub require_new_member :
    Bytes → ℕ → List Bytes → List Bytes → GenerationOfferMember → Parsed (Unit {0})
require_new_member source line names paths m = do
  guard (not (member_of m.member names))
      (reject duplicate_member source line (duplicate (codes "member") m.member))
  guard (not (member_of m.object_path paths))
      (reject duplicate_object_path source line (duplicate (codes "object_path") m.object_path))

unfoldable pub validate_members :
    Bytes → List Bytes → List Bytes → List GenerationOfferMember → Parsed (Unit {0})
unfolding validate_member require_new_member
validate_members source names paths [] = ok tt
validate_members source names paths (m ∷ ms) = do
  validate_member m source 0
  require_new_member source 0 names paths m
  validate_members source (names ++ m.member ∷ []) (paths ++ m.object_path ∷ []) ms

unfoldable pub validate_changed_inputs : Bytes → List Bytes → List Bytes → Parsed (Unit {0})
validate_changed_inputs source seen [] = ok tt
validate_changed_inputs source seen (input ∷ inputs) = do
  identity source 0 input (codes "changed_input")
  guard (not (member_of input seen))
      (reject duplicate_changed_input source 0 (duplicate (codes "changed_input") input))
  validate_changed_inputs source (seen ++ input ∷ []) inputs

unfoldable pub no_members : List GenerationOfferMember → Bool
no_members [] = true
no_members (m ∷ ms) = false

unfoldable pub validate_generation_offer : GenerationOffer → Bytes → Parsed (Unit {0})
unfolding no_members
validate_generation_offer offer source = do
  identity source 0 offer.group_id (codes "group_id")
  portable source 0 offer.generation_id (codes "generation_id") false
  identity source 0 offer.compatibility_id (codes "compatibility_id")
  identity source 0 offer.abi_id (codes "abi_id")
  guard (not (no_members offer.members))
      (reject missing_field source 0 (codes "at least one member is required"))
  validate_members source [] [] offer.members
  validate_changed_inputs source [] offer.changed_inputs
