-- ===== src/Protocol/WasmOffer/Parse.antt =====
-- `parse_wasm_offer` of src/protocol/wasm_offer.cpp.
mod Rows
pub mod RoundTrip
pub mod Sound
use nekomata.Base.{
  ℕ, ◌+◌, Bool, true, false, not, ◌&&◌, List, [], ◌∷◌, ◌++◌, if◌then◌else◌, Result, ok, err, ◌>>=◌,
  ◌>>◌, guard,
}
use nekomata.Text.{Bytes, codes, equal, lines, trim_return, read_word, member_of}
use nekomata.Protocol.Scanner.{
  MagicLineIssue, wrong_name, wrong_version, compose_magic_line, inspect_magic_line, is_empty,
  parse_unsigned_decimal,
}
use nekomata.Protocol.Codec.{require_end, read_quoted, require_sha256}
use nekomata.Protocol.Codec.Rows.{scan_rows}
use nekomata.Protocol.WasmOffer.{
  WasmOffer, invalid_format, unsupported_version, unknown_directive, malformed_value,
  unexpected_value, duplicate_field, missing_field, invalid_field, duplicate_entry, reject, Parsed,
  format_name, format_version, identity, portable, duplicate, no_entries, validate_wasm_offer,
}

-- The offer under construction, and the `has_` flags. The set of the parser holds what `entries`
-- holds.
pub record Draft : Type 0 where
  pub offer : WasmOffer
  pub has_group_id : Bool
  pub has_sequence : Bool
  pub has_generation_id : Bool
  pub has_abi_id : Bool
  pub has_artifact : Bool

abbrev pub empty_offer : WasmOffer
empty_offer = record {
  group_id = [];
  sequence = 0;
  generation_id = [];
  abi_id = [];
  artifact_path = [];
  sha256 = [];
  entries = [];
}

abbrev pub empty_draft : Draft
empty_draft = record {
  offer = empty_offer;
  has_group_id = false;
  has_sequence = false;
  has_generation_id = false;
  has_abi_id = false;
  has_artifact = false;
}

pub data Directive : Type 0 where
  group_id sequence generation_id abi_id artifact entry unknown : Directive

-- The chain of comparisons of the directive's word.
pub directive_of : Bytes → Directive
directive_of word =
    if equal word (codes "group_id")
    then group_id
    else if equal word (codes "sequence")
    then sequence
    else if equal word (codes "generation_id")
    then generation_id
    else if equal word (codes "abi_id")
    then abi_id
    else if equal word (codes "artifact")
    then artifact
    else if equal word (codes "entry")
    then entry
    else unknown

-- The lambda `read_identity_field`.
read_identity_field : Bytes → ℕ → Bool → Bytes → Bytes → Parsed Bytes
read_identity_field source line present row field = do
  guard (not present) (reject duplicate_field source line (codes "duplicate " ++ field))
  (value, rest) ← read_quoted (reject malformed_value source line) row field
  require_end (reject unexpected_value source line) rest
  identity source line value field
  ok value

read_sequence : Bytes → ℕ → Bytes → Parsed (ℕ × Bytes)
read_sequence source line row =
    let (value, rest) = read_word row in
    let parsed = parse_unsigned_decimal value in
    do
      guard (not (is_empty value) && (not parsed.leading_zero && parsed.ok)) (
          reject malformed_value source line
            (codes "sequence must be a canonical unsigned decimal integer"))
      ok (parsed.value, rest)

-- The two fields of the `artifact` row.
read_artifact : Bytes → ℕ → Bytes → Parsed (Bytes × Bytes × Bytes)
read_artifact source line row = do
  (path, r1) ← read_quoted (reject malformed_value source line) row (codes "artifact")
  (digest, r2) ← read_quoted (reject malformed_value source line) r1 (codes "sha256")
  ok (path, digest, r2)

-- One directive; `row` is what stands behind its word.
pub directive_row : Directive → Bytes → Bytes → ℕ → Draft → Bytes → Parsed Draft
unfolding read_identity_field read_sequence read_artifact
directive_row group_id word source line d row = do
  value ← read_identity_field source line d.has_group_id row (codes "group_id")
  ok (record d { offer = record d.offer { group_id = value }; has_group_id = true })
directive_row sequence word source line d row = do
  guard (not d.has_sequence) (reject duplicate_field source line (codes "duplicate sequence"))
  (value, rest) ← read_sequence source line row
  require_end (reject unexpected_value source line) rest
  ok (record d { offer = record d.offer { sequence = value }; has_sequence = true })
directive_row generation_id word source line d row = do
  value ← read_identity_field source line d.has_generation_id row (codes "generation_id")
  portable source line value (codes "generation_id") false
  ok (record d { offer = record d.offer { generation_id = value }; has_generation_id = true })
directive_row abi_id word source line d row = do
  value ← read_identity_field source line d.has_abi_id row (codes "abi_id")
  ok (record d { offer = record d.offer { abi_id = value }; has_abi_id = true })
directive_row artifact word source line d row = do
  guard (not d.has_artifact) (reject duplicate_field source line (codes "duplicate artifact"))
  (path, digest, rest) ← read_artifact source line row
  require_end (reject unexpected_value source line) rest
  portable source line path (codes "artifact") true
  require_sha256 (reject invalid_field source line) digest
  ok (record d {
    offer = record d.offer { artifact_path = path; sha256 = digest };
    has_artifact = true;
  })
directive_row entry word source line d row = do
  (value, rest) ← read_quoted (reject malformed_value source line) row (codes "entry")
  require_end (reject unexpected_value source line) rest
  portable source line value (codes "entry") false
  guard (not (member_of value d.offer.entries))
      (reject duplicate_entry source line (duplicate value))
  ok (record d { offer = record d.offer { entries = d.offer.entries ++ value ∷ [] } })
directive_row unknown word source line d row =
    err (reject unknown_directive source line (codes "unknown directive '" ++ word ++ codes "'"))

pub parse_rows : Bytes → List Bytes → ℕ → Draft → Parsed (Draft × ℕ)
unfolding directive_row directive_of
parse_rows source =
    scan_rows λ word line d row. directive_row (directive_of word) word source line d row

require_field : Bytes → ℕ → Bool → Bytes → Parsed (Unit {0})
require_field source line present field =
    guard present (reject missing_field source (line + 1) (codes "missing " ++ field))

-- The checks behind the loop.
finish : Bytes → Draft × ℕ → Parsed WasmOffer
unfolding require_field
finish source (d, line) = do
  require_field source line d.has_group_id (codes "group_id")
  require_field source line d.has_sequence (codes "sequence")
  require_field source line d.has_generation_id (codes "generation_id")
  require_field source line d.has_abi_id (codes "abi_id")
  require_field source line d.has_artifact (codes "artifact")
  guard (not (no_entries d.offer.entries))
      (reject missing_field source (line + 1) (codes "at least one entry is required"))
  validate_wasm_offer d.offer source
  ok d.offer

magic_verdict : Bytes → MagicLineIssue → Parsed (Unit {0})
magic_verdict source MagicLineIssue.none = ok tt
magic_verdict source wrong_version = err (
    reject unsupported_version source 1
      (codes "expected " ++ compose_magic_line format_name format_version))
magic_verdict source wrong_name = err (
    reject invalid_format source 1
      (codes "expected " ++ compose_magic_line format_name format_version))

parse_lines : Bytes → List Bytes → Parsed WasmOffer
unfolding parse_rows finish magic_verdict
parse_lines source [] = err (reject invalid_format source 1 (codes "missing format header"))
parse_lines source (l ∷ ls) = do
  magic_verdict source (inspect_magic_line (trim_return l) format_name format_version)
  finish source (← parse_rows source ls 1 empty_draft)

unfoldable pub parse_wasm_offer : Bytes → Bytes → Parsed WasmOffer
unfolding parse_lines
parse_wasm_offer text source = parse_lines source (lines text)
