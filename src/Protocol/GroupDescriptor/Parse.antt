-- ===== src/Protocol/GroupDescriptor/Parse.antt =====
-- `parse_group_descriptor` of src/protocol/group_descriptor.cpp.
mod Rows
pub mod RoundTrip
pub mod Sound
use nekomata.Base.{
  ℕ, ◌+◌, Bool, true, false, not, ◌&&◌, List, [], ◌∷◌, ◌++◌, Option, none, some, ◌==◌,
  if◌then◌else◌, Result, ok, err, ◌>>=◌, ◌>>◌, guard,
}
use nekomata.Text.{
  Bytes, codes, equal, to_string, quoted, lines, trim_return, skip_spaces, read_word, member_of,
}
use nekomata.Protocol.Scanner.{
  MagicLineIssue, wrong_name, wrong_version, compose_magic_line, inspect_magic_line, is_empty,
  parse_unsigned_decimal,
}
use nekomata.Protocol.Codec.{require_identity, require_portable, require_end, read_quoted}
use nekomata.Protocol.Codec.Rows.{scan_rows}
use nekomata.Protocol.GroupDescriptor.{
  GroupDescriptor, DescriptorErrorCode, invalid_format, unsupported_version, unknown_directive,
  malformed_value, unexpected_value, duplicate_field, missing_field, duplicate_member, reject,
  Parsed, format_name, format_version, duplicate, identity, portable, no_members,
  validate_group_descriptor,
}

-- The descriptor under construction, and the `has_` flags.
pub record Draft : Type 0 where
  pub descriptor : GroupDescriptor
  pub has_group_id : Bool
  pub has_publication_key : Bool
  pub has_baseline_sequence : Bool
  pub has_compatibility_id : Bool
  pub has_abi_id : Bool
  pub has_generation_root_hint : Bool

abbrev pub empty_descriptor : GroupDescriptor
empty_descriptor = record {
  group_id = [];
  members = [];
  publication_key = [];
  baseline_sequence = 0;
  compatibility_id = [];
  abi_id = [];
  generation_root_hint = none;
}

abbrev pub empty_draft : Draft
empty_draft = record {
  descriptor = empty_descriptor;
  has_group_id = false;
  has_publication_key = false;
  has_baseline_sequence = false;
  has_compatibility_id = false;
  has_abi_id = false;
  has_generation_root_hint = false;
}

pub data Directive : Type 0 where
  group_id publication_key baseline_sequence compatibility_id abi_id : Directive
  generation_root_hint member unknown : Directive

-- The chain of comparisons of the directive's word.
pub directive_of : Bytes → Directive
directive_of word =
    if equal word (codes "group_id")
    then group_id
    else if equal word (codes "publication_key")
    then publication_key
    else if equal word (codes "baseline_sequence")
    then baseline_sequence
    else if equal word (codes "compatibility_id")
    then compatibility_id
    else if equal word (codes "abi_id")
    then abi_id
    else if equal word (codes "generation_root_hint")
    then generation_root_hint
    else if equal word (codes "member")
    then member
    else unknown

-- The lambda `read_identity_field`, and the same steps for `generation_root_hint`.
read_identity_field : Bytes → ℕ → Bool → Bytes → Bytes → Parsed Bytes
read_identity_field source line present row field = do
  guard (not present) (reject duplicate_field source line (codes "duplicate " ++ field))
  (value, rest) ← read_quoted (reject malformed_value source line) row field
  require_end (reject unexpected_value source line) rest
  identity source line value field
  ok value

read_sequence : Bytes → ℕ → Bytes → Parsed (ℕ × Bytes)
read_sequence source line row =
    let (value, rest) = read_word row in
    let parsed = parse_unsigned_decimal value in
    do
      guard (not (is_empty value))
          (reject malformed_value source line (codes "cannot read baseline_sequence"))
      guard parsed.ok (
          reject malformed_value source line
            (codes "baseline_sequence must be an unsigned decimal integer"))
      ok (parsed.value, rest)

-- One directive; `row` is what stands behind its word. `descriptor.members` also stands for the
-- set `members`, which holds the same strings.
pub directive_row : Directive → Bytes → Bytes → ℕ → Draft → Bytes → Parsed Draft
unfolding read_identity_field read_sequence
directive_row group_id word source line d row = do
  value ← read_identity_field source line d.has_group_id row (codes "group_id")
  ok (record d { descriptor = record d.descriptor { group_id = value }; has_group_id = true })
directive_row publication_key word source line d row = do
  value ← read_identity_field source line d.has_publication_key row (codes "publication_key")
  portable source line value (codes "publication_key") false
  ok (record d {
    descriptor = record d.descriptor { publication_key = value };
    has_publication_key = true;
  })
directive_row baseline_sequence word source line d row = do
  guard (not d.has_baseline_sequence)
      (reject duplicate_field source line (codes "duplicate baseline_sequence"))
  (value, rest) ← read_sequence source line row
  require_end (reject unexpected_value source line) rest
  ok (record d {
    descriptor = record d.descriptor { baseline_sequence = value };
    has_baseline_sequence = true;
  })
directive_row compatibility_id word source line d row = do
  value ← read_identity_field source line d.has_compatibility_id row (codes "compatibility_id")
  ok (record d {
    descriptor = record d.descriptor { compatibility_id = value };
    has_compatibility_id = true;
  })
directive_row abi_id word source line d row = do
  value ← read_identity_field source line d.has_abi_id row (codes "abi_id")
  ok (record d { descriptor = record d.descriptor { abi_id = value }; has_abi_id = true })
directive_row generation_root_hint word source line d row = do
  value ←
      read_identity_field source line d.has_generation_root_hint row (codes "generation_root_hint")
  ok (record d {
    descriptor = record d.descriptor { generation_root_hint = some value };
    has_generation_root_hint = true;
  })
directive_row member word source line d row = do
  (value, rest) ← read_quoted (reject malformed_value source line) row (codes "member")
  require_end (reject unexpected_value source line) rest
  portable source line value (codes "member") true
  guard (not (member_of value d.descriptor.members))
      (reject duplicate_member source line (duplicate value))
  ok (record d {
    descriptor = record d.descriptor { members = d.descriptor.members ++ value ∷ [] };
  })
directive_row unknown word source line d row =
    err (reject unknown_directive source line (codes "unknown directive '" ++ word ++ codes "'"))

pub parse_rows : Bytes → List Bytes → ℕ → Draft → Parsed (Draft × ℕ)
unfolding directive_row directive_of
parse_rows source =
    scan_rows λ word line d row. directive_row (directive_of word) word source line d row

require_field : Bytes → ℕ → Bool → Bytes → Parsed (Unit {0})
require_field source line present field =
    guard present (reject missing_field source (line + 1) (codes "missing " ++ field))

-- The checks behind the loop.
finish : Bytes → Draft × ℕ → Parsed GroupDescriptor
unfolding require_field no_members
finish source (d, line) = do
  require_field source line d.has_group_id (codes "group_id")
  require_field source line d.has_publication_key (codes "publication_key")
  require_field source line d.has_baseline_sequence (codes "baseline_sequence")
  require_field source line d.has_compatibility_id (codes "compatibility_id")
  require_field source line d.has_abi_id (codes "abi_id")
  guard (not (no_members d.descriptor.members))
      (reject missing_field source (line + 1) (codes "at least one member is required"))
  validate_group_descriptor d.descriptor source
  ok d.descriptor

magic_verdict : Bytes → MagicLineIssue → Parsed (Unit {0})
magic_verdict source MagicLineIssue.none = ok tt
magic_verdict source wrong_version = err (
    reject unsupported_version source 1
      (codes "expected " ++ compose_magic_line format_name format_version))
magic_verdict source wrong_name = err (
    reject invalid_format source 1
      (codes "expected " ++ compose_magic_line format_name format_version))

parse_lines : Bytes → List Bytes → Parsed GroupDescriptor
unfolding parse_rows finish magic_verdict
parse_lines source [] = err (reject invalid_format source 1 (codes "missing format header"))
parse_lines source (l ∷ ls) = do
  magic_verdict source (inspect_magic_line (trim_return l) format_name format_version)
  finish source (← parse_rows source ls 1 empty_draft)

unfoldable pub parse_group_descriptor : Bytes → Bytes → Parsed GroupDescriptor
unfolding parse_lines
parse_group_descriptor text source = parse_lines source (lines text)
