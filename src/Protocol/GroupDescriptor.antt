-- ===== src/Protocol/GroupDescriptor.antt =====
-- src/protocol/group_descriptor.cpp and .hpp: the descriptor of a managed reload group.
pub mod Parse
pub mod Print
pub mod Validity
use nekomata.Base.{
  ℕ, ◌+◌, Bool, true, false, not, ◌&&◌, List, [], ◌∷◌, ◌++◌, Option, none, some, ◌==◌,
  if◌then◌else◌, Result, ok, err, ◌>>=◌, ◌>>◌, guard,
}
use nekomata.Text.{
  Bytes, codes, equal, to_string, quoted, lines, trim_return, skip_spaces, read_word, member_of,
}
use nekomata.Protocol.Scanner.{
  MagicLineIssue, wrong_name, wrong_version, compose_magic_line, inspect_magic_line, is_empty,
  parse_unsigned_decimal,
}
use nekomata.Protocol.Codec.{require_identity, require_portable, require_end, read_quoted}

pub record GroupDescriptor : Type 0 where
  pub group_id : Bytes
  pub members : List Bytes
  pub publication_key : Bytes
  pub baseline_sequence : ℕ
  pub compatibility_id : Bytes
  pub abi_id : Bytes
  pub generation_root_hint : Option Bytes

pub data DescriptorErrorCode : Type 0 where
  invalid_format unsupported_version unknown_directive malformed_value : DescriptorErrorCode
  unexpected_value duplicate_field missing_field invalid_field : DescriptorErrorCode
  duplicate_member : DescriptorErrorCode

pub record DescriptorError : Type 0 where
  pub code : DescriptorErrorCode
  pub line : ℕ
  pub message : Bytes

error_message : Bytes → ℕ → Bytes → Bytes
error_message source line reason =
    let head = codes "invalid reload group descriptor '" ++ source ++ codes "'" in
    let placed = if line == 0 then head else head ++ codes " at line " ++ to_string line in
    placed ++ codes ": " ++ reason

-- What `reject` throws.
pub reject : DescriptorErrorCode → Bytes → ℕ → Bytes → DescriptorError
unfolding error_message
reject code source line reason = record {
  code = code;
  line = line;
  message = error_message source line reason;
}

abbrev pub Parsed : Type 0 → Type 0
Parsed A = Result DescriptorError A

abbrev pub format_name : Bytes
format_name = codes "nekomata-group"

abbrev pub format_version : ℕ
format_version = 1

abbrev pub key_wording : Bytes
key_wording = codes " must be a relative logical key"

abbrev pub identity : Bytes → ℕ → Bytes → Bytes → Parsed (Unit {0})
identity source line = require_identity (reject invalid_field source line)

abbrev pub portable : Bytes → ℕ → Bytes → Bytes → Bool → Parsed (Unit {0})
portable source line = require_portable (reject invalid_field source line) key_wording

abbrev pub duplicate : Bytes → Bytes
duplicate name = codes "duplicate member '" ++ name ++ codes "'"

-- The loop over the members; `seen` is the set of those before.
unfoldable pub validate_members : Bytes → List Bytes → List Bytes → Parsed (Unit {0})
validate_members source seen [] = ok tt
validate_members source seen (m ∷ ms) = do
  portable source 0 m (codes "member") true
  guard (not (member_of m seen)) (reject duplicate_member source 0 (duplicate m))
  validate_members source (seen ++ m ∷ []) ms

unfoldable pub validate_hint : Bytes → Option Bytes → Parsed (Unit {0})
validate_hint source none = ok tt
validate_hint source (some hint) = identity source 0 hint (codes "generation_root_hint")

unfoldable pub no_members : List Bytes → Bool
no_members [] = true
no_members (m ∷ ms) = false

unfoldable pub validate_group_descriptor : GroupDescriptor → Bytes → Parsed (Unit {0})
unfolding validate_members validate_hint no_members
validate_group_descriptor d source = do
  identity source 0 d.group_id (codes "group_id")
  portable source 0 d.publication_key (codes "publication_key") false
  identity source 0 d.compatibility_id (codes "compatibility_id")
  identity source 0 d.abi_id (codes "abi_id")
  validate_hint source d.generation_root_hint
  guard (not (no_members d.members))
      (reject missing_field source 0 (codes "at least one member is required"))
  validate_members source [] d.members
