-- ===== src/Protocol/Codec.antt =====
-- What the three codecs do alike with their rows: each has its own copy of these helpers, with its
-- error codes and wording, so the exception to throw is an argument.
pub mod Laws
pub mod Rows
use nekomata.Base.{
  ℕ, Bool, true, false, not, ◌&&◌, ◌||◌, List, [], ◌∷◌, ◌++◌, leb, ◌==◌, if◌then◌else◌, length, all,
  any, Result, ok, err, ◌>>=◌, ◌>>◌, guard,
}
use nekomata.Text.{Bytes, codes, read_word}
use nekomata.Protocol.Scanner.{
  contains_control_character, PortableKeyIssue, boundary_slash, non_portable_character,
  forbidden_component, invalid_component, inspect_portable_key, is_empty, read_quoted_field,
  has_trailing_fields,
}

unfoldable pub is_lower_hex : ℕ → Bool
is_lower_hex byte = leb b'0' byte && leb byte b'9' || leb b'a' byte && leb byte b'f'

module _ {E : Type 0} (reject : Bytes → E) where
  unfoldable pub require_identity : Bytes → Bytes → Result E (Unit {0})
  require_identity value field = do
    guard (not (is_empty value)) (reject (field ++ codes " must not be empty"))
    guard (not (contains_control_character value))
        (reject (field ++ codes " must not contain control characters"))

  unfoldable pub require_text : Bytes → Bytes → Result E (Unit {0})
  require_text value field =
      guard (not (contains_control_character value))
        (reject (field ++ codes " must not contain control characters"))

  -- The `switch` of require_portable_key and require_portable_path.
  key_verdict : PortableKeyIssue → Bytes → Bytes → Result E (Unit {0})
  key_verdict PortableKeyIssue.none field relative = ok tt
  key_verdict boundary_slash field relative = err (reject (field ++ relative))
  key_verdict non_portable_character field relative =
      err (reject (field ++ codes " contains a non-portable character"))
  key_verdict forbidden_component field relative =
      err (reject (field ++ codes " must be one path component"))
  key_verdict invalid_component field relative =
      err (reject (field ++ codes " contains an invalid path component"))

  -- `relative` is the codec's wording for a boundary slash.
  unfoldable pub require_portable : Bytes → Bytes → Bytes → Bool → Result E (Unit {0})
  unfolding require_identity key_verdict
  require_portable relative value field allow_components = do
    require_identity value field
    key_verdict (inspect_portable_key value allow_components) field relative

  unfoldable pub require_sha256 : Bytes → Result E (Unit {0})
  require_sha256 value =
      guard (length value == 64 && all is_lower_hex value)
        (reject (codes "sha256 must contain exactly 64 lowercase hexadecimal digits"))

  unfoldable pub require_end : Bytes → Result E (Unit {0})
  require_end row =
      guard (not (has_trailing_fields row)) (reject (codes "unexpected trailing fields"))

  -- The value read, and the rest of the row.
  unfoldable pub read_quoted : Bytes → Bytes → Result E (Bytes × Bytes)
  read_quoted row field =
      let (scanned, rest) = read_quoted_field row in
      do
        guard scanned.was_quoted (reject (field ++ codes " must be quoted"))
        guard scanned.ok (reject (codes "cannot read " ++ field))
        ok (scanned.value, rest)
