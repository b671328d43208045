-- ===== src/Protocol/Codec/Laws.antt =====
-- The helpers of the codecs accept the same texts, whatever they throw.
use nekomata.Base.{
  ◌≡◌, refl, ◌↔◌, Bool, true, false, not, ◌&&◌, [], ◌∷◌, ◌++◌, arith, ◌==◌, all, ok, append_assoc,
  append-nil, subst, length,
}
use nekomata.Text.{Bytes, quoted, escaped, skip_spaces, IsLine, read_quoted_string-quoted}
use nekomata.Protocol.Scanner.{
  contains_control_character, PortableKeyIssue, inspect_portable_key, is_empty, read_quoted_field,
  has_trailing_fields,
}
use nekomata.Protocol.Codec.{
  require_identity, require_portable, require_end, read_quoted, require_text, require_sha256,
  is_lower_hex,
}

-- Not empty, and no control character.
abbrev pub is_identity : Bytes → Bool
is_identity value = not (is_empty value) && not (contains_control_character value)

pub record IsPortable (allow_components : Bool) (value : Bytes) : Type 0 where
  pub identity : is_identity value ≡ true
  pub key : inspect_portable_key value allow_components ≡ PortableKeyIssue.none

IsLine-control : (text : Bytes) → contains_control_character text ≡ false → IsLine text
unfolding contains_control_character
IsLine-control [] h = refl
IsLine-control (c ∷ cs) h = ground (arith, IsLine-control cs)

pub identity-IsLine : (text : Bytes) → is_identity text ≡ true → IsLine text
identity-IsLine text h = IsLine-control text (ground arith)

pub text-IsLine : (text : Bytes) → contains_control_character text ≡ false → IsLine text
text-IsLine = IsLine-control

-- Sixty-four lowercase hexadecimal digits.
abbrev pub is_sha256 : Bytes → Bool
is_sha256 value = length value == 64 && all is_lower_hex value

hex-IsLine : (text : Bytes) → all is_lower_hex text ≡ true → IsLine text
unfolding is_lower_hex
hex-IsLine [] h = refl
hex-IsLine (c ∷ cs) h = ground (arith, hex-IsLine cs)

pub sha256-IsLine : (text : Bytes) → is_sha256 text ≡ true → IsLine text
sha256-IsLine text h = hex-IsLine text (ground arith)

module _ {E : Type 0} (reject : Bytes → E) where
  pub require_identity_iff :
      (value field : Bytes)
      → (require_identity reject value field ≡ ok tt) ↔ (is_identity value ≡ true)
  unfolding require_identity
  require_identity_iff value field = ground arith

  pub require_portable_iff :
      (relative value field : Bytes) (allow : Bool)
      → (require_portable reject relative value field allow ≡ ok tt) ↔ IsPortable allow value
  unfolding require_portable
  require_portable_iff relative value field allow = ground (arith, require_identity_iff value field)

  -- A quoted field behind one space is read back.
  pub read_quoted-quoted :
      (text rest field : Bytes)
      → read_quoted reject (b' ' ∷ (quoted text ++ rest)) field ≡ ok (text, rest)
  unfolding read_quoted read_quoted_field quoted skip_spaces
  read_quoted-quoted text rest field =
      rw (append_assoc (escaped text) (b'"' ∷ []) rest, read_quoted_string-quoted text rest) refl

  pub require_end-nil : require_end reject [] ≡ ok tt
  unfolding require_end has_trailing_fields skip_spaces is_empty
  require_end-nil = refl

  pub read_quoted-last :
      (text field : Bytes) → read_quoted reject (b' ' ∷ quoted text) field ≡ ok (text, [])
  read_quoted-last text field =
      subst (λ row. read_quoted reject (b' ' ∷ row) field ≡ ok (text, []))
        (append-nil (quoted text)) (read_quoted-quoted text [] field)

  pub require_text_iff :
      (value field : Bytes)
      → (require_text reject value field ≡ ok tt) ↔ (contains_control_character value ≡ false)
  unfolding require_text
  require_text_iff value field = ground arith

  pub require_sha256_iff :
      (value : Bytes) → (require_sha256 reject value ≡ ok tt) ↔ (is_sha256 value ≡ true)
  unfolding require_sha256
  require_sha256_iff value = ground arith
