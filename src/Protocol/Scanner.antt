-- ===== src/Protocol/Scanner.antt =====
-- src/protocol/scanner.hpp: the scanning leaves that the wire formats share.
pub mod Keys
pub mod Fields
use nekomata.Base.{
  ℕ, suc, ◌+◌, ◌-◌, ◌≡◌, refl, Bool, true, false, not, ◌&&◌, ◌||◌, List, [], ◌∷◌, ◌++◌, Option,
  arith, leb, ltb, ◌==◌, if◌then◌else◌, length, drop, any,
}
use nekomata.Text.{
  Bytes, codes, equal, starts_with, to_string, from_chars, has_leading_zero, skip_spaces,
  read_quoted_string,
}

abbrev is_control : ℕ → Bool
is_control byte = ltb byte 0x20 || byte == 0x7f

unfoldable pub contains_control_character : Bytes → Bool
contains_control_character value = any is_control value

unfoldable pub compose_magic_line : Bytes → ℕ → Bytes
compose_magic_line name version = name ++ (b'/' ∷ to_string version)

pub data MagicLineIssue : Type 0 where
  none wrong_name wrong_version : MagicLineIssue

-- `rest.empty() || rest.front() == '/' || ...`
names_other_version : Bytes → Bool
names_other_version [] = true
names_other_version (c ∷ cs) = c == b'/' || c == b' ' || c == b'-'

unfoldable pub inspect_magic_line : Bytes → Bytes → ℕ → MagicLineIssue
unfolding names_other_version
inspect_magic_line line name version =
    if equal line (compose_magic_line name version)
    then MagicLineIssue.none
    else if not (starts_with line name)
    then wrong_name
    else if names_other_version (drop (length name) line)
    then wrong_version
    else wrong_name

abbrev within : ℕ → ℕ → ℕ → Bool
within lo hi c = leb lo c && leb c hi

unfoldable pub is_portable_key_character : ℕ → Bool
is_portable_key_character byte =
    within b'a' b'z' byte
    || within b'A' b'Z' byte
    || within b'0' b'9' byte
    || byte == b'_'
    || byte == b'-'
    || byte == b'.'
    || byte == b'/'

pub data PortableKeyIssue : Type 0 where
  none boundary_slash non_portable_character forbidden_component invalid_component :
      PortableKeyIssue

-- `component.empty() || component == "." || component == ".."`
unfoldable pub is_invalid_component : Bytes → Bool
is_invalid_component [] = true
is_invalid_component (c ∷ []) = c == b'.'
is_invalid_component (c ∷ d ∷ []) = c == b'.' && d == b'.'
is_invalid_component (c ∷ d ∷ e ∷ cs) = false

-- The loop over the characters and, at the end, the last component. `component` is
-- `value.substr(component_begin, index - component_begin)`.
unfoldable pub scan_key : Bool → Bytes → Bytes → PortableKeyIssue
unfolding is_portable_key_character is_invalid_component
scan_key allow_components component [] =
    if is_invalid_component component then invalid_component else PortableKeyIssue.none
scan_key allow_components component (c ∷ cs) =
    let next_component = scan_key allow_components [] cs in
    let next_character = scan_key allow_components (component ++ c ∷ []) cs in
    if not (c == b'/')
    then (if is_portable_key_character c then next_character else non_portable_character)
    else if not allow_components
    then forbidden_component
    else if is_invalid_component component
    then invalid_component
    else next_component

unfoldable pub front_is : ℕ → Bytes → Bool
front_is b [] = false
front_is b (c ∷ cs) = c == b

unfoldable pub back_is : ℕ → Bytes → Bool
back_is b [] = false
back_is b (c ∷ []) = c == b
back_is b (c ∷ d ∷ cs) = back_is b (d ∷ cs)

unfoldable pub inspect_portable_key : Bytes → Bool → PortableKeyIssue
unfolding scan_key front_is back_is
inspect_portable_key value allow_components =
    if front_is b'/' value || back_is b'/' value
    then boundary_slash
    else scan_key allow_components [] value

pub record QuotedField : Type 0 where
  pub value : Bytes
  pub ok : Bool
  pub was_quoted : Bool

quoted_field : Option (Bytes × Bytes) → QuotedField × Bytes
quoted_field Option.none = (record { value = []; ok = false; was_quoted = true }, [])
quoted_field (Option.some (text, rest)) =
    (record { value = text; ok = true; was_quoted = true }, rest)

field_at : Bytes → QuotedField × Bytes
unfolding quoted_field
field_at [] = (record { value = []; ok = false; was_quoted = false }, [])
field_at (c ∷ cs) =
    if c == b'"'
    then quoted_field (read_quoted_string cs)
    else (record { value = []; ok = false; was_quoted = false }, c ∷ cs)

-- The field and what is left of the row.
unfoldable pub read_quoted_field : Bytes → QuotedField × Bytes
unfolding field_at
read_quoted_field row = field_at (skip_spaces row)

unfoldable pub is_empty : Bytes → Bool
is_empty [] = true
is_empty (c ∷ cs) = false

unfoldable pub has_trailing_fields : Bytes → Bool
unfolding is_empty
has_trailing_fields row = not (is_empty (skip_spaces row))

pub record UnsignedParse : Type 0 where
  pub value : ℕ
  pub ok : Bool
  pub leading_zero : Bool

unfoldable pub parse_unsigned_decimal : Bytes → UnsignedParse
unfolding is_empty
parse_unsigned_decimal token =
    let prefix = from_chars token in
    record {
      value = prefix.value;
      ok = not (is_empty token) && (prefix.parsed && is_empty prefix.rest);
      leading_zero = has_leading_zero token;
    }
