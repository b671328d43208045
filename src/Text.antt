-- ===== src/Text.antt =====
-- Byte strings: what the sources use of std::string, std::from_chars and the string streams.
mod Strings
mod Decimal
mod Streams
mod Sets
unfoldable pub use Strings.{Bytes, codes, equal, starts_with, ends_with, find_byte, contains}
pub use Strings.{equal_iff, equal_refl, ends_with-append, find_byte-append, starts_with-append}
unfoldable pub use Decimal.{to_string, is_digit, from_chars, has_leading_zero, uint64_limit}
pub use Decimal.{
  ParsedPrefix, from_chars-lt, from_chars-to_string, to_string-digits, to_string-has_leading_zero,
  to_string-ne-nil,
}
unfoldable pub use Streams.{
  is_space, skip_spaces, read_word, lines, escaped, quoted, read_quoted_string, trim_return,
}
pub use Streams.*
unfoldable pub use Sets.{member_of, equal_texts}
pub use Sets.*
