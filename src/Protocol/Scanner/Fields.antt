-- ===== src/Protocol/Scanner/Fields.antt =====
-- Unsigned decimals in a row: what `std::to_string` writes is read back.
use nekomata.Base.{ℕ, ◌<◌, ◌≡◌, refl, ◌≢◌, true, false, [], ◌∷◌, arith, all}
use nekomata.Text.{
  Bytes, to_string, is_digit, is_space, IsWord, IsLine, read_word, read_word-all, uint64_limit,
  from_chars-lt, from_chars-to_string, to_string-digits, to_string-has_leading_zero,
  to_string-ne-nil,
}
use nekomata.Protocol.Scanner.{parse_unsigned_decimal, is_empty}

digits-IsWord : (s : Bytes) → all is_digit s ≡ true → IsWord s
unfolding is_digit is_space
digits-IsWord [] h = refl
digits-IsWord (c ∷ cs) h = ground (arith, digits-IsWord cs)

digits-IsLine : (s : Bytes) → all is_digit s ≡ true → IsLine s
unfolding is_digit
digits-IsLine [] h = refl
digits-IsLine (c ∷ cs) h = ground (arith, digits-IsLine cs)

pub to_string-IsLine : (n : ℕ) → IsLine (to_string n)
to_string-IsLine n = digits-IsLine (to_string n) (to_string-digits n)

read_word-ne_nil : (s : Bytes) → s ≢ [] → IsWord s → read_word (b' ' ∷ s) ≡ (s, [])
read_word-ne_nil [] ne h = absurd (ne refl)
read_word-ne_nil (c ∷ cs) ne h = read_word-all c cs h

pub read_word-to_string : (n : ℕ) → read_word (b' ' ∷ to_string n) ≡ (to_string n, [])
read_word-to_string n =
    read_word-ne_nil (to_string n) (to_string-ne-nil n)
      (digits-IsWord (to_string n) (to_string-digits n))

is_empty-ne_nil : (s : Bytes) → s ≢ [] → is_empty s ≡ false
unfolding is_empty
is_empty-ne_nil [] ne = absurd (ne refl)
is_empty-ne_nil (c ∷ cs) ne = refl

pub to_string-is_empty : (n : ℕ) → is_empty (to_string n) ≡ false
to_string-is_empty n = is_empty-ne_nil (to_string n) (to_string-ne-nil n)

-- Every value of std::uint64_t that is printed is parsed back, and is canonical.
pub parse_unsigned_decimal-to_string :
    (n : ℕ)
    → n < uint64_limit
    → parse_unsigned_decimal (to_string n) ≡ record { value = n; ok = true; leading_zero = false }
unfolding parse_unsigned_decimal
parse_unsigned_decimal-to_string n h =
    rw (from_chars-to_string n h, to_string-has_leading_zero n, to_string-is_empty n)
      (unfold is_empty in refl)

pub parse_unsigned_decimal-lt :
    (token : Bytes) → (parse_unsigned_decimal token).value < uint64_limit
unfolding parse_unsigned_decimal
parse_unsigned_decimal-lt token = from_chars-lt token
