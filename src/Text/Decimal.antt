-- ===== src/Text/Decimal.antt =====
-- Unsigned decimals: `std::to_string` and `std::from_chars` at std::uint64_t.
use nekomata.Base.{
  ℕ, zero, suc, ◌+◌, ◌-◌, ◌*◌, ◌/◌, ◌%◌, ◌^◌, ◌<◌, ◌≡◌, refl, Bool, true, false, ◌&&◌, [], ◌∷◌,
  ◌++◌, arith, ltb, leb, lt→ltb, ltb→lt, ◌==◌, if◌then◌else◌, all, Bool-cases, inl, inr, all-append,
  ◌≢◌,
}
use nekomata.Text.Strings.{Bytes}

abbrev pub uint64_limit : ℕ
uint64_limit = 2 ^ 64

-- The decimal digits of `n`, most significant first; the fuel is above `n`.
digits : ℕ → ℕ → Bytes
digits zero n = []
digits (suc fuel) n =
    let more = digits fuel (n / 10) ++ (48 + n % 10) ∷ [] in
    if ltb n 10 then (48 + n) ∷ [] else more

-- `std::to_string`
unfoldable pub to_string : ℕ → Bytes
unfolding digits
to_string n = digits (suc n) n

unfoldable pub is_digit : ℕ → Bool
is_digit c = leb 48 c && leb c 57

abbrev pub digit_value : ℕ → ℕ
digit_value c = c - 48

-- The value that a run of digits adds to `acc`, and what stands behind the run.
scan_digits : ℕ → Bytes → ℕ × Bytes
unfolding is_digit
scan_digits acc [] = (acc, [])
scan_digits acc (c ∷ cs) =
    let rest = scan_digits (acc * 10 + digit_value c) cs in
    if is_digit c then rest else (acc, c ∷ cs)

-- What `from_chars` reports: `parsed` is `ec == errc{}`, `rest` is what `ptr` leaves.
pub record ParsedPrefix : Type 0 where
  pub value : ℕ
  pub parsed : Bool
  pub rest : Bytes

begins_with_digit : Bytes → Bool
unfolding is_digit
begins_with_digit [] = false
begins_with_digit (c ∷ cs) = is_digit c

-- Without a digit, or out of range, the value stays the 0 that it was set to.
unfoldable pub from_chars : Bytes → ParsedPrefix
unfolding scan_digits begins_with_digit
from_chars token =
    let (value, rest) = scan_digits 0 token in
    if begins_with_digit token
    then (if ltb value uint64_limit
        then record { value = value; parsed = true; rest = rest }
        else record { value = 0; parsed = false; rest = rest })
    else record { value = 0; parsed = false; rest = token }

scan_digits-append :
    (xs ys : Bytes) (acc : ℕ)
    → all is_digit xs ≡ true
    → scan_digits acc (xs ++ ys) ≡ scan_digits (scan_digits acc xs).0 ys
unfolding scan_digits
scan_digits-append [] ys acc h = refl
scan_digits-append (c ∷ cs) ys acc h =
    ground (arith, scan_digits-append cs ys (acc * 10 + digit_value c))

digits-digits : (fuel n : ℕ) → all is_digit (digits fuel n) ≡ true
unfolding digits is_digit
digits-digits zero n = refl
digits-digits (suc fuel) n = elim (Bool-cases (ltb n 10)) [
  | inl small ↦ rw small (ground arith)
  | inr large ↦
      rw
        (
          large,
          all-append is_digit (digits fuel (n / 10)) ((48 + n % 10) ∷ []),
          digits-digits fuel (n / 10),
        )
        (ground arith)
]

scan_digits-digits : (fuel n : ℕ) → n < fuel → scan_digits 0 (digits fuel n) ≡ (n, [])
unfolding digits scan_digits is_digit
scan_digits-digits zero n h = elim h [ ]
scan_digits-digits (suc fuel) n h = elim (Bool-cases (ltb n 10)) [
  | inl small ↦ rw small (ground arith)
  | inr large ↦
      rw
        (
          large,
          scan_digits-append (digits fuel (n / 10)) ((48 + n % 10) ∷ []) 0
              (digits-digits fuel (n / 10)),
          scan_digits-digits fuel (n / 10) (ground arith),
        )
        (ground arith)
]

-- The digits of a number are digits, with no leading zero but in "0" itself.
pub to_string-digits : (n : ℕ) → all is_digit (to_string n) ≡ true
unfolding to_string
to_string-digits n = digits-digits (suc n) n

-- `front() == '0' && size() > 1`
unfoldable pub has_leading_zero : Bytes → Bool
has_leading_zero [] = false
has_leading_zero (c ∷ []) = false
has_leading_zero (c ∷ d ∷ cs) = c == 48

first_or : ℕ → Bytes → ℕ
first_or d [] = d
first_or d (c ∷ cs) = c

first_or-append : (d : ℕ) (xs ys : Bytes) → first_or d (xs ++ ys) ≡ first_or (first_or d ys) xs
unfolding first_or
first_or-append d [] ys = refl
first_or-append d (x ∷ xs) ys = refl

first_or-digits : (fuel n d : ℕ) → 0 < n → n < fuel → first_or d (digits fuel n) ≢ 48
unfolding digits first_or
first_or-digits zero n d p h = elim h [ ]
first_or-digits (suc fuel) n d p h = elim (Bool-cases (ltb n 10)) [
  | inl small ↦ rw small (ground arith)
  | inr large ↦
      rw (large, first_or-append d (digits fuel (n / 10)) ((48 + n % 10) ∷ []))
        (first_or-digits fuel (n / 10) (48 + n % 10) (ground arith) (ground arith))
]

has_leading_zero-first : (s : Bytes) → first_or 49 s ≢ 48 → has_leading_zero s ≡ false
unfolding has_leading_zero first_or
has_leading_zero-first [] h = refl
has_leading_zero-first (c ∷ []) h = refl
has_leading_zero-first (c ∷ d ∷ s) h = ground arith

pub to_string-has_leading_zero : (n : ℕ) → has_leading_zero (to_string n) ≡ false
unfolding to_string
to_string-has_leading_zero zero = unfold digits has_leading_zero in refl
to_string-has_leading_zero (suc n) =
    has_leading_zero-first (digits (suc (suc n)) (suc n))
      (first_or-digits (suc (suc n)) (suc n) 49 (omega arith) (omega arith))

digits-begin : (fuel n : ℕ) → n < fuel → begins_with_digit (digits fuel n) ≡ true
unfolding digits begins_with_digit is_digit
digits-begin zero n h = elim h [ ]
digits-begin (suc fuel) n h = elim (Bool-cases (ltb n 10)) [
  | inl small ↦ rw small (ground arith)
  | inr large ↦ rw large (grown (digits fuel (n / 10)) (digits-begin fuel (n / 10) (ground arith)))
]
  where
    grown :
        (xs : Bytes)
        → begins_with_digit xs ≡ true
        → begins_with_digit (xs ++ (48 + n % 10) ∷ []) ≡ true
    grown [] e = ground arith
    grown (x ∷ xs) e = e

pub to_string-ne-nil : (n : ℕ) → to_string n ≢ []
unfolding to_string
to_string-ne-nil n e =
    absurd (impossible (digits (suc n) n) (digits-begin (suc n) n (omega arith)) e)
  where
    impossible : (xs : Bytes) → begins_with_digit xs ≡ true → xs ≡ [] → ⊥
    impossible [] b e = unfold begins_with_digit in cc
    impossible (x ∷ xs) b e = cc

-- Printing and reading back, at every value that fits std::uint64_t.
pub from_chars-to_string :
    (n : ℕ)
    → n < uint64_limit
    → from_chars (to_string n) ≡ record { value = n; parsed = true; rest = [] }
unfolding from_chars to_string
from_chars-to_string n h =
    rw
      (
        scan_digits-digits (suc n) n (omega arith),
        digits-begin (suc n) n (omega arith),
        lt→ltb n uint64_limit h,
      )
      refl

-- Nothing that `from_chars` yields is out of range.
pub from_chars-lt : (token : Bytes) → (from_chars token).value < uint64_limit
unfolding from_chars
from_chars-lt token = elim (Bool-cases (ltb (scan_digits 0 token).0 uint64_limit)) [
  | inl fits ↦ elim (Bool-cases (begins_with_digit token)) [
    | inl digit ↦ rw (fits, digit) (ltb→lt _ _ fits)
    | inr other ↦ rw other (omega arith)
  ]
  | inr large ↦ elim (Bool-cases (begins_with_digit token)) [
    | inl digit ↦ rw (large, digit) (omega arith)
    | inr other ↦ rw other (omega arith)
  ]
]
