-- ===== src/Text/Streams.antt =====
-- Formatted input and output: `std::getline`, `operator>>`, `std::ws` and `std::quoted`.
-- A row is the part of an istringstream that has not been read yet.
use nekomata.Base.{
  ℕ, ◌≡◌, refl, Bool, true, false, not, ◌&&◌, ◌||◌, List, [], ◌∷◌, ◌++◌, Option, none, some, arith,
  leb, ◌==◌, if◌then◌else◌, all, Bool-cases, inl, inr, all-append,
}
use nekomata.Text.Strings.{Bytes}

-- isspace in the "C" locale
unfoldable pub is_space : ℕ → Bool
is_space c = c == b' ' || leb 9 c && leb c 13

-- `row >> std::ws`
unfoldable pub skip_spaces : Bytes → Bytes
unfolding is_space
skip_spaces [] = []
skip_spaces (c ∷ cs) = if is_space c then skip_spaces cs else c ∷ cs

word_chars : Bytes → Bytes × Bytes
unfolding is_space
word_chars [] = ([], [])
word_chars (c ∷ cs) =
    let (word, rest) = word_chars cs in if is_space c then ([], c ∷ cs) else (c ∷ word, rest)

-- `row >> word`: the word is empty if nothing is left.
unfoldable pub read_word : Bytes → Bytes × Bytes
unfolding word_chars skip_spaces
read_word row = word_chars (skip_spaces row)

start_line : ℕ → List Bytes → List Bytes
start_line c [] = (c ∷ []) ∷ []
start_line c (l ∷ ls) = (c ∷ l) ∷ ls

-- What repeated `std::getline` calls deliver.
unfoldable pub lines : Bytes → List Bytes
unfolding start_line
lines [] = []
lines (c ∷ cs) = let rest = lines cs in if c == b'\n' then [] ∷ rest else start_line c rest

-- `if (!line.empty() && line.back() == '\r') line.pop_back();`
unfoldable pub trim_return : Bytes → Bytes
trim_return [] = []
trim_return (c ∷ []) = if c == b'\r' then [] else c ∷ []
trim_return (c ∷ d ∷ cs) = c ∷ trim_return (d ∷ cs)

unfoldable pub escaped : Bytes → Bytes
escaped [] = []
escaped (c ∷ cs) = if c == b'"' || c == b'\\' then b'\\' ∷ c ∷ escaped cs else c ∷ escaped cs

-- `out << std::quoted(text)`
unfoldable pub quoted : Bytes → Bytes
unfolding escaped
quoted text = b'"' ∷ (escaped text ++ b'"' ∷ [])

push_char : ℕ → Option (Bytes × Bytes) → Option (Bytes × Bytes)
push_char c none = none
push_char c (some (text, rest)) = some (c ∷ text, rest)

quoted_chars : Bool → Bytes → Option (Bytes × Bytes)
unfolding push_char
quoted_chars after_escape [] = none
quoted_chars after_escape (c ∷ cs) =
    let plain = push_char c (quoted_chars false cs) in
    let escape = quoted_chars true cs in
    if after_escape
    then plain
    else if c == b'\\'
    then escape
    else if c == b'"'
    then some ([], cs)
    else plain

-- `row >> std::quoted(text)` behind an opening quote; `none` sets failbit.
unfoldable pub read_quoted_string : Bytes → Option (Bytes × Bytes)
unfolding quoted_chars
read_quoted_string row = quoted_chars false row

-- A text that stays on one line: no line feed and no carriage return.
abbrev pub is_line_char : ℕ → Bool
is_line_char c = not (c == b'\n' || c == b'\r')

abbrev pub IsLine : Bytes → Type 0
IsLine text = all is_line_char text ≡ true

pub lines-cons : (l rest : Bytes) → IsLine l → lines (l ++ (b'\n' ∷ rest)) ≡ l ∷ lines rest
unfolding lines
lines-cons [] rest h = refl
lines-cons (c ∷ cs) rest h = ground (arith, lines-cons cs rest)

pub trim_return-IsLine : (l : Bytes) → IsLine l → trim_return l ≡ l
unfolding trim_return
trim_return-IsLine [] h = refl
trim_return-IsLine (c ∷ []) h = ground arith
trim_return-IsLine (c ∷ d ∷ cs) h = ground (arith, trim_return-IsLine (d ∷ cs))

pub quoted-IsLine : (text : Bytes) → IsLine text → IsLine (quoted text)
unfolding quoted escaped
quoted-IsLine text h = body text h
  where
    body : (text : Bytes) → IsLine text → IsLine (escaped text ++ b'"' ∷ [])
    body [] h = refl
    body (c ∷ cs) h = ground (arith, body cs)

pub skip_spaces-word : (c : ℕ) (cs : Bytes) → is_space c ≡ false → skip_spaces (c ∷ cs) ≡ c ∷ cs
unfolding skip_spaces
skip_spaces-word c cs h = rw h refl

abbrev pub IsWord : Bytes → Type 0
IsWord text = all (λ c. not (is_space c)) text ≡ true

word_chars-space : (w rest : Bytes) → IsWord w → word_chars (w ++ (b' ' ∷ rest)) ≡ (w, b' ' ∷ rest)
unfolding word_chars is_space
word_chars-space [] rest h = refl
word_chars-space (c ∷ cs) rest h = ground (arith, word_chars-space cs rest)

word_chars-all : (w : Bytes) → IsWord w → word_chars w ≡ (w, [])
unfolding word_chars is_space
word_chars-all [] h = refl
word_chars-all (c ∷ cs) h = ground (arith, word_chars-all cs)

-- A word is read up to the space behind it, and the last word up to the end.
pub read_word-space :
    (c : ℕ) (w rest : Bytes)
    → IsWord (c ∷ w)
    → read_word (c ∷ (w ++ (b' ' ∷ rest))) ≡ (c ∷ w, b' ' ∷ rest)
unfolding read_word
read_word-space c w rest h = ground (arith, word_chars-space (c ∷ w) rest)

pub read_word-all : (c : ℕ) (w : Bytes) → IsWord (c ∷ w) → read_word (b' ' ∷ c ∷ w) ≡ (c ∷ w, [])
unfolding read_word is_space
read_word-all c w h = ground (arith, word_chars-all (c ∷ w))

-- What `std::quoted` wrote is read back, whatever stands behind it.
pub read_quoted_string-quoted :
    (text rest : Bytes) → read_quoted_string (escaped text ++ (b'"' ∷ rest)) ≡ some (text, rest)
unfolding read_quoted_string escaped
read_quoted_string-quoted [] rest = refl
read_quoted_string-quoted (c ∷ cs) rest = elim (Bool-cases (c == b'"' || c == b'\\')) [
  | inl special ↦ rw special (rw (read_quoted_string-quoted cs rest) refl)
  | inr plain ↦ ground (arith, read_quoted_string-quoted cs rest)
]

pub IsLine-append : (xs ys : Bytes) → IsLine xs → IsLine ys → IsLine (xs ++ ys)
IsLine-append xs ys h k = rw (all-append is_line_char xs ys, h) k
