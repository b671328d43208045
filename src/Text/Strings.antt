-- ===== src/Text/Strings.antt =====
-- Whole-string operations: comparison, prefixes, suffixes and searching.
use Prim.Native.Char.{code}
use Prim.Native.String.{String}
use mathlib.Core.Option
use nekomata.Base.{
  ap, ℕ, suc, ◌-◌, ◌≡◌, refl, ◌↔◌, Bool, true, false, ◌&&◌, ◌||◌, List, [], ◌∷◌, ◌++◌, Option, none,
  some, arith, ◌==◌, ltb, if◌then◌else◌, length, drop, all, length-append, drop-length_append, not,
}

abbrev pub Bytes : Type 0
Bytes = List ℕ

-- The code points of a literal; every literal of the sources is ASCII.
unfoldable pub codes : String → Bytes
codes String.[] = []
codes (String.◌∷◌ c s) = code c ∷ codes s

-- `a == b` on strings
unfoldable pub equal : Bytes → Bytes → Bool
equal [] [] = true
equal (x ∷ xs) (y ∷ ys) = x == y && equal xs ys
equal _ _ = false

unfoldable pub starts_with : Bytes → Bytes → Bool
starts_with text [] = true
starts_with [] (p ∷ ps) = false
starts_with (c ∷ cs) (p ∷ ps) = c == p && starts_with cs ps

unfoldable pub ends_with : Bytes → Bytes → Bool
unfolding equal
ends_with text suffix =
    if ltb (length text) (length suffix)
    then false
    else equal (drop (length text - length suffix) text) suffix

-- `text.find(c)`; `none` is npos.
unfoldable pub find_byte : ℕ → Bytes → Option ℕ
find_byte b [] = none
find_byte b (c ∷ cs) =
    let later = Option.map suc (find_byte b cs) in if c == b then some 0 else later

-- `text.find(part) != npos`
unfoldable pub contains : Bytes → Bytes → Bool
unfolding starts_with
contains [] part = starts_with [] part
contains (c ∷ cs) part = starts_with (c ∷ cs) part || contains cs part

pub equal_iff : (text other : Bytes) → (equal text other ≡ true) ↔ (text ≡ other)
unfolding equal
equal_iff [] [] = ground arith
equal_iff (c ∷ cs) (d ∷ ds) = ground (arith, equal_iff cs ds)
equal_iff [] (d ∷ ds) = ground arith
equal_iff (c ∷ cs) [] = ground arith

pub equal_refl : (a : Bytes) → equal a a ≡ true
equal_refl a = (equal_iff a a).1 refl

pub starts_with-append : (p rest : Bytes) → starts_with (p ++ rest) p ≡ true
unfolding starts_with
starts_with-append [] rest = refl
starts_with-append (c ∷ cs) rest = ground (arith, starts_with-append cs rest)

pub ends_with-append : (stem suffix : Bytes) → ends_with (stem ++ suffix) suffix ≡ true
unfolding ends_with
ends_with-append stem suffix = ground (
  arith,
  length-append stem suffix,
  ap (λ n. drop n (stem ++ suffix)) (position stem suffix),
  drop-length_append stem suffix,
  equal_refl suffix,
)
  where
    position : (stem suffix : Bytes) → length (stem ++ suffix) - length suffix ≡ length stem
    position stem suffix = omega (arith, length-append stem suffix)

-- The first occurrence of `b` is the one behind a prefix that has none.
pub find_byte-append :
    (b : ℕ) (stem rest : Bytes)
    → all (λ c. not (c == b)) stem ≡ true
    → find_byte b (stem ++ (b ∷ rest)) ≡ some (length stem)
unfolding find_byte
find_byte-append b [] rest h = ground arith
find_byte-append b (c ∷ cs) rest h = ground (arith, find_byte-append b cs rest)
