-- ===== src/Runtime/Paths.antt =====
-- What src/runtime/generation_stream.cpp uses of std::filesystem::path, on generic path strings.
use nekomata.Base.{
  ℕ, zero, suc, ◌-◌, Bool, not, ◌&&◌, ◌||◌, List, [], ◌∷◌, ◌++◌, ◌==◌, ltb, if◌then◌else◌,
}
use nekomata.Text.{Bytes, codes, equal, starts_with}
use nekomata.Protocol.Scanner.{is_empty, back_is}

-- `base / relative`
unfoldable pub join : Bytes → Bytes → Bytes
unfolding is_empty
join base relative =
    if is_empty base
    then relative
    else if back_is b'/' base
    then base ++ relative
    else base ++ (b'/' ∷ relative)

-- The elements of a path; an absolute path starts with the element "/".
split_at : Bytes → Bytes → List Bytes
unfolding is_empty
split_at part [] = if is_empty part then [] else part ∷ []
split_at part (c ∷ cs) =
    let behind_slash = split_at [] cs in
    let later = split_at (part ++ c ∷ []) cs in
    if c == b'/' then (if is_empty part then behind_slash else part ∷ behind_slash) else later

unfoldable pub elements : Bytes → List Bytes
unfolding split_at
elements path = elim path [
  | [] ↦ []
  | c ∷ cs ↦ if c == b'/' then codes "/" ∷ split_at [] cs else split_at [] (c ∷ cs)
]

-- The elements left of the ancestor that go up, and those that go down.
ups : List Bytes → ℕ
ups [] = 0
ups (x ∷ xs) = let rest = ups xs in if equal x (codes "..") then suc rest else rest

downs : List Bytes → ℕ
downs [] = 0
downs (x ∷ xs) =
    let rest = downs xs in if equal x (codes ".") || equal x (codes "..") then rest else suc rest

dot_dots : ℕ → List Bytes → List Bytes
dot_dots zero xs = xs
dot_dots (suc n) xs = codes ".." ∷ dot_dots n xs

-- `lexically_relative` behind the common elements; both paths are absolute.
relative_rest : List Bytes → List Bytes → List Bytes
unfolding ups downs dot_dots
relative_rest xs ys =
    if ltb (downs ys) (ups ys)
    then []
    else elim (dot_dots (downs ys - ups ys) xs) [ [] ↦ codes "." ∷ [] | z ∷ zs ↦ z ∷ zs ]

unfoldable pub lexically_relative : List Bytes → List Bytes → List Bytes
unfolding relative_rest
lexically_relative [] ys = relative_rest [] ys
lexically_relative (x ∷ xs) [] = relative_rest (x ∷ xs) []
lexically_relative (x ∷ xs) (y ∷ ys) =
    let behind_common = lexically_relative xs ys in
    if equal x y then behind_common else relative_rest (x ∷ xs) (y ∷ ys)

-- `generic_string`
unfoldable pub generic_string : List Bytes → Bytes
generic_string [] = []
generic_string (x ∷ xs) = elim xs [ [] ↦ x | y ∷ ys ↦ x ++ (b'/' ∷ generic_string xs) ]

unfoldable pub is_beneath : Bytes → Bytes → Bool
unfolding lexically_relative elements generic_string is_empty
is_beneath child ancestor =
    let relative_text = generic_string (lexically_relative (elements child) (elements ancestor)) in
    not (is_empty relative_text)
    && (not (equal relative_text (codes "."))
        && (not (equal relative_text (codes ".."))
            && not (starts_with relative_text (codes "../"))))
