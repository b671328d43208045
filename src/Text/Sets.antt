-- ===== src/Text/Sets.antt =====
-- `std::unordered_set<std::string>` as a list, and `std::vector<std::string>` compared.
use nekomata.Base.{◌≡◌, ◌↔◌, Bool, true, false, ◌&&◌, ◌||◌, List, [], ◌∷◌, arith}
use nekomata.Text.Strings.{Bytes, equal, equal_iff}

unfoldable pub member_of : Bytes → List Bytes → Bool
unfolding equal
member_of x [] = false
member_of x (y ∷ ys) = equal y x || member_of x ys

unfoldable pub equal_texts : List Bytes → List Bytes → Bool
unfolding equal
equal_texts [] [] = true
equal_texts (x ∷ xs) (y ∷ ys) = equal x y && equal_texts xs ys
equal_texts [] (y ∷ ys) = false
equal_texts (x ∷ xs) [] = false

pub equal_texts_iff : (xs ys : List Bytes) → (equal_texts xs ys ≡ true) ↔ (xs ≡ ys)
unfolding equal_texts
equal_texts_iff [] [] = ground arith
equal_texts_iff (x ∷ xs) (y ∷ ys) = ground (arith, equal_iff x y, equal_texts_iff xs ys)
equal_texts_iff [] (y ∷ ys) = ground arith
equal_texts_iff (x ∷ xs) [] = ground arith
