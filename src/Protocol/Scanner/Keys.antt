-- ===== src/Protocol/Scanner/Keys.antt =====
-- `inspect_portable_key` against a description by whole components.
use nekomata.Base.{
  ℕ, ◌≡◌, refl, ◌↔◌, Bool, true, false, not, ◌&&◌, ◌||◌, List, [], ◌∷◌, ◌++◌, arith, ◌==◌,
  if◌then◌else◌, all, Bool-cases, inl, inr, append_assoc, ap, sym, append-nil, subst,
}
use nekomata.Text.{Bytes}
use nekomata.Protocol.Scanner.{
  is_portable_key_character, is_invalid_component, scan_key, inspect_portable_key, front_is,
  back_is, PortableKeyIssue,
}

extend_first : ℕ → List Bytes → List Bytes
extend_first c [] = (c ∷ []) ∷ []
extend_first c (p ∷ ps) = (c ∷ p) ∷ ps

-- The parts of a path between its slashes.
pub components : Bytes → List Bytes
unfolding extend_first
components [] = [] ∷ []
components (c ∷ cs) = if c == b'/' then [] ∷ components cs else extend_first c (components cs)

-- Portable characters only, no empty component, no "." and no "..", and a slash only if allowed.
pub is_portable_key : Bool → Bytes → Bool
is_portable_key allow_components value =
    all is_portable_key_character value
    && (all (λ p. not (is_invalid_component p)) (components value)
        && (allow_components || all (λ c. not (c == b'/')) value))

prepend_first : Bytes → List Bytes → List Bytes
prepend_first q [] = q ∷ []
prepend_first q (p ∷ ps) = (q ++ p) ∷ ps

abbrev all_valid : List Bytes → Bool
all_valid = all (λ p. not (is_invalid_component p))

prepend-extend :
    (q : Bytes) (c : ℕ) (ps : List Bytes)
    → prepend_first q (extend_first c ps) ≡ prepend_first (q ++ c ∷ []) ps
unfolding prepend_first extend_first
prepend-extend q c [] = refl
prepend-extend q c (p ∷ ps) = ap (λ x. x ∷ ps) (sym (append_assoc q (c ∷ []) p))

prepend-components : (cs : Bytes) → prepend_first [] (components cs) ≡ components cs
unfolding prepend_first components
prepend-components [] = refl
prepend-components (c ∷ cs) = elim (Bool-cases (c == b'/')) [
  | inl slash ↦ rw slash refl
  | inr other ↦ rw other (extended (components cs))
]
  where
    extended : (ps : List Bytes) → prepend_first [] (extend_first c ps) ≡ extend_first c ps
    extended [] = refl
    extended (p ∷ ps) = refl

-- What the rest of the scan checks, given the component read so far.
rest_is_portable : Bool → Bytes → Bytes → Bool
rest_is_portable allow q cs =
    all is_portable_key_character cs
    && (all_valid (prepend_first q (components cs)) && (allow || all (λ c. not (c == b'/')) cs))

scan_key-none :
    (allow : Bool) (q cs : Bytes)
    → (scan_key allow q cs ≡ PortableKeyIssue.none) ↔ (rest_is_portable allow q cs ≡ true)
unfolding scan_key rest_is_portable components prepend_first
scan_key-none allow q [] = rw append-nil (ground arith)
scan_key-none allow q (c ∷ cs) = elim (Bool-cases (c == b'/')) [
  | inl slash ↦ rw slash (
      ground
        (arith, scan_key-none allow [] cs, prepend-components cs, slash-portable c, append-nil q))
  | inr other ↦
      rw (other, prepend-extend q c (components cs))
        (ground (arith, scan_key-none allow (q ++ c ∷ []) cs))
]
  where
    slash-portable : (c : ℕ) → (c == b'/') ≡ true → is_portable_key_character c ≡ true
    slash-portable c h = unfold is_portable_key_character in ground arith

back_slash-invalid :
    (q : Bytes) (cs : Bytes)
    → back_is b'/' cs ≡ true
    → all_valid (prepend_first q (components cs)) ≡ false
unfolding back_is components prepend_first is_invalid_component
back_slash-invalid q [] h = cc
back_slash-invalid q (c ∷ []) h = ground arith
back_slash-invalid q (c ∷ d ∷ cs) h = elim (Bool-cases (c == b'/')) [
  | inl slash ↦ rw slash (
      ground (
        arith,
        back_slash-invalid [] (d ∷ cs) h,
        prepend-components (d ∷ cs),
        Bool-cases (is_invalid_component (q ++ [])),
      ))
  | inr other ↦
      rw (other, prepend-extend q c (components (d ∷ cs)))
        (back_slash-invalid (q ++ c ∷ []) (d ∷ cs) h)
]

front_slash-invalid : (cs : Bytes) → front_is b'/' cs ≡ true → all_valid (components cs) ≡ false
unfolding front_is components is_invalid_component
front_slash-invalid [] h = cc
front_slash-invalid (c ∷ cs) h = rw h refl

-- A key is accepted exactly when it is portable. So no accepted path is absolute or holds a ".."
-- component.
pub inspect_portable_key-none :
    (value : Bytes) (allow_components : Bool)
    → (inspect_portable_key value allow_components ≡ PortableKeyIssue.none)
      ↔ (is_portable_key allow_components value ≡ true)
unfolding inspect_portable_key is_portable_key
inspect_portable_key-none value allow =
    elim (Bool-cases (front_is b'/' value || back_is b'/' value)) [
      | inl slash ↦ rw slash (
          ground (
            arith,
            front_slash-invalid value,
            back_slash-invalid [] value,
            prepend-components value,
          ))
      | inr clear ↦ rw clear (
          subst
            (λ ps. (scan_key allow [] value ≡ PortableKeyIssue.none) ↔ (
              (all is_portable_key_character value
                && (all_valid ps && (allow || all (λ c. not (c == b'/')) value)))
              ≡ true))
            (prepend-components value) (unfold rest_is_portable in scan_key-none allow [] value))
    ]
