-- ===== src/Runtime/Stream/Newest.antt =====
-- The choice among the offers past the cursor.
use nekomata.Base.{
  ℕ, ◌<◌, ◌≡◌, refl, inl, inr, true, false, List, [], ◌∷◌, ltb, arith, if◌then◌else◌, All,
  Bool-cases, Result, ok, err, ◌⊎◌, ◌∙◌,
}
use nekomata.Text.{Bytes, codes, ends_with}
use nekomata.Protocol.GenerationOffer.{GenerationOfferReference, GenerationOfferError}
use nekomata.Protocol.GenerationOffer.Marker.{parse_generation_offer_marker}
use nekomata.Runtime.Stream.{less, less_reference, newest, scan_markers}

less_trans : (a b c : Bytes) → less a b ≡ true → less b c ≡ true → less a c ≡ true
unfolding less
less_trans a [] c e f = absurd cc
less_trans a (y ∷ b) [] e f = absurd cc
less_trans [] (y ∷ b) (z ∷ c) e f = refl
less_trans (x ∷ a) (y ∷ b) (z ∷ c) e f = ground (arith, less_trans a b c)

less_reference_trans :
    (a b c : GenerationOfferReference)
    → less_reference a b ≡ true
    → less_reference b c ≡ true
    → less_reference a c ≡ true
unfolding less_reference
less_reference_trans a b c e f =
    ground (arith, less_trans a.generation_id b.generation_id c.generation_id)

less_irrefl : (a : Bytes) → less a a ≡ false
unfolding less
less_irrefl [] = refl
less_irrefl (x ∷ a) = ground (arith, less_irrefl a)

less_reference_irrefl : (a : GenerationOfferReference) → less_reference a a ≡ false
unfolding less_reference
less_reference_irrefl a = ground (arith, less_irrefl a.generation_id)

-- `r` is at most the chosen one.
abbrev AtMost : GenerationOfferReference → GenerationOfferReference → Type 0
AtMost chosen r = less_reference chosen r ≡ false

AtMost-step :
    (best next r : GenerationOfferReference)
    → AtMost best r
    → AtMost (if less_reference best next then next else best) r
AtMost-step best next r h = elim (Bool-cases (less_reference best next)) [
  | inr kept ↦ rw kept h
  | inl newer ↦ rw newer (elim (Bool-cases (less_reference next r)) [
    | inr kept ↦ kept
    | inl less_r ↦ cc (less_reference_trans best next r newer less_r)
  ])
]

newest-keeps :
    (best r : GenerationOfferReference) (rs : List GenerationOfferReference)
    → AtMost best r
    → AtMost (newest best rs) r
unfolding newest
newest-keeps best r [] h = h
newest-keeps best r (x ∷ rs) h =
    newest-keeps (if less_reference best x then x else best) r rs (AtMost-step best x r h)

AtMost-next :
    (best next : GenerationOfferReference)
    → AtMost (if less_reference best next then next else best) next
AtMost-next best next = elim (Bool-cases (less_reference best next)) [
  | inr kept ↦ rw kept kept
  | inl newer ↦ rw newer (less_reference_irrefl next)
]

newest-greatest :
    (best : GenerationOfferReference) (rs : List GenerationOfferReference)
    → All (λ r. less_reference (newest best rs) r ≡ false) rs
unfolding newest
newest-greatest best [] = tt
newest-greatest best (x ∷ rs) =
    let next = if less_reference best x then x else best in
    (newest-keeps next x rs (AtMost-next best x), newest-greatest next rs)

-- The order of ids, byte by byte, as words stand in a dictionary.
pub LexLess : Bytes → Bytes → Type 0
LexLess a [] = ⊥
LexLess [] (y ∷ b) = Unit {0}
LexLess (x ∷ a) (y ∷ b) = (x < y) ⊎ ((x ≡ y) × LexLess a b)

LexLess-less : (a b : Bytes) → LexLess a b → less a b ≡ true
unfolding LexLess less
LexLess-less a [] h = absurd h
LexLess-less [] (y ∷ b) h = refl
LexLess-less (x ∷ a) (y ∷ b) (inl lt) = ground (arith, lt)
LexLess-less (x ∷ a) (y ∷ b) (inr (same, h)) = ground (arith, same, LexLess-less a b h)

-- `r` is not newer than the chosen one: its sequence is smaller, or it is the same and its id does
-- not come later.
abbrev pub NotNewer : GenerationOfferReference → GenerationOfferReference → Type 0
NotNewer chosen r =
    (r.sequence < chosen.sequence)
    ⊎ ((r.sequence ≡ chosen.sequence) × (LexLess chosen.generation_id r.generation_id → ⊥))

AtMost-NotNewer : (chosen r : GenerationOfferReference) → AtMost chosen r → NotNewer chosen r
unfolding less_reference
AtMost-NotNewer chosen r h = elim (Bool-cases (ltb r.sequence chosen.sequence)) [
  | inl older ↦ inl (ground (arith, older))
  | inr n ↦ inr (
    ground (arith, h, n),
    λ later.
        let later' = LexLess-less chosen.generation_id r.generation_id later in
        ground (arith, h, n, later'),
  )
]

All-NotNewer :
    (chosen : GenerationOfferReference) (rs : List GenerationOfferReference)
    → All (λ r. less_reference chosen r ≡ false) rs
    → All (NotNewer chosen) rs
All-NotNewer chosen [] h = tt
All-NotNewer chosen (r ∷ rs) (h, hs) = (AtMost-NotNewer chosen r h, All-NotNewer chosen rs hs)

-- The chosen one is an element of the list.
abbrev pub OneOf : GenerationOfferReference → List GenerationOfferReference → Type 0
OneOf r [] = ⊥
OneOf r (x ∷ xs) = (r ≡ x) ⊎ OneOf r xs

newest-OneOf :
    (best : GenerationOfferReference) (rs : List GenerationOfferReference)
    → OneOf (newest best rs) (best ∷ rs)
unfolding newest
newest-OneOf best [] = inl refl
newest-OneOf best (x ∷ rs) =
    let next = if less_reference best x then x else best in
    elim (newest-OneOf next rs) [
      | inr later ↦ inr (inr later)
      | inl same ↦ elim (Bool-cases (less_reference best x)) [
        | inl newer ↦ inr (inl (same ∙ rw newer refl))
        | inr kept ↦ inl (same ∙ rw kept refl)
      ]
    ]

-- The offer selected is one of those compared, and each of them has a smaller sequence than it, or
-- the same sequence and a generation id that does not come later in byte order.
pub newest-AtMost :
    (first : GenerationOfferReference) (rest : List GenerationOfferReference)
    → OneOf (newest first rest) (first ∷ rest) × All (NotNewer (newest first rest)) (first ∷ rest)
newest-AtMost first rest = (
  newest-OneOf first rest,
  All-NotNewer (newest first rest) (first ∷ rest)
      (newest-keeps first first rest (less_reference_irrefl first), newest-greatest first rest),
)

pub newest-All :
    (P : GenerationOfferReference → Type 0) (best : GenerationOfferReference)
    (rs : List GenerationOfferReference)
    → P best
    → All P rs
    → P (newest best rs)
unfolding newest
newest-All P best [] h hs = h
newest-All P best (x ∷ rs) h (hx, hs) =
    newest-All P (if less_reference best x then x else best) rs
      (elim (Bool-cases (less_reference best x)) [ inl newer ↦ rw newer hx | inr kept ↦ rw kept h ])
      hs

-- Every reference that the pass over the markers collects is past the cursor.
pub scan_markers-newer :
    (cursor : ℕ) (names : List Bytes) → All (λ r. cursor < r.sequence) (scan_markers cursor names).0
unfolding scan_markers
scan_markers-newer cursor [] = tt
scan_markers-newer cursor (name ∷ names) = elim (Bool-cases (ends_with name (codes ".ready"))) [
  | inr other ↦ rw other (scan_markers-newer cursor names)
  | inl ready ↦
      rw ready (go (parse_generation_offer_marker name name) (scan_markers-newer cursor names))
]
  where
    collect :
        Result GenerationOfferError GenerationOfferReference
        → List GenerationOfferReference × List Bytes
    collect parsed = elim parsed [
      | ok r ↦ (
        if ltb cursor r.sequence
            then r ∷ (scan_markers cursor names).0
            else (scan_markers cursor names).0,
        (scan_markers cursor names).1,
      )
      | err e ↦ ((scan_markers cursor names).0, name ∷ (scan_markers cursor names).1)
    ]

    go :
        (parsed : Result GenerationOfferError GenerationOfferReference)
        → All (λ r. cursor < r.sequence) (scan_markers cursor names).0
        → All (λ r. cursor < r.sequence) (collect parsed).0
    go (err e) later = later
    go (ok r) later = elim (Bool-cases (ltb cursor r.sequence)) [
      | inl past ↦ rw past (ground arith, later)
      | inr old ↦ rw old later
    ]
