-- ===== src/Elf/Pools/Gaps.antt =====
-- A pool candidate lies in a gap between the mappings of the process.
use nekomata.Base.{
  ℕ, ◌+◌, ◌%◌, ◌≤◌, max, min, ◌≡◌, ◌⊎◌, inl, inr, Bool, true, false, List, [], ◌∷◌, arith, All,
  All-weaken, All-append, Bool-cases, leb, ltb, if◌then◌else◌,
}
use nekomata.Elf.Arena.{page_size}
use nekomata.Elf.Pools.{
  max_address, align_up_address, MappedRange, PoolCandidate, add_gap_below, gaps,
}
use nekomata.Elf.Pools.Within.{
  align_up_address-bounds, IsWithin, IsWithin-weaken, IsAddressed, add_gap-IsWithin,
}

-- A mapping and a candidate have no byte in common.
abbrev pub IsFree : PoolCandidate → MappedRange → Type 0
IsFree c m = (m.end_ ≤ c.begin) ⊎ (c.begin + c.size ≤ m.begin)

abbrev pub IsSorted : List MappedRange → Type 0
IsSorted [] = Unit {0}
IsSorted (m ∷ ms) = All (λ (x : MappedRange). m.begin ≤ x.begin) ms × IsSorted ms

module _ (hint minimum_size : ℕ) (whole : minimum_size % page_size ≡ 0) where
  add_gap_below-IsWithin :
      (bound cursor gap_end last : ℕ)
      → cursor ≤ max_address
      → gap_end ≤ max_address
      → gap_end ≤ last
      → All
          (IsWithin minimum_size cursor last)
          (add_gap_below hint minimum_size bound cursor gap_end)
  unfolding add_gap_below
  add_gap_below-IsWithin bound cursor gap_end last small small' below =
      elim (Bool-cases (ltb cursor bound)) [
        | inl room ↦ rw room (
            add_gap-IsWithin hint minimum_size whole cursor gap_end cursor last small small'
              (omega arith) below)
        | inr closed ↦ rw closed tt
      ]

  All-unless :
      (P : PoolCandidate → Type 0) (cs : List PoolCandidate) (b : Bool)
      → All P cs
      → All P (if b then [] else cs)
  All-unless P cs true held = tt
  All-unless P cs false held = held

  -- What the loop offers lies behind the cursor, and in none of the mappings to come.
  abbrev pub Offers : ℕ → ℕ → List MappedRange → PoolCandidate → Type 0
  Offers last cursor ms c = IsWithin minimum_size cursor last c × All (IsFree c) ms

  ahead-Offers :
      (ms : List MappedRange) (last cursor gap_end : ℕ) (c : PoolCandidate)
      → gap_end ≤ last
      → All (λ (x : MappedRange). gap_end ≤ x.begin) ms
      → IsWithin minimum_size cursor gap_end c
      → Offers last cursor ms c
  ahead-Offers ms last cursor gap_end c le ahead w = (
    IsWithin-weaken c (omega arith) le w,
    All-weaken (λ (x : MappedRange). gap_end ≤ x.begin) (IsFree c)
        (λ x at. inr (omega (arith, at, w.below))) ms ahead,
  )

  behind-Offers :
      (m : MappedRange) (ms : List MappedRange) (last cursor next : ℕ) (c : PoolCandidate)
      → m.end_ ≤ next
      → cursor ≤ next
      → Offers last next ms c
      → Offers last cursor (m ∷ ms) c
  behind-Offers m ms last cursor next c below le (w, free) =
      (IsWithin-weaken c le (omega arith) w, (inl (omega (arith, below, w.above)), free))

  pub gaps-Offers :
      (ms : List MappedRange) (last cursor : ℕ)
      → cursor ≤ max_address
      → last ≤ max_address
      → All IsAddressed ms
      → IsSorted ms
      → All (Offers last cursor ms) (gaps hint minimum_size last cursor ms)
  unfolding gaps
  gaps-Offers [] last cursor small top addressed sorted =
      All-weaken _ (Offers last cursor [])
        (λ c w. ahead-Offers [] last cursor last c (omega arith) tt w) _
        (add_gap_below-IsWithin last cursor last last small top (omega arith))
  gaps-Offers (m ∷ ms) last cursor small top (a, addressed) (first, sorted) =
      elim (Bool-cases (leb m.end_ cursor)) [
        | inl skipped ↦ rw skipped (
            All-weaken (Offers last cursor ms) (Offers last cursor (m ∷ ms))
              (λ c o.
                behind-Offers m ms last cursor cursor c (ground (arith, skipped)) (omega arith) o)
              _ (gaps-Offers ms last cursor small top addressed sorted))
        | inr met ↦ elim (Bool-cases (leb last m.begin)) [
          | inl over ↦
              let ahead : last ≤ m.begin = ground (arith, over) in
              rw (met, over)
                (All-weaken (IsWithin minimum_size cursor last) (Offers last cursor (m ∷ ms))
                  (λ c.
                    ahead-Offers (m ∷ ms) last cursor last c (omega arith)
                      (ahead, All-weaken _ _ (λ x le. omega (arith, le, ahead)) ms first))
                  _ (add_gap_below-IsWithin last cursor last last small top (omega arith)))
          | inr inside ↦
              let (up, high, _) = align_up_address-bounds m.end_ a in
              let next = max cursor (align_up_address m.end_ page_size) in
              let start = min m.begin last in
              rw (met, inside)
                (All-append (Offers last cursor (m ∷ ms)) _ _
                  (All-weaken (IsWithin minimum_size cursor start) (Offers last cursor (m ∷ ms))
                    (λ c.
                      ahead-Offers (m ∷ ms) last cursor start c (omega arith)
                        (omega arith, All-weaken _ _ (λ x le. omega (arith, le)) ms first))
                    _
                    (add_gap_below-IsWithin m.begin cursor start start small (omega (arith, top))
                      (omega arith)))
                  (All-unless (Offers last cursor (m ∷ ms)) _ (leb last next) (
                    All-weaken (Offers last next ms) (Offers last cursor (m ∷ ms))
                      (λ c. behind-Offers m ms last cursor next c (omega (arith, up)) (omega arith))
                      _
                      (gaps-Offers ms last next (omega (arith, small, high)) top addressed
                        sorted))))
        ]
      ]
