-- ===== src/Elf/Pools/Candidates.antt =====
-- What find_pool_candidates promises of each candidate.
use nekomata.Base.{
  ℕ, ◌+◌, ◌-◌, ◌%◌, ◌≤◌, ◌<◌, max, ◌≡◌, ◌||◌, List, [], ◌∷◌, arith, All, All-weaken, Bool-cases,
  inl, inr, leb, ltb,
}
use nekomata.Elf.Arena.{page_size, rel32_limit}
use nekomata.Elf.Pools.{
  max_address, align_up_address, minimum_mappable_address, MappedRange, PoolCandidate,
  insert_mapping, process_mappings, window_begin, window_end, is_before, insert_candidate,
  sort_candidates, find_pool_candidates,
}
use nekomata.Elf.Pools.Within.{align_up_address-bounds, align_down_address-bounds, IsAddressed}
use nekomata.Elf.Pools.Gaps.{IsFree, IsSorted, Offers, gaps-Offers}

insert_mapping-All :
    (P : MappedRange → Type 0) (m : MappedRange) (ms : List MappedRange)
    → P m
    → All P ms
    → All P (insert_mapping m ms)
unfolding insert_mapping
insert_mapping-All P m [] p held = (p, tt)
insert_mapping-All P m (x ∷ xs) p held = elim (Bool-cases (ltb x.begin m.begin)) [
  | inl before ↦ rw before (held.0, insert_mapping-All P m xs p held.1)
  | inr behind ↦ rw behind (p, held)
]

insert_mapping-IsSorted :
    (m : MappedRange) (ms : List MappedRange) → IsSorted ms → IsSorted (insert_mapping m ms)
unfolding insert_mapping
insert_mapping-IsSorted m [] sorted = (tt, tt)
insert_mapping-IsSorted m (x ∷ xs) (first, sorted) = elim (Bool-cases (ltb x.begin m.begin)) [
  | inl before ↦ rw before (
    insert_mapping-All (λ y. x.begin ≤ y.begin) m xs (ground (arith, before)) first,
    insert_mapping-IsSorted m xs sorted,
  )
  | inr behind ↦
      let le : m.begin ≤ x.begin = ground (arith, behind) in
      rw behind (
        (le, All-weaken (λ y. x.begin ≤ y.begin) _ (λ y le'. omega (arith, le, le')) xs first),
        (first, sorted),
      )
]

-- Sorting keeps every range, and what holds of all of them.
insert_mapping-back :
    (P : MappedRange → Type 0) (m : MappedRange) (ms : List MappedRange)
    → All P (insert_mapping m ms)
    → P m × All P ms
unfolding insert_mapping
insert_mapping-back P m [] held = held
insert_mapping-back P m (x ∷ xs) held = elim (Bool-cases (ltb x.begin m.begin)) [
  | inl before ↦
      let held' : P x × All P (insert_mapping m xs) = rw before at held in
      let (p, rest) = insert_mapping-back P m xs held'.1 in (p, (held'.0, rest))
  | inr behind ↦ rw behind at held
]

process_mappings-lem :
    (ms : List MappedRange)
    → All IsAddressed ms
    → IsSorted (process_mappings ms) × All IsAddressed (process_mappings ms)
unfolding process_mappings
process_mappings-lem [] addressed = (tt, tt)
process_mappings-lem (m ∷ ms) (a, addressed) =
    let (sorted, rest) = process_mappings-lem ms addressed in
    elim (Bool-cases (ltb m.begin m.end_)) [
      | inl proper ↦ rw proper (
        insert_mapping-IsSorted m (process_mappings ms) sorted,
        insert_mapping-All IsAddressed m (process_mappings ms) a rest,
      )
      | inr empty ↦ rw empty (sorted, rest)
    ]

process_mappings-back :
    (P : MappedRange → Type 0) (ms : List MappedRange)
    → All P (process_mappings ms)
    → All (λ (m : MappedRange). m.begin < m.end_ → P m) ms
unfolding process_mappings
process_mappings-back P [] held = tt
process_mappings-back P (m ∷ ms) held = elim (Bool-cases (ltb m.begin m.end_)) [
  | inl proper ↦
      let (p, rest) = insert_mapping-back P m (process_mappings ms) (rw proper at held) in
      (λ lt. p, process_mappings-back P ms rest)
  | inr empty ↦ (λ lt. ground (arith, empty, lt), process_mappings-back P ms (rw empty at held))
]

insert_candidate-All :
    (P : PoolCandidate → Type 0) (c : PoolCandidate) (cs : List PoolCandidate)
    → P c
    → All P cs
    → All P (insert_candidate c cs)
unfolding insert_candidate
insert_candidate-All P c [] p held = (p, tt)
insert_candidate-All P c (x ∷ xs) p held = elim (Bool-cases (is_before x c)) [
  | inl before ↦ rw before (held.0, insert_candidate-All P c xs p held.1)
  | inr behind ↦ rw behind (p, held)
]

sort_candidates-All :
    (P : PoolCandidate → Type 0) (cs : List PoolCandidate) → All P cs → All P (sort_candidates cs)
unfolding sort_candidates
sort_candidates-All P [] held = tt
sort_candidates-All P (c ∷ cs) held =
    insert_candidate-All P c (sort_candidates cs) held.0 (sort_candidates-All P cs held.1)

-- A place for a pool: whole pages, enough of them, none below the lowest that may be mapped, all in
-- reach of the entry at `hint`, and in no mapping of the process.
pub record IsCandidate (configured : ℕ) (maps : List MappedRange) (hint minimum_size : ℕ)
    (c : PoolCandidate) : Type 0 where
  pub aligned : c.begin % page_size ≡ 0
  pub enough : minimum_size ≤ c.size
  pub mappable : configured ≤ c.begin
  pub reach_back : hint ≤ c.begin + rel32_limit
  pub reach_ahead : c.begin + c.size ≤ hint + rel32_limit
  pub free : All (λ (m : MappedRange). m.begin < m.end_ → IsFree c m) maps

window_begin-bounds :
    (floor hint : ℕ)
    → floor ≤ max_address
    → hint ≤ max_address
    → (floor ≤ window_begin floor hint)
      × (hint ≤ window_begin floor hint + rel32_limit)
      × (window_begin floor hint ≤ max_address)
unfolding window_begin
window_begin-bounds floor hint small small' = elim (Bool-cases (ltb rel32_limit hint)) [
  | inl far ↦
      let (up, high, _) =
        align_up_address-bounds (max (hint - rel32_limit) floor) (omega (arith, small, small')) in
      rw far (omega (arith, up), omega (arith, up), high)
  | inr near ↦
      let low : hint ≤ rel32_limit = ground (arith, near) in
      let (up, high, _) = align_up_address-bounds (max floor floor) (omega (arith, small)) in
      rw near (omega (arith, up), omega (arith, up, low), high)
]

window_end-bounds :
    (hint : ℕ) → (window_end hint ≤ hint + rel32_limit) × (window_end hint ≤ max_address)
unfolding window_end
window_end-bounds hint = elim (Bool-cases (ltb hint (max_address - rel32_limit))) [
  | inl below ↦
      let lt : hint < max_address - rel32_limit = ground (arith, below) in
      let (down, _) = align_down_address-bounds (hint + rel32_limit) in
      rw below (down, omega (arith, down, lt))
  | inr top ↦
      let le : max_address - rel32_limit ≤ hint = ground (arith, top) in
      let (down, _) = align_down_address-bounds max_address in
      rw top (omega (arith, down, le), down)
]

-- Every place that the search finds for a pool is a candidate in that sense, if the size asked for is
-- in whole pages.
pub find_pool_candidates-AreCandidates :
    (configured : ℕ) (maps : List MappedRange) (hint minimum_size : ℕ)
    → configured ≤ max_address
    → hint ≤ max_address
    → minimum_size % page_size ≡ 0
    → All IsAddressed maps
    → All
        (IsCandidate configured maps hint minimum_size)
        (find_pool_candidates configured maps hint minimum_size)
unfolding find_pool_candidates minimum_mappable_address
find_pool_candidates-AreCandidates configured maps hint minimum_size small small' whole addressed =
    let (up, high, _) = align_up_address-bounds (max page_size configured) (omega (arith, small)) in
    let floor = align_up_address (max page_size configured) page_size in
    let (above, back, low) = window_begin-bounds floor hint high small' in
    let (ahead, top) = window_end-bounds hint in
    let (sorted, addressed') = process_mappings-lem maps addressed in
    elim (Bool-cases (
      leb (window_end hint) (window_begin floor hint)
      || ltb (window_end hint - window_begin floor hint) minimum_size)) [
        | inl none ↦ rw none tt
        | inr room ↦ rw room (
            sort_candidates-All (IsCandidate configured maps hint minimum_size) _ (
              All-weaken
                (Offers hint minimum_size whole (window_end hint) (window_begin floor hint)
                  (process_mappings maps))
                (IsCandidate configured maps hint minimum_size)
                (λ c (w, free). record {
                  aligned = w.aligned;
                  enough = w.enough;
                  mappable = omega (arith, up, above, w.above);
                  reach_back = omega (arith, back, w.above);
                  reach_ahead = omega (arith, ahead, w.below);
                  free = process_mappings-back (IsFree c) maps free;
                })
                _
                (gaps-Offers hint minimum_size whole (process_mappings maps) (window_end hint)
                  (window_begin floor hint) low top addressed' sorted)))
      ]
