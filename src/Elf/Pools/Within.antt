-- ===== src/Elf/Pools/Within.antt =====
-- The candidate of one gap lies in it, by whole pages.
use nekomata.Base.{
  ℕ, ◌+◌, ◌-◌, ◌%◌, ◌≤◌, ◌<◌, max, min, ◌≡◌, ◌⊎◌, inl, inr, ◌||◌, arith, All, Bool-cases, leb, ltb,
}
use nekomata.Elf.Arena.{page_size}
use nekomata.Elf.Pools.{
  default_pool_size, max_address, align_up_address, align_down_address, MappedRange, PoolCandidate,
  clamp, ideal_begin, candidate_in, aligned_gap, add_gap,
}

pub align_up_address-bounds :
    (value : ℕ)
    → value ≤ max_address
    → (value ≤ align_up_address value page_size)
      × (align_up_address value page_size ≤ max_address)
      × ((align_up_address value page_size % page_size ≡ 0)
          ⊎ (align_up_address value page_size ≡ max_address))
unfolding align_up_address
align_up_address-bounds value small = ground arith

pub align_down_address-bounds :
    (value : ℕ)
    → (align_down_address value page_size ≤ value)
      × (align_down_address value page_size % page_size ≡ 0)
unfolding align_down_address
align_down_address-bounds value = (omega arith, omega arith)

-- A candidate that lies between two addresses, by whole pages.
pub record IsWithin (minimum_size first last : ℕ) (c : PoolCandidate) : Type 0 where
  pub aligned : c.begin % page_size ≡ 0
  pub enough : minimum_size ≤ c.size
  pub above : first ≤ c.begin
  pub below : c.begin + c.size ≤ last

pub IsWithin-weaken :
    {minimum_size first last first' last' : ℕ} (c : PoolCandidate)
    → first' ≤ first
    → last ≤ last'
    → IsWithin minimum_size first last c
    → IsWithin minimum_size first' last' c
IsWithin-weaken c le le' w = record {
  aligned = w.aligned;
  enough = w.enough;
  above = omega (arith, le, w.above);
  below = omega (arith, le', w.below);
}

-- A range ends at an address.
abbrev pub IsAddressed : MappedRange → Type 0
IsAddressed m = m.end_ ≤ max_address

clamp-bounds :
    (value lowest highest : ℕ)
    → lowest ≤ highest
    → value % page_size ≡ 0
    → lowest % page_size ≡ 0
    → highest % page_size ≡ 0
    → (lowest ≤ clamp value lowest highest)
      × (clamp value lowest highest ≤ highest)
      × (clamp value lowest highest % page_size ≡ 0)
unfolding clamp
clamp-bounds value lowest highest le a b c = ground arith

ideal_begin-aligned :
    (hint gap_begin size : ℕ)
    → gap_begin % page_size ≡ 0
    → ideal_begin hint gap_begin size % page_size ≡ 0
unfolding ideal_begin align_down_address
ideal_begin-aligned hint gap_begin size a = ground arith

size-aligned :
    (minimum_size available : ℕ)
    → minimum_size % page_size ≡ 0
    → available % page_size ≡ 0
    → min (max default_pool_size minimum_size) available % page_size ≡ 0
size-aligned minimum_size available a b = omega (arith, a, b)

module _ (hint minimum_size : ℕ) (whole : minimum_size % page_size ≡ 0) where
  candidate_in-IsWithin :
      (gap_begin gap_end : ℕ)
      → gap_begin % page_size ≡ 0
      → gap_end % page_size ≡ 0
      → gap_begin < gap_end
      → minimum_size ≤ gap_end - gap_begin
      → IsWithin minimum_size gap_begin gap_end (candidate_in hint minimum_size gap_begin gap_end)
  unfolding candidate_in
  candidate_in-IsWithin gap_begin gap_end a b lt enough =
      let size = min (max default_pool_size minimum_size) (gap_end - gap_begin) in
      let pages = size-aligned minimum_size (gap_end - gap_begin) whole (omega (arith, a, b, lt)) in
      let (lo, hi, aligned) =
        clamp-bounds (ideal_begin hint gap_begin size) gap_begin (gap_end - size)
          (omega (arith, lt)) (ideal_begin-aligned hint gap_begin size a) a
          (omega (arith, pages, b, lt)) in
      record {
        aligned = aligned;
        enough = omega (arith, enough);
        above = lo;
        below = omega (arith, hi, lt);
      }

  aligned_gap-IsWithin :
      (gap_begin gap_end first last : ℕ)
      → (gap_begin % page_size ≡ 0) ⊎ (gap_begin ≡ max_address)
      → gap_end % page_size ≡ 0
      → gap_end ≤ max_address
      → first ≤ gap_begin
      → gap_end ≤ last
      → All (IsWithin minimum_size first last) (aligned_gap hint minimum_size gap_begin gap_end)
  unfolding aligned_gap
  aligned_gap-IsWithin gap_begin gap_end first last a b small above below =
      elim (Bool-cases (leb gap_end gap_begin || ltb (gap_end - gap_begin) minimum_size)) [
        | inl refused ↦ rw refused tt
        | inr room ↦
            let lt : gap_begin < gap_end = ground (arith, room) in
            let enough : minimum_size ≤ gap_end - gap_begin = ground (arith, room) in
            let boundary : gap_begin % page_size ≡ 0 = ground (arith, a, lt, small) in
            rw room (
              IsWithin-weaken (candidate_in hint minimum_size gap_begin gap_end) above below
                  (candidate_in-IsWithin gap_begin gap_end boundary b lt enough),
              tt,
            )
      ]

  pub add_gap-IsWithin :
      (gap_begin gap_end first last : ℕ)
      → gap_begin ≤ max_address
      → gap_end ≤ max_address
      → first ≤ gap_begin
      → gap_end ≤ last
      → All (IsWithin minimum_size first last) (add_gap hint minimum_size gap_begin gap_end)
  unfolding add_gap
  add_gap-IsWithin gap_begin gap_end first last small small' above below =
      let (up, top, boundary) = align_up_address-bounds gap_begin small in
      let (down, boundary') = align_down_address-bounds gap_end in
      aligned_gap-IsWithin _ _ first last boundary boundary' (omega (arith, down, small'))
        (omega (arith, up, above)) (omega (arith, down, below))
