-- ===== src/Elf/Pools.antt =====
-- `find_pool_candidates` and `reserve_near` of src/backends/elf/runtime/code_pages.cpp.
pub mod Within
pub mod Gaps
pub mod Candidates
pub mod Apart
pub mod Reserved
pub mod Reclaimed
use nekomata.Base.{
  ℕ, ◌+◌, ◌-◌, ◌*◌, ◌/◌, ◌%◌, max, min, Bool, true, false, not, ◌&&◌, ◌||◌, List, [], ◌∷◌, ◌++◌,
  Option, none, some, ◌==◌, leb, ltb, if◌then◌else◌,
}
use nekomata.Text.{uint64_limit}
use nekomata.Elf.Arena.{ArenaPool, page_size, round_up, rel32_limit, reserve}

abbrev pub default_pool_size : ℕ
default_pool_size = 64 * 1024 * 1024

abbrev pub max_address : ℕ
max_address = uint64_limit - 1

unfoldable pub align_up_address : ℕ → ℕ → ℕ
align_up_address value alignment =
    if value % alignment == 0
    then value
    else if ltb (max_address - (alignment - value % alignment)) value
    then max_address
    else value + (alignment - value % alignment)

unfoldable pub align_down_address : ℕ → ℕ → ℕ
align_down_address value alignment = value - value % alignment

-- `configured` is the number in /proc/sys/vm/mmap_min_addr, or 64 KiB.
unfoldable pub minimum_mappable_address : ℕ → ℕ
unfolding align_up_address
minimum_mappable_address configured = align_up_address (max page_size configured) page_size

pub record MappedRange : Type 0 where
  pub begin : ℕ
  pub end_ : ℕ

pub record PoolCandidate : Type 0 where
  pub begin : ℕ
  pub size : ℕ
  pub distance : ℕ

-- `process_mappings`, from the ranges that the lines of /proc/self/maps begin with.
unfoldable pub insert_mapping : MappedRange → List MappedRange → List MappedRange
insert_mapping m [] = m ∷ []
insert_mapping m (x ∷ xs) =
    let rest = insert_mapping m xs in if ltb x.begin m.begin then x ∷ rest else m ∷ x ∷ xs

unfoldable pub process_mappings : List MappedRange → List MappedRange
unfolding insert_mapping
process_mappings [] = []
process_mappings (m ∷ ms) =
    let rest = process_mappings ms in if ltb m.begin m.end_ then insert_mapping m rest else rest

-- The addresses from which an entry at `hint` can be reached, by whole pages.
unfoldable pub window_begin : ℕ → ℕ → ℕ
unfolding align_up_address
window_begin floor hint =
    align_up_address (max (if ltb rel32_limit hint then hint - rel32_limit else floor) floor)
      page_size

unfoldable pub window_end : ℕ → ℕ
unfolding align_down_address
window_end hint =
    align_down_address
      (if ltb hint (max_address - rel32_limit) then hint + rel32_limit else max_address) page_size

-- `std::clamp`
unfoldable pub clamp : ℕ → ℕ → ℕ → ℕ
clamp value lowest highest =
    if ltb value lowest then lowest else if ltb highest value then highest else value

unfoldable pub ideal_begin : ℕ → ℕ → ℕ → ℕ
unfolding align_down_address
ideal_begin hint gap_begin size =
    if ltb (size / 2) hint then align_down_address (hint - size / 2) page_size else gap_begin

unfoldable pub distance_to : ℕ → ℕ → ℕ → ℕ
distance_to hint begin end_ =
    if ltb hint begin then begin - hint else if leb end_ hint then hint - (end_ - 1) else 0

module _ (hint minimum_size : ℕ) where
  -- The candidate of a gap between page boundaries.
  unfoldable pub candidate_in : ℕ → ℕ → PoolCandidate
  unfolding clamp ideal_begin distance_to
  candidate_in gap_begin gap_end =
      let size = min (max default_pool_size minimum_size) (gap_end - gap_begin) in
      let begin = clamp (ideal_begin hint gap_begin size) gap_begin (gap_end - size) in
      record { begin = begin; size = size; distance = distance_to hint begin (begin + size) }

  unfoldable pub aligned_gap : ℕ → ℕ → List PoolCandidate
  unfolding candidate_in
  aligned_gap gap_begin gap_end =
      if leb gap_end gap_begin || ltb (gap_end - gap_begin) minimum_size
      then []
      else candidate_in gap_begin gap_end ∷ []

  unfoldable pub add_gap : ℕ → ℕ → List PoolCandidate
  unfolding aligned_gap align_up_address align_down_address
  add_gap gap_begin gap_end =
      aligned_gap (align_up_address gap_begin page_size) (align_down_address gap_end page_size)

  unfoldable pub add_gap_below : ℕ → ℕ → ℕ → List PoolCandidate
  unfolding add_gap
  add_gap_below bound cursor gap_end = if ltb cursor bound then add_gap cursor gap_end else []

  -- The loop over the mappings from `cursor` on, and the gap behind it.
  unfoldable pub gaps : ℕ → ℕ → List MappedRange → List PoolCandidate
  unfolding add_gap_below
  gaps last cursor [] = add_gap_below last cursor last
  gaps last cursor (m ∷ ms) =
      let skipped = leb m.end_ cursor in
      let next = if skipped then cursor else max cursor (align_up_address m.end_ page_size) in
      let rest = gaps last next ms in
      if skipped
      then rest
      else if leb last m.begin
      then add_gap_below last cursor last
      else add_gap_below m.begin cursor (min m.begin last) ++ (if leb last next then [] else rest)

unfoldable pub is_before : PoolCandidate → PoolCandidate → Bool
is_before left right =
    if left.distance == right.distance
    then ltb right.size left.size
    else ltb left.distance right.distance

-- `std::sort`, which leaves the order of equal candidates open.
unfoldable pub insert_candidate : PoolCandidate → List PoolCandidate → List PoolCandidate
unfolding is_before
insert_candidate c [] = c ∷ []
insert_candidate c (x ∷ xs) =
    let rest = insert_candidate c xs in if is_before x c then x ∷ rest else c ∷ x ∷ xs

unfoldable pub sort_candidates : List PoolCandidate → List PoolCandidate
unfolding insert_candidate
sort_candidates [] = []
sort_candidates (c ∷ cs) = insert_candidate c (sort_candidates cs)

unfoldable pub find_pool_candidates : ℕ → List MappedRange → ℕ → ℕ → List PoolCandidate
unfolding minimum_mappable_address process_mappings window_begin window_end gaps sort_candidates
find_pool_candidates configured maps hint minimum_size =
    let first = window_begin (minimum_mappable_address configured) hint in
    let last = window_end hint in
    if leb last first || ltb (last - first) minimum_size
    then []
    else sort_candidates (gaps hint minimum_size last first (process_mappings maps))

-- The handle of a reservation.
pub record Allocation : Type 0 where
  pub begin : ℕ
  pub size : ℕ

unfoldable pub new_pool : PoolCandidate → ArenaPool
new_pool c = record { begin = c.begin; end_ = c.begin + c.size; cursor = c.begin; slots = [] }

unfoldable pub or_next :
    Option (ℕ × List ArenaPool)
    → ℕ × Option (ℕ × List ArenaPool)
    → ℕ
    → ℕ × Option (ℕ × List ArenaPool)
or_next (some found) later k = (k, some found)
or_next none later k = later

-- `mmap n begin size`: where the n-th system call, if it is of mmap, puts a mapping.
module _ (mprotect : ℕ → ℕ → ℕ → Bool) (mmap : ℕ → ℕ → ℕ → Option ℕ) (hint span : ℕ) where
  -- A mapping at another address is given back, as is a pool that cannot serve the reservation.
  unfoldable pub on_mapping :
      ℕ → List ArenaPool → PoolCandidate → Option ℕ → ℕ × Option (ℕ × List ArenaPool)
  unfolding reserve new_pool
  on_mapping n pools c none = (n + 1, none)
  on_mapping n pools c (some mapping) =
      let reserved = reserve mprotect hint span (n + 1) (pools ++ new_pool c ∷ []) in
      if mapping == c.begin then reserved else (n + 1, none)

  unfoldable pub try_candidates :
      ℕ → List ArenaPool → List PoolCandidate → ℕ × Option (ℕ × List ArenaPool)
  unfolding on_mapping or_next
  try_candidates n pools [] = (n, none)
  try_candidates n pools (c ∷ cs) =
      let (k, found) = on_mapping n pools c (mmap n c.begin c.size) in
      or_next found (try_candidates k pools cs) k

unfoldable pub is_reservable : ℕ → Bool
unfolding round_up
is_reservable bytes =
    not (bytes == 0)
    && (leb bytes (max_address - (page_size - 1))
        && leb (round_up bytes page_size) (max_address - page_size))

unfoldable pub concluded :
    List ArenaPool → ℕ → Option (ℕ × List ArenaPool) → List ArenaPool × Option Allocation
concluded pools bytes none = (pools, none)
concluded pools bytes (some (at, pools')) = (pools', some (record { begin = at; size = bytes }))

module _ (mprotect : ℕ → ℕ → ℕ → Bool) (mmap : ℕ → ℕ → ℕ → Option ℕ) (configured : ℕ)
    (maps : List MappedRange) (hint : ℕ) where
  -- A pool that is there already, or else a new one.
  unfoldable pub reserve_span : ℕ → List ArenaPool → ℕ → ℕ × Option (ℕ × List ArenaPool)
  unfolding reserve try_candidates or_next find_pool_candidates
  reserve_span n pools span =
      let (k, found) = reserve mprotect hint span n pools in
      or_next found
        (try_candidates mprotect mmap hint span k pools
          (find_pool_candidates configured maps hint (span + page_size)))
        k

  unfoldable pub reserve_near : ℕ → List ArenaPool → ℕ → List ArenaPool × Option Allocation
  unfolding reserve_span concluded is_reservable round_up
  reserve_near n pools bytes =
      if is_reservable bytes
      then concluded pools bytes (reserve_span n pools (round_up bytes page_size)).1
      else (pools, none)
