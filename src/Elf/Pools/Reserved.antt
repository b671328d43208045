-- ===== src/Elf/Pools/Reserved.antt =====
-- Reservations keep the pools apart, whether they find room in one or map a new one.
use nekomata.Base.{
  ℕ, ◌+◌, ◌≤◌, ◌<◌, ◌≡◌, refl, sym, subst, Bool, inl, inr, List, [], ◌∷◌, ◌++◌, map, map-append,
  Option, none, some, arith, All, All-append, Bool-cases, ◌==◌,
}
use nekomata.Elf.Arena.{ArenaPool, page_size, round_up, reserve}
use nekomata.Elf.Arena.Layout.{IsPool, IsArena, Serving, GoodArena, reserve-GoodArena}
use nekomata.Elf.Pools.{
  max_address, MappedRange, PoolCandidate, find_pool_candidates, new_pool, or_next, on_mapping,
  try_candidates, Allocation, concluded, reserve_span, is_reservable, reserve_near,
}
use nekomata.Elf.Pools.Within.{IsAddressed}
use nekomata.Elf.Pools.Candidates.{IsCandidate, find_pool_candidates-AreCandidates}
use nekomata.Elf.Pools.Apart.{
  bounds, ApartBounds, ArePoolsApart, ApartBounds-snoc, Keeps, reserve-Keeps, IsMapped, aparts,
  new_pool-IsPool,
}

module _ (mprotect : ℕ → ℕ → ℕ → Bool) (mmap : ℕ → ℕ → ℕ → Option ℕ) (hint span : ℕ) where
  abbrev Good : ℕ × Option (ℕ × List ArenaPool) → Type 0
  Good (k, none) = Unit {0}
  Good (k, some (at, pools)) =
      IsArena pools × Serving mprotect hint span at pools × ArePoolsApart pools

  reserve-Good :
      (pools : List ArenaPool) (n : ℕ)
      → IsArena pools
      → ArePoolsApart pools
      → Good (reserve mprotect hint span n pools)
  reserve-Good pools n arena apart =
      both (reserve mprotect hint span n pools) (reserve-GoodArena mprotect hint span n pools arena)
        (reserve-Keeps mprotect hint span pools n)
    where
      both :
          (r : ℕ × Option (ℕ × List ArenaPool))
          → GoodArena mprotect hint span r
          → Keeps pools r
          → Good r
      both (k, none) g same = tt
      both (k, some (at, pools')) (arena', serving) same =
          (arena', serving, subst ApartBounds (sym same) apart)

  or_next-Good :
      (found : Option (ℕ × List ArenaPool)) (later : ℕ × Option (ℕ × List ArenaPool)) (k : ℕ)
      → Good (k, found)
      → Good later
      → Good (or_next found later k)
  unfolding or_next
  or_next-Good (some found) later k g h = g
  or_next-Good none later k g h = h

  module _ (configured : ℕ) (maps : List MappedRange) (minimum_size : ℕ)
      (positive : 0 < minimum_size) where
    on_mapping-Good :
        (pools : List ArenaPool) (n : ℕ) (c : PoolCandidate) (mapping : Option ℕ)
        → IsArena pools
        → ArePoolsApart pools
        → All (IsMapped maps) pools
        → IsCandidate configured maps hint minimum_size c
        → Good (on_mapping mprotect mmap hint span n pools c mapping)
    unfolding on_mapping
    on_mapping-Good pools n c none arena apart mapped candidate = tt
    on_mapping-Good pools n c (some mapping) arena apart mapped candidate =
        elim (Bool-cases (mapping == c.begin)) [
          | inr elsewhere ↦ rw elsewhere (tt)
          | inl there ↦ rw there (
              reserve-Good (pools ++ new_pool c ∷ []) (n + 1)
                (All-append IsPool pools (new_pool c ∷ []) arena (new_pool-IsPool c, tt))
                (subst ApartBounds (sym (map-append bounds pools (new_pool c ∷ []))) (
                  ApartBounds-snoc (map bounds pools) _ apart (
                    aparts maps pools c (omega (arith, positive, candidate.enough)) candidate.free
                      mapped))))
        ]

    try_candidates-Good :
        (cs : List PoolCandidate) (pools : List ArenaPool) (n : ℕ)
        → IsArena pools
        → ArePoolsApart pools
        → All (IsMapped maps) pools
        → All (IsCandidate configured maps hint minimum_size) cs
        → Good (try_candidates mprotect mmap hint span n pools cs)
    unfolding try_candidates
    try_candidates-Good [] pools n arena apart mapped candidates = tt
    try_candidates-Good (c ∷ cs) pools n arena apart mapped (candidate, candidates) =
        let r = on_mapping mprotect mmap hint span n pools c (mmap n c.begin c.size) in
        or_next-Good r.1 (try_candidates mprotect mmap hint span r.0 pools cs) r.0
          (on_mapping-Good pools n c (mmap n c.begin c.size) arena apart mapped candidate)
          (try_candidates-Good cs pools r.0 arena apart mapped candidates)

-- What a reservation leaves: the pools as they were, or well-formed pools that are apart, in which
-- the address is that of an active slot whose span is in reach and has room for the bytes.
abbrev pub IsReserved :
    (ℕ → ℕ → ℕ → Bool) → ℕ → ℕ → List ArenaPool → List ArenaPool × Option Allocation → Type 0
IsReserved mprotect hint bytes pools (pools', none) = pools' ≡ pools
IsReserved mprotect hint bytes pools (pools', some a) =
    IsArena pools'
    × ArePoolsApart pools'
    × Serving mprotect hint (round_up bytes page_size) a.begin pools'
    × (a.size ≡ bytes)
    × (bytes ≤ round_up bytes page_size)

module _ (mprotect : ℕ → ℕ → ℕ → Bool) (mmap : ℕ → ℕ → ℕ → Option ℕ) (configured : ℕ)
    (maps : List MappedRange) (hint : ℕ) where
  concluded-IsReserved :
      (pools : List ArenaPool) (bytes : ℕ) (r : ℕ × Option (ℕ × List ArenaPool))
      → bytes ≤ round_up bytes page_size
      → Good mprotect mmap hint (round_up bytes page_size) r
      → IsReserved mprotect hint bytes pools (concluded pools bytes r.1)
  unfolding concluded
  concluded-IsReserved pools bytes (k, none) fits good = refl
  concluded-IsReserved pools bytes (k, some (at, pools')) fits (arena, serving, apart) =
      (arena, apart, serving, refl, fits)

  -- A reservation that is refused leaves the pools as they were. Otherwise its address is that of an
  -- active slot whose usable bytes are the bytes asked for, rounded up to whole pages, all of them in
  -- reach of the hint; the slots of each pool stay disjoint, each with a guard page behind it, and the
  -- pools stay apart, also if one of them is a new mapping; provided that the list of mappings is right about the
  -- pools in use, and its ranges end at addresses.
  pub reserve_near-IsReserved :
      (n : ℕ) (pools : List ArenaPool) (bytes : ℕ)
      → configured ≤ max_address
      → hint ≤ max_address
      → All IsAddressed maps
      → All (IsMapped maps) pools
      → IsArena pools
      → ArePoolsApart pools
      → IsReserved mprotect hint bytes pools
          (reserve_near mprotect mmap configured maps hint n pools bytes)
  unfolding reserve_near reserve_span round_up
  reserve_near-IsReserved n pools bytes small small' addressed mapped arena apart =
      elim (Bool-cases (is_reservable bytes)) [
        | inr refused ↦ rw refused refl
        | inl fine ↦
            let span = round_up bytes page_size in
            let r = reserve mprotect hint span n pools in
            let cs = find_pool_candidates configured maps hint (span + page_size) in
            let later = try_candidates mprotect mmap hint span r.0 pools cs in
            rw fine (
              concluded-IsReserved pools bytes (or_next r.1 later r.0) (omega arith) (
                or_next-Good mprotect mmap hint span r.1 later r.0
                  (reserve-Good mprotect mmap hint span pools n arena apart)
                  (try_candidates-Good mprotect mmap hint span configured maps (span + page_size)
                    (omega arith) cs pools r.0 arena apart mapped
                    (find_pool_candidates-AreCandidates configured maps hint (span + page_size)
                      small small' (omega arith) addressed))))
      ]
