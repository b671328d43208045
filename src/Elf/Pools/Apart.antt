-- ===== src/Elf/Pools/Apart.antt =====
-- When pools have no address in common, and what keeps them so.
use nekomata.Base.{
  ℕ, ◌+◌, ◌≤◌, ◌<◌, max, ◌≡◌, refl, ap, Bool, ◌⊎◌, inl, inr, List, [], ◌∷◌, ◌++◌, map, Option, none,
  some, arith, All, All-append, Bool-cases, leb,
}
use nekomata.Elf.Arena.{
  Slot, ArenaPool, has_room, at_cursor, or_later, reserve_pool, reserve_slot, reserve,
}
use nekomata.Elf.Arena.Layout.{IsPool}
use nekomata.Elf.Pools.{MappedRange, PoolCandidate, new_pool}
use nekomata.Elf.Pools.Gaps.{IsFree}

abbrev pub Bounds : Type 0
Bounds = ℕ × ℕ

abbrev pub bounds : ArenaPool → Bounds
bounds pool = (pool.begin, pool.end_)

abbrev pub AreBoundsApart : Bounds → Bounds → Type 0
AreBoundsApart a b = (a.1 ≤ b.0) ⊎ (b.1 ≤ a.0)

abbrev pub ApartBounds : List Bounds → Type 0
ApartBounds [] = Unit {0}
ApartBounds (b ∷ bs) = All (AreBoundsApart b) bs × ApartBounds bs

-- No two pools have an address in common.
abbrev pub ArePoolsApart : List ArenaPool → Type 0
ArePoolsApart pools = ApartBounds (map bounds pools)

pub ApartBounds-snoc :
    (bs : List Bounds) (b : Bounds)
    → ApartBounds bs
    → All (λ a. AreBoundsApart a b) bs
    → ApartBounds (bs ++ b ∷ [])
ApartBounds-snoc [] b apart new = (tt, tt)
ApartBounds-snoc (a ∷ bs) b (first, apart) (new, news) =
    (All-append (AreBoundsApart a) bs (b ∷ []) first (new, tt), ApartBounds-snoc bs b apart news)

-- A reservation in the pools that are there leaves their bounds alone.
abbrev pub Keeps : List ArenaPool → ℕ × Option (ℕ × List ArenaPool) → Type 0
Keeps pools (k, none) = Unit {0}
Keeps pools (k, some (at, pools')) = map bounds pools' ≡ map bounds pools

abbrev pub KeepsPool : ArenaPool → ℕ × Option (ℕ × ArenaPool) → Type 0
KeepsPool pool (k, none) = Unit {0}
KeepsPool pool (k, some (at, pool')) = bounds pool' ≡ bounds pool

module _ (mprotect : ℕ → ℕ → ℕ → Bool) (hint span : ℕ) where
  at_cursor-KeepsPool :
      (pool : ArenaPool) (r : ℕ × Option (ℕ × List Slot))
      → KeepsPool pool (at_cursor mprotect hint span pool r)
  unfolding at_cursor
  at_cursor-KeepsPool pool (k, some (at, cs)) = refl
  at_cursor-KeepsPool pool (k, none) = elim (Bool-cases (has_room hint span pool)) [
    | inr full ↦ rw full tt
    | inl room ↦ elim (Bool-cases (mprotect k pool.cursor span)) [
      | inr refused ↦ rw (room, refused) tt
      | inl done ↦ rw (room, done) refl
    ]
  ]

  or_later-Keeps :
      (pool : ArenaPool) (pools : List ArenaPool) (found : Option (ℕ × ArenaPool))
      (later : ℕ × Option (ℕ × List ArenaPool)) (k : ℕ)
      → KeepsPool pool (k, found)
      → Keeps pools later
      → Keeps (pool ∷ pools) (or_later pool pools found later k)
  unfolding or_later
  or_later-Keeps pool pools (some (at, pool')) later k same rest =
      ap (λ b. b ∷ map bounds pools) same
  or_later-Keeps pool pools none (k', some (at, pools')) k same rest =
      ap (λ bs. bounds pool ∷ bs) rest
  or_later-Keeps pool pools none (k', none) k same rest = tt

  pub reserve-Keeps :
      (pools : List ArenaPool) (n : ℕ) → Keeps pools (reserve mprotect hint span n pools)
  unfolding reserve reserve_pool
  reserve-Keeps [] n = tt
  reserve-Keeps (pool ∷ pools) n =
      or_later-Keeps pool pools _ _ _
        (at_cursor-KeepsPool pool (reserve_slot mprotect hint span n pool.slots))
        (reserve-Keeps pools (reserve_pool mprotect hint span n pool).0)

-- An address in one of the mappings.
abbrev pub Covers : ℕ → List MappedRange → Type 0
Covers x [] = ⊥
Covers x (m ∷ ms) = ((m.begin ≤ x) × (x < m.end_)) ⊎ Covers x ms

-- The list of mappings has every address of a pool in use, in one mapping or in several.
abbrev pub IsMapped : List MappedRange → ArenaPool → Type 0
IsMapped maps pool =
    (pool.begin < pool.end_) × ((x : ℕ) → pool.begin ≤ x → x < pool.end_ → Covers x maps)

free-uncovered :
    (maps : List MappedRange) (c : PoolCandidate) (x : ℕ)
    → All (λ (m : MappedRange). m.begin < m.end_ → IsFree c m) maps
    → c.begin ≤ x
    → x < c.begin + c.size
    → Covers x maps
    → ⊥
free-uncovered [] c x free le lt nowhere = nowhere
free-uncovered (m ∷ ms) c x (free, frees) le lt (inl (from, to)) =
    ground (arith, free (omega (arith, from, to)))
free-uncovered (m ∷ ms) c x (free, frees) le lt (inr later) =
    free-uncovered ms c x frees le lt later

candidate-apart :
    (maps : List MappedRange) (c : PoolCandidate) (pool : ArenaPool)
    → 0 < c.size
    → All (λ (m : MappedRange). m.begin < m.end_ → IsFree c m) maps
    → IsMapped maps pool
    → AreBoundsApart (bounds pool) (c.begin, c.begin + c.size)
candidate-apart maps c pool positive free (proper, covered) =
    elim (Bool-cases (leb pool.end_ c.begin)) [
      | inl below ↦ inl (ground (arith, below))
      | inr not_below ↦ elim (Bool-cases (leb (c.begin + c.size) pool.begin)) [
        | inl above ↦ inr (ground (arith, above))
        | inr not_above ↦
            let lt : c.begin < pool.end_ = ground (arith, not_below) in
            let lt' : pool.begin < c.begin + c.size = ground (arith, not_above) in
            let x = max pool.begin c.begin in
            absurd (
              free-uncovered maps c x free (omega arith) (omega (arith, lt', positive))
                (covered x (omega arith) (omega (arith, lt, proper))))
      ]
    ]

pub aparts :
    (maps : List MappedRange) (pools : List ArenaPool) (c : PoolCandidate)
    → 0 < c.size
    → All (λ (m : MappedRange). m.begin < m.end_ → IsFree c m) maps
    → All (IsMapped maps) pools
    → All (λ a. AreBoundsApart a (bounds (new_pool c))) (map bounds pools)
unfolding new_pool
aparts maps [] c positive free mapped = tt
aparts maps (pool ∷ pools) c positive free (m, mapped) =
    (candidate-apart maps c pool positive free m, aparts maps pools c positive free mapped)

pub new_pool-IsPool : (c : PoolCandidate) → IsPool (new_pool c)
unfolding new_pool
new_pool-IsPool c = record { tiles = refl; bounded = omega arith }
