-- ===== src/Elf/Pools/Reclaimed.antt =====
-- What `reclaim` does to the pools: to one slot, and to no other.
use nekomata.Base.{
  ℕ, ◌+◌, ◌≤◌, ◌<◌, ◌≡◌, refl, Bool, true, false, ◌&&◌, ◌⊎◌, inl, inr, List, [], ◌∷◌, map, arith,
  All, Bool-cases, ◌==◌,
}
use nekomata.Elf.Arena.{
  Slot, ArenaPool, change_slot, change_pools, is_active_at, reclaimed, reclaim,
}
use nekomata.Elf.Arena.Layout.{Tiles, IsArena, Tiles-behind, reclaim-IsArena}
use nekomata.Elf.Pools.Apart.{bounds, AreBoundsApart, ArePoolsApart}

abbrev IsActive : ℕ → Slot → Type 0
IsActive at c = (c.active ≡ true) × (c.begin ≡ at)

-- The slot was the active one at the address, and is free now: it has its extent, and nothing in it
-- can be used or executed.
abbrev pub GivenBack : ℕ → Slot → Slot → Type 0
GivenBack at c d =
    IsActive at c
    × (d.active ≡ false)
    × (d.executable ≡ false)
    × (d.process_lifetime ≡ false)
    × (d.usable_end ≡ d.begin)
    × (d.begin ≡ c.begin)
    × (d.extent_end ≡ c.extent_end)

-- The slot is the active one at the address, and is kept for the lifetime of the process.
abbrev pub Retained : ℕ → Slot → Slot → Type 0
Retained at c d =
    IsActive at c
    × (d.process_lifetime ≡ true)
    × (d.active ≡ true)
    × (d.executable ≡ c.executable)
    × (d.usable_end ≡ c.usable_end)
    × (d.begin ≡ c.begin)
    × (d.extent_end ≡ c.extent_end)

-- Each slot is as it was, or related to what it was.
abbrev pub SlotsChange : (Slot → Slot → Type 0) → List Slot → List Slot → Type 0
SlotsChange R [] [] = Unit {0}
SlotsChange R [] (d ∷ ds) = ⊥
SlotsChange R (c ∷ cs) [] = ⊥
SlotsChange R (c ∷ cs) (d ∷ ds) = ((d ≡ c) ⊎ R c d) × SlotsChange R cs ds

abbrev pub PoolsChange : (Slot → Slot → Type 0) → List ArenaPool → List ArenaPool → Type 0
PoolsChange R [] [] = Unit {0}
PoolsChange R [] (q ∷ qs) = ⊥
PoolsChange R (p ∷ ps) [] = ⊥
PoolsChange R (p ∷ ps) (q ∷ qs) =
    ((q.begin ≡ p.begin)
      × (q.end_ ≡ p.end_)
      × (q.cursor ≡ p.cursor)
      × SlotsChange R p.slots q.slots)
    × PoolsChange R ps qs

-- Every active slot at the address, in any pool.
abbrev pub EveryActive : ℕ → (Slot → Type 0) → List ArenaPool → Type 0
EveryActive at Q =
    All λ (p : ArenaPool). All (λ (c : Slot). c.active ≡ true → c.begin ≡ at → Q c) p.slots

abbrev OnSlots : ℕ → (Slot → Type 0) → List Slot → Type 0
OnSlots at Q = All λ (c : Slot). c.active ≡ true → c.begin ≡ at → Q c

SlotsChange-refl : (R : Slot → Slot → Type 0) (cs : List Slot) → SlotsChange R cs cs
SlotsChange-refl R [] = tt
SlotsChange-refl R (c ∷ cs) = (inl refl, SlotsChange-refl R cs)

PoolsChange-refl : (R : Slot → Slot → Type 0) (ps : List ArenaPool) → PoolsChange R ps ps
PoolsChange-refl R [] = tt
PoolsChange-refl R (p ∷ ps) =
    ((refl, refl, refl, SlotsChange-refl R p.slots), PoolsChange-refl R ps)

behind-OnSlots :
    (at : ℕ) (Q : Slot → Type 0) (cs : List Slot)
    → All (λ (d : Slot). at + 1 ≤ d.begin) cs
    → OnSlots at Q cs
behind-OnSlots at Q [] h = tt
behind-OnSlots at Q (c ∷ cs) (lt, h) =
    (λ on same. absurd (omega (arith, lt, same)), behind-OnSlots at Q cs h)

-- The slots of a pool begin between its bounds.
Tiles-within :
    (cs : List Slot) (at end_ low high : ℕ)
    → low ≤ at
    → end_ ≤ high
    → Tiles at cs end_
    → (at ≤ end_) × All (λ (d : Slot). (low ≤ d.begin) × (d.begin < high)) cs
Tiles-within [] at end_ low high le le' t = (omega arith, tt)
Tiles-within (c ∷ cs) at end_ low high le le' (e, s, t) =
    let (past, rest) =
      Tiles-within cs c.extent_end end_ low high (omega (arith, s.usable, s.guarded)) le' t in
    (
      omega (arith, s.usable, s.guarded, past),
      ((omega arith, omega (arith, s.usable, s.guarded, past)), rest),
    )

active-within :
    (at low high : ℕ) (cs : List Slot)
    → All (λ (d : Slot). (low ≤ d.begin) × (d.begin < high)) cs
    → is_active_at at cs ≡ true
    → (low ≤ at) × (at < high)
unfolding is_active_at
active-within at low high [] h e = absurd cc
active-within at low high (c ∷ cs) (h, hs) e = elim (Bool-cases (c.active && c.begin == at)) [
  | inl here ↦ ground (arith, h, here)
  | inr other ↦ active-within at low high cs hs (ground (arith, e, other))
]

outside-OnSlots :
    (at : ℕ) (Q : Slot → Type 0) (low high : ℕ) (cs : List Slot)
    → All (λ (d : Slot). (low ≤ d.begin) × (d.begin < high)) cs
    → (at < low) ⊎ (high ≤ at)
    → OnSlots at Q cs
outside-OnSlots at Q low high [] h out = tt
outside-OnSlots at Q low high (c ∷ cs) (h, hs) out =
    (λ on same. absurd (ground (arith, h, out, same)), outside-OnSlots at Q low high cs hs out)

inactive-OnSlots :
    (at : ℕ) (Q : Slot → Type 0) (cs : List Slot) → is_active_at at cs ≡ false → OnSlots at Q cs
unfolding is_active_at
inactive-OnSlots at Q [] e = tt
inactive-OnSlots at Q (c ∷ cs) e =
    (λ on same. absurd (ground (arith, e, on, same)), inactive-OnSlots at Q cs (ground (arith, e)))

-- The pools apart from one with the address have no slot there.
apart-EveryActive :
    (at : ℕ) (Q : Slot → Type 0) (p : ArenaPool) (ps : List ArenaPool)
    → IsArena ps
    → All (AreBoundsApart (bounds p)) (map bounds ps)
    → p.begin ≤ at
    → at < p.end_
    → EveryActive at Q ps
apart-EveryActive at Q p [] arena apart le lt = tt
apart-EveryActive at Q p (q ∷ qs) (is, arena) (a, apart) le lt = (
  outside-OnSlots at Q q.begin q.end_ q.slots
      (Tiles-within q.slots q.begin q.cursor q.begin q.end_ (omega arith) is.bounded is.tiles).1
      (ground (arith, a, le, lt)),
  apart-EveryActive at Q p qs arena apart le lt,
)

module _ (at : ℕ) (f : Slot → Slot) (R : Slot → Slot → Type 0) (Q : Slot → Type 0)
    (relates : (c : Slot) → c.active ≡ true → c.begin ≡ at → R c (f c))
    (reaches : (c : Slot) → (f c).active ≡ true → Q (f c)) where
  change_slot-Changes :
      (cs : List Slot) (low end_ : ℕ)
      → Tiles low cs end_
      → SlotsChange R cs (change_slot at f cs) × OnSlots at Q (change_slot at f cs)
  unfolding change_slot
  change_slot-Changes [] low end_ t = (tt, tt)
  change_slot-Changes (c ∷ cs) low end_ (e, s, t) = elim (Bool-cases (c.active && c.begin == at)) [
    | inl here ↦ rw here (
      (inr (relates c (ground (arith, here)) (ground (arith, here))), SlotsChange-refl R cs),
      (
        λ on same. reaches c on,
        behind-OnSlots at Q cs (
            Tiles-behind cs c.extent_end end_ (at + 1) (ground (arith, here, s.usable, s.guarded))
              t),
      ),
    )
    | inr other ↦
        let (change, on) = change_slot-Changes cs c.extent_end end_ t in
        rw other
          ((inl refl, change), ((λ active same. absurd (ground (arith, other, active, same))), on))
  ]

  change_pools-Changes :
      (ps : List ArenaPool)
      → IsArena ps
      → ArePoolsApart ps
      → PoolsChange R ps (change_pools at f ps) × EveryActive at Q (change_pools at f ps)
  unfolding change_pools
  change_pools-Changes [] arena apart = (tt, tt)
  change_pools-Changes (p ∷ ps) (is, arena) (a, apart) =
      elim (Bool-cases (is_active_at at p.slots)) [
        | inl here ↦
            let (change, on) = change_slot-Changes p.slots p.begin p.cursor is.tiles in
            let within =
              Tiles-within p.slots p.begin p.cursor p.begin p.end_ (omega arith) is.bounded
                is.tiles in
            let (le, lt) = active-within at p.begin p.end_ p.slots within.1 here in
            rw here (
              ((refl, refl, refl, change), PoolsChange-refl R ps),
              (on, apart-EveryActive at Q p ps arena a le lt),
            )
        | inr other ↦
            let (changes, on) = change_pools-Changes ps arena apart in
            rw other (
              ((refl, refl, refl, SlotsChange-refl R p.slots), changes),
              (inactive-OnSlots at Q p.slots other, on),
            )
      ]

-- What reclaiming an address leaves, by whether its pages could be made inaccessible.
abbrev pub Reclaims : Bool → ℕ → List ArenaPool → List ArenaPool → Type 0
Reclaims true at ps qs = IsArena qs × PoolsChange (GivenBack at) ps qs × EveryActive at (λ c. ⊥) qs
Reclaims false at ps qs =
    IsArena qs
    × PoolsChange (Retained at) ps qs
    × EveryActive at (λ (c : Slot). c.process_lifetime ≡ true) qs

-- In well-formed pools that are apart, reclaiming an address touches the active slot there and nothing
-- else, and the pools stay well formed. When its pages could be made inaccessible, no slot is active at
-- the address any more, in any pool: the slot has its whole extent free, with no usable bytes, and is
-- neither executable nor kept for the process. Otherwise it stays active with its bytes, kept for the
-- lifetime of the process.
pub reclaim-Reclaims :
    (protected : Bool) (at : ℕ) (pools : List ArenaPool)
    → IsArena pools
    → ArePoolsApart pools
    → Reclaims protected at pools (reclaim protected at pools)
unfolding reclaim
reclaim-Reclaims true at pools arena apart =
    let (changes, on) =
      change_pools-Changes at (reclaimed true) (GivenBack at) (λ c. ⊥)
        (λ c on same. ((on, same), refl, refl, refl, refl, refl, refl)) (λ c on. absurd cc) pools
        arena apart in
    (reclaim-IsArena true at pools arena, changes, on)
reclaim-Reclaims false at pools arena apart =
    let (changes, on) =
      change_pools-Changes at (reclaimed false) (Retained at)
        (λ (c : Slot). c.process_lifetime ≡ true)
        (λ c on same. ((on, same), refl, on, refl, refl, refl, refl)) (λ c on. refl) pools arena
        apart in
    (reclaim-IsArena false at pools arena, changes, on)
