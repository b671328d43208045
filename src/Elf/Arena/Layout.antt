-- ===== src/Elf/Arena/Layout.antt =====
-- The slots of a pool keep apart, whatever is reserved and reclaimed.
use nekomata.Base.{
  ℕ, ◌+◌, ◌≤◌, ◌≡◌, refl, sym, ◌∙◌, subst, Bool, true, false, ◌&&◌, List, [], ◌∷◌, ◌++◌, Option,
  none, some, ◌==◌, arith, All, Bool-cases, inl, inr, ◌⊎◌,
}
use nekomata.Elf.Arena.{
  Slot, ArenaPool, page_size, reusable, has_room, taken, fresh_slot, reserve_slot, reserve_pool,
  reserve, change_slot, change_pools, is_active_at, reclaimed, reclaim, release_to_process,
  range_within_rel32, behind, at_cursor, or_later,
}

-- A slot's usable bytes lie in its extent and leave a guard page behind them.
pub record IsSlot (c : Slot) : Type 0 where
  pub usable : c.begin ≤ c.usable_end
  pub guarded : c.usable_end + page_size ≤ c.extent_end

-- The slots fill the addresses between two bounds, one behind the other.
abbrev pub Tiles : ℕ → List Slot → ℕ → Type 0
Tiles at [] end_ = at ≡ end_
Tiles at (c ∷ cs) end_ = (c.begin ≡ at) × IsSlot c × Tiles c.extent_end cs end_

pub record IsPool (pool : ArenaPool) : Type 0 where
  pub tiles : Tiles pool.begin pool.slots pool.cursor
  pub bounded : pool.cursor ≤ pool.end_

abbrev pub IsArena : List ArenaPool → Type 0
IsArena = All IsPool

-- Each slot ends, with its guard page, before the later ones begin.
abbrev pub Apart : List Slot → Type 0
Apart [] = Unit {0}
Apart (c ∷ cs) = All (λ d. c.usable_end + page_size ≤ d.begin) cs × Apart cs

pub Tiles-behind :
    (cs : List Slot) (at end_ k : ℕ) → k ≤ at → Tiles at cs end_ → All (λ d. k ≤ d.begin) cs
Tiles-behind [] at end_ k le t = tt
Tiles-behind (c ∷ cs) at end_ k le (e, s, t) =
    (omega arith, Tiles-behind cs c.extent_end end_ k (omega (arith, s.usable, s.guarded)) t)

-- The slots of a well-formed pool are disjoint, each with a page of its own behind it.
pub Tiles-Apart : (cs : List Slot) (at end_ : ℕ) → Tiles at cs end_ → Apart cs
Tiles-Apart [] at end_ t = tt
Tiles-Apart (c ∷ cs) at end_ (e, s, t) = (
  Tiles-behind cs c.extent_end end_ (c.usable_end + page_size) s.guarded t,
  Tiles-Apart cs c.extent_end end_ t,
)

Tiles-append :
    (cs : List Slot) (d : Slot) (at end_ : ℕ)
    → Tiles at cs end_
    → d.begin ≡ end_
    → IsSlot d
    → Tiles at (cs ++ d ∷ []) d.extent_end
Tiles-append [] d at end_ t e s = (omega arith, s, refl)
Tiles-append (c ∷ cs) d at end_ (e', s', t) e s =
    (e', s', Tiles-append cs d c.extent_end end_ t e s)

Tiles-change_slot :
    (x : ℕ) (f : Slot → Slot) (cs : List Slot) (at end_ : ℕ)
    → ((c : Slot) → (f c).begin ≡ c.begin)
    → ((c : Slot) → (f c).extent_end ≡ c.extent_end)
    → ((c : Slot) → IsSlot c → IsSlot (f c))
    → Tiles at cs end_
    → Tiles at (change_slot x f cs) end_
unfolding change_slot
Tiles-change_slot x f [] at end_ b e keep t = t
Tiles-change_slot x f (c ∷ cs) at end_ b e keep (e', s, t) =
    elim (Bool-cases (c.active && c.begin == x)) [
      | inl here ↦ rw here (b c ∙ e', keep c s, subst (λ k. Tiles k cs end_) (sym (e c)) t)
      | inr other ↦ rw other (e', s, Tiles-change_slot x f cs c.extent_end end_ b e keep t)
    ]

IsArena-change :
    (x : ℕ) (f : Slot → Slot) (pools : List ArenaPool)
    → ((c : Slot) → (f c).begin ≡ c.begin)
    → ((c : Slot) → (f c).extent_end ≡ c.extent_end)
    → ((c : Slot) → IsSlot c → IsSlot (f c))
    → IsArena pools
    → IsArena (change_pools x f pools)
unfolding change_pools
IsArena-change x f [] b e keep a = tt
IsArena-change x f (pool ∷ pools) b e keep (p, a) = elim (Bool-cases (is_active_at x pool.slots)) [
  | inl here ↦ rw here (
    record {
      tiles = Tiles-change_slot x f pool.slots pool.begin pool.cursor b e keep p.tiles;
      bounded = p.bounded;
    },
    a,
  )
  | inr other ↦ rw other (p, IsArena-change x f pools b e keep a)
]

-- Reclaiming a slot keeps the arena well formed, whether or not its pages could be protected.
pub reclaim-IsArena :
    (protected : Bool) (at : ℕ) (pools : List ArenaPool)
    → IsArena pools
    → IsArena (reclaim protected at pools)
unfolding reclaim
reclaim-IsArena true at pools a =
    IsArena-change at (reclaimed true) pools (λ c. refl) (λ c. refl)
      (λ c s. record { usable = omega arith; guarded = omega (arith, s.usable, s.guarded) }) a
reclaim-IsArena false at pools a =
    IsArena-change at (reclaimed false) pools (λ c. refl) (λ c. refl)
      (λ c s. record { usable = s.usable; guarded = s.guarded }) a

-- Releasing a slot to the process keeps the arena well formed.
pub release_to_process-IsArena :
    (at : ℕ) (pools : List ArenaPool) → IsArena pools → IsArena (release_to_process at pools)
unfolding release_to_process
release_to_process-IsArena at pools a =
    IsArena-change at _ pools (λ c. refl) (λ c. refl)
      (λ c s. record { usable = s.usable; guarded = s.guarded }) a

-- One of the slots is in use, begins at that address and has that many usable bytes.
pub Holds : ℕ → ℕ → List Slot → Type 0
Holds span at [] = ⊥
Holds span at (c ∷ cs) =
    ((c.active ≡ true) × (c.begin ≡ at) × (c.usable_end ≡ at + span)) ⊎ Holds span at cs

-- What a search that finds an address promises of the slots it returns: one of them holds the whole
-- span, and all of it is in reach.
pub Serves : ℕ → ℕ → ℕ → List Slot → Type 0
Serves hint span at cs = Holds span at cs × (range_within_rel32 at (at + span) hint ≡ true)

module _ (mprotect : ℕ → ℕ → ℕ → Bool) (hint span : ℕ) where
  GoodSlots : ℕ → ℕ → ℕ × Option (ℕ × List Slot) → Type 0
  GoodSlots at end_ (k, none) = Unit {0}
  GoodSlots at end_ (k, some (x, cs)) = Tiles at cs end_ × Serves hint span x cs

  behind-GoodSlots :
      (c : Slot) (at end_ : ℕ) (r : ℕ × Option (ℕ × List Slot))
      → c.begin ≡ at
      → IsSlot c
      → GoodSlots c.extent_end end_ r
      → GoodSlots at end_ (behind c r)
  unfolding GoodSlots behind Serves Holds
  behind-GoodSlots c at end_ (k, none) e s g = tt
  behind-GoodSlots c at end_ (k, some (x, cs)) e s (t, served) = ((e, s, t), ground (arith, served))

  reserve_slot-GoodSlots :
      (cs : List Slot) (n at end_ : ℕ)
      → Tiles at cs end_
      → GoodSlots at end_ (reserve_slot mprotect hint span n cs)
  unfolding reserve_slot GoodSlots
  reserve_slot-GoodSlots [] n at end_ t = tt
  reserve_slot-GoodSlots (c ∷ cs) n at end_ (e, s, t) = elim (Bool-cases (reusable hint span c)) [
    | inr busy ↦
        rw busy (behind-GoodSlots c at end_ _ e s (reserve_slot-GoodSlots cs n c.extent_end end_ t))
    | inl free ↦ elim (Bool-cases (mprotect n c.begin span)) [
      | inr refused ↦
          rw (free, refused)
            (behind-GoodSlots c at end_ _ e s
              (reserve_slot-GoodSlots cs (n + 1) c.extent_end end_ t))
      | inl done ↦ rw (free, done) ((e, took c free s, t), serves c cs free)
    ]
  ]
    where
      took : (c : Slot) → reusable hint span c ≡ true → IsSlot c → IsSlot (taken span c)
      took c free s = record {
        usable = omega arith;
        guarded = unfold reusable in ground (arith, s.usable, s.guarded);
      }

      serves :
          (c : Slot) (cs : List Slot)
          → reusable hint span c ≡ true
          → Serves hint span c.begin (taken span c ∷ cs)
      serves c cs free =
          unfold Serves in unfold Holds in unfold reusable in (inl (refl, refl, refl), ground arith)

  GoodPool : ℕ × Option (ℕ × ArenaPool) → Type 0
  GoodPool (k, none) = Unit {0}
  GoodPool (k, some (x, pool)) = IsPool pool × Serves hint span x pool.slots

  Holds-last : (cs : List Slot) (at : ℕ) → Holds span at (cs ++ fresh_slot span at ∷ [])
  unfolding Holds
  Holds-last [] at = inl (refl, refl, refl)
  Holds-last (c ∷ cs) at = inr (Holds-last cs at)

  at_cursor-GoodPool :
      (pool : ArenaPool) (r : ℕ × Option (ℕ × List Slot))
      → IsPool pool
      → GoodSlots pool.begin pool.cursor r
      → GoodPool (at_cursor mprotect hint span pool r)
  unfolding at_cursor GoodPool GoodSlots
  at_cursor-GoodPool pool (k, some (x, cs)) p (t, served) =
      (record { tiles = t; bounded = p.bounded }, served)
  at_cursor-GoodPool pool (k, none) p g = elim (Bool-cases (has_room hint span pool)) [
    | inr full ↦ rw full tt
    | inl room ↦ elim (Bool-cases (mprotect k pool.cursor span)) [
      | inr refused ↦ rw (room, refused) tt
      | inl done ↦
          rw (room, done)
            (
              record {
                tiles =
                    Tiles-append pool.slots (fresh_slot span pool.cursor) pool.begin pool.cursor
                      p.tiles refl fresh;
                bounded = unfold has_room in ground arith;
              },
              unfold Serves in (Holds-last pool.slots pool.cursor, unfold has_room in ground arith),
            )
    ]
  ]
    where
      fresh : {at : ℕ} → IsSlot (fresh_slot span at)
      fresh = record { usable = omega arith; guarded = omega arith }

  reserve_pool-GoodPool :
      (pool : ArenaPool) (n : ℕ) → IsPool pool → GoodPool (reserve_pool mprotect hint span n pool)
  unfolding reserve_pool
  reserve_pool-GoodPool pool n p =
      at_cursor-GoodPool pool (reserve_slot mprotect hint span n pool.slots) p
        (reserve_slot-GoodSlots pool.slots n pool.begin pool.cursor p.tiles)

  abbrev pub Serving : ℕ → List ArenaPool → Type 0
  Serving x [] = ⊥
  Serving x (pool ∷ pools) = Serves hint span x pool.slots ⊎ Serving x pools

  abbrev pub GoodArena : ℕ × Option (ℕ × List ArenaPool) → Type 0
  GoodArena (k, none) = Unit {0}
  GoodArena (k, some (x, pools)) = IsArena pools × Serving x pools

  or_later-GoodArena :
      (pool : ArenaPool) (pools : List ArenaPool) (found : Option (ℕ × ArenaPool))
      (later : ℕ × Option (ℕ × List ArenaPool)) (k : ℕ)
      → IsPool pool
      → IsArena pools
      → GoodPool (k, found)
      → GoodArena later
      → GoodArena (or_later pool pools found later k)
  unfolding or_later GoodPool
  or_later-GoodArena pool pools (some (x, pool')) later k p a g h = ((g.0, a), inl g.1)
  or_later-GoodArena pool pools none (k', some (x, pools')) k p a g (a', h) = ((p, a'), inr h)
  or_later-GoodArena pool pools none (k', none) k p a g h = tt

  pub reserve-GoodArena :
      (n : ℕ) (pools : List ArenaPool)
      → IsArena pools
      → GoodArena (reserve mprotect hint span n pools)
  unfolding reserve
  reserve-GoodArena n [] a = tt
  reserve-GoodArena n (pool ∷ pools) (p, a) =
      or_later-GoodArena pool pools _ _ _ p a (reserve_pool-GoodPool pool n p)
        (reserve-GoodArena (reserve_pool mprotect hint span n pool).0 pools a)

  -- A reservation keeps the arena well formed, and its address is that of an active slot of a pool
  -- that has the whole span, within reach of the hint.
  pub reserve-IsArena :
      (n k at : ℕ) (pools pools' : List ArenaPool)
      → reserve mprotect hint span n pools ≡ (k, some (at, pools'))
      → IsArena pools
      → IsArena pools' × Serving at pools'
  reserve-IsArena n k at pools pools' e a = subst GoodArena e (reserve-GoodArena n pools a)
