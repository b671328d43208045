-- ===== src/Elf/Arena.antt =====
-- `allocation_state` of src/backends/elf/runtime/code_pages.cpp: the slots of the mapped pools.
pub mod Layout
use nekomata.Base.{
  ℕ, ◌+◌, ◌-◌, ◌*◌, ◌/◌, Bool, true, false, not, ◌&&◌, List, [], ◌∷◌, ◌++◌, Option, none, some,
  ◌==◌, leb, ltb, if◌then◌else◌, any,
}

pub record Slot : Type 0 where
  pub begin : ℕ
  pub usable_end : ℕ
  pub extent_end : ℕ
  pub active : Bool
  pub process_lifetime : Bool
  pub executable : Bool

pub record ArenaPool : Type 0 where
  pub begin : ℕ
  pub end_ : ℕ
  pub cursor : ℕ
  pub slots : List Slot

abbrev pub page_size : ℕ
page_size = 4096

unfoldable pub round_up : ℕ → ℕ → ℕ
round_up v align = (v + align - 1) / align * align

abbrev pub rel32_limit : ℕ
rel32_limit = 0x7ffff000

unfoldable pub within_rel32 : ℕ → ℕ → Bool
within_rel32 a b = ltb (if ltb b a then a - b else b - a) rel32_limit

unfoldable pub range_within_rel32 : ℕ → ℕ → ℕ → Bool
unfolding within_rel32
range_within_rel32 first last hint =
    ltb first last && (within_rel32 first hint && within_rel32 (last - 1) hint)

unfoldable pub find : ℕ → List Slot → Option Slot
find at [] = none
find at (c ∷ cs) = let rest = find at cs in if c.active && c.begin == at then some c else rest

unfoldable pub reusable : ℕ → ℕ → Slot → Bool
unfolding range_within_rel32
reusable hint span c =
    not c.active
    && (leb (span + page_size) (c.extent_end - c.begin)
        && range_within_rel32 c.begin (c.begin + span) hint)

unfoldable pub has_room : ℕ → ℕ → ArenaPool → Bool
unfolding range_within_rel32
has_room hint span pool =
    leb pool.cursor pool.end_
    && (leb (span + page_size) (pool.end_ - pool.cursor)
        && range_within_rel32 pool.cursor (pool.cursor + span) hint)

abbrev pub taken : ℕ → Slot → Slot
taken span c = record c {
  usable_end = c.begin + span;
  active = true;
  process_lifetime = false;
  executable = false;
}

abbrev pub fresh_slot : ℕ → ℕ → Slot
fresh_slot span at = record {
  begin = at;
  usable_end = at + span;
  extent_end = at + (span + page_size);
  active = true;
  process_lifetime = false;
  executable = false;
}

abbrev pub extended : ℕ → ArenaPool → ArenaPool
extended span pool = record pool {
  slots = pool.slots ++ fresh_slot span pool.cursor ∷ [];
  cursor = pool.cursor + (span + page_size);
}

-- A search of the slots behind `c`.
unfoldable pub behind : Slot → ℕ × Option (ℕ × List Slot) → ℕ × Option (ℕ × List Slot)
behind c (k, none) = (k, none)
behind c (k, some (at, cs)) = (k, some (at, c ∷ cs))

-- The result of one pool, or else of the later ones.
unfoldable pub or_later :
    ArenaPool
    → List ArenaPool
    → Option (ℕ × ArenaPool)
    → ℕ × Option (ℕ × List ArenaPool)
    → ℕ
    → ℕ × Option (ℕ × List ArenaPool)
or_later pool pools (some (at, pool')) later k = (k, some (at, pool' ∷ pools))
or_later pool pools none (k', some (at, pools')) k = (k', some (at, pool ∷ pools'))
or_later pool pools none (k', none) k = (k', none)

-- `mprotect n begin length`: whether the n-th call of mprotect succeeds. A search returns the number of
-- calls so far, the address reserved and the new slots.
module _ (mprotect : ℕ → ℕ → ℕ → Bool) (hint span : ℕ) where
  unfoldable pub reserve_slot : ℕ → List Slot → ℕ × Option (ℕ × List Slot)
  unfolding reusable behind
  reserve_slot n [] = (n, none)
  reserve_slot n (c ∷ cs) =
      let skip = behind c (reserve_slot n cs) in
      let refused = behind c (reserve_slot (n + 1) cs) in
      if reusable hint span c
      then (if mprotect n c.begin span then (n + 1, some (c.begin, taken span c ∷ cs)) else refused)
      else skip

  -- The space behind the cursor, if no slot of the pool was given back.
  unfoldable pub at_cursor : ArenaPool → ℕ × Option (ℕ × List Slot) → ℕ × Option (ℕ × ArenaPool)
  unfolding has_room
  at_cursor pool (k, some (at, cs)) = (k, some (at, record pool { slots = cs }))
  at_cursor pool (k, none) =
      if has_room hint span pool
      then (if mprotect k pool.cursor span
          then (k + 1, some (pool.cursor, extended span pool))
          else (k + 1, none))
      else (k, none)

  unfoldable pub reserve_pool : ℕ → ArenaPool → ℕ × Option (ℕ × ArenaPool)
  unfolding reserve_slot at_cursor
  reserve_pool n pool = at_cursor pool (reserve_slot n pool.slots)

  unfoldable pub reserve : ℕ → List ArenaPool → ℕ × Option (ℕ × List ArenaPool)
  unfolding reserve_pool or_later
  reserve n [] = (n, none)
  reserve n (pool ∷ pools) =
      let (k, found) = reserve_pool n pool in or_later pool pools found (reserve k pools) k

-- The first active slot at an address, changed.
unfoldable pub change_slot : ℕ → (Slot → Slot) → List Slot → List Slot
change_slot at f [] = []
change_slot at f (c ∷ cs) =
    let rest = change_slot at f cs in if c.active && c.begin == at then f c ∷ cs else c ∷ rest

unfoldable pub is_active_at : ℕ → List Slot → Bool
is_active_at at = any λ c. c.active && c.begin == at

unfoldable pub change_pools : ℕ → (Slot → Slot) → List ArenaPool → List ArenaPool
unfolding change_slot is_active_at
change_pools at f [] = []
change_pools at f (pool ∷ pools) =
    let rest = change_pools at f pools in
    if is_active_at at pool.slots
    then record pool { slots = change_slot at f pool.slots } ∷ pools
    else pool ∷ rest

-- `reclaim`, by whether mprotect could make the slot's extent inaccessible.
abbrev pub reclaimed : Bool → Slot → Slot
reclaimed false c = record c { process_lifetime = true }
reclaimed true c = record c {
  active = false;
  process_lifetime = false;
  executable = false;
  usable_end = c.begin;
}

unfoldable pub reclaim : Bool → ℕ → List ArenaPool → List ArenaPool
unfolding change_pools
reclaim protected at = change_pools at (reclaimed protected)

unfoldable pub release_to_process : ℕ → List ArenaPool → List ArenaPool
unfolding change_pools
release_to_process at = change_pools at λ c. record c { process_lifetime = true }
