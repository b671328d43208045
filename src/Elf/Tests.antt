-- ===== src/Elf/Tests.antt =====
-- The theorems on pages and slots at concrete addresses.
use nekomata.Base.{ℕ, ◌≡◌, refl, Bool, true, List, [], ◌∷◌, Option, some, All, inl, inr, arith}
use nekomata.Runtime.Backend.{Memory, write_entry}
use nekomata.Elf.Arena.{ArenaPool, fresh_slot, reserve, reclaim}
use nekomata.Elf.Arena.Layout.{IsArena}
use nekomata.Elf.Pools.{MappedRange, find_pool_candidates, reserve_near}
use nekomata.Elf.Pools.Candidates.{IsCandidate, find_pool_candidates-AreCandidates}
use nekomata.Elf.Pools.Apart.{IsMapped}
use nekomata.Elf.Pools.Reclaimed.{Reclaims, reclaim-Reclaims}
use nekomata.Elf.Pools.Reserved.{IsReserved, reserve_near-IsReserved}
use nekomata.Elf.CodePages.{
  Pages, jump, patch_entry, patchable_entry, redirect_target, within_reach, owns_address,
}
use nekomata.Elf.CodePages.Redirect.{redirect_target-jump, patch_entry-again}

abbrev blank : Memory
blank x = 0

abbrev near : within_reach 1000 5064 ≡ true
unfolding within_reach
near = refl

redirect_target-jump_example : redirect_target (write_entry blank 1000 (jump 1000 5064)) 1000 ≡ 5064
redirect_target-jump_example = redirect_target-jump blank 1000 5064 (omega arith) (omega arith) near

-- One pool of sixteen pages with one committed slot.
abbrev pool : ArenaPool
pool = record {
  begin = 65536;
  end_ = 131072;
  cursor = 73728;
  slots = record (fresh_slot 4096 65536) { executable = true } ∷ [];
}

pool-IsArena : IsArena (pool ∷ [])
pool-IsArena = (
  record {
    tiles = (refl, record { usable = omega arith; guarded = omega arith }, refl);
    bounded = omega arith;
  },
  tt,
)

abbrev writable : ℕ → ℕ → ℕ → Bool
writable n at size = true

abbrev reserved : List ArenaPool
reserved =
    record pool {
      cursor = 81920;
      slots = record (fresh_slot 4096 65536) { executable = true } ∷ fresh_slot 4096 73728 ∷ [];
    }
    ∷ []

reserved-ok : reserve writable 60000 4096 0 (pool ∷ []) ≡ (1, some (73728, reserved))
unfolding reserve
reserved-ok = refl

reclaim-Reclaims_example : Reclaims true 65536 (pool ∷ []) (reclaim true 65536 (pool ∷ []))
reclaim-Reclaims_example = reclaim-Reclaims true 65536 (pool ∷ []) pool-IsArena (tt, tt)

-- A process with a patchable entry at 1000 that will jump into the committed slot.
abbrev process : Pages
process = record {
  bytes = write_entry blank 1000 (0xf3 ∷ 0x0f ∷ 0x1e ∷ 0xfa ∷ 0x55 ∷ []);
  pools = pool ∷ [];
  calls = 0;
}

process-patched : (patch_entry writable process 1000 65600).1 ≡ true
unfolding patch_entry
process-patched = refl

process-owns : owns_address process.pools 65600 ≡ true
unfolding owns_address
process-owns = refl

patch_entry-again_example :
    patchable_entry (patch_entry writable process 1000 65600).0 1000 5064 ≡ true
patch_entry-again_example =
    patch_entry-again writable process 1000 65600 5064 (omega arith) (omega arith) process-patched
      process-owns near

-- The pool and a program far above it.
abbrev maps : List MappedRange
maps =
    record { begin = 4294967296; end_ = 4299161600 } ∷ record { begin = 65536; end_ = 131072 } ∷ []

abbrev entry : ℕ
entry = 4294971392

abbrev as_asked : ℕ → ℕ → ℕ → Option ℕ
as_asked n at size = some at

-- Right behind the program, and then the larger gap below it.
candidates-found :
    find_pool_candidates 65536 maps entry 8192
    ≡ record { begin = 4227858432; size = 67108864; distance = 4097 }
      ∷ record { begin = 4299161600; size = 67108864; distance = 4190208 }
      ∷ []
unfolding find_pool_candidates
candidates-found = refl

pools-found :
    (reserve_near writable as_asked 65536 maps entry 0 (pool ∷ []) 100).1
    ≡ some (record { begin = 4227858432; size = 100 })
unfolding reserve_near
pools-found = refl

find_pool_candidates-AreCandidates_example :
    All (IsCandidate 65536 maps entry 8192) (find_pool_candidates 65536 maps entry 8192)
find_pool_candidates-AreCandidates_example =
    find_pool_candidates-AreCandidates 65536 maps entry 8192 (omega arith) (omega arith)
      (omega arith) (omega arith, (omega arith, tt))

pool-IsMapped : IsMapped maps pool
pool-IsMapped = (omega arith, λ x from to. inr (inl (from, to)))

reserve_near-IsReserved_example :
    IsReserved writable entry 100
      (pool ∷ [])
      (reserve_near writable as_asked 65536 maps entry 0 (pool ∷ []) 100)
reserve_near-IsReserved_example =
    reserve_near-IsReserved writable as_asked 65536 maps entry 0 (pool ∷ []) 100 (omega arith)
      (omega arith) (omega arith, (omega arith, tt)) (pool-IsMapped, tt) pool-IsArena (tt, tt)
