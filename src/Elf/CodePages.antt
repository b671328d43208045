-- ===== src/Elf/CodePages.antt =====
-- src/backends/elf/runtime/code_pages.cpp: the code and the entries that `code_pages` writes.
pub mod Redirect
pub mod Backend
use nekomata.Base.{
  ℕ, ◌+◌, ◌-◌, ◌*◌, ◌/◌, ◌%◌, Bool, true, false, not, ◌&&◌, ◌||◌, List, [], ◌∷◌, Option, none, some,
  ◌==◌, leb, ltb, if◌then◌else◌, any,
}
use nekomata.Text.{Bytes}
use nekomata.Runtime.Backend.{Memory, write_entry, read_entry}
use nekomata.Elf.Arena.{Slot, ArenaPool, page_size}

-- The process as `code_pages` sees it. `calls` counts the calls of mprotect, whose outcome may
-- differ from call to call.
pub record Pages : Type 0 where
  pub bytes : Memory
  pub pools : List ArenaPool
  pub calls : ℕ

abbrev pub address_limit : ℕ
address_limit = 18446744073709551616

-- Whether `address` lies in committed code.
unfoldable pub owns_address : List ArenaPool → ℕ → Bool
owns_address pools address =
    any
      (λ pool.
        any (λ s. s.active && (s.executable && (leb s.begin address && ltb address s.usable_end)))
          pool.slots)
      pools

-- `rel`, as the 64 bits of its std::int64_t.
unfoldable pub displacement : ℕ → ℕ → ℕ
displacement entry target = (target + address_limit - (entry + 5)) % address_limit

-- The std::int32_t behind an E9 byte, as 32 bits.
unfoldable pub read_rel32 : Memory → ℕ → ℕ
read_rel32 m entry =
    m (entry + 1) + 256 * m (entry + 2) + 65536 * m (entry + 3) + 16777216 * m (entry + 4)

-- Where the jump at `entry` leads: the address behind it plus the sign-extended displacement.
unfoldable pub redirect_target : Memory → ℕ → ℕ
unfolding read_rel32
redirect_target m entry =
    let rel = read_rel32 m entry in
    if ltb rel 2147483648
    then (entry + 5 + rel) % address_limit
    else (entry + 5 + rel + (address_limit - 4294967296)) % address_limit

unfoldable pub prologue_push_rbp : Memory → ℕ → Bool
prologue_push_rbp m entry =
    m entry == 0x55 && (m (entry + 1) == 0x48 && (m (entry + 2) == 0x89 && m (entry + 3) == 0xe5))

unfoldable pub prologue_endbr64 : Memory → ℕ → Bool
prologue_endbr64 m entry =
    m entry == 0xf3
    && (m (entry + 1) == 0x0f
        && (m (entry + 2) == 0x1e && (m (entry + 3) == 0xfa && m (entry + 4) == 0x55)))

-- The reach of `jmp rel32`. Addresses of a process lie below 2 ^ 63, where the difference of two of
-- them is exact in std::int64_t.
unfoldable pub within_reach : ℕ → ℕ → Bool
within_reach entry target =
    leb target (entry + 5 + 0x7fffffff) && leb (entry + 5) (target + 0x80000000)

unfoldable pub patchable_entry : Pages → ℕ → ℕ → Bool
unfolding within_reach prologue_push_rbp prologue_endbr64 redirect_target owns_address
patchable_entry p entry target =
    let m = p.bytes in
    let ours = m entry == 0xe9 && owns_address p.pools (redirect_target m entry) in
    (prologue_push_rbp m entry || (prologue_endbr64 m entry || ours)) && within_reach entry target

unfoldable pub precheck_entry : Pages → ℕ → ℕ → Bool
precheck_entry = patchable_entry

unfoldable pub snapshot_entry : Pages → ℕ → Option Bytes
snapshot_entry p entry =
    if patchable_entry p entry entry then some (read_entry p.bytes entry) else none

-- E9 and the low four bytes of the displacement.
unfoldable pub jump : ℕ → ℕ → Bytes
unfolding displacement
jump entry target =
    let rel = displacement entry target in
    0xe9 ∷ rel % 256 ∷ rel / 256 % 256 ∷ rel / 65536 % 256 ∷ rel / 16777216 % 256 ∷ []

-- `mprotect n begin length`: whether the n-th call of mprotect succeeds. The second call of a
-- write, which makes the page read-only again, may fail: the code logs that and goes on.
module _ (mprotect : ℕ → ℕ → ℕ → Bool) where
  unfoldable pub write_code : Pages → ℕ → Bytes → Pages × Bool
  write_code p entry code =
      let page_start = entry / page_size * page_size in
      if mprotect p.calls page_start (page_size * 2)
      then (record p { bytes = write_entry p.bytes entry code; calls = p.calls + 2 }, true)
      else (record p { calls = p.calls + 1 }, false)

  unfoldable pub patch_entry : Pages → ℕ → ℕ → Pages × Bool
  unfolding write_code patchable_entry jump
  patch_entry p entry target =
      if patchable_entry p entry target then write_code p entry (jump entry target) else (p, false)

  unfoldable pub restore_entry : Pages → ℕ → Bytes → Pages × Bool
  unfolding write_code
  restore_entry p entry original = write_code p entry original
