-- ===== src/Elf/CodePages/Redirect.antt =====
-- Where a patched entry leads.
use nekomata.Base.{
  ℕ, ◌+◌, ◌*◌, ◌/◌, ◌%◌, ◌<◌, ◌≤◌, ◌≡◌, refl, ap, ◌∙◌, Bool, true, arith, Bool-cases, inl, inr,
  get_or,
}
use nekomata.Text.{Bytes}
use nekomata.Runtime.Backend.{Memory, write_entry, in_entry}
use nekomata.Elf.Arena.{page_size}
use nekomata.Elf.CodePages.{
  Pages, address_limit, owns_address, displacement, read_rel32, redirect_target, within_reach,
  patchable_entry, jump, patch_entry, write_code,
}

-- The four bytes of a 32-bit number make that number.
bytes-sum :
    (r : ℕ)
    → r % 256 + 256 * (r / 256 % 256) + 65536 * (r / 65536 % 256) + 16777216 * (r / 16777216 % 256)
      ≡ r % 4294967296
bytes-sum r = omega arith

write_entry-at :
    (m : Memory) (entry k : ℕ) (code : Bytes)
    → k < 5
    → write_entry m entry code (entry + k) ≡ get_or code k 0
write_entry-at m entry k code low =
    let inside : in_entry entry (entry + k) ≡ true = ground arith in
    rw inside (ap (λ i. get_or code i 0) (omega arith))

write_entry-first :
    (m : Memory) (entry : ℕ) (code : Bytes) → write_entry m entry code entry ≡ get_or code 0 0
write_entry-first m entry code =
    ap (write_entry m entry code) (omega arith) ∙ write_entry-at m entry 0 code (omega arith)

read_rel32-jump :
    (m : Memory) (entry target : ℕ)
    → read_rel32 (write_entry m entry (jump entry target)) entry
      ≡ displacement entry target % 4294967296
unfolding read_rel32
read_rel32-jump m entry target =
    let code = jump entry target in
    rw
      (
        write_entry-at m entry 1 code (omega arith),
        write_entry-at m entry 2 code (omega arith),
        write_entry-at m entry 3 code (omega arith),
        write_entry-at m entry 4 code (omega arith),
      )
      (unfold jump in bytes-sum (displacement entry target))

-- A redirect that is written leads to its target.
pub redirect_target-jump :
    (m : Memory) (entry target : ℕ)
    → entry + 5 ≤ address_limit
    → target < address_limit
    → within_reach entry target ≡ true
    → redirect_target (write_entry m entry (jump entry target)) entry ≡ target
unfolding redirect_target displacement within_reach
redirect_target-jump m entry target small low near =
    rw (read_rel32-jump m entry target) (ground arith)

patch_entry-done :
    (mprotect : ℕ → ℕ → ℕ → Bool) (p : Pages) (entry target : ℕ)
    → (patch_entry mprotect p entry target).1 ≡ true
    → ((patch_entry mprotect p entry target).0
        ≡ record p { bytes = write_entry p.bytes entry (jump entry target); calls = p.calls + 2 })
      × (within_reach entry target ≡ true)
unfolding patch_entry write_code
patch_entry-done mprotect p entry target done = elim (Bool-cases (patchable_entry p entry target)) [
  | inr cannot ↦ cc (rw cannot at done)
  | inl can ↦ elim (Bool-cases (mprotect p.calls (entry / page_size * page_size) (page_size * 2))) [
    | inr refused ↦ cc (rw (can, refused) at done)
    | inl writable ↦ rw (can, writable) (refl, unfold patchable_entry in ground (arith, can))
  ]
]

-- An entry that was redirected into committed code can be redirected again, to any target within
-- reach.
pub patch_entry-again :
    (mprotect : ℕ → ℕ → ℕ → Bool) (p : Pages) (entry target next : ℕ)
    → entry + 5 ≤ address_limit
    → target < address_limit
    → (patch_entry mprotect p entry target).1 ≡ true
    → owns_address p.pools target ≡ true
    → within_reach entry next ≡ true
    → patchable_entry (patch_entry mprotect p entry target).0 entry next ≡ true
patch_entry-again mprotect p entry target next small low done owned near =
    let (same, reach) = patch_entry-done mprotect p entry target done in
    let leads = redirect_target-jump p.bytes entry target small low reach in
    let first : write_entry p.bytes entry (jump entry target) entry ≡ 0xe9 =
      write_entry-first p.bytes entry (jump entry target) ∙ (unfold jump in refl) in
    rw same (unfold patchable_entry in rw (leads, first, owned, near) (ground arith))
