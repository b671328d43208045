-- ===== src/Elf/CodePages/Backend.antt =====
-- `code_pages` keeps what the session relies on of a substituter.
use nekomata.Base.{ℕ, ◌≡◌, refl, Bool, true, false, some, arith, Bool-cases, inl, inr}
use nekomata.Text.{Bytes}
use nekomata.Runtime.Backend.{write_entry, read_entry, Substituter}
use nekomata.Elf.CodePages.{
  Pages, jump, patchable_entry, precheck_entry, snapshot_entry, write_code, patch_entry,
  restore_entry,
}

pub snapshot-reads :
    (p : Pages) (entry : ℕ) (code : Bytes)
    → snapshot_entry p entry ≡ some code
    → code ≡ read_entry p.bytes entry
unfolding snapshot_entry
snapshot-reads p entry code e = elim (Bool-cases (patchable_entry p entry entry)) [
  | inl can ↦ cc (rw can at e)
  | inr cannot ↦ cc (rw cannot at e)
]

module _ (mprotect : ℕ → ℕ → ℕ → Bool) where
  pub write-writes :
      (p : Pages) (entry : ℕ) (code : Bytes) (x : ℕ)
      → (write_code mprotect p entry code).1 ≡ true
      → (write_code mprotect p entry code).0.bytes x ≡ write_entry p.bytes entry code x
  unfolding write_code
  write-writes p entry code x e = ground arith

  write-refuses :
      (p : Pages) (entry : ℕ) (code : Bytes) (x : ℕ)
      → (write_code mprotect p entry code).1 ≡ false
      → (write_code mprotect p entry code).0.bytes x ≡ p.bytes x
  unfolding write_code
  write-refuses p entry code x e = ground arith

  pub patch-writes :
      (p : Pages) (entry target x : ℕ)
      → (patch_entry mprotect p entry target).1 ≡ true
      → (patch_entry mprotect p entry target).0.bytes x
        ≡ write_entry p.bytes entry (jump entry target) x
  unfolding patch_entry
  patch-writes p entry target x e = elim (Bool-cases (patchable_entry p entry target)) [
    | inl can ↦ rw can (write-writes p entry (jump entry target) x (rw can at e))
    | inr cannot ↦ cc (rw cannot at e)
  ]

  pub patch-refuses :
      (p : Pages) (entry target x : ℕ)
      → (patch_entry mprotect p entry target).1 ≡ false
      → (patch_entry mprotect p entry target).0.bytes x ≡ p.bytes x
  unfolding patch_entry
  patch-refuses p entry target x e = elim (Bool-cases (patchable_entry p entry target)) [
    | inl can ↦ rw can (write-refuses p entry (jump entry target) x (rw can at e))
    | inr cannot ↦ rw cannot refl
  ]

  pub restore-writes :
      (p : Pages) (entry : ℕ) (code : Bytes) (x : ℕ)
      → (restore_entry mprotect p entry code).1 ≡ true
      → (restore_entry mprotect p entry code).0.bytes x ≡ write_entry p.bytes entry code x
  unfolding restore_entry
  restore-writes p entry code x e = write-writes p entry code x e

  -- The substituter that `code_pages` is.
  abbrev pub code_pages : Substituter
  code_pages = record {
    Process = Pages;
    memory = λ p. p.bytes;
    jump = jump;
    precheck_entry = precheck_entry;
    snapshot_entry = snapshot_entry;
    patch_entry = patch_entry mprotect;
    restore_entry = restore_entry mprotect;
    snapshot_reads = snapshot-reads;
    patch_writes = patch-writes;
    patch_refuses = patch-refuses;
    restore_writes = restore-writes;
  }
