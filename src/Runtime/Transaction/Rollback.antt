-- ===== src/Runtime/Transaction/Rollback.antt =====
-- The write loop and its rollback, over the bytes of the process.
use nekomata.Base.{
  ℕ, ◌+◌, ◌≤◌, ◌≡◌, refl, sym, ap, ◌∙◌, Bool, true, false, ◌||◌, List, [], ◌∷◌, map, arith, ok,
  bind-eq-ok, ok-injective, All, Bool-cases, Option-cases, inl, inr,
}
use nekomata.Text.{Bytes}
use nekomata.Runtime.Backend.{
  Memory, in_entry, write_entry, read_entry, write-read_entry, Substituter, Loader,
}
use nekomata.Runtime.Generation.{PlannedEntry, SavedEntry}
use nekomata.Runtime.Transaction.{
  snapshot_all, restore_all, patch_all, PatchOutcome, all_patched, patch_failed,
}

-- Whether `x` lies in one of the entries.
abbrev pub touched : List SavedEntry → ℕ → Bool
touched [] x = false
touched (e ∷ es) x = in_entry e.entry x || touched es x

-- Every entry holds the bytes of `original`.
abbrev pub AreSaved : Memory → List SavedEntry → Type 0
AreSaved original = All λ e. e.original ≡ read_entry original e.entry

failures_of : PatchOutcome → ℕ
failures_of all_patched = 0
failures_of (patch_failed name failures patched) = failures

module _ (sub : Substituter) (loader : Loader sub) (original : Memory) where
  open sub use {Process, memory, patch_entry, restore_entry}

  -- The process differs from `original` in the given entries at most.
  abbrev pub Agrees : Process → List SavedEntry → Type 0
  Agrees p es = (x : ℕ) → touched es x ≡ false → memory p x ≡ original x

  restored-Agrees :
      (p : Process) (e : SavedEntry) (es : List SavedEntry)
      → e.original ≡ read_entry original e.entry
      → (restore_entry p e.entry e.original).1 ≡ true
      → Agrees p (e ∷ es)
      → Agrees (restore_entry p e.entry e.original).0 es
  restored-Agrees p e es saved done agree x out =
      sub.restore_writes p e.entry e.original x done
      ∙ ap (λ code. write_entry (memory p) e.entry code x) saved
      ∙ write-read_entry original (memory p) e.entry x
      ∙ ground (arith, agree x)

  patched-Agrees :
      (p : Process) (e : SavedEntry) (written : List SavedEntry)
      → (patch_entry p e.entry e.target).1 ≡ true
      → Agrees p written
      → Agrees (patch_entry p e.entry e.target).0 (e ∷ written)
  patched-Agrees p e written done agree x out =
      sub.patch_writes p e.entry e.target x done ∙ ground (arith, agree x)

  refused-Agrees :
      (p : Process) (e : SavedEntry) (written : List SavedEntry)
      → (patch_entry p e.entry e.target).1 ≡ false
      → Agrees p written
      → Agrees (patch_entry p e.entry e.target).0 written
  refused-Agrees p e written failed agree x out =
      sub.patch_refuses p e.entry e.target x failed ∙ agree x out

  pub restore_all-le :
      (es : List SavedEntry) (p : Process) (failures : ℕ)
      → failures ≤ (restore_all sub loader p es failures).1
  unfolding restore_all
  restore_all-le [] p failures = omega arith
  restore_all-le (e ∷ es) p failures = ground (
    arith,
    restore_all-le es (restore_entry p e.entry e.original).0 failures,
    restore_all-le es (restore_entry p e.entry e.original).0 (failures + 1),
  )

  -- A rollback with no failure brings every byte back.
  restore_all-restores :
      (es : List SavedEntry) (p : Process) (failures : ℕ)
      → AreSaved original es
      → Agrees p es
      → (restore_all sub loader p es failures).1 ≡ failures
      → (x : ℕ) → memory (restore_all sub loader p es failures).0 x ≡ original x
  unfolding restore_all
  restore_all-restores [] p failures saved agree none_failed x = agree x refl
  restore_all-restores (e ∷ es) p failures saved agree none_failed x =
      elim (Bool-cases (restore_entry p e.entry e.original).1) [
        | inl done ↦
            rw (done, restore_all)
              (restore_all-restores es (restore_entry p e.entry e.original).0 failures saved.1
                (restored-Agrees p e es saved.0 done agree) (rw (done, restore_all) at none_failed)
                x)
        | inr failed ↦ absurd (
            omega (
              arith,
              restore_all-le es (restore_entry p e.entry e.original).0 (failures + 1),
              rw (failed, restore_all) at none_failed,
            ))
      ]

  rolled_back-eq :
      (r : Process × ℕ) {q : Process} {name name' : Bytes} {n n' : ℕ}
      → ◌≡◌ {A = Process × PatchOutcome} (r.0, patch_failed name r.1 n) (q, patch_failed name' 0 n')
      → (q ≡ r.0) × (r.1 ≡ 0)
  unfolding failures_of
  rolled_back-eq r e = (sym (ap (λ x. x.0) e), ap (λ x. failures_of x.1) e)

  -- A write loop that fails with a clean rollback leaves every byte as it was.
  pub patch_all-restores :
      (es written : List SavedEntry) (p q : Process) (name : Bytes) (patched : ℕ)
      → AreSaved original es
      → AreSaved original written
      → Agrees p written
      → patch_all sub loader p written es ≡ (q, patch_failed name 0 patched)
      → (x : ℕ) → memory q x ≡ original x
  unfolding patch_all
  patch_all-restores [] written p q name patched saved done agree e x = cc
  patch_all-restores (s ∷ es) written p q name patched saved done agree e x =
      elim (Bool-cases (patch_entry p s.entry s.target).1) [
        | inl ok_write ↦
            patch_all-restores es (s ∷ written) (patch_entry p s.entry s.target).0 q name patched
              saved.1 (saved.0, done) (patched-Agrees p s written ok_write agree)
              (rw (ok_write, patch_all) at e) x
        | inr refused ↦
            let p' = (patch_entry p s.entry s.target).0 in
            let (same, clean) =
              rolled_back-eq (restore_all sub loader p' written 0) (rw (refused, patch_all) at e) in
            rw same (
              restore_all-restores written p' 0 done (refused-Agrees p s written refused agree)
                clean x)
      ]

  -- The snapshots are of the bytes before any write, and one for each entry in order.
  pub snapshot_all-AreSaved :
      (es : List PlannedEntry) (p : Process) {saved : List SavedEntry}
      → snapshot_all sub loader p es ≡ ok saved
      → AreSaved (memory p) saved × (map (λ s. s.planned) saved ≡ es)
  unfolding snapshot_all
  snapshot_all-AreSaved [] p e = rw (← ok-injective e) (tt, refl)
  snapshot_all-AreSaved (s ∷ es) p e = elim (Option-cases (sub.snapshot_entry p s.entry)) [
    | inl none_read ↦ cc (rw (none_read, snapshot_all) at e)
    | inr (code, read) ↦
        let (rest, later, whole) =
          bind-eq-ok (snapshot_all sub loader p es) _ (rw (read, snapshot_all) at e) in
        let (saved, same) = snapshot_all-AreSaved es p later in
        rw (← ok-injective whole) ((sub.snapshot_reads p s.entry code read, saved), ap (◌∷◌ s) same)
  ]
