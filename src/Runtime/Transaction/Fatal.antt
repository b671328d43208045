-- ===== src/Runtime/Transaction/Fatal.antt =====
-- When `commit` leaves the process unusable: a rollback in which a restore fails.
use nekomata.Base.{
  ℕ, ◌+◌, ◌≡◌, refl, sym, subst, inl, inr, ◌⊎◌, ◌↔◌, true, false, List, [], ◌∷◌, ◌++◌, Result, ok,
  err, ◌==◌, Bool-cases, ok-injective, arith, ◌<◌,
}
use nekomata.Text.{Bytes}
use nekomata.Runtime.Backend.{Substituter, Loader}
use nekomata.Runtime.Generation.{
  Failure, runtime_error, fatal_reload_error, incomplete_rollback_message, PreparedGeneration,
  Ledger, SavedEntry, planned_entries, images_of, allocations_of, state_allocations_of, retain,
}
use nekomata.Runtime.Transaction.Commit.{snapshot_all-not_fatal}
use nekomata.Runtime.Transaction.Rollback.{restore_all-le}
use nekomata.Runtime.Transaction.{
  snapshot_all, restore_all, patch_all, PatchOutcome, all_patched, patch_failed, conclude,
  commit_saved, commit_ready, commit,
}

module _ (sub : Substituter) (loader : Loader sub) where
  open sub use {Process, patch_entry, restore_entry}
  open loader use {Linkage, prepare_generation_commit}

  -- One of the restores fails, where each follows the ones before it, failed or not.
  pub RestoreFails : Process → List SavedEntry → Type 0
  RestoreFails p [] = ⊥
  RestoreFails p (e ∷ es) =
      ((restore_entry p e.entry e.original).1 ≡ false)
      ⊎ RestoreFails (restore_entry p e.entry e.original).0 es

  -- A write is refused, behind the entries written, and then one of their restores fails.
  pub WriteFails : Process → List SavedEntry → List SavedEntry → Type 0
  WriteFails p written [] = ⊥
  WriteFails p written (e ∷ es) =
      (((patch_entry p e.entry e.target).1 ≡ false)
        × RestoreFails (patch_entry p e.entry e.target).0 written)
      ⊎ (((patch_entry p e.entry e.target).1 ≡ true)
          × WriteFails (patch_entry p e.entry e.target).0 (e ∷ written) es)

  -- The loader is ready and every entry was captured, but a write is refused and a restore fails.
  abbrev pub RollbackFails : Process → PreparedGeneration Linkage → Type 0
  RollbackFails p g =
      let ready = prepare_generation_commit p (images_of g.reloads) in
      (ready.1 ≡ ok tt)
      × ((saved : List SavedEntry) × (snapshot_all sub loader ready.0 (planned_entries g.reloads)
            ≡ ok saved)
          × WriteFails ready.0 [] saved)

  -- The exception, and what it leaves of the session.
  abbrev pub Poisons :
      Ledger → PreparedGeneration Linkage → Process × Ledger × Result Failure (Unit {0}) → Type 0
  Poisons s g r =
      (r.2 ≡ err (fatal_reload_error incomplete_rollback_message))
      × (r.1.commit_poisoned ≡ true)
      × (r.1.active_allocations ≡ s.active_allocations ++ allocations_of g.reloads)
      × (r.1.active_state_allocations
          ≡ s.active_state_allocations ++ state_allocations_of g.reloads)
      × (r.1.applied ≡ s.applied)

  restore_all-counts :
      (es : List SavedEntry) (p : Process) (failures : ℕ)
      → (failures < (restore_all sub loader p es failures).1) ↔ RestoreFails p es
  unfolding restore_all RestoreFails
  restore_all-counts [] p failures = (λ h. absurd (omega arith), λ h. absurd h)
  restore_all-counts (e ∷ es) p failures =
      elim (Bool-cases (restore_entry p e.entry e.original).1) [
        | inl done ↦
            rw (done, restore_all)
              (let (to, from) =
                  restore_all-counts es (restore_entry p e.entry e.original).0 failures in
                (λ h. inr (to h), λ h. elim h [ inl failed ↦ absurd cc | inr later ↦ from later ]))
        | inr failed ↦
            rw (failed, restore_all)
              (
                λ h. inl refl,
                λ h.
                    let le =
                      restore_all-le sub loader (sub.memory p) es
                        (restore_entry p e.entry e.original).0 (failures + 1) in
                    omega (arith, le),
              )
      ]

  -- The outcome of a write loop whose rollback had a failure.
  Failed : PatchOutcome → Type 0
  Failed all_patched = ⊥
  Failed (patch_failed name failures patched) = 0 < failures

  patch_all-Failed :
      (es written : List SavedEntry) (p : Process)
      → Failed (patch_all sub loader p written es).1 ↔ WriteFails p written es
  unfolding patch_all WriteFails Failed
  patch_all-Failed [] written p = (λ h. absurd h, λ h. absurd h)
  patch_all-Failed (e ∷ es) written p = elim (Bool-cases (patch_entry p e.entry e.target).1) [
    | inl done ↦ rw done (
        let (to, from) = patch_all-Failed es (e ∷ written) (patch_entry p e.entry e.target).0 in
        (λ h. inr (refl, to h), λ h. elim h [ inl here ↦ absurd cc | inr later ↦ from later.1 ]))
    | inr refused ↦ rw refused (
        let (to, from) = restore_all-counts written (patch_entry p e.entry e.target).0 0 in
        (λ h. inl (refl, to h), λ h. elim h [ inl here ↦ from here.1 | inr later ↦ absurd cc ]))
  ]

  conclude-Poisons :
      (g : PreparedGeneration Linkage) (s : Ledger) (r : Process × PatchOutcome)
      → Poisons s g (conclude sub loader g s r) ↔ Failed r.1
  unfolding conclude Failed retain
  conclude-Poisons g s (p, all_patched) = (λ h. let clash = h.0 in cc, λ h. absurd h)
  conclude-Poisons g s (p, patch_failed name failures patched) = elim (Bool-cases (failures == 0)) [
    | inl clean ↦ rw clean (λ h. let clash = h.0 in cc, λ h. ground (arith, clean))
    | inr some_failed ↦
        rw some_failed (λ h. ground (arith, some_failed), λ h. (refl, refl, refl, refl, refl))
  ]

  commit_saved-Poisons :
      (p : Process) (g : PreparedGeneration Linkage) (s : Ledger)
      (r : Result Failure (List SavedEntry))
      → ((message : Bytes) → r ≡ err (fatal_reload_error message) → ⊥)
      → Poisons s g (commit_saved sub loader p g s r)
        ↔ ((saved : List SavedEntry) × (r ≡ ok saved) × WriteFails p [] saved)
  unfolding commit_saved
  commit_saved-Poisons p g s (err (runtime_error message)) fine =
      (λ h. let clash = h.0 in cc, λ h. let clash = h.1 in cc)
  commit_saved-Poisons p g s (err (fatal_reload_error message)) fine = absurd (fine message refl)
  commit_saved-Poisons p g s (ok saved) fine =
      let (to, from) = conclude-Poisons g s (patch_all sub loader p [] saved) in
      let (to', from') = patch_all-Failed saved [] p in
      (
        λ h. (saved, refl, to' (to h)),
        λ h. from (from' (subst (WriteFails p []) (sym (ok-injective h.1)) h.2)),
      )

  commit_ready-Poisons :
      (g : PreparedGeneration Linkage) (s : Ledger) (r : Process × Result Bytes (Unit {0}))
      → Poisons s g (commit_ready sub loader g s r) ↔ (
          (r.1 ≡ ok tt)
          × ((saved : List SavedEntry) × (snapshot_all sub loader r.0 (planned_entries g.reloads)
                ≡ ok saved)
              × WriteFails r.0 [] saved))
  unfolding commit_ready
  commit_ready-Poisons g s (p, err message) =
      (λ h. let clash = h.0 in cc, λ h. let clash = h.0 in cc)
  commit_ready-Poisons g s (p, ok _) =
      let (to, from) =
        commit_saved-Poisons p g s (snapshot_all sub loader p (planned_entries g.reloads))
          (snapshot_all-not_fatal sub loader (planned_entries g.reloads) p) in
      (λ h. (refl, to h), λ h. from h.1)

  -- A transaction poisons the session exactly when its rollback fails: the loader was ready and every
  -- entry was captured, a write was refused, and the restore of an entry written before failed as well.
  -- To poison is to throw the fatal error with the fixed message, to mark the session, to keep every
  -- allocation of the candidate, so that no entry can jump into freed memory, and to count nothing
  -- as applied.
  pub commit_fatal :
      (p : Process) (g : PreparedGeneration Linkage) (s : Ledger)
      → RollbackFails p g ↔ Poisons s g (commit sub loader p g s)
  unfolding commit
  commit_fatal p g s =
      let (to, from) =
        commit_ready-Poisons g s (prepare_generation_commit p (images_of g.reloads)) in
      (from, to)
