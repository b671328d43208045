-- ===== src/Runtime/Transaction/Commit.antt =====
-- How `commit` ends: redirected, rolled back, or unusable.
use nekomata.Base.{
  ℕ, ◌≡◌, refl, ap, ◌∙◌, subst, inl, inr, true, List, [], ◌∷◌, Result, ok, err, ◌>>=◌, ◌==◌,
  Bool-cases, Option-cases, ==_iff,
}
use nekomata.Text.{Bytes}
use nekomata.Runtime.Backend.{Substituter, Loader}
use nekomata.Runtime.Generation.{
  Failure, runtime_error, fatal_reload_error, incomplete_rollback_message, PreparedGeneration,
  Ledger, PlannedEntry, SavedEntry, planned_entries, images_of, retain, publish,
}
use nekomata.Runtime.Transaction.Rollback.{patch_all-restores, snapshot_all-AreSaved}
use nekomata.Runtime.Transaction.{
  snapshot_all, patch_all, PatchOutcome, all_patched, patch_failed, conclude, commit_saved,
  commit_ready, commit,
}

abbrev poison : Ledger → Ledger
poison s = record s { commit_poisoned = true }

module _ (sub : Substituter) (loader : Loader sub) where
  open sub use {Process, memory, patch_entry, jump}
  open loader use {Linkage}

  pub snapshot_all-not_fatal :
      (es : List PlannedEntry) (p : Process) (message : Bytes)
      → snapshot_all sub loader p es ≡ err (fatal_reload_error message)
      → ⊥
  unfolding snapshot_all
  snapshot_all-not_fatal [] p message e = cc
  snapshot_all-not_fatal (s ∷ es) p message e = elim (Option-cases (sub.snapshot_entry p s.entry)) [
    | inl none_read ↦ cc (rw (none_read, snapshot_all) at e)
    | inr (code, read) ↦
        snapshot_all-not_fatal es p message
          (bind-eq-err (snapshot_all sub loader p es) _ (rw (read, snapshot_all) at e))
  ]
    where
      bind-eq-err :
          (r : Result Failure (List SavedEntry)) (e : SavedEntry) {f : Failure}
          → (r >>= λ saved. ok (e ∷ saved)) ≡ err f
          → r ≡ err f
      bind-eq-err (ok x) e same = cc
      bind-eq-err (err f) e same = same

  Σ_snd :
      (r : Process × PatchOutcome) {o : PatchOutcome}
      → r.1 ≡ o
      → ◌≡◌ {A = Process × PatchOutcome} r (r.0, o)
  Σ_snd r e = ap (λ o. (r.0, o)) e

  -- What the three ends of a transaction leave behind.
  unfoldable pub Ends :
      Process
      → PreparedGeneration Linkage
      → Ledger
      → Process × Ledger × Result Failure (Unit {0})
      → Type 0
  Ends p g s (q, s', ok _) = s' ≡ publish s g
  Ends p g s (q, s', err (runtime_error message)) = ((x : ℕ) → memory q x ≡ memory p x) × (s' ≡ s)
  Ends p g s (q, s', err (fatal_reload_error message)) =
      (s' ≡ retain (poison s) g) × (message ≡ incomplete_rollback_message)

  conclude-Ends :
      (p : Process) (g : PreparedGeneration Linkage) (s : Ledger) (r : Process × PatchOutcome)
      → ((name : Bytes) (patched : ℕ)
          → r.1 ≡ patch_failed name 0 patched
          → (x : ℕ) → memory r.0 x ≡ memory p x)
      → Ends p g s (conclude sub loader g s r)
  unfolding Ends conclude
  conclude-Ends p g s (q, all_patched) clean = refl
  conclude-Ends p g s (q, patch_failed name failures patched) clean =
      elim (Bool-cases (failures == 0)) [
        | inl none_failed ↦ rw none_failed (
          clean name patched
              (ap (λ k. patch_failed name k patched) ((==_iff failures 0).0 none_failed)),
          refl,
        )
        | inr some_failed ↦ rw some_failed (refl, refl)
      ]

  commit_saved-Ends :
      (p p' : Process) (g : PreparedGeneration Linkage) (s : Ledger)
      → ((x : ℕ) → memory p' x ≡ memory p x)
      → (r : Result Failure (List SavedEntry))
      → snapshot_all sub loader p' (planned_entries g.reloads) ≡ r
      → Ends p g s (commit_saved sub loader p' g s r)
  unfolding Ends commit_saved
  commit_saved-Ends p p' g s same (err (runtime_error message)) e = (same, refl)
  commit_saved-Ends p p' g s same (err (fatal_reload_error message)) e =
      absurd (snapshot_all-not_fatal (planned_entries g.reloads) p' message e)
  commit_saved-Ends p p' g s same (ok saved) e =
      conclude-Ends p g s (patch_all sub loader p' [] saved) λ name patched failed x.
        patch_all-restores sub loader (memory p') saved [] p' _ name patched
          (snapshot_all-AreSaved sub loader (memory p') (planned_entries g.reloads) p' e).0 tt
          (λ y _. refl) (Σ_snd (patch_all sub loader p' [] saved) failed) x
        ∙ same x

  commit_ready-Ends :
      (p : Process) (g : PreparedGeneration Linkage) (s : Ledger)
      (r : Process × Result Bytes (Unit {0}))
      → ((x : ℕ) → memory r.0 x ≡ memory p x)
      → Ends p g s (commit_ready sub loader g s r)
  unfolding Ends commit_ready
  commit_ready-Ends p g s (p', err message) same = (same, refl)
  commit_ready-Ends p g s (p', ok _) same =
      commit_saved-Ends p p' g s same (snapshot_all sub loader p' (planned_entries g.reloads)) refl

  pub commit-Ends :
      (p : Process) (g : PreparedGeneration Linkage) (s : Ledger)
      → Ends p g s (commit sub loader p g s)
  unfolding commit
  commit-Ends p g s =
      commit_ready-Ends p g s (loader.prepare_generation_commit p (images_of g.reloads))
        (loader.prepare_keeps p (images_of g.reloads))

  ending :
      (p : Process) (g : PreparedGeneration Linkage) (s : Ledger)
      {r : Process × Ledger × Result Failure (Unit {0})}
      → commit sub loader p g s ≡ r
      → Ends p g s r
  ending p g s e = subst (Ends p g s) e (commit-Ends p g s)

  -- A transaction that is rejected by an ordinary error leaves every byte of the process and every
  -- member of the session as they were.
  pub commit_rejected :
      (p q : Process) (g : PreparedGeneration Linkage) (s s' : Ledger) (message : Bytes)
      → commit sub loader p g s ≡ (q, s', err (runtime_error message))
      → ((x : ℕ) → memory q x ≡ memory p x) × (s' ≡ s)
  unfolding Ends
  commit_rejected p q g s s' message e = ending p g s e
