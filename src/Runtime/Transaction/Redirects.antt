-- ===== src/Runtime/Transaction/Redirects.antt =====
-- What the write loop leaves when every entry could be written.
use nekomata.Base.{
  ℕ, ◌-◌, ◌≡◌, refl, sym, ap, ◌∙◌, subst, Bool, true, false, ◌||◌, List, [], ◌∷◌, map, arith,
  Result, ok, err, All, Bool-cases, inl, inr, ◌==◌, get_or,
}
use nekomata.Text.{Bytes}
use nekomata.Runtime.Backend.{Memory, in_entry, Substituter, Loader}
use nekomata.Runtime.Generation.{
  Failure, PreparedGeneration, Ledger, PlannedEntry, SavedEntry, planned_entries, images_of,
}
use nekomata.Runtime.Transaction.Rollback.{snapshot_all-AreSaved}
use nekomata.Runtime.Transaction.{
  snapshot_all, patch_all, PatchOutcome, all_patched, patch_failed, conclude, commit_saved,
  commit_ready, commit,
}

-- Whether `x` lies in one of the entries to redirect.
abbrev pub planned_at : List PlannedEntry → ℕ → Bool
planned_at [] x = false
planned_at (e ∷ es) x = in_entry e.entry x || planned_at es x

-- No two entries share a byte.
abbrev pub Spread : List PlannedEntry → Type 0
Spread [] = Unit {0}
Spread (e ∷ es) = ((x : ℕ) → in_entry e.entry x ≡ true → planned_at es x ≡ false) × Spread es

-- Every entry holds the jump to its new body.
abbrev pub Redirected : (ℕ → ℕ → Bytes) → Memory → List PlannedEntry → Type 0
Redirected jump m =
    All λ e.
      (x : ℕ) → in_entry e.entry x ≡ true → m x ≡ get_or (jump e.entry e.target) (x - e.entry) 0

abbrev plans : List SavedEntry → List PlannedEntry
plans = map λ s. s.planned

outcome_is_whole : PatchOutcome → Bool
outcome_is_whole all_patched = true
outcome_is_whole (patch_failed name failures patched) = false

module _ (sub : Substituter) (loader : Loader sub) where
  open sub use {Process, memory, patch_entry, jump}
  open loader use {Linkage}

  patch_all-keeps :
      (es written : List SavedEntry) (p : Process) (x : ℕ)
      → (patch_all sub loader p written es).1 ≡ all_patched
      → planned_at (plans es) x ≡ false
      → memory (patch_all sub loader p written es).0 x ≡ memory p x
  unfolding patch_all
  patch_all-keeps [] written p x e out = refl
  patch_all-keeps (s ∷ es) written p x e out =
      elim (Bool-cases (patch_entry p s.entry s.target).1) [
        | inr refused ↦ cc (rw (refused, patch_all) at e)
        | inl done ↦
            rw (done, patch_all)
              (patch_all-keeps es (s ∷ written) (patch_entry p s.entry s.target).0 x
                  (rw (done, patch_all) at e) (ground (arith, out))
                ∙ sub.patch_writes p s.entry s.target x done
                ∙ ground (arith, out))
      ]

  patch_all-step :
      (s : SavedEntry) (es written : List SavedEntry) (p : Process)
      → (patch_entry p s.entry s.target).1 ≡ true
      → patch_all sub loader p written (s ∷ es)
        ≡ patch_all sub loader (patch_entry p s.entry s.target).0 (s ∷ written) es
  unfolding patch_all
  patch_all-step s es written p done = rw done refl

  refused-not_whole :
      (s : SavedEntry) (es written : List SavedEntry) (p : Process)
      → (patch_entry p s.entry s.target).1 ≡ false
      → (patch_all sub loader p written (s ∷ es)).1 ≡ all_patched
      → ⊥
  unfolding patch_all
  refused-not_whole s es written p refused e = cc (rw (refused, patch_all) at e)

  patch_all-Redirected :
      (es written : List SavedEntry) (p : Process)
      → (patch_all sub loader p written es).1 ≡ all_patched
      → Spread (plans es)
      → Redirected jump (memory (patch_all sub loader p written es).0) (plans es)
  patch_all-Redirected [] written p e spread = tt
  patch_all-Redirected (s ∷ es) written p e (apart, spread) =
      elim (Bool-cases (patch_entry p s.entry s.target).1) [
        | inr refused ↦ absurd (refused-not_whole s es written p refused e)
        | inl done ↦
            let p' = (patch_entry p s.entry s.target).0 in
            let step = patch_all-step s es written p done in
            let whole = sym (ap (λ r. r.1) step) ∙ e in
            subst (λ (r : Process × PatchOutcome). Redirected jump (memory r.0) (plans (s ∷ es)))
              (sym step)
              (
                λ x inside.
                    patch_all-keeps es (s ∷ written) p' x whole (apart x inside)
                    ∙ sub.patch_writes p s.entry s.target x done
                    ∙ (rw inside refl),
                patch_all-Redirected es (s ∷ written) p' whole spread,
              )
      ]

  -- What an applied transaction did to the bytes of the process.
  abbrev pub Applied : Process → PreparedGeneration Linkage → Process → Type 0
  Applied p g q =
      ((x : ℕ) → planned_at (planned_entries g.reloads) x ≡ false → memory q x ≡ memory p x)
      × (Spread (planned_entries g.reloads)
          → Redirected jump (memory q) (planned_entries g.reloads))

  Redirected-same :
      (es : List PlannedEntry) (m m' : Memory)
      → ((x : ℕ) → m' x ≡ m x)
      → Redirected jump m es
      → Redirected jump m' es
  Redirected-same [] m m' same r = tt
  Redirected-same (e ∷ es) m m' same (r, rs) =
      (λ x inside. same x ∙ r x inside, Redirected-same es m m' same rs)

  IfApplied :
      Process → PreparedGeneration Linkage → Process × Ledger × Result Failure (Unit {0}) → Type 0
  IfApplied p g (q, s, ok _) = Applied p g q
  IfApplied p g (q, s, err failure) = Unit {0}

  conclude-IfApplied :
      (p p' : Process) (g : PreparedGeneration Linkage) (s : Ledger) (saved : List SavedEntry)
      → ((x : ℕ) → memory p' x ≡ memory p x)
      → plans saved ≡ planned_entries g.reloads
      → (r : Process × PatchOutcome) → patch_all sub loader p' [] saved ≡ r
      → IfApplied p g (conclude sub loader g s r)
  unfolding IfApplied conclude
  conclude-IfApplied p p' g s saved same planned (q, all_patched) e =
      let whole = ap (λ r. r.1) e in
      let kept = loader.commit_keeps q (images_of g.reloads) in
      rw (← planned) (
        λ x out.
            kept x
            ∙ ap (λ r. memory r.0 x) (sym e)
            ∙ patch_all-keeps saved [] p' x whole out
            ∙ same x,
        λ spread. Redirected-same (plans saved) (memory q) _ kept (
            subst (λ (r : Process × PatchOutcome). Redirected jump (memory r.0) (plans saved)) e
              (patch_all-Redirected saved [] p' whole spread)),
      )
  conclude-IfApplied p p' g s saved same planned (q, patch_failed name failures patched) e =
      elim (Bool-cases (failures == 0)) [ inl clean ↦ rw clean tt | inr broken ↦ rw broken tt ]

  commit_saved-IfApplied :
      (p p' : Process) (g : PreparedGeneration Linkage) (s : Ledger)
      → ((x : ℕ) → memory p' x ≡ memory p x)
      → (r : Result Failure (List SavedEntry))
      → snapshot_all sub loader p' (planned_entries g.reloads) ≡ r
      → IfApplied p g (commit_saved sub loader p' g s r)
  unfolding IfApplied commit_saved
  commit_saved-IfApplied p p' g s same (err failure) e = tt
  commit_saved-IfApplied p p' g s same (ok saved) e =
      conclude-IfApplied p p' g s saved same
        (snapshot_all-AreSaved sub loader (memory p') (planned_entries g.reloads) p' e).1
        (patch_all sub loader p' [] saved) refl

  commit_ready-IfApplied :
      (p : Process) (g : PreparedGeneration Linkage) (s : Ledger)
      (r : Process × Result Bytes (Unit {0}))
      → ((x : ℕ) → memory r.0 x ≡ memory p x)
      → IfApplied p g (commit_ready sub loader g s r)
  unfolding IfApplied commit_ready
  commit_ready-IfApplied p g s (p', err message) same = tt
  commit_ready-IfApplied p g s (p', ok _) same =
      commit_saved-IfApplied p p' g s same (snapshot_all sub loader p' (planned_entries g.reloads))
        refl

  -- A transaction that is applied leaves every byte outside its entries as it was; if no two of its
  -- entries share a byte, each holds the jump to its new body.
  pub commit-Applied :
      (p q : Process) (g : PreparedGeneration Linkage) (s s' : Ledger)
      → commit sub loader p g s ≡ (q, s', ok tt)
      → Applied p g q
  unfolding commit IfApplied
  commit-Applied p q g s s' e = subst (IfApplied p g) e (
      commit_ready-IfApplied p g s (loader.prepare_generation_commit p (images_of g.reloads))
        (loader.prepare_keeps p (images_of g.reloads)))
