-- ===== src/Runtime/Transaction.antt =====
-- src/runtime/reload_transaction.cpp: prepare, link and commit one generation over the backend.
pub mod Rollback
pub mod Commit
pub mod Fatal
pub mod Redirects
use nekomata.Base.{
  ℕ, ◌+◌, Bool, true, false, List, [], ◌∷◌, ◌++◌, map, Option, none, some, ◌==◌, if◌then◌else◌,
  Result, ok, err, ◌>>=◌, length,
}
use nekomata.Text.{Bytes, codes, to_string}
use nekomata.Runtime.Backend.{LoadedImage, Substituter, Loader}
use nekomata.Runtime.Generation.{
  Failure, runtime_error, fatal_reload_error, incomplete_rollback_message, cannot_patch,
  rolled_back, PreparedReload, PreparedGeneration, Ledger, PlannedEntry, SavedEntry, plan_entry,
  planned_entries, images_of, retain, publish,
}

-- How the write loop ends: `patch_failed` has the entry's name, the failed restores and the number
-- of entries that had been written.
pub data PatchOutcome : Type 0 where
  all_patched : PatchOutcome
  patch_failed : Bytes → ℕ → ℕ → PatchOutcome

module _ (sub : Substituter) (loader : Loader sub) where
  open sub use {Process, precheck_entry, snapshot_entry, patch_entry, restore_entry}
  open loader use {Linkage}

  -- The zero-write checks of one object.
  unfoldable pub precheck_all : Process → List PlannedEntry → Result Failure (Unit {0})
  precheck_all p [] = ok tt
  precheck_all p (e ∷ es) =
      if precheck_entry p e.entry e.target
      then precheck_all p es
      else err (runtime_error (cannot_patch ++ e.name))

  check_image :
      Process → Bytes → Bytes → LoadedImage Linkage → Result Failure (PreparedReload Linkage)
  unfolding precheck_all plan_entry
  check_image p watch_key build image = elim image.allocation [
    | none ↦ err (runtime_error (codes "object loader returned no executable allocation"))
    | some a ↦ precheck_all p (map (plan_entry image) image.replacements) >>= λ _.
        ok (record { watch_key = watch_key; build_information = build; image = image })
  ]

  as_failure {ℓ} : {A : Type ℓ} → Result Bytes A → Result Failure A
  as_failure (ok a) = ok a
  as_failure (err message) = err (runtime_error message)

  unfoldable pub prepare_object :
      Process → Bytes → Bytes → Bytes → Bytes → Process × Result Failure (PreparedReload Linkage)
  unfolding check_image as_failure
  prepare_object p bytes watch_key source_path build =
      let (p', loaded) = loader.load p bytes source_path in
      (p', as_failure loaded >>= check_image p' watch_key build)

  relink : List (PreparedReload Linkage) → List Linkage → List (PreparedReload Linkage)
  relink [] ls = []
  relink (r ∷ rs) [] = r ∷ rs
  relink (r ∷ rs) (l ∷ ls) = record r { image = record r.image { linkage = l } } ∷ relink rs ls

  unfoldable pub link_generation :
      Process → PreparedGeneration Linkage → Process × Result Failure (PreparedGeneration Linkage)
  unfolding as_failure images_of relink
  link_generation p g =
      let (p', linked) = loader.link_generation p (images_of g.reloads) in
      (p', as_failure linked >>= λ ls. ok (record g { reloads = relink g.reloads ls }))

  -- Every rollback image is captured before the first write.
  unfoldable pub snapshot_all : Process → List PlannedEntry → Result Failure (List SavedEntry)
  snapshot_all p [] = ok []
  snapshot_all p (e ∷ es) = elim (snapshot_entry p e.entry) [
    | none ↦
        err (runtime_error (rolled_back ++ codes "0 entries: cannot patch entry of " ++ e.name))
    | some code ↦
        snapshot_all p es >>= λ saved. ok (record { planned = e; original = code } ∷ saved)
  ]

  -- The rollback loop, newest write first; the result counts the failures.
  unfoldable pub restore_all : Process → List SavedEntry → ℕ → Process × ℕ
  restore_all p [] failures = (p, failures)
  restore_all p (e ∷ es) failures =
      let (p', restored) = restore_entry p e.entry e.original in
      restore_all p' es (if restored then failures else failures + 1)

  -- The write loop; `written` are the entries patched so far, newest first.
  unfoldable pub patch_all : Process → List SavedEntry → List SavedEntry → Process × PatchOutcome
  unfolding restore_all
  patch_all p written [] = (p, all_patched)
  patch_all p written (e ∷ es) =
      let (p', patched) = patch_entry p e.entry e.target in
      let rest = patch_all p' (e ∷ written) es in
      let (q, failures) = restore_all p' written 0 in
      if patched then rest else (q, patch_failed e.name failures (length written))

  rollback_message : Bytes → ℕ → Bytes
  rollback_message name patched =
      rolled_back
      ++ to_string patched
      ++ codes " entr"
      ++ (if patched == 1 then codes "y" else codes "ies")
      ++ codes ": cannot patch entry of "
      ++ name

  -- How a write loop ends the transaction.
  conclude :
      PreparedGeneration Linkage
      → Ledger
      → Process × PatchOutcome
      → Process × Ledger × Result Failure (Unit {0})
  unfolding rollback_message retain publish images_of
  conclude g s (p, all_patched) =
      (loader.commit_generation p (images_of g.reloads), publish s g, ok tt)
  conclude g s (p, patch_failed name failures patched) =
      if failures == 0 then (p, s, err (runtime_error (rollback_message name patched))) else (
        p,
        retain (record s { commit_poisoned = true }) g,
        err (fatal_reload_error incomplete_rollback_message),
      )

  commit_saved :
      Process
      → PreparedGeneration Linkage
      → Ledger
      → Result Failure (List SavedEntry)
      → Process × Ledger × Result Failure (Unit {0})
  unfolding conclude patch_all
  commit_saved p g s (err e) = (p, s, err e)
  commit_saved p g s (ok saved) = conclude g s (patch_all p [] saved)

  commit_ready :
      PreparedGeneration Linkage
      → Ledger
      → Process × Result Bytes (Unit {0})
      → Process × Ledger × Result Failure (Unit {0})
  unfolding commit_saved snapshot_all planned_entries
  commit_ready g s (p, err message) = (p, s, err (runtime_error message))
  commit_ready g s (p, ok _) = commit_saved p g s (snapshot_all p (planned_entries g.reloads))

  unfoldable pub commit :
      Process → PreparedGeneration Linkage → Ledger → Process × Ledger × Result Failure (Unit {0})
  unfolding commit_ready images_of
  commit p g s = commit_ready g s (loader.prepare_generation_commit p (images_of g.reloads))
