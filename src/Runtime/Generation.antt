-- ===== src/Runtime/Generation.antt =====
-- What one transaction handles: the candidate generation of src/runtime/session_impl.hpp, the checks
-- and bookkeeping of src/runtime/reload_transaction.cpp that call no backend.
use nekomata.Base.{
  ℕ, ◌+◌, Bool, List, [], ◌∷◌, ◌++◌, map, Option, none, some, ◌==◌, if◌then◌else◌, Result, ok, err,
  length, any,
}
use nekomata.Text.{Bytes, codes, equal, to_string}
use nekomata.Runtime.Backend.{Allocation, Replacement, LoadedImage}

-- `std::runtime_error` and `fatal_reload_error`.
pub data Failure : Type 0 where
  runtime_error fatal_reload_error : Bytes → Failure

abbrev pub incomplete_rollback_message : Bytes
incomplete_rollback_message =
    codes "reload session is unusable: an entry patch failed and rollback could not restore every "
    ++ codes "written entry"

abbrev pub cannot_patch : Bytes
cannot_patch = codes "reload rejected before any write: cannot patch entry of "

abbrev pub rolled_back : Bytes
rolled_back = codes "reload rejected and rolled back "

pub record PreparedReload (Linkage : Type 0) : Type 0 where
  pub watch_key : Bytes
  pub build_information : Bytes
  pub image : LoadedImage Linkage

pub record PreparedGeneration (Linkage : Type 0) : Type 0 where
  pub id : Bytes
  pub manifest_key : Bytes
  pub reloads : List (PreparedReload Linkage)

-- The members of the session that a transaction writes. `stale_redirects` collects the names that
-- the warnings are about.
pub record Ledger : Type 0 where
  pub active_allocations : List (Option Allocation)
  pub active_state_allocations : List ℕ
  pub commit_poisoned : Bool
  pub last_redirected : List (Bytes × List (Bytes × ℕ))
  pub stale_redirects : List Bytes
  pub applied_generations : List (Bytes × Bytes)
  pub applied : ℕ
  pub rejected : ℕ
  pub last_result : Bytes

-- An entry to redirect, and the same with the five bytes to roll back to.
pub record PlannedEntry : Type 0 where
  pub entry : ℕ
  pub target : ℕ
  pub name : Bytes

pub record SavedEntry : Type 0 where
  pub planned : PlannedEntry
  pub open planned use *
  pub original : Bytes

-- `validate_generation`: no entry is replaced twice in the generation; `entries` are those seen.
unfoldable pub validate_entries : List ℕ → List PlannedEntry → Result Failure (Unit {0})
validate_entries entries [] = ok tt
validate_entries entries (e ∷ es) =
    if any (λ a. a == e.entry) entries
    then err (
        runtime_error
          (codes "reload rejected before any write: multiple objects replace entry of " ++ e.name))
    else validate_entries (entries ++ e.entry ∷ []) es

-- `last_redirected_by_object_[key]`; a missing key starts empty.
unfoldable pub redirected_names : Bytes → List (Bytes × List (Bytes × ℕ)) → List (Bytes × ℕ)
redirected_names key [] = []
redirected_names key ((k, names) ∷ rest) = if equal k key then names else redirected_names key rest

unfoldable pub set_redirected :
    Bytes → List (Bytes × ℕ) → List (Bytes × List (Bytes × ℕ)) → List (Bytes × List (Bytes × ℕ))
set_redirected key names [] = (key, names) ∷ []
set_redirected key names ((k, old) ∷ rest) =
    if equal k key then (key, names) ∷ rest else (k, old) ∷ set_redirected key names rest

-- The names redirected before that this load no longer has.
unfoldable pub dropped_names : List (Bytes × ℕ) → List Replacement → List Bytes
dropped_names [] rs = []
dropped_names ((name, entry) ∷ previous) rs =
    let rest = dropped_names previous rs in
    if any (λ r. equal r.name name) rs then rest else name ∷ rest

module _ {L : Type 0} where
  unfoldable pub code_of : LoadedImage L → ℕ
  code_of image = elim image.allocation [ none ↦ 0 | some a ↦ a.code ]

  unfoldable pub plan_entry : LoadedImage L → Replacement → PlannedEntry
  plan_entry image r = record {
    entry = r.old_entry;
    target = code_of image + r.offset_in_image;
    name = r.name;
  }

  -- Every replacement of the generation, in the order of the loops.
  unfoldable pub planned_entries : List (PreparedReload L) → List PlannedEntry
  unfolding plan_entry
  planned_entries [] = []
  planned_entries (r ∷ rs) = map (plan_entry r.image) r.image.replacements ++ planned_entries rs

  unfoldable pub images_of : List (PreparedReload L) → List (LoadedImage L)
  images_of = map λ r. r.image

  unfoldable pub allocations_of : List (PreparedReload L) → List (Option Allocation)
  allocations_of = map λ r. r.image.allocation

  unfoldable pub state_allocations_of : List (PreparedReload L) → List ℕ
  state_allocations_of [] = []
  state_allocations_of (r ∷ rs) = r.image.state_allocations ++ state_allocations_of rs

  -- Every allocation of the candidate moves into the session.
  unfoldable pub retain : Ledger → PreparedGeneration L → Ledger
  unfolding allocations_of state_allocations_of
  retain s g = record s {
    active_allocations = s.active_allocations ++ allocations_of g.reloads;
    active_state_allocations = s.active_state_allocations ++ state_allocations_of g.reloads;
  }

  unfoldable pub validate_generation : PreparedGeneration L → Result Failure (Unit {0})
  unfolding validate_entries planned_entries
  validate_generation g = validate_entries [] (planned_entries g.reloads)

  unfoldable pub note_redirects : Ledger → List (PreparedReload L) → Ledger
  unfolding redirected_names set_redirected dropped_names
  note_redirects s [] = s
  note_redirects s (r ∷ rs) =
      note_redirects
        (record s {
          stale_redirects =
              s.stale_redirects
              ++ dropped_names (redirected_names r.watch_key s.last_redirected)
                  r.image.replacements;
          last_redirected =
              set_redirected r.watch_key (map (λ x. (x.name, x.old_entry)) r.image.replacements)
                s.last_redirected;
        })
        rs

  applied_message : PreparedGeneration L → ℕ → Bytes
  applied_message g count = elim g.id [
    | [] ↦ codes "applied " ++ to_string count ++ codes " function(s)"
    | c ∷ cs ↦
        codes "applied generation '"
        ++ (c ∷ cs)
        ++ codes "': "
        ++ to_string count
        ++ codes " function(s)"
  ]

  applied_ids : PreparedGeneration L → List (Bytes × Bytes) → List (Bytes × Bytes)
  applied_ids g ids = elim g.id [ [] ↦ ids | c ∷ cs ↦ (g.manifest_key, c ∷ cs) ∷ ids ]

  -- What follows the last successful write.
  unfoldable pub publish : Ledger → PreparedGeneration L → Ledger
  unfolding note_redirects applied_message applied_ids
  publish s g =
      let noted = note_redirects (retain s g) g.reloads in
      record noted {
        applied = noted.applied + 1;
        applied_generations = applied_ids g noted.applied_generations;
        last_result = applied_message g (length (planned_entries g.reloads));
      }
