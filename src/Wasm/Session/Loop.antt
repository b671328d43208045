-- ===== src/Wasm/Session/Loop.antt =====
-- The page's event loop around src/backends/wasm/session.cpp: the calls of the application, and the
-- callbacks of the scheduler, the fetcher and the loader, one at a time.
pub mod Invariant
pub mod Served
pub mod Host
pub mod Slots
pub mod Views
pub mod Pointed
pub mod Callable
use nekomata.Base.{
  ℕ, ◌+◌, ◌≡◌, Bool, true, false, ◌&&◌, List, [], ◌∷◌, map, Option, none, some, ◌==◌, if◌then◌else◌,
  Result, ok,
}
use nekomata.Text.{Bytes, equal}
use nekomata.Wasm.Module.{ModuleLoadResult}
use nekomata.Wasm.Candidate.{complete}
use nekomata.Wasm.Poller.{OfferPoller, Pending, ManifestText, poll, delivered}
use nekomata.Wasm.Session.{
  Group, ManagedSession, Scheduling, watch, watch_group, unwatch, unwatch_group,
}
use nekomata.Wasm.Session.Update.{update}

unfoldable pub observes : Option ℕ → ℕ → Bool
observes none observation = false
observes (some current) observation = current == observation

-- The callback that `enable` gives to the scheduler: its observation may be gone.
unfoldable pub tick_group : ℕ → Group → Group
unfolding observes
tick_group observation g =
    if observes g.observed observation then record g { poller = (poll g.poller).0 } else g

unfoldable pub tick : ℕ → ManagedSession → ManagedSession
unfolding tick_group
tick observation s = record s { groups = map (tick_group observation) s.groups }

-- The fetcher delivers the manifest of a group that is fetching.
unfoldable pub fetched_group : Bytes → ManifestText → ℕ → Group → Group
fetched_group id m identity g =
    if equal g.id id && g.poller.fetching
    then record g { poller = (delivered identity g.poller m).0 }
    else g

unfoldable pub fetched : Bytes → ManifestText → ManagedSession → ManagedSession
unfolding fetched_group
fetched id m s = record s {
  groups = map (fetched_group id m s.next_candidate) s.groups;
  next_candidate = s.next_candidate + 1;
}

unfoldable pub completed : ℕ → ModuleLoadResult → Option Pending → Option Pending
completed identity r none = none
completed identity r (some pending) =
    if pending.identity == identity
    then some (record pending { candidate = complete r pending.candidate })
    else some pending

-- The loader completes a candidate, which may be gone.
unfoldable pub loaded_group : ℕ → ModuleLoadResult → Group → Group
unfolding completed
loaded_group identity r g = record g {
  poller = record g.poller { pending = completed identity r g.poller.pending };
}

unfoldable pub loaded : ℕ → ModuleLoadResult → ManagedSession → ManagedSession
unfolding loaded_group
loaded identity r s = record s { groups = map (loaded_group identity r) s.groups }

-- Whatever the order in which the page, the network and the timer come.
pub data Step (s : ManagedSession) : ManagedSession → Type 0 where
  watches : (scheduler : Bytes → Scheduling) → Step s (watch scheduler s).0
  watches_group :
      (scheduler : Bytes → Scheduling) (id : Bytes) {t : ManagedSession}
      → watch_group scheduler id s ≡ ok t
      → Step s t
  unwatches : Step s (unwatch s)
  unwatches_group : (id : Bytes) {t : ManagedSession} → unwatch_group id s ≡ ok t → Step s t
  updates : Step s (update s).0
  ticks : (observation : ℕ) → Step s (tick observation s)
  fetches : (id : Bytes) (m : ManifestText) → Step s (fetched id m s)
  loads : (identity : ℕ) (r : ModuleLoadResult) → Step s (loaded identity r s)

pub data Reach (s : ManagedSession) : ManagedSession → Type 0 where
  here : Reach s s
  next : {t u : ManagedSession} → Reach s t → Step t u → Reach s u
