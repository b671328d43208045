-- ===== src/Wasm/Session/Loop/Served.antt =====
-- The invariant of the groups in every state that the event loop reaches.
use nekomata.Base.{
  ℕ, ◌+◌, ◌≡◌, refl, subst, List, [], ◌∷◌, map, Option, none, some, All, Bool-cases, inl, inr,
  Result, ok, err, bind-eq-ok, ok-injective,
}
use nekomata.Text.{Bytes, equal}
use nekomata.Runtime.Stream.{less}
use nekomata.Wasm.Module.{ModuleContract}
use nekomata.Wasm.Session.{
  Group, ManagedSession, Scheduling, enable, enable_from, subscribe, subscribes, returns_null,
  throws, enable_groups, enabled_first, watch, watch_groups, change_group, watch_group, unwatch,
  unwatch_group, disable, disabled,
}
use nekomata.Wasm.Session.Update.{GroupTransaction, prepare_transaction, update}
use nekomata.Wasm.Session.Loop.Invariant.{
  IsGroup, IsSession, tick_group-IsGroup, fetched_group-IsGroup, loaded_group-IsGroup,
  commit_groups-IsSession,
}
use nekomata.Wasm.Session.Loop.{
  tick_group, tick, fetched, loaded, Step, watches, watches_group, unwatches, unwatches_group,
  updates, ticks, fetches, loads, Reach, here, next,
}

All-map {ℓ} :
    (P Q : Group → Type ℓ) (f : Group → Group)
    → ((g : Group) → P g → Q (f g))
    → (gs : List Group) → All P gs
    → All Q (map f gs)
All-map P Q f keep [] held = tt
All-map P Q f keep (g ∷ gs) held = (keep g held.0, All-map P Q f keep gs held.1)

module _ (Registered : Bytes → ModuleContract → Type 0) where
  subscribe-IsGroup :
      (how : Scheduling) (observation : ℕ) (g g' : Group)
      → subscribe how observation g ≡ ok g'
      → (IsGroup Registered) g
      → (IsGroup Registered) g'
  unfolding subscribe
  subscribe-IsGroup subscribes observation g g' e served =
      subst (IsGroup Registered) (ok-injective e) (record {
        pending = served.pending;
        active_module = served.active_module;
        registered = served.registered;
      })
  subscribe-IsGroup returns_null observation g g' e served = cc
  subscribe-IsGroup (throws problem) observation g g' e served = cc

  enable-IsGroup :
      (scheduler : Bytes → Scheduling) (observation : ℕ) (g g' : Group)
      → enable scheduler observation g ≡ ok g'
      → (IsGroup Registered) g
      → (IsGroup Registered) g'
  unfolding enable
  enable-IsGroup scheduler observation g g' e served = go g.observed e
    where
      go : (o : Option ℕ) → enable_from o scheduler observation g ≡ ok g' → (IsGroup Registered) g'
      go (some current) e = subst (IsGroup Registered) (ok-injective e) served
      go none e = subscribe-IsGroup (scheduler g.id) observation g g' e served

  enabled_first-IsSession :
      (g : Group) (gs : List Group) (r : Result Bytes Group)
      (later : List Group × Result Bytes (Unit {0}))
      → ((g' : Group) → r ≡ ok g' → (IsGroup Registered) g')
      → All (IsGroup Registered) (g ∷ gs)
      → All (IsGroup Registered) later.0
      → All (IsGroup Registered) (enabled_first g gs r later).0
  unfolding enabled_first
  enabled_first-IsSession g gs (err e) later keep served kept = served
  enabled_first-IsSession g gs (ok g') later keep served kept = (keep g' refl, kept)

  enable_groups-IsSession :
      (scheduler : Bytes → Scheduling) (observation : ℕ) (gs : List Group)
      → All (IsGroup Registered) gs
      → All (IsGroup Registered) (enable_groups scheduler observation gs).0
  unfolding enable_groups
  enable_groups-IsSession scheduler observation [] served = tt
  enable_groups-IsSession scheduler observation (g ∷ gs) served =
      enabled_first-IsSession g gs (enable scheduler observation g) _
        (λ g' e. enable-IsGroup scheduler observation g g' e served.0) served
        (enable_groups-IsSession scheduler (observation + 1) gs served.1)

  change_group-IsSession :
      (id : Bytes) (f : Group → Result Bytes Group)
      → ((g g' : Group) → f g ≡ ok g' → (IsGroup Registered) g → (IsGroup Registered) g')
      → (gs gs' : List Group) → change_group id f gs ≡ ok gs'
      → All (IsGroup Registered) gs
      → All (IsGroup Registered) gs'
  unfolding change_group
  change_group-IsSession id f keep [] gs' e served = cc
  change_group-IsSession id f keep (g ∷ gs) gs' e served = elim (Bool-cases (less g.id id)) [
    | inl below ↦
        let (later, rest, done) = bind-eq-ok (change_group id f gs) _ (rw below at e) in
        subst (All (IsGroup Registered)) (ok-injective done)
          (served.0, change_group-IsSession id f keep gs later rest served.1)
    | inr found ↦ elim (Bool-cases (equal g.id id)) [
      | inl same ↦
          let (g', changed, done) = bind-eq-ok (f g) _ (rw same at (rw found at e)) in
          subst (All (IsGroup Registered)) (ok-injective done)
            (keep g g' changed served.0, served.1)
      | inr other ↦ cc (rw other at (rw found at e))
    ]
  ]

  disable-IsGroup : (g : Group) → (IsGroup Registered) g → (IsGroup Registered) (disable g)
  unfolding disable
  disable-IsGroup g served = record {
    pending = served.pending;
    active_module = served.active_module;
    registered = served.registered;
  }

  disabled-IsGroup :
      (g g' : Group) → disabled g ≡ ok g' → (IsGroup Registered) g → (IsGroup Registered) g'
  disabled-IsGroup g g' e served =
      subst (IsGroup Registered) (ok-injective e) (disable-IsGroup g served)

  watch_groups-IsSession :
      (scheduler : Bytes → Scheduling) (s : ManagedSession) (gs : List Group)
      → All (IsGroup Registered) gs
      → (IsSession Registered) s
      → (IsSession Registered) (watch_groups scheduler s gs).0
  unfolding watch_groups
  watch_groups-IsSession scheduler s [] held served = served
  watch_groups-IsSession scheduler s (g ∷ gs) held served =
      enable_groups-IsSession scheduler s.next_observation (g ∷ gs) held

  prepared-IsSession :
      (gs : List Group)
      → All (IsGroup Registered) gs
      → All
          (λ (x : Group × Option GroupTransaction). (IsGroup Registered) x.0)
          (map (λ g. (g, prepare_transaction g)) gs)
  prepared-IsSession [] served = tt
  prepared-IsSession (g ∷ gs) served = (served.0, prepared-IsSession gs served.1)

  Step-IsSession :
      {s t : ManagedSession} → Step s t → (IsSession Registered) s → (IsSession Registered) t
  unfolding watch watch_group unwatch unwatch_group update tick fetched loaded
  Step-IsSession {s} (watches scheduler) served =
      watch_groups-IsSession scheduler s s.groups served served
  Step-IsSession {s} (watches_group scheduler id e) served =
      let (groups, changed, done) =
        bind-eq-ok (change_group id (enable scheduler s.next_observation) s.groups) _ e in
      subst (IsSession Registered) (ok-injective done) (
        change_group-IsSession id _ (enable-IsGroup scheduler s.next_observation) s.groups groups
          changed served)
  Step-IsSession {s} unwatches served =
      All-map (IsGroup Registered) (IsGroup Registered) disable disable-IsGroup s.groups served
  Step-IsSession {s} (unwatches_group id e) served =
      let (groups, changed, done) = bind-eq-ok (change_group id disabled s.groups) _ e in
      subst (IsSession Registered) (ok-injective done)
        (change_group-IsSession id disabled disabled-IsGroup s.groups groups changed served)
  Step-IsSession {s} updates served =
      commit_groups-IsSession Registered _ s (prepared-IsSession s.groups served)
  Step-IsSession {s} (ticks observation) served =
      All-map (IsGroup Registered) (IsGroup Registered) (tick_group observation)
        (tick_group-IsGroup Registered observation) s.groups served
  Step-IsSession {s} (fetches id m) served =
      All-map (IsGroup Registered) (IsGroup Registered) _
        (fetched_group-IsGroup Registered id m s.next_candidate) s.groups served
  Step-IsSession {s} (loads identity r) served =
      All-map (IsGroup Registered) (IsGroup Registered) _
        (loaded_group-IsGroup Registered identity r) s.groups served

  pub Reach-IsSession :
      {s t : ManagedSession} → (IsSession Registered) s → Reach s t → (IsSession Registered) t
  Reach-IsSession served here = served
  Reach-IsSession served (next before step) = Step-IsSession step (Reach-IsSession served before)
