-- ===== src/Wasm/Session/Loop/Views.antt =====
-- What the steps of the event loop other than an update leave alone.
use nekomata.Base.{
  ℕ, ◌+◌, ◌≡◌, refl, sym, ◌∙◌, ap, ap₂, ◌&&◌, List, [], ◌∷◌, map, Option, none, some, Bool-cases,
  inl, inr, Result, ok, err, bind-eq-ok, ok-injective,
}
use nekomata.Text.{Bytes, equal}
use nekomata.Runtime.Stream.{less}
use nekomata.Wasm.Session.{
  Group, ManagedSession, Scheduling, enable, enable_from, subscribe, subscribes, returns_null,
  throws, enable_groups, enabled_first, watch, watch_groups, change_group, watch_group, unwatch,
  unwatch_group, disable, disabled,
}
use nekomata.Wasm.Session.Update.{update}
use nekomata.Wasm.Poller.{ManifestText}
use nekomata.Wasm.Session.Loop.Slots.{view}
use nekomata.Wasm.Session.Loop.{
  tick_group, tick, fetched_group, fetched, loaded_group, loaded, observes, Step, watches,
  watches_group, unwatches, unwatches_group, updates, ticks, fetches, loads,
}

-- No step but an update touches an id or an active module.
map-view :
    (f : Group → Group)
    → ((g : Group) → view (f g) ≡ view g)
    → (gs : List Group) → map view (map f gs) ≡ map view gs
map-view f same [] = refl
map-view f same (g ∷ gs) = ap₂ ◌∷◌ (same g) (map-view f same gs)

tick_group-view : (observation : ℕ) (g : Group) → view (tick_group observation g) ≡ view g
unfolding tick_group
tick_group-view observation g = elim (Bool-cases (observes g.observed observation)) [
  | inl current ↦ rw (current, tick_group) refl
  | inr gone ↦ rw (gone, tick_group) refl
]

fetched_group-view :
    (id : Bytes) (m : ManifestText) (identity : ℕ) (g : Group)
    → view (fetched_group id m identity g) ≡ view g
unfolding fetched_group
fetched_group-view id m identity g = elim (Bool-cases (equal g.id id && g.poller.fetching)) [
  | inl fetching ↦ rw (fetching, fetched_group) refl
  | inr other ↦ rw (other, fetched_group) refl
]

subscribe-view :
    (how : Scheduling) (observation : ℕ) (g g' : Group)
    → subscribe how observation g ≡ ok g'
    → view g' ≡ view g
unfolding subscribe
subscribe-view subscribes observation g g' e = ap view (sym (ok-injective e))
subscribe-view returns_null observation g g' e = cc
subscribe-view (throws problem) observation g g' e = cc

enable-view :
    (scheduler : Bytes → Scheduling) (observation : ℕ) (g g' : Group)
    → enable scheduler observation g ≡ ok g'
    → view g' ≡ view g
unfolding enable
enable-view scheduler observation g g' e = go g.observed e
  where
    go : (o : Option ℕ) → enable_from o scheduler observation g ≡ ok g' → view g' ≡ view g
    go (some current) e = ap view (sym (ok-injective e))
    go none e = subscribe-view (scheduler g.id) observation g g' e

enabled_first-view :
    (g : Group) (gs : List Group) (r : Result Bytes Group)
    (later : List Group × Result Bytes (Unit {0}))
    → ((g' : Group) → r ≡ ok g' → view g' ≡ view g)
    → map view later.0 ≡ map view gs
    → map view (enabled_first g gs r later).0 ≡ map view (g ∷ gs)
unfolding enabled_first
enabled_first-view g gs (err e) later keep kept = refl
enabled_first-view g gs (ok g') later keep kept = ap₂ ◌∷◌ (keep g' refl) kept

enable_groups-view :
    (scheduler : Bytes → Scheduling) (observation : ℕ) (gs : List Group)
    → map view (enable_groups scheduler observation gs).0 ≡ map view gs
unfolding enable_groups
enable_groups-view scheduler observation [] = refl
enable_groups-view scheduler observation (g ∷ gs) =
    enabled_first-view g gs (enable scheduler observation g) _ (enable-view scheduler observation g)
      (enable_groups-view scheduler (observation + 1) gs)

change_group-view :
    (id : Bytes) (f : Group → Result Bytes Group)
    → ((g g' : Group) → f g ≡ ok g' → view g' ≡ view g)
    → (gs gs' : List Group) → change_group id f gs ≡ ok gs'
    → map view gs' ≡ map view gs
unfolding change_group
change_group-view id f keep [] gs' e = cc
change_group-view id f keep (g ∷ gs) gs' e = elim (Bool-cases (less g.id id)) [
  | inl below ↦
      let (later, rest, done) = bind-eq-ok (change_group id f gs) _ (rw below at e) in
      ap (map view) (sym (ok-injective done))
      ∙ ap (◌∷◌ (view g)) (change_group-view id f keep gs later rest)
  | inr found ↦ elim (Bool-cases (equal g.id id)) [
    | inl same ↦
        let (g', changed, done) = bind-eq-ok (f g) _ (rw same at (rw found at e)) in
        ap (map view) (sym (ok-injective done)) ∙ ap (λ v. v ∷ map view gs) (keep g g' changed)
    | inr other ↦ cc (rw other at (rw found at e))
  ]
]

watch_groups-view :
    (scheduler : Bytes → Scheduling) (s : ManagedSession) (gs : List Group)
    → s.groups ≡ gs
    → (map view (watch_groups scheduler s gs).0.groups ≡ map view s.groups)
      × ((watch_groups scheduler s gs).0.slots ≡ s.slots)
unfolding watch_groups
watch_groups-view scheduler s [] same = (refl, refl)
watch_groups-view scheduler s (g ∷ gs) same =
    (enable_groups-view scheduler s.next_observation (g ∷ gs) ∙ ap (map view) (sym same), refl)

disabled-view : (g g' : Group) → disabled g ≡ ok g' → view g' ≡ view g
unfolding disable
disabled-view g g' e = ap view (sym (ok-injective e))

abbrev pub Same : ManagedSession → ManagedSession → Type 0
Same s t = (map view t.groups ≡ map view s.groups) × (t.slots ≡ s.slots)

-- Every step is an update, or leaves what the slots depend on.
pub data StepCase (s t : ManagedSession) : Type 0 where
  updated : t ≡ (update s).0 → StepCase s t
  same : Same s t → StepCase s t

changed-Same :
    (id : Bytes) (f : Group → Result Bytes Group) (s t : ManagedSession) (groups : List Group)
    → ((g g' : Group) → f g ≡ ok g' → view g' ≡ view g)
    → change_group id f s.groups ≡ ok groups
    → t.groups ≡ groups
    → t.slots ≡ s.slots
    → Same s t
changed-Same id f s t groups keep changed now slots =
    (ap (map view) now ∙ change_group-view id f keep s.groups groups changed, slots)

pub Step-cases : {s t : ManagedSession} → Step s t → StepCase s t
unfolding watch watch_group unwatch unwatch_group tick fetched loaded loaded_group disable
Step-cases {s} (watches scheduler) = same (watch_groups-view scheduler s s.groups refl)
Step-cases {s} {t} (watches_group scheduler id e) =
    let (groups, changed, done) =
      bind-eq-ok (change_group id (enable scheduler s.next_observation) s.groups) _ e in
    let now = sym (ok-injective done) in
    same (
      changed-Same id (enable scheduler s.next_observation) s t groups
        (enable-view scheduler s.next_observation) changed
        (ap (λ (x : ManagedSession). x.groups) now) (ap (λ (x : ManagedSession). x.slots) now))
Step-cases {s} unwatches = same (map-view disable (λ g. refl) s.groups, refl)
Step-cases {s} {t} (unwatches_group id e) =
    let (groups, changed, done) = bind-eq-ok (change_group id disabled s.groups) _ e in
    let now = sym (ok-injective done) in
    same (
      changed-Same id disabled s t groups disabled-view changed
        (ap (λ (x : ManagedSession). x.groups) now) (ap (λ (x : ManagedSession). x.slots) now))
Step-cases updates = updated refl
Step-cases {s} (ticks observation) =
    same (map-view (tick_group observation) (tick_group-view observation) s.groups, refl)
Step-cases {s} (fetches id m) =
    same (map-view _ (fetched_group-view id m s.next_candidate) s.groups, refl)
Step-cases {s} (loads identity r) =
    same (map-view (loaded_group identity r) (λ g. refl) s.groups, refl)
