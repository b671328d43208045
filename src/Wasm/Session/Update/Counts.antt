-- ===== src/Wasm/Session/Update/Counts.antt =====
-- The counters, the events and the groups of an update.
use nekomata.Base.{
  ℕ, ◌+◌, ◌≡◌, refl, sym, subst, ◌∙◌, List, [], ◌∷◌, map, Option, none, some, arith, Bool-cases,
  inl, inr,
}
use nekomata.Runtime.Session.{UpdateEvent, UpdateStatus}
use nekomata.Runtime.Session.Update.Counts.{applied_events, rejected_events}
use nekomata.Wasm.Candidate.{Activation, activate, is_ready}
use nekomata.Wasm.Poller.{Pending}
use nekomata.Wasm.Registration.{PltSlot}
use nekomata.Wasm.Session.{Group, ManagedSession}
use nekomata.Wasm.Session.Update.Due.{Due, NotDue, Prepared, prepare_transaction-Prepared}
use nekomata.Wasm.Session.Update.{
  GroupTransaction, prepare_transaction, after_activation, conclude_rejected, commit_pending,
  commit_transaction, commit_groups, note, count_event, update,
}
use nekomata.Wasm.Session.Update.Settled.{Pairs}

-- The events of an update: each group that is due has one, with its ids, in the order of the groups,
-- and a group that is not due has none.
pub data Announces : List Group → List UpdateEvent → Type 0 where
  no_group : Announces [] []
  silent :
      {g : Group} {gs : List Group} {es : List UpdateEvent}
      → NotDue g
      → Announces gs es
      → Announces (g ∷ gs) es
  speaks :
      {g : Group} {gs : List Group} {e : UpdateEvent} {es : List UpdateEvent}
      → Due g e.generation_id
      → e.group_id ≡ g.id
      → Announces gs es
      → Announces (g ∷ gs) (e ∷ es)

after_activation-ids :
    (t : GroupTransaction) (slots : List PltSlot) (g : Group) (pending : Pending) (a : Activation)
    → let e = (after_activation t slots g pending a).event in
      (e.group_id ≡ t.event.group_id) × (e.generation_id ≡ t.event.generation_id)
unfolding after_activation
after_activation-ids t slots g pending a = elim (Bool-cases a.done) [
  | inl done ↦ rw (done, after_activation) (refl, refl)
  | inr refused ↦ rw (refused, after_activation) (refl, refl)
]

commit_pending-ids :
    (t : GroupTransaction) (slots : List PltSlot) (g : Group) (o : Option Pending)
    → let e = (commit_pending t slots g o).event in
      (e.group_id ≡ t.event.group_id) × (e.generation_id ≡ t.event.generation_id)
unfolding commit_pending conclude_rejected
commit_pending-ids t slots g none = (refl, refl)
commit_pending-ids t slots g (some pending) =
    elim (Bool-cases (is_ready pending.candidate.status)) [
      | inl ready ↦
          rw (ready, commit_pending)
            (after_activation-ids t slots g pending (activate g.active pending.candidate))
      | inr refused ↦ rw (refused, commit_pending) (refl, refl)
    ]

commit_groups-next :
    (g : Group) (o : Option GroupTransaction) (gs : List Group) (pairs : Pairs)
    → Prepared g o
    → ((s : ManagedSession) → Announces gs (commit_groups s pairs).2)
    → (s : ManagedSession) → Announces (g ∷ gs) (commit_groups s ((g, o) ∷ pairs)).2
unfolding commit_groups commit_transaction
commit_groups-next g none gs pairs not_due later s = Announces.silent not_due (later s)
commit_groups-next g (some t) gs pairs (due, group) later s =
    let (same_group, same_generation) = commit_pending-ids t s.slots g g.poller.pending in
    Announces.speaks (subst (Due g) (sym same_generation) due) (same_group ∙ group) (later _)

commit_groups-Announces :
    (gs : List Group) (s : ManagedSession)
    → Announces gs (commit_groups s (map (λ g. (g, prepare_transaction g)) gs)).2
commit_groups-Announces [] s = unfold commit_groups in Announces.no_group
commit_groups-Announces (g ∷ gs) s =
    commit_groups-next g (prepare_transaction g) gs (map (λ g. (g, prepare_transaction g)) gs)
      (prepare_transaction-Prepared g) (commit_groups-Announces gs) s

abbrev is_applied : UpdateStatus → ℕ
is_applied UpdateStatus.applied = 1
is_applied UpdateStatus.rejected = 0

abbrev is_rejected : UpdateStatus → ℕ
is_rejected UpdateStatus.applied = 0
is_rejected UpdateStatus.rejected = 1

count_event-counts :
    (status : UpdateStatus) (s : ManagedSession)
    → ((count_event status s).applied ≡ s.applied + is_applied status)
      × ((count_event status s).rejected ≡ s.rejected + is_rejected status)
unfolding count_event
count_event-counts UpdateStatus.applied s = (omega arith, omega arith)
count_event-counts UpdateStatus.rejected s = (omega arith, omega arith)

applied_events-cons :
    (e : UpdateEvent) (es : List UpdateEvent)
    → (applied_events (e ∷ es) ≡ is_applied e.status + applied_events es)
      × (rejected_events (e ∷ es) ≡ is_rejected e.status + rejected_events es)
applied_events-cons e es = go e.status
  where
    go :
        (status : UpdateStatus)
        → (elim status [ UpdateStatus.applied ↦ 1 | UpdateStatus.rejected ↦ 0 ] + applied_events es
            ≡ is_applied status + applied_events es)
          × (elim status [ UpdateStatus.applied ↦ 0 | UpdateStatus.rejected ↦ 1 ]
                + rejected_events es
              ≡ is_rejected status + rejected_events es)
    go UpdateStatus.applied = (refl, refl)
    go UpdateStatus.rejected = (refl, refl)

abbrev Counted : ManagedSession → ManagedSession × List Group × List UpdateEvent → Type 0
Counted s r =
    (r.0.applied ≡ s.applied + applied_events r.2)
    × (r.0.rejected ≡ s.rejected + rejected_events r.2)

commit_groups-Counted : (gs : Pairs) (s : ManagedSession) → Counted s (commit_groups s gs)
unfolding commit_groups note
commit_groups-Counted [] s = (omega arith, omega arith)
commit_groups-Counted ((g, none) ∷ gs) s = commit_groups-Counted gs s
commit_groups-Counted ((g, some t) ∷ gs) s =
    let c = commit_transaction t s.slots g in
    let (a, r) = count_event-counts c.event.status s in
    let (la, lr) = commit_groups-Counted gs (note c s) in
    let (ea, er) = applied_events-cons c.event (commit_groups (note c s) gs).2 in
    (omega (arith, a, la, ea), omega (arith, r, lr, er))

-- An update has one event, with the group's id and the id of its last offer, for each group that is
-- enabled, whose candidate is ready or rejected, and whose last offer has another generation id than
-- the one that the group reported last; the events are in the order of the groups, and no other
-- group has one. The counters go up by the applied and by the rejected events.
pub update-Counted :
    (s : ManagedSession)
    → Announces s.groups (update s).1
      × ((update s).0.applied ≡ s.applied + applied_events (update s).1)
      × ((update s).0.rejected ≡ s.rejected + rejected_events (update s).1)
unfolding update
update-Counted s =
    let (a, r) = commit_groups-Counted (map (λ g. (g, prepare_transaction g)) s.groups) s in
    (commit_groups-Announces s.groups s, a, r)
