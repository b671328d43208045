-- ===== src/Wasm/Session/Update/Settled.antt =====
-- After an update nothing is left to report.
use nekomata.Base.{
  ℕ, ◌≡◌, refl, sym, ◌∙◌, ap, subst, List, [], ◌∷◌, map, Option, none, some, arith, All, Bool-cases,
  inl, inr,
}
use nekomata.Text.{equal_refl}
use nekomata.Protocol.WasmOffer.{WasmOffer}
use nekomata.Runtime.Session.{UpdateEvent}
use nekomata.Wasm.Candidate.{Activation, activate, is_ready}
use nekomata.Wasm.Poller.{Pending}
use nekomata.Wasm.Registration.{PltSlot}
use nekomata.Wasm.Session.{Group, ManagedSession}
use nekomata.Wasm.Session.Update.Due.{NotDue, none-NotDue}
use nekomata.Wasm.Session.Update.{
  GroupTransaction, transaction_of, decided_transaction, observed_transaction, prepare_transaction,
  after_activation, conclude_rejected, commit_pending, commit_transaction, commit_groups, update,
}

-- What a transaction knows of its group: the offer that it reports.
abbrev Reports : GroupTransaction → Group → Type 0
Reports t g =
    (accepted : WasmOffer) × (g.poller.last ≡ some accepted)
    × (t.reported_generation ≡ accepted.generation_id)

transaction_of-reported :
    (g : Group) (accepted : WasmOffer) (pending : Pending)
    → (transaction_of g accepted pending.candidate).reported_generation ≡ accepted.generation_id
unfolding transaction_of
transaction_of-reported g accepted pending = elim (Bool-cases (is_ready pending.candidate.status)) [
  | inl ready ↦ rw (ready, transaction_of) refl
  | inr refused ↦ rw (refused, transaction_of) refl
]

decided_transaction-Reports :
    (g : Group) (pending : Option Pending) (last : Option WasmOffer) (t : GroupTransaction)
    → decided_transaction g pending last ≡ some t
    → (accepted : WasmOffer) × (last ≡ some accepted)
      × (t.reported_generation ≡ accepted.generation_id)
unfolding decided_transaction
decided_transaction-Reports g none last t e = cc
decided_transaction-Reports g (some pending) none t e = cc
decided_transaction-Reports g (some pending) (some accepted) t e =
    (accepted, refl, ground (arith, transaction_of-reported g accepted pending))

prepare_transaction-Reports :
    (g : Group) (t : GroupTransaction) → prepare_transaction g ≡ some t → Reports t g
unfolding prepare_transaction
prepare_transaction-Reports g t e = go g.observed e
  where
    go : (o : Option ℕ) → observed_transaction o g ≡ some t → Reports t g
    go none e = cc
    go (some observation) e = decided_transaction-Reports g g.poller.pending g.poller.last t e

-- A group whose last offer is reported has no transaction.
decided_transaction-none :
    (g : Group) (pending : Option Pending) (accepted : WasmOffer)
    → g.reported_generation ≡ accepted.generation_id
    → decided_transaction g pending (some accepted) ≡ none
unfolding decided_transaction
decided_transaction-none g none accepted e = refl
decided_transaction-none g (some pending) accepted e =
    rw (e, equal_refl accepted.generation_id) refl

prepare_transaction-none :
    (g : Group) (accepted : WasmOffer)
    → g.poller.last ≡ some accepted
    → g.reported_generation ≡ accepted.generation_id
    → prepare_transaction g ≡ none
unfolding prepare_transaction
prepare_transaction-none g accepted last reported = go g.observed
  where
    go : (o : Option ℕ) → observed_transaction o g ≡ none
    go none = refl
    go (some observation) =
        subst (λ l. decided_transaction g g.poller.pending l ≡ none) (sym last)
          (decided_transaction-none g g.poller.pending accepted reported)

after_activation-reported :
    (t : GroupTransaction) (slots : List PltSlot) (g : Group) (pending : Pending) (a : Activation)
    → let g' = (after_activation t slots g pending a).group in
      (g'.poller.last ≡ g.poller.last) × (g'.reported_generation ≡ t.reported_generation)
unfolding after_activation
after_activation-reported t slots g pending a = elim (Bool-cases a.done) [
  | inl done ↦ rw (done, after_activation) (refl, refl)
  | inr refused ↦ rw (refused, after_activation) (refl, refl)
]

commit_pending-reported :
    (t : GroupTransaction) (slots : List PltSlot) (g : Group) (o : Option Pending)
    → let g' = (commit_pending t slots g o).group in
      (g'.poller.last ≡ g.poller.last) × (g'.reported_generation ≡ t.reported_generation)
unfolding commit_pending conclude_rejected
commit_pending-reported t slots g none = (refl, refl)
commit_pending-reported t slots g (some pending) =
    elim (Bool-cases (is_ready pending.candidate.status)) [
      | inl ready ↦
          rw (ready, commit_pending)
            (after_activation-reported t slots g pending (activate g.active pending.candidate))
      | inr refused ↦ rw (refused, commit_pending) (refl, refl)
    ]

abbrev IsSettled : Group → Type 0
IsSettled g = prepare_transaction g ≡ none

commit_transaction-IsSettled :
    (g : Group) (t : GroupTransaction) (slots : List PltSlot)
    → prepare_transaction g ≡ some t
    → IsSettled (commit_transaction t slots g).group
unfolding commit_transaction
commit_transaction-IsSettled g t slots e =
    let (accepted, last, reported) = prepare_transaction-Reports g t e in
    let (same_last, same_reported) = commit_pending-reported t slots g g.poller.pending in
    prepare_transaction-none (commit_pending t slots g g.poller.pending).group accepted
      (same_last ∙ last) (same_reported ∙ reported)

abbrev pub Pairs : Type 0
Pairs = List (Group × Option GroupTransaction)

abbrev pub ArePrepared : Pairs → Type 0
ArePrepared = All λ x. prepare_transaction x.0 ≡ x.1

pub map-ArePrepared : (gs : List Group) → ArePrepared (map (λ g. (g, prepare_transaction g)) gs)
map-ArePrepared [] = tt
map-ArePrepared (g ∷ gs) = (refl, map-ArePrepared gs)

commit_groups-AreSettled :
    (gs : Pairs) (s : ManagedSession) → ArePrepared gs → All IsSettled (commit_groups s gs).1
unfolding commit_groups
commit_groups-AreSettled [] s h = tt
commit_groups-AreSettled ((g, none) ∷ gs) s h = (h.0, commit_groups-AreSettled gs s h.1)
commit_groups-AreSettled ((g, some t) ∷ gs) s h =
    (commit_transaction-IsSettled g t s.slots h.0, commit_groups-AreSettled gs _ h.1)

commit_groups-idle :
    (gs : List Group) (s : ManagedSession)
    → All IsSettled gs
    → commit_groups s (map (λ g. (g, prepare_transaction g)) gs) ≡ (s, gs, [])
unfolding commit_groups
commit_groups-idle [] s h = refl
commit_groups-idle (g ∷ gs) s h =
    subst
      (λ o. commit_groups s ((g, o) ∷ map (λ g. (g, prepare_transaction g)) gs) ≡ (s, g ∷ gs, []))
      (sym h.0)
      (ap (λ (r : ManagedSession × List Group × List UpdateEvent). (r.0, g ∷ r.1, r.2))
        (commit_groups-idle gs s h.1))

update-settled : (s : ManagedSession) → All IsSettled s.groups → update s ≡ (s, [])
unfolding update
update-settled s h =
    ap (λ (r : ManagedSession × List Group × List UpdateEvent). (record r.0 { groups = r.1 }, r.2))
      (commit_groups-idle s.groups s h)

All-NotDue : (gs : List Group) → All IsSettled gs → All NotDue gs
All-NotDue [] h = tt
All-NotDue (g ∷ gs) h = (none-NotDue g h.0, All-NotDue gs h.1)

-- After an update no group is due: there is none that is enabled, with a candidate that is ready or
-- rejected and a last offer whose generation id is not the one that the group reported last. So a
-- second update right behind it has no event and changes nothing.
pub update-update :
    (s : ManagedSession)
    → All NotDue (update s).0.groups × (update (update s).0 ≡ ((update s).0, []))
unfolding update
update-update s =
    let settled =
      commit_groups-AreSettled (map (λ g. (g, prepare_transaction g)) s.groups) s
        (map-ArePrepared s.groups) in
    (All-NotDue (update s).0.groups settled, update-settled (update s).0 settled)
