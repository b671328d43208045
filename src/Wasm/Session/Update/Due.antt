-- ===== src/Wasm/Session/Update/Due.antt =====
-- Which groups an update owes an event, said without its tests (src/backends/wasm/session.cpp).
use mathlib.Core.Option.{some-injective}
use nekomata.Base.{
  ℕ, ◌≡◌, ◌≢◌, refl, sym, ◌∙◌, subst, not, ◌&&◌, true, false, Option, none, some, arith, Bool-cases,
  inl, inr, ◌⊎◌, ◌↔◌,
}
use nekomata.Text.{Bytes, equal, equal_refl, equal_iff}
use nekomata.Protocol.WasmOffer.{WasmOffer}
use nekomata.Wasm.Candidate.{CandidateStatus, is_ready}
use nekomata.Wasm.Poller.{Pending}
use nekomata.Wasm.Session.{Group}
use nekomata.Wasm.Session.Update.{
  GroupTransaction, is_decided, transaction_of, decided_transaction, observed_transaction,
  prepare_transaction, refused_event,
}

-- The candidate is ready for its activation, or was turned down.
abbrev pub Decided : CandidateStatus → Type 0
Decided status = (status ≡ CandidateStatus.ready) ⊎ (status ≡ CandidateStatus.rejected)

-- The group is enabled, its candidate is decided, and the offer of that id is its last one and not
-- the one that it reported last.
abbrev pub Due : Group → Bytes → Type 0
Due g id =
    ((observation : ℕ) × (g.observed ≡ some observation))
    × ((pending : Pending) × (g.poller.pending ≡ some pending) × Decided pending.candidate.status)
    × ((accepted : WasmOffer) × (g.poller.last ≡ some accepted)
        × (accepted.generation_id ≡ id)
        × (id ≢ g.reported_generation))

abbrev pub NotDue : Group → Type 0
NotDue g = (id : Bytes) → Due g id → ⊥

is_decided_iff : (status : CandidateStatus) → (is_decided status ≡ true) ↔ Decided status
unfolding is_decided
is_decided_iff CandidateStatus.loading =
    (λ e. absurd cc, λ h. absurd (elim h [ inl e ↦ cc | inr e ↦ cc ]))
is_decided_iff CandidateStatus.ready = (λ e. inl refl, λ h. refl)
is_decided_iff CandidateStatus.rejected = (λ e. inr refl, λ h. refl)
is_decided_iff CandidateStatus.cancelled =
    (λ e. absurd cc, λ h. absurd (elim h [ inl e ↦ cc | inr e ↦ cc ]))
is_decided_iff CandidateStatus.activated =
    (λ e. absurd cc, λ h. absurd (elim h [ inl e ↦ cc | inr e ↦ cc ]))

-- The first pass keeps a transaction of the groups that are due, and of no other.
abbrev pub Prepared : Group → Option GroupTransaction → Type 0
Prepared g none = NotDue g
Prepared g (some t) = Due g t.event.generation_id × (t.event.group_id ≡ g.id)

transaction_of-ids :
    (g : Group) (accepted : WasmOffer) (pending : Pending)
    → let t = transaction_of g accepted pending.candidate in
      (t.event.group_id ≡ g.id) × (t.event.generation_id ≡ accepted.generation_id)
unfolding transaction_of refused_event
transaction_of-ids g accepted pending = elim (Bool-cases (is_ready pending.candidate.status)) [
  | inl ready ↦ rw (ready, transaction_of) (refl, refl)
  | inr refused ↦ rw (refused, transaction_of) (refl, refl)
]

module _ (g : Group) (pending : Pending) (accepted : WasmOffer)
    (held : g.poller.pending ≡ some pending) (last : g.poller.last ≡ some accepted) where
  kept-Due :
      (observation : ℕ)
      → g.observed ≡ some observation
      → (not (equal accepted.generation_id g.reported_generation)
          && is_decided pending.candidate.status)
        ≡ true
      → Due g accepted.generation_id
  kept-Due observation on keeps = (
    (observation, on),
    (pending, held, (is_decided_iff pending.candidate.status).0 (ground (arith, keeps))),
    (
      accepted,
      last,
      refl,
      λ same.
          let again : equal accepted.generation_id g.reported_generation ≡ true =
            subst (λ id. equal accepted.generation_id id ≡ true) same
              (equal_refl accepted.generation_id) in
          ground (arith, keeps, again),
    ),
  )

  left_out-NotDue :
      (not (equal accepted.generation_id g.reported_generation)
          && is_decided pending.candidate.status)
        ≡ false
      → NotDue g
  left_out-NotDue leaves id (on, (pending', held', decided), (accepted', last', same, fresh)) =
      let same_pending : pending ≡ pending' = some-injective pending pending' (sym held ∙ held') in
      let same_offer : accepted ≡ accepted' =
        some-injective accepted accepted' (sym last ∙ last') in
      let is : is_decided pending.candidate.status ≡ true =
        subst (λ (p : Pending). is_decided p.candidate.status ≡ true) (sym same_pending)
          ((is_decided_iff pending'.candidate.status).1 decided) in
      elim (Bool-cases (equal accepted.generation_id g.reported_generation)) [
        | inr other ↦ ground (arith, leaves, is, other)
        | inl again ↦ fresh (
            sym same
            ∙ sym (
                subst (λ (o : WasmOffer). accepted.generation_id ≡ o.generation_id) same_offer refl)
            ∙ (equal_iff accepted.generation_id g.reported_generation).0 again)
      ]

decided_transaction-Prepared :
    (g : Group) (observation : ℕ) (pending : Option Pending) (last : Option WasmOffer)
    → g.observed ≡ some observation
    → g.poller.pending ≡ pending
    → g.poller.last ≡ last
    → Prepared g (decided_transaction g pending last)
unfolding decided_transaction
decided_transaction-Prepared g observation none last on held e =
    λ id due. let clash = sym held ∙ due.1.1 in cc
decided_transaction-Prepared g observation (some pending) none on held e =
    λ id due. let clash = sym e ∙ due.2.1 in cc
decided_transaction-Prepared g observation (some pending) (some accepted) on held e =
    elim (Bool-cases (
      not (equal accepted.generation_id g.reported_generation)
      && is_decided pending.candidate.status)) [
        | inl keeps ↦
            let (group, generation) = transaction_of-ids g accepted pending in
            rw keeps (
              subst (Due g) (sym generation)
                  (kept-Due g pending accepted held e observation on keeps),
              group,
            )
        | inr leaves ↦ rw leaves (left_out-NotDue g pending accepted held e leaves)
      ]

pub prepare_transaction-Prepared : (g : Group) → Prepared g (prepare_transaction g)
unfolding prepare_transaction
prepare_transaction-Prepared g = go g.observed refl
  where
    go : (o : Option ℕ) → g.observed ≡ o → Prepared g (observed_transaction o g)
    go none off = λ id due. let clash = sym off ∙ due.0.1 in cc
    go (some observation) on =
        decided_transaction-Prepared g observation g.poller.pending g.poller.last on refl refl

-- A group without a transaction is not due.
pub none-NotDue : (g : Group) → prepare_transaction g ≡ none → NotDue g
none-NotDue g e = subst (Prepared g) e (prepare_transaction-Prepared g)
