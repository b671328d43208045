-- ===== src/Wasm/Session/Update/Slots.antt =====
-- An update leaves every PLT slot at the entry of its group's active module.
use nekomata.Base.{
  ℕ, ◌≡◌, refl, sym, ◌∙◌, subst, false, List, [], ◌∷◌, Option, none, some, ◌≢◌, All, Bool-cases,
  inl, inr,
}
use nekomata.Text.{Bytes, equal, equal_iff}
use nekomata.Wasm.Candidate.{
  PreparedModule, Candidate, entry_in, Activation, activate, is_ready, take_prepared, unchanged,
}
use nekomata.Wasm.Poller.{Pending}
use nekomata.Wasm.Registration.{PltSlot, assign, apply_plt_slot, apply_plt_slots}
use nekomata.Wasm.Session.{Group}
use nekomata.Wasm.Session.Update.{
  GroupTransaction, Committed, redirect, after_activation, conclude_rejected, commit_pending,
}

-- A slot of the group is at the address of its entry in the active module, if it has one there.
abbrev pub Points : Bytes → Option PreparedModule → PltSlot → Type 0
Points id none slot = Unit {0}
Points id (some m) slot =
    slot.group ≡ id
    → (address : ℕ) → entry_in m.entries slot.entry ≡ some address
    → slot.target ≡ some address

abbrev pub ArePointed : Bytes → Option PreparedModule → List PltSlot → Type 0
ArePointed id active slots = All (Points id active) slots

assign-Points :
    (slot : PltSlot) (found : Option ℕ) (id : Bytes) (m : PreparedModule)
    → found ≡ entry_in m.entries slot.entry
    → Points id (some m) (assign slot found)
unfolding assign
assign-Points slot none id m e own address there = cc
assign-Points slot (some a) id m e own address there = e ∙ there

equal-apart : (a b : Bytes) → equal a b ≡ false → a ≢ b
equal-apart a b apart same = cc ((equal_iff a b).1 same)

elsewhere :
    (id : Bytes) (active : Option PreparedModule) (slot : PltSlot)
    → equal slot.group id ≡ false
    → Points id active slot
elsewhere id none slot apart = tt
elsewhere id (some m) slot apart = λ own address there. absurd (equal-apart slot.group id apart own)

assign-group : (slot : PltSlot) (found : Option ℕ) → (assign slot found).group ≡ slot.group
unfolding assign
assign-group slot none = refl
assign-group slot (some address) = refl

apply_plt_slot-Points :
    (id : Bytes) (m : PreparedModule) (slot : PltSlot)
    → Points id (some m) (apply_plt_slot id m slot)
unfolding apply_plt_slot
apply_plt_slot-Points id m slot = elim (Bool-cases (equal slot.group id)) [
  | inl ours ↦
      let same : apply_plt_slot id m slot ≡ assign slot (entry_in m.entries slot.entry) =
        rw (ours, apply_plt_slot) refl in
      subst (Points id (some m)) (sym same) (assign-Points slot _ id m refl)
  | inr other ↦
      let same : apply_plt_slot id m slot ≡ slot = rw (other, apply_plt_slot) refl in
      subst (Points id (some m)) (sym same) (elsewhere id (some m) slot other)
]

-- Another group's slots stay where they are.
apply_plt_slot-others :
    (id other : Bytes) (m : PreparedModule) (active : Option PreparedModule) (slot : PltSlot)
    → equal other id ≡ false
    → Points id active slot
    → Points id active (apply_plt_slot other m slot)
unfolding apply_plt_slot
apply_plt_slot-others id other m active slot apart held =
    elim (Bool-cases (equal slot.group other)) [
      | inl theirs ↦
          let same : apply_plt_slot other m slot ≡ assign slot (entry_in m.entries slot.entry) =
            rw (theirs, apply_plt_slot) refl in
          let group : (assign slot (entry_in m.entries slot.entry)).group ≡ other =
            assign-group slot _ ∙ (equal_iff slot.group other).0 theirs in
          subst (Points id active) (sym same) (
            elsewhere id active (assign slot (entry_in m.entries slot.entry))
              (subst (λ x. equal x id ≡ false) (sym group) apart))
      | inr free ↦
          let same : apply_plt_slot other m slot ≡ slot = rw (free, apply_plt_slot) refl in
          subst (Points id active) (sym same) held
    ]

redirect-ArePointed :
    (id : Bytes) (active : Option PreparedModule) (slots : List PltSlot)
    → ArePointed id active (redirect id active slots)
unfolding redirect apply_plt_slots
redirect-ArePointed id none [] = tt
redirect-ArePointed id none (slot ∷ slots) = (tt, redirect-ArePointed id none slots)
redirect-ArePointed id (some m) [] = tt
redirect-ArePointed id (some m) (slot ∷ slots) =
    (apply_plt_slot-Points id m slot, redirect-ArePointed id (some m) slots)

redirect-others :
    (id other : Bytes) (now active : Option PreparedModule) (slots : List PltSlot)
    → equal other id ≡ false
    → ArePointed id active slots
    → ArePointed id active (redirect other now slots)
unfolding redirect apply_plt_slots
redirect-others id other none active slots apart held = held
redirect-others id other (some m) active [] apart held = tt
redirect-others id other (some m) active (slot ∷ slots) apart held = (
  apply_plt_slot-others id other m active slot apart held.0,
  redirect-others id other (some m) active slots apart held.1,
)

take_prepared-refused :
    (current : Option PreparedModule) (c : Candidate) (o : Option PreparedModule)
    → (take_prepared current c o).done ≡ false
    → (take_prepared current c o).current ≡ current
unfolding take_prepared unchanged
take_prepared-refused current c none e = refl
take_prepared-refused current c (some m) e = cc

activate-refused :
    (current : Option PreparedModule) (c : Candidate)
    → (activate current c).done ≡ false
    → (activate current c).current ≡ current
unfolding activate
activate-refused current c e = elim (Bool-cases (is_ready c.status)) [
  | inl ready ↦
      rw (ready, activate) (take_prepared-refused current c c.prepared (rw (ready, activate) at e))
  | inr other ↦ rw (other, activate) (unfold unchanged in refl)
]

-- What a transaction leaves of its own group's slots, and of another's.
abbrev pub Own : Group → List PltSlot → Committed → Type 0
Own g slots c =
    (c.group.id ≡ g.id)
    × (ArePointed g.id g.active slots → ArePointed c.group.id c.group.active c.slots)
    × ((id : Bytes) (active : Option PreparedModule)
        → equal g.id id ≡ false
        → ArePointed id active slots
        → ArePointed id active c.slots)

after_activation-Own :
    (t : GroupTransaction) (slots : List PltSlot) (g : Group) (pending : Pending) (a : Activation)
    → (a.done ≡ false → a.current ≡ g.active)
    → Own g slots (after_activation t slots g pending a)
unfolding after_activation
after_activation-Own t slots g pending a refused = elim (Bool-cases a.done) [
  | inl done ↦
      rw (done, after_activation)
        (
          refl,
          λ held. redirect-ArePointed g.id a.current slots,
          λ id active apart held. redirect-others id g.id a.current active slots apart held,
        )
  | inr kept ↦
      rw (kept, after_activation)
        (
          refl,
          λ held. subst (λ active. ArePointed g.id active slots) (sym (refused kept)) held,
          λ id active apart held. held,
        )
]

pub commit_pending-Own :
    (t : GroupTransaction) (slots : List PltSlot) (g : Group) (o : Option Pending)
    → Own g slots (commit_pending t slots g o)
unfolding commit_pending conclude_rejected
commit_pending-Own t slots g none = (refl, λ held. held, λ id active apart held. held)
commit_pending-Own t slots g (some pending) =
    elim (Bool-cases (is_ready pending.candidate.status)) [
      | inl ready ↦
          rw (ready, commit_pending)
            (after_activation-Own t slots g pending (activate g.active pending.candidate)
              (activate-refused g.active pending.candidate))
      | inr other ↦ rw (other, commit_pending) (refl, λ held. held, λ id active apart held. held)
    ]
