-- ===== src/Wasm/Page/Wired.antt =====
-- Every PLT slot of a page is for an entry of a registered group, and stays so.
use nekomata.Base.{
  ℕ, ◌≡◌, refl, sym, subst, true, List, [], ◌∷◌, map, Option, none, some, All, Bool-cases, inl, inr,
  ok, bind-eq-ok, guard-eq-ok,
}
use nekomata.Text.{Bytes, equal, member_of}
use nekomata.Wasm.Candidate.{PreparedModule, activate, is_ready}
use nekomata.Wasm.Poller.{Pending}
use nekomata.Wasm.Registration.{
  PltSlot, GroupRegistration, assign, apply_plt_slot, apply_plt_slots, find_registration,
  validate_found, validate_plt_slot, validate_plt_slots,
}
use nekomata.Wasm.Session.{Group, ManagedSession}
use nekomata.Wasm.Session.Update.{
  GroupTransaction, redirect, after_activation, commit_pending, commit_transaction, note,
  commit_groups, prepare_transaction, update,
}
use nekomata.Wasm.Session.Loop.{Reach, here, next}
use nekomata.Wasm.Session.Loop.Views.{StepCase, updated, same, Step-cases}

-- The slot's group is registered, and its contract has the slot's entry.
abbrev pub IsWired : List GroupRegistration → PltSlot → Type 0
IsWired groups slot =
    (r : GroupRegistration) × (find_registration slot.group groups ≡ some r)
    × (member_of slot.entry r.expected_contract.entries ≡ true)

validate_plt_slot-IsWired :
    (groups : List GroupRegistration) (slot : PltSlot)
    → validate_plt_slot groups slot ≡ ok tt
    → IsWired groups slot
unfolding validate_plt_slot validate_found
validate_plt_slot-IsWired groups slot e = go (find_registration slot.group groups) refl e
  where
    go :
        (o : Option GroupRegistration)
        → find_registration slot.group groups ≡ o
        → validate_found slot o ≡ ok tt
        → IsWired groups slot
    go none absent e = cc
    go (some r) found e =
        (r, found, guard-eq-ok (member_of slot.entry r.expected_contract.entries) _ e)

pub validate_plt_slots-AreWired :
    (groups : List GroupRegistration) (slots : List PltSlot)
    → validate_plt_slots groups slots ≡ ok tt
    → All (IsWired groups) slots
unfolding validate_plt_slots
validate_plt_slots-AreWired groups [] e = tt
validate_plt_slots-AreWired groups (slot ∷ slots) e =
    let (u, first, rest) = bind-eq-ok (validate_plt_slot groups slot) _ e in
    (validate_plt_slot-IsWired groups slot first, validate_plt_slots-AreWired groups slots rest)

module _ (groups : List GroupRegistration) where
  assign-IsWired :
      (slot : PltSlot) (found : Option ℕ) → IsWired groups slot → IsWired groups (assign slot found)
  unfolding assign
  assign-IsWired slot none wired = wired
  assign-IsWired slot (some address) wired = wired

  apply_plt_slots-AreWired :
      (id : Bytes) (m : PreparedModule) (slots : List PltSlot)
      → All (IsWired groups) slots
      → All (IsWired groups) (apply_plt_slots id m slots)
  unfolding apply_plt_slots apply_plt_slot
  apply_plt_slots-AreWired id m [] wired = tt
  apply_plt_slots-AreWired id m (slot ∷ slots) (first, wired) = (
    elim (Bool-cases (equal slot.group id)) [
      | inl ours ↦ rw ours (assign-IsWired slot _ first)
      | inr other ↦ rw other first
    ],
    apply_plt_slots-AreWired id m slots wired,
  )

  redirect-AreWired :
      (id : Bytes) (active : Option PreparedModule) (slots : List PltSlot)
      → All (IsWired groups) slots
      → All (IsWired groups) (redirect id active slots)
  unfolding redirect
  redirect-AreWired id none slots wired = wired
  redirect-AreWired id (some m) slots wired = apply_plt_slots-AreWired id m slots wired

  commit_pending-AreWired :
      (t : GroupTransaction) (slots : List PltSlot) (g : Group) (pending : Option Pending)
      → All (IsWired groups) slots
      → All (IsWired groups) (commit_pending t slots g pending).slots
  unfolding commit_pending after_activation
  commit_pending-AreWired t slots g none wired = wired
  commit_pending-AreWired t slots g (some pending) wired =
      elim (Bool-cases (is_ready pending.candidate.status)) [
        | inr other ↦ rw other wired
        | inl ready ↦ elim (Bool-cases (activate g.active pending.candidate).done) [
          | inl done ↦ rw (ready, done) (redirect-AreWired g.id _ slots wired)
          | inr refused ↦ rw (ready, refused) wired
        ]
      ]

  commit_groups-AreWired :
      (gs : List (Group × Option GroupTransaction)) (s : ManagedSession)
      → All (IsWired groups) s.slots
      → All (IsWired groups) (commit_groups s gs).0.slots
  unfolding commit_groups commit_transaction
  commit_groups-AreWired [] s wired = wired
  commit_groups-AreWired ((g, none) ∷ gs) s wired = commit_groups-AreWired gs s wired
  commit_groups-AreWired ((g, some t) ∷ gs) s wired =
      commit_groups-AreWired gs (note (commit_transaction t s.slots g) s)
        (commit_pending-AreWired t s.slots g g.poller.pending wired)

  update-AreWired :
      (s : ManagedSession) → All (IsWired groups) s.slots → All (IsWired groups) (update s).0.slots
  unfolding update
  update-AreWired s wired =
      commit_groups-AreWired (map (λ g. (g, prepare_transaction g)) s.groups) s wired

  -- No step rewires a slot.
  pub Reach-AreWired :
      {s t : ManagedSession}
      → All (IsWired groups) s.slots
      → Reach s t
      → All (IsWired groups) t.slots
  Reach-AreWired wired here = wired
  Reach-AreWired {s} {t} wired (next {t = u} before step) =
      go (Step-cases step) (Reach-AreWired wired before)
    where
      go : StepCase u t → All (IsWired groups) u.slots → All (IsWired groups) t.slots
      go (updated e) held =
          subst (λ (x : ManagedSession). All (IsWired groups) x.slots) (sym e)
            (update-AreWired u held)
      go (same (views, slots)) held = subst (All (IsWired groups)) (sym slots) held
