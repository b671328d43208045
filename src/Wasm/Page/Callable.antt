-- ===== src/Wasm/Page/Callable.antt =====
-- The slots of a page call the active modules.
use nekomata.Base.{
  ℕ, ◌≡◌, sym, ◌∙◌, ap, subst, true, false, inl, inr, List, [], ◌∷◌, Option, none, some, All,
  Bool-cases, ok, ok-injective, bind-eq-ok,
}
use nekomata.Text.{Bytes, equal, equal_iff, member_of}
use nekomata.Protocol.Scanner.{is_empty}
use nekomata.Wasm.Module.{ModuleContract}
use nekomata.Wasm.Candidate.{PreparedModule, entry_in}
use nekomata.Wasm.Registration.{
  GroupRecord, PltSlot, GroupRegistration, read_group_records, find_registration,
  validate_plt_slots, sort_registrations,
}
use nekomata.Wasm.Registration.Order.{less_apart, Above, IsAscending}
use nekomata.Wasm.Registration.Discovered.{IsUsable, read_group_records-lem}
use nekomata.Wasm.Session.{Group, ManagedSession, check_ids, new_groups, new_session}
use nekomata.Wasm.Session.Loop.{Reach}
use nekomata.Wasm.Session.Loop.Host.{Registered, IsHosted, Reach-IsHosted}
use nekomata.Wasm.Session.Loop.Callable.{IsCallable, Reach-AreCallable}
use nekomata.Wasm.Page.{new_browser_session}
use nekomata.Wasm.Page.Wired.{IsWired, validate_plt_slots-AreWired, Reach-AreWired}

not_among_later :
    (k id : Bytes) (host : ModuleContract) (rs : List GroupRegistration)
    → equal k id ≡ true
    → Above k rs
    → Registered rs id host
    → ⊥
not_among_later k id host [] same above registered = registered
not_among_later k id host (r ∷ rs) same (first, above) (inl (own, contract)) =
    cc (less_apart k r.group_id first, same, own)
not_among_later k id host (r ∷ rs) same (first, above) (inr later) =
    not_among_later k id host rs same above later

-- The registration that a search finds is the one whose contract the group keeps.
found-contract :
    (rs : List GroupRegistration) (id : Bytes) (host : ModuleContract) (r : GroupRegistration)
    → IsAscending rs
    → find_registration id rs ≡ some r
    → Registered rs id host
    → r.expected_contract ≡ host
unfolding find_registration
found-contract [] id host r ascending found registered = absurd registered
found-contract (x ∷ xs) id host r (above, ascending) found registered =
    elim (Bool-cases (equal x.group_id id)) [
      | inl here ↦
          let same : x.expected_contract ≡ r.expected_contract = first x r (rw here at found) in
          sym same ∙ elim registered [
            | inl (own, contract) ↦ contract
            | inr later ↦ absurd (not_among_later x.group_id id host xs here above later)
          ]
      | inr other ↦ elim registered [
        | inl (own, contract) ↦ cc ((equal_iff x.group_id id).1 own, other)
        | inr later ↦ found-contract xs id host r ascending (rw other at found) later
      ]
    ]
  where
    first :
        (x r : GroupRegistration)
        → ◌≡◌ {A = Option GroupRegistration} (some x) (some r)
        → x.expected_contract ≡ r.expected_contract
    first x r e = cc

abi_is_nonempty :
    (rs : List GroupRegistration) (id : Bytes) (host : ModuleContract)
    → All IsUsable rs
    → Registered rs id host
    → is_empty host.abi_id ≡ false
abi_is_nonempty [] id host usable registered = absurd registered
abi_is_nonempty (r ∷ rs) id host (usable, rest) (inl (own, contract)) =
    subst (λ (c : ModuleContract). is_empty c.abi_id ≡ false) contract usable.2
abi_is_nonempty (r ∷ rs) id host (usable, rest) (inr later) = abi_is_nonempty rs id host rest later

-- A slot of this group holds the address of its entry in the active module.
abbrev pub Calls : Bytes → Option PreparedModule → PltSlot → Type 0
Calls id none slot = Unit {0}
Calls id (some m) slot =
    slot.group ≡ id
    → (address : ℕ) × (entry_in m.entries slot.entry ≡ some address) × (slot.target ≡ some address)

abbrev pub AreCalling : ManagedSession → Type 0
AreCalling s = All (λ g. All (Calls g.id g.active) s.slots) s.groups

module _ (rs : List GroupRegistration) (usable : All IsUsable rs) (ascending : IsAscending rs) where
  slot-Calls :
      (id : Bytes) (host : ModuleContract) (active : Option PreparedModule) (slot : PltSlot)
      → Registered rs id host
      → IsWired rs slot
      → IsCallable id host active slot
      → Calls id active slot
  slot-Calls id host none slot registered wired callable = tt
  slot-Calls id host (some m) slot registered (r, found, listed) callable = λ own.
      let same =
        found-contract rs id host r ascending
          (subst (λ k. find_registration k rs ≡ some r) own found) registered in
      callable own (abi_is_nonempty rs id host usable registered)
        (subst (λ (c : ModuleContract). member_of slot.entry c.entries ≡ true) same listed)

  slots-Call :
      (id : Bytes) (host : ModuleContract) (active : Option PreparedModule) (slots : List PltSlot)
      → Registered rs id host
      → All (IsWired rs) slots
      → All (IsCallable id host active) slots
      → All (Calls id active) slots
  slots-Call id host active [] registered wired callable = tt
  slots-Call id host active (slot ∷ slots) registered (w, wired) (c, callable) = (
    slot-Calls id host active slot registered w c,
    slots-Call id host active slots registered wired callable,
  )

  groups-Call :
      (slots : List PltSlot) (gs : List Group)
      → All (IsWired rs) slots
      → All (IsHosted rs) gs
      → All (λ g. All (IsCallable g.id g.poller.expected_contract g.active) slots) gs
      → All (λ g. All (Calls g.id g.active) slots) gs
  groups-Call slots [] wired hosted callable = tt
  groups-Call slots (g ∷ gs) wired (h, hosted) (c, callable) = (
    slots-Call g.id g.poller.expected_contract g.active slots h.0 wired c,
    groups-Call slots gs wired hosted callable,
  )

new_session-slots :
    (slots : List PltSlot) (rs : List GroupRegistration) {s : ManagedSession}
    → new_session slots rs ≡ ok s
    → s.slots ≡ slots
unfolding new_session
new_session-slots slots rs e =
    let (u, checked, e') = bind-eq-ok (check_ids (sort_registrations rs)) _ e in
    let (gs, built, e'') = bind-eq-ok (new_groups (sort_registrations rs)) _ e' in
    ap (λ (s : ManagedSession). s.slots) (sym (ok-injective e''))

-- Once a group of a page has applied a generation, every PLT slot of that group holds the address
-- that its active module exports for the slot's entry, whatever the order of calls, timer ticks,
-- manifests and module loads: no call goes to an older generation, or to nothing.
pub new_browser_session-AreCalling :
    (records : List GroupRecord) (slots : List PltSlot) {s t : ManagedSession}
    → new_browser_session records slots ≡ ok s
    → Reach s t
    → AreCalling t
unfolding new_browser_session
new_browser_session-AreCalling records slots {s} {t} e reached =
    let (rs, read, e') = bind-eq-ok (read_group_records records) _ e in
    let (s', made, e'') = bind-eq-ok (new_session slots rs) _ e' in
    let (u, validated, last) = bind-eq-ok (validate_plt_slots rs slots) _ e'' in
    let made' = subst (λ x. new_session slots rs ≡ ok x) (ok-injective last) made in
    let (usable, ascending) = read_group_records-lem records read in
    let wired =
      subst (All (IsWired rs)) (sym (new_session-slots slots rs made'))
        (validate_plt_slots-AreWired rs slots validated) in
    groups-Call rs usable ascending t.slots t.groups (Reach-AreWired rs wired reached)
      (Reach-IsHosted slots rs made' reached) (Reach-AreCallable slots rs made' reached)
