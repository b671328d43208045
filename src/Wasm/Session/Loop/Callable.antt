-- ===== src/Wasm/Session/Loop/Callable.antt =====
-- A page's slots can be called as soon as their group has an active module.
use nekomata.Base.{
  ℕ, ◌≡◌, refl, sym, ap, subst, true, false, not, List, [], ◌∷◌, map, Option, none, some, arith,
  All, Bool-cases, inl, inr, ok, guard, bind-eq-ok, guard-eq-ok, ok-injective,
}
use nekomata.Text.{Bytes, codes, equal}
use nekomata.Protocol.Scanner.{is_empty}
use nekomata.Text.{member_of}
use nekomata.Wasm.Module.{ModuleContract}
use nekomata.Wasm.Candidate.{PreparedModule, OwnedEntry, entry_in}
use nekomata.Wasm.Session.Loop.Host.{IsHosted, Serves, Reach-IsHosted}
use nekomata.Wasm.Registration.{GroupRegistration, PltSlot, sort_registrations}
use nekomata.Wasm.Registration.Order.{
  less_apart, less_apart_sym, IsAscending, Above, IsSorted, Differ, sort-IsSorted,
  Differ-IsAscending,
}
use nekomata.Wasm.Session.{
  Group, ManagedSession, new_group, new_groups, nonempty_id, check_ids, check_later_ids,
  new_session,
}
use nekomata.Wasm.Session.Update.Slots.{ArePointed, Points}
use nekomata.Wasm.Session.Loop.Slots.{View, view, AreApart, AllPointed}
use nekomata.Wasm.Session.Loop.Pointed.{first_ids, IsPointed, Reach-IsPointed, to_groups}
use nekomata.Wasm.Session.Loop.{Reach}

-- The start: ascending ids, and no active module.
abbrev registration_ids : List GroupRegistration → List Bytes
registration_ids rs = map (λ (r : GroupRegistration). r.group_id) rs

Above-apart :
    (id : Bytes) (rs : List GroupRegistration)
    → Above id rs
    → All (λ other. (equal id other ≡ false) × (equal other id ≡ false)) (registration_ids rs)
Above-apart id [] above = tt
Above-apart id (r ∷ rs) above = (
  (less_apart id r.group_id above.0, less_apart_sym id r.group_id above.0),
  Above-apart id rs above.1,
)

IsAscending-AreApart :
    (rs : List GroupRegistration) → IsAscending rs → AreApart (registration_ids rs)
IsAscending-AreApart [] ascending = tt
IsAscending-AreApart (r ∷ rs) ascending =
    (Above-apart r.group_id rs ascending.0, IsAscending-AreApart rs ascending.1)

check_later_ids-Differ :
    (previous : Bytes) (rs : List GroupRegistration)
    → check_later_ids previous rs ≡ ok tt
    → Differ previous rs
unfolding check_later_ids
check_later_ids-Differ previous [] e = tt
check_later_ids-Differ previous (r ∷ rs) e =
    let (u, nonempty, rest) = bind-eq-ok (nonempty_id r) _ e in
    let (v, apart, later) = bind-eq-ok (guard (not (equal previous r.group_id)) _) _ rest in
    (
      ground (arith, guard-eq-ok (not (equal previous r.group_id)) _ apart),
      check_later_ids-Differ r.group_id rs later,
    )

check_ids-IsAscending :
    (rs : List GroupRegistration) → IsSorted rs → check_ids rs ≡ ok tt → IsAscending rs
unfolding check_ids
check_ids-IsAscending [] sorted e = tt
check_ids-IsAscending (r ∷ rs) sorted e =
    let (u, nonempty, rest) = bind-eq-ok (nonempty_id r) _ e in
    Differ-IsAscending r rs sorted (check_later_ids-Differ r.group_id rs rest)

abbrev Starts : List PltSlot → List GroupRegistration → List Group → Type 0
Starts slots rs gs =
    (first_ids (map view gs) ≡ registration_ids rs)
    × All (λ (v : View). ArePointed v.0 v.1 slots) (map view gs)

-- A group without an active module asks nothing of the slots.
unasked : (id : Bytes) (slots : List PltSlot) → ArePointed id none slots
unasked id [] = tt
unasked id (slot ∷ slots) = (tt, unasked id slots)

new_groups-Starts :
    (rs : List GroupRegistration) (slots : List PltSlot) (gs : List Group)
    → new_groups rs ≡ ok gs
    → Starts slots rs gs
unfolding new_groups new_group
new_groups-Starts [] slots gs e = subst (Starts slots []) (ok-injective e) (refl, tt)
new_groups-Starts (r ∷ rs) slots gs e =
    let (u, nonempty, rest) =
      bind-eq-ok
        (guard (not (is_empty r.manifest_url))
          (codes "offer_poller: manifest URL must not be empty"))
        _ e in
    let (later, made, done) = bind-eq-ok (new_groups rs) (λ gs. ok (new_group r ∷ gs)) rest in
    let (known, held) = new_groups-Starts rs slots later made in
    let start : Starts slots (r ∷ rs) (new_group r ∷ later) =
      (ap (◌∷◌ r.group_id) known, (unasked r.group_id slots, held)) in
    subst (Starts slots (r ∷ rs)) (ok-injective done) start

new_session-IsPointed :
    (slots : List PltSlot) (rs : List GroupRegistration) (s : ManagedSession)
    → new_session slots rs ≡ ok s
    → IsPointed s
unfolding new_session
new_session-IsPointed slots rs s e =
    let sorted = sort_registrations rs in
    let (u, checked, rest) = bind-eq-ok (check_ids (sort_registrations rs)) _ e in
    let (groups, made, done) = bind-eq-ok (new_groups (sort_registrations rs)) _ rest in
    let (known, held) = new_groups-Starts (sort_registrations rs) slots groups made in
    let apart =
      IsAscending-AreApart (sort_registrations rs)
        (check_ids-IsAscending (sort_registrations rs) (sort-IsSorted rs) checked) in
    subst IsPointed (ok-injective done) (subst AreApart (sym known) apart, held)

entry_in-member :
    (es : List OwnedEntry) (name : Bytes)
    → member_of name (map (λ (e : OwnedEntry). e.name) es) ≡ true
    → (address : ℕ) × (entry_in es name ≡ some address)
unfolding member_of entry_in
entry_in-member [] name there = cc
entry_in-member (e ∷ es) name there = elim (Bool-cases (equal e.name name)) [
  | inl first ↦ (e.address, rw first refl)
  | inr later ↦
      let (address, found) = entry_in-member es name (rw later at there) in
      (address, rw later found)
]

-- A registered entry of the host's contract has an address in the module, and the slot is there.
abbrev pub IsCallable : Bytes → ModuleContract → Option PreparedModule → PltSlot → Type 0
IsCallable id host none slot = Unit {0}
IsCallable id host (some m) slot =
    slot.group ≡ id
    → is_empty host.abi_id ≡ false
    → member_of slot.entry host.entries ≡ true
    → (address : ℕ) × (entry_in m.entries slot.entry ≡ some address) × (slot.target ≡ some address)

abbrev pub AreCallable : ManagedSession → Type 0
AreCallable s =
    All (λ g. All (IsCallable g.id g.poller.expected_contract g.active) s.slots) s.groups

Points-IsCallable :
    (id : Bytes) (host : ModuleContract) (active : Option PreparedModule) (slot : PltSlot)
    → Serves host active
    → Points id active slot
    → IsCallable id host active slot
Points-IsCallable id host none slot serves pointed = tt
Points-IsCallable id host (some m) slot serves pointed = λ own present listed.
    let (names, exported) = serves present in
    let (address, found) =
      entry_in-member m.entries slot.entry
        (subst (λ ns. member_of slot.entry ns ≡ true) (sym names) listed) in
    (address, found, pointed own address found)

slots-AreCallable :
    (id : Bytes) (host : ModuleContract) (active : Option PreparedModule) (slots : List PltSlot)
    → Serves host active
    → ArePointed id active slots
    → All (IsCallable id host active) slots
slots-AreCallable id host active [] serves pointed = tt
slots-AreCallable id host active (slot ∷ slots) serves pointed = (
  Points-IsCallable id host active slot serves pointed.0,
  slots-AreCallable id host active slots serves pointed.1,
)

groups-AreCallable :
    (rs : List GroupRegistration) (slots : List PltSlot) (gs : List Group)
    → All (IsHosted rs) gs
    → AllPointed gs slots
    → All (λ g. All (IsCallable g.id g.poller.expected_contract g.active) slots) gs
groups-AreCallable rs slots [] held pointed = tt
groups-AreCallable rs slots (g ∷ gs) held pointed = (
  slots-AreCallable g.id g.poller.expected_contract g.active slots held.0.1 pointed.0,
  groups-AreCallable rs slots gs held.1 pointed.1,
)

-- In every state that a session reaches, a PLT slot of a group that has an active module, for an
-- entry of the group's contract (with an ABI identity), holds the address that this module exports
-- for the entry: no call goes to an older generation, or to nothing.
pub Reach-AreCallable :
    (slots : List PltSlot) (rs : List GroupRegistration) {s t : ManagedSession}
    → new_session slots rs ≡ ok s
    → Reach s t
    → AreCallable t
Reach-AreCallable slots rs {s} {t} made reached =
    groups-AreCallable rs t.slots t.groups (Reach-IsHosted slots rs made reached) (
      to_groups t.slots t.groups
        (Reach-IsPointed (new_session-IsPointed slots rs s made) reached).1)
