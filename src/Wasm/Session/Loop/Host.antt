-- ===== src/Wasm/Session/Loop/Host.antt =====
-- The active modules of a session, held to the contracts that the page registered.
use nekomata.Base.{
  ℕ, suc, ◌≡◌, refl, ◌∙◌, ap, ap₂, subst, false, not, List, [], ◌∷◌, map, Option, none, some, All,
  Bool-cases, ◌⊎◌, inl, inr, ok, guard, bind-eq-ok, ok-injective,
}
use nekomata.Text.{Bytes, codes}
use nekomata.Protocol.Scanner.{is_empty}
use nekomata.Runtime.Stream.{less}
use nekomata.Wasm.Module.{ModuleEntry, ModuleDescriptor, ModuleContract}
use nekomata.Wasm.Candidate.{OwnedEntry, PreparedModule}
use nekomata.Wasm.Candidate.Contract.{Exports}
use nekomata.Wasm.Poller.Host.{IsActive}
use nekomata.Wasm.Registration.{GroupRegistration, PltSlot, insert_registration, sort_registrations}
use nekomata.Wasm.Session.{Group, ManagedSession, new_group, new_groups, check_ids, new_session}
use nekomata.Wasm.Session.Loop.{Reach}
use nekomata.Wasm.Session.Loop.Invariant.{IsGroup, IsSession}
use nekomata.Wasm.Session.Loop.Served.{Reach-IsSession}

-- Some registration has this id and this contract.
abbrev pub Registered : List GroupRegistration → Bytes → ModuleContract → Type 0
Registered [] id host = ⊥
Registered (r ∷ rs) id host =
    ((r.group_id ≡ id) × (r.expected_contract ≡ host)) ⊎ Registered rs id host

abbrev pub names : PreparedModule → List Bytes
names m = map (λ (e : OwnedEntry). e.name) m.entries

-- The module exports the entries that the host registered, in that order, under its ABI identity.
abbrev pub Implements : ModuleContract → PreparedModule → Type 0
Implements host m =
    (names m ≡ host.entries)
    × ((d : ModuleDescriptor) × (m.image.descriptor ≡ some d) × (d.abi_id ≡ some host.abi_id))

abbrev pub Serves : ModuleContract → Option PreparedModule → Type 0
Serves host none = Unit {0}
Serves host (some m) = is_empty host.abi_id ≡ false → Implements host m

abbrev pub IsHosted : List GroupRegistration → Group → Type 0
IsHosted rs g =
    Registered rs g.id g.poller.expected_contract × Serves g.poller.expected_contract g.active

Exports-names :
    (ns : List Bytes) (entries : ℕ → ModuleEntry) (index : ℕ) (es : List OwnedEntry)
    → Exports ns entries index es
    → map (λ (e : OwnedEntry). e.name) es ≡ ns
Exports-names [] entries index [] exports = refl
Exports-names [] entries index (e ∷ es) exports = absurd exports
Exports-names (name ∷ ns) entries index [] exports = absurd exports
Exports-names (name ∷ ns) entries index (e ∷ es) exports =
    ap₂ ◌∷◌ exports.2 (Exports-names ns entries (suc index) es exports.3)

IsActive-Serves :
    (host : ModuleContract) (active : Option PreparedModule)
    → IsActive host active
    → Serves host active
IsActive-Serves host none held = tt
IsActive-Serves host (some m) (contract, (d, found, fulfils), matches) = λ present.
    let (same_abi, same_entries) = matches present in
    let (entries, array, exports) = fulfils.array in
    (
      Exports-names contract.entries entries 0 m.entries exports ∙ same_entries,
      (d, found, fulfils.abi ∙ ap some same_abi),
    )

module _ (P : GroupRegistration → Type 0) where
  insert-All :
      (r : GroupRegistration) (rs : List GroupRegistration)
      → P r
      → All P rs
      → All P (insert_registration r rs)
  unfolding insert_registration
  insert-All r [] p ps = (p, tt)
  insert-All r (x ∷ xs) p ps = elim (Bool-cases (less x.group_id r.group_id)) [
    | inl below ↦ rw below (ps.0, insert-All r xs p ps.1)
    | inr above ↦ rw above (p, ps)
  ]

  sort-All : (rs : List GroupRegistration) → All P rs → All P (sort_registrations rs)
  unfolding sort_registrations
  sort-All [] ps = tt
  sort-All (r ∷ rs) ps = insert-All r (sort_registrations rs) ps.0 (sort-All rs ps.1)

abbrev Is : List GroupRegistration → GroupRegistration → Type 0
Is rs r = Registered rs r.group_id r.expected_contract

All-Registered :
    (rs all_records : List GroupRegistration)
    → ((id : Bytes) (host : ModuleContract)
        → Registered rs id host
        → Registered all_records id host)
    → All (Is all_records) rs
All-Registered [] all_records widen = tt
All-Registered (r ∷ rs) all_records widen = (
  widen r.group_id r.expected_contract (inl (refl, refl)),
  All-Registered rs all_records (λ id host x. widen id host (inr x)),
)

new_groups-IsSession :
    (rs all_records : List GroupRegistration) (gs : List Group)
    → All (Is all_records) rs
    → new_groups rs ≡ ok gs
    → All (IsGroup (Registered all_records)) gs
unfolding new_groups new_group
new_groups-IsSession [] all_records gs known e =
    subst (All (IsGroup (Registered all_records))) (ok-injective e) tt
new_groups-IsSession (r ∷ rs) all_records gs known e =
    let (u, nonempty, rest) =
      bind-eq-ok
        (guard (not (is_empty r.manifest_url))
          (codes "offer_poller: manifest URL must not be empty"))
        _ e in
    let (later, made, done) = bind-eq-ok (new_groups rs) (λ gs. ok (new_group r ∷ gs)) rest in
    let started : All (IsGroup (Registered all_records)) (new_group r ∷ later) = (
      record { pending = tt; active_module = tt; registered = known.0 },
      new_groups-IsSession rs all_records later known.1 made,
    ) in
    subst (All (IsGroup (Registered all_records))) (ok-injective done) started

new_session-IsSession :
    (slots : List PltSlot) (rs : List GroupRegistration) (s : ManagedSession)
    → new_session slots rs ≡ ok s
    → IsSession (Registered rs) s
unfolding new_session
new_session-IsSession slots rs s e =
    let (u, checked, rest) = bind-eq-ok (check_ids (sort_registrations rs)) _ e in
    let (groups, made, done) = bind-eq-ok (new_groups (sort_registrations rs)) _ rest in
    subst (IsSession (Registered rs)) (ok-injective done) (
      new_groups-IsSession (sort_registrations rs) rs groups
        (sort-All (Is rs) rs (All-Registered rs rs (λ id host x. x))) made)

hosted :
    (rs : List GroupRegistration) (gs : List Group)
    → All (IsGroup (Registered rs)) gs
    → All (IsHosted rs) gs
hosted rs [] served = tt
hosted rs (g ∷ gs) served = (
  (served.0.registered, IsActive-Serves g.poller.expected_contract g.active served.0.active_module),
  hosted rs gs served.1,
)

-- In every state that a session reaches, whatever the order of calls, timer ticks, manifests and
-- module loads, each group keeps the contract that was registered for it; and where that contract
-- has an ABI identity, the active module of the group, if there is one, exports exactly the entries
-- of the contract, in its order, and has its ABI identity.
pub Reach-IsHosted :
    (slots : List PltSlot) (rs : List GroupRegistration) {s t : ManagedSession}
    → new_session slots rs ≡ ok s
    → Reach s t
    → All (IsHosted rs) t.groups
Reach-IsHosted slots rs {s} {t} made reached =
    hosted rs t.groups
      (Reach-IsSession (Registered rs) (new_session-IsSession slots rs s made) reached)
