-- ===== src/Wasm/Candidate/Contract.antt =====
-- What a module must export to fulfil its contract, and that the completion checks just that.
use nekomata.Base.{
  ℕ, suc, ◌≡◌, refl, ◌↔◌, ◌≢◌, subst, ◌>>=◌, true, List, [], ◌∷◌, Option, none, some, arith, ok,
  length,
}
use nekomata.Text.{Bytes, equal_iff}
use nekomata.Wasm.Module.{
  ModuleEntry, ModuleDescriptor, ModuleContract, module_interface_version, module_descriptor_size,
}
use nekomata.Wasm.Candidate.{
  OwnedEntry, own, own_next, own_entry, own_entries, has_abi, verify_descriptor, require_entries,
  require_owned,
}

-- The entries from `index` on are named as the contract says, in its order, and none is null.
abbrev pub Exports : List Bytes → (ℕ → ModuleEntry) → ℕ → List OwnedEntry → Type 0
Exports [] entries index [] = Unit {0}
Exports [] entries index (e ∷ es) = ⊥
Exports (name ∷ names) entries index [] = ⊥
Exports (name ∷ names) entries index (e ∷ es) =
    ((entries index).name ≡ some name)
    × ((entries index).address ≡ some e.address)
    × (e.name ≡ name)
    × Exports names entries (suc index) es

pub record Fulfils (contract : ModuleContract) (d : ModuleDescriptor) (es : List OwnedEntry)
    : Type 0 where
  pub version : d.version ≡ module_interface_version
  pub size : d.size ≡ module_descriptor_size
  pub abi : d.abi_id ≡ some contract.abi_id
  pub count : d.entry_count ≡ length contract.entries
  pub array :
      (entries : ℕ → ModuleEntry) × (d.entries ≡ some entries)
      × Exports contract.entries entries 0 es

own_iff :
    (expected : Bytes) (name : Option Bytes) (address : Option ℕ) (o : OwnedEntry)
    → (own expected name address ≡ some o)
      ↔ ((name ≡ some expected) × (address ≡ some o.address) × (o.name ≡ expected))
unfolding own
own_iff expected none address o = ground arith
own_iff expected (some name) none o = ground arith
own_iff expected (some name) (some address) o = ground (arith, equal_iff expected name)

own_next_iff :
    (a : Option OwnedEntry) (b : Option (List OwnedEntry)) (e : OwnedEntry) (es : List OwnedEntry)
    → (own_next a b ≡ some (e ∷ es)) ↔ ((a ≡ some e) × (b ≡ some es))
unfolding own_next
own_next_iff none b e es = ground arith
own_next_iff (some a) none e es = ground arith
own_next_iff (some a) (some b) e es = ground arith

own_next-ne-nil : (a : Option OwnedEntry) (b : Option (List OwnedEntry)) → own_next a b ≢ some []
unfolding own_next
own_next-ne-nil none b = ground arith
own_next-ne-nil (some a) none = ground arith
own_next-ne-nil (some a) (some b) = ground arith

own_entries_iff :
    (names : List Bytes) (entries : ℕ → ModuleEntry) (index : ℕ) (es : List OwnedEntry)
    → (own_entries names entries index ≡ some es) ↔ Exports names entries index es
unfolding own_entries own_entry
own_entries_iff [] entries index [] = (λ _. tt, λ _. refl)
own_entries_iff [] entries index (e ∷ es) = ground arith
own_entries_iff (name ∷ names) entries index [] =
    (λ e. absurd (unfold own_entry in own_next-ne-nil _ _ e), λ none. absurd none)
own_entries_iff (name ∷ names) entries index (e ∷ es) = ground (
  arith,
  own_next_iff (own name (entries index).name (entries index).address)
      (own_entries names entries (suc index)) e es,
  own_iff name (entries index).name (entries index).address e,
  own_entries_iff names entries (suc index) es,
)

has_abi_iff :
    (abi : Option Bytes) (expected : Bytes) → (has_abi abi expected ≡ true) ↔ (abi ≡ some expected)
unfolding has_abi
has_abi_iff none expected = ground arith
has_abi_iff (some abi) expected = ground (arith, equal_iff expected abi)

require_owned_iff :
    (owned : Option (List OwnedEntry)) (es : List OwnedEntry)
    → (require_owned owned ≡ ok es) ↔ (owned ≡ some es)
unfolding require_owned
require_owned_iff none es = ground arith
require_owned_iff (some owned) es = ground arith

array_iff :
    (names : List Bytes) (array : Option (ℕ → ModuleEntry)) (es : List OwnedEntry)
    → ((require_entries array >>= λ entries. require_owned (own_entries names entries 0)) ≡ ok es)
      ↔ ((entries : ℕ → ModuleEntry) × (array ≡ some entries) × Exports names entries 0 es)
unfolding require_entries
array_iff names none es = (λ e. cc, λ (entries, e, x). cc)
array_iff names (some entries) es = (
  λ e. (entries, refl, (own_entries_iff names entries 0 es).0 ((require_owned_iff _ es).0 e)),
  λ (others, e, x).
      let same : others ≡ entries = cc in
      (require_owned_iff _ es).1
        ((own_entries_iff names entries 0 es).1 (subst (λ f. Exports names f 0 es) same x)),
)

-- The completion accepts a descriptor, with these entries, exactly when it fulfils the contract.
pub verify_descriptor_iff :
    (contract : ModuleContract) (d : ModuleDescriptor) (es : List OwnedEntry)
    → (verify_descriptor contract d ≡ ok es) ↔ Fulfils contract d es
unfolding verify_descriptor
verify_descriptor_iff contract d es =
    ground (arith, has_abi_iff d.abi_id contract.abi_id, array_iff contract.entries d.entries es)
