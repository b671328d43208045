-- ===== src/Wasm/Registration.antt =====
-- src/backends/wasm/registration.cpp and .hpp: the groups and PLT slots that a page registers.
pub mod Order
pub mod Discovered
use nekomata.Base.{
  ℕ, Bool, true, false, not, ◌&&◌, ◌||◌, List, [], ◌∷◌, ◌++◌, map, Option, none, some, ◌==◌, any,
  if◌then◌else◌, Result, ok, err, ◌>>=◌, ◌>>◌, guard,
}
use nekomata.Text.{Bytes, codes, equal, member_of}
use nekomata.Protocol.Scanner.{is_empty}
use nekomata.Runtime.Stream.{less}
use nekomata.Wasm.Module.{ModuleContract}
use nekomata.Wasm.Candidate.{OwnedEntry, PreparedModule, entry_in, has_nul}

-- A record is known by its address.
pub record GroupRecord : Type 0 where
  pub address : ℕ
  pub group_id : Bytes
  pub manifest_url : Bytes
  pub abi_id : Bytes
  pub entries : List Bytes

-- The record of a plt_slot, with the slot's `target`.
pub record PltSlot : Type 0 where
  pub address : ℕ
  pub group : Bytes
  pub entry : Bytes
  pub target : Option ℕ

pub record GroupRegistration : Type 0 where
  pub group_id : Bytes
  pub manifest_url : Bytes
  pub expected_contract : ModuleContract

-- Both lists grow at their head; a record that is in its list already stays where it is.
unfoldable pub register_group : GroupRecord → List GroupRecord → List GroupRecord
register_group r rs = if any (λ (x : GroupRecord). x.address == r.address) rs then rs else r ∷ rs

unfoldable pub register_plt_slot : PltSlot → List PltSlot → List PltSlot
register_plt_slot r rs = if any (λ (x : PltSlot). x.address == r.address) rs then rs else r ∷ rs

unfoldable pub assign : PltSlot → Option ℕ → PltSlot
assign slot none = slot
assign slot (some address) = record slot { target = some address }

-- The body of the loop.
unfoldable pub apply_plt_slot : Bytes → PreparedModule → PltSlot → PltSlot
unfolding assign
apply_plt_slot group m slot =
    if equal slot.group group then assign slot (entry_in m.entries slot.entry) else slot

unfoldable pub apply_plt_slots : Bytes → PreparedModule → List PltSlot → List PltSlot
apply_plt_slots group m slots = map (apply_plt_slot group m) slots

unfoldable pub valid_text : Bytes → Bool
valid_text value = not (is_empty value) && not (has_nul value)

-- The loop over a record's entries; `seen` are those of the contract so far.
unfoldable pub read_entries : List Bytes → List Bytes → Result Bytes (Unit {0})
unfolding valid_text
read_entries seen [] = ok tt
read_entries seen (name ∷ names) = do
  guard (valid_text name && not (member_of name seen))
      (codes "wasm registration: entry names must be nonempty and unique")
  read_entries (seen ++ name ∷ []) names

unfoldable pub no_record_entries : List Bytes → Bool
no_record_entries [] = true
no_record_entries (name ∷ names) = false

unfoldable pub read_record : GroupRecord → Result Bytes GroupRegistration
unfolding read_entries no_record_entries
read_record r = do
  guard
      (valid_text r.group_id
        && (valid_text r.manifest_url
            && (valid_text r.abi_id && not (no_record_entries r.entries))))
      (codes "wasm registration: nonempty ID, URL, ABI and entries are required")
  read_entries [] r.entries
  ok (record {
    group_id = r.group_id;
    manifest_url = r.manifest_url;
    expected_contract = record { abi_id = r.abi_id; entries = r.entries; sha256 = [] };
  })

unfoldable pub read_records : List GroupRecord → Result Bytes (List GroupRegistration)
unfolding read_record
read_records [] = ok []
read_records (r ∷ rs) = do first ← read_record r; rest ← read_records rs; ok (first ∷ rest)

-- `std::sort` by group id.
unfoldable pub insert_registration :
    GroupRegistration → List GroupRegistration → List GroupRegistration
insert_registration r [] = r ∷ []
insert_registration r (x ∷ xs) =
    let rest = insert_registration r xs in
    if less x.group_id r.group_id then x ∷ rest else r ∷ x ∷ xs

unfoldable pub sort_registrations : List GroupRegistration → List GroupRegistration
unfolding insert_registration
sort_registrations [] = []
sort_registrations (r ∷ rs) = insert_registration r (sort_registrations rs)

-- The loop over neighbours, behind the first of them.
unfoldable pub check_neighbours : Bytes → List GroupRegistration → Result Bytes (Unit {0})
check_neighbours previous [] = ok tt
check_neighbours previous (r ∷ rs) = do
  guard (not (equal previous r.group_id))
      (codes "wasm registration: duplicate reload group '" ++ r.group_id ++ codes "'")
  check_neighbours r.group_id rs

unfoldable pub check_unique : List GroupRegistration → Result Bytes (Unit {0})
unfolding check_neighbours
check_unique [] = ok tt
check_unique (r ∷ rs) = check_neighbours r.group_id rs

unfoldable pub read_group_records : List GroupRecord → Result Bytes (List GroupRegistration)
unfolding read_records sort_registrations check_unique
read_group_records rs = do
  registrations ← read_records rs
  check_unique (sort_registrations registrations)
  ok (sort_registrations registrations)

unfoldable pub find_registration : Bytes → List GroupRegistration → Option GroupRegistration
find_registration id [] = none
find_registration id (r ∷ rs) = if equal r.group_id id then some r else find_registration id rs

-- What follows the search for the slot's group.
unfoldable pub validate_found : PltSlot → Option GroupRegistration → Result Bytes (Unit {0})
validate_found slot none =
    err (codes "wasm registration: PLT slot group '" ++ slot.group ++ codes "' is not registered")
validate_found slot (some r) = guard (member_of slot.entry r.expected_contract.entries) (
    codes "wasm registration: PLT slot entry '"
    ++ slot.entry
    ++ codes "' is not in group '"
    ++ r.group_id
    ++ codes "'")

unfoldable pub validate_plt_slot : List GroupRegistration → PltSlot → Result Bytes (Unit {0})
unfolding find_registration validate_found
validate_plt_slot groups slot = validate_found slot (find_registration slot.group groups)

unfoldable pub validate_plt_slots : List GroupRegistration → List PltSlot → Result Bytes (Unit {0})
unfolding validate_plt_slot
validate_plt_slots groups [] = ok tt
validate_plt_slots groups (slot ∷ slots) = do
  validate_plt_slot groups slot
  validate_plt_slots groups slots
