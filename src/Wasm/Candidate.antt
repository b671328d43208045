-- ===== src/Wasm/Candidate.antt =====
-- src/backends/wasm/candidate.cpp and .hpp: a module under preparation, and its activation.
pub mod Contract
pub mod Ready
use nekomata.Base.{
  ℕ, ◌+◌, suc, Bool, true, false, not, ◌&&◌, ◌||◌, List, [], ◌∷◌, ◌++◌, Option, none, some, ◌==◌,
  if◌then◌else◌, Result, ok, err, ◌>>=◌, ◌>>◌, guard, length, all,
}
use nekomata.Text.{Bytes, codes, equal, member_of}
use nekomata.Protocol.Scanner.{is_empty}
use nekomata.Wasm.Module.{
  ModuleEntry, ModuleDescriptor, module_interface_version, module_descriptor_size, ModuleImage,
  ModuleLoadStatus, loaded, load_failed, digest_mismatch, ModuleLoadResult, ModuleContract,
}
use nekomata.Protocol.Codec.{is_lower_hex}

pub data CandidateStatus : Type 0 where
  loading ready rejected cancelled activated : CandidateStatus

pub data CandidateError : Type 0 where
  no_error invalid_contract not_loaded integrity missing_descriptor : CandidateError
  incompatible invalid_descriptor : CandidateError

pub record OwnedEntry : Type 0 where
  pub name : Bytes
  pub address : ℕ

pub record PreparedModule : Type 0 where
  pub image : ModuleImage
  pub entries : List OwnedEntry

-- `candidate::state`
pub record Candidate : Type 0 where
  pub status : CandidateStatus
  pub error : CandidateError
  pub message : Bytes
  pub contract : ModuleContract
  pub prepared : Option PreparedModule

-- `prepared_module::entry`: the first of this name.
unfoldable pub entry_in : List OwnedEntry → Bytes → Option ℕ
entry_in [] name = none
entry_in (e ∷ es) name = if equal e.name name then some e.address else entry_in es name

-- `state::reject`
unfoldable pub reject : CandidateError → Bytes → Candidate → Candidate
reject reason text c = record c { error = reason; message = text; status = rejected }

abbrev pub empty_contract : ModuleContract
empty_contract = record { abi_id = []; entries = []; sha256 = [] }

fresh : ModuleContract → Candidate
fresh contract = record {
  status = loading;
  error = no_error;
  message = [];
  contract = contract;
  prepared = none;
}

-- The constructor of a candidate that is rejected from the start.
unfoldable pub rejected_candidate : CandidateError → Bytes → Candidate
unfolding reject fresh
rejected_candidate error message = reject error message (fresh empty_contract)

unfoldable pub is_digest_shape : Bytes → Bool
unfolding is_lower_hex
is_digest_shape value = length value == 64 && all is_lower_hex value

-- `value.find('\0') != npos`
unfoldable pub has_nul : Bytes → Bool
has_nul [] = false
has_nul (c ∷ cs) = c == 0 || has_nul cs

-- The loop over the entries of a contract; `seen` holds those before.
unfoldable pub valid_entries : List Bytes → List Bytes → Bool
unfolding has_nul
valid_entries seen [] = true
valid_entries seen (entry ∷ entries) =
    not (is_empty entry || (has_nul entry || member_of entry seen))
    && valid_entries (seen ++ entry ∷ []) entries

no_names : List Bytes → Bool
no_names [] = true
no_names (name ∷ names) = false

-- What the constructor checks before it opens the module.
unfoldable pub check_contract : Bytes → ModuleContract → Result Bytes (Unit {0})
unfolding has_nul valid_entries is_digest_shape no_names
check_contract path contract = do
  guard
      (not (
        is_empty path
        || (has_nul path
            || (is_empty contract.abi_id
                || (has_nul contract.abi_id || no_names contract.entries)))))
      (codes "invalid wasm module contract")
  guard (is_digest_shape contract.sha256) (codes "invalid wasm artifact digest")
  guard (valid_entries [] contract.entries) (codes "invalid wasm entry membership")

started : ModuleContract → Result Bytes (Unit {0}) → Candidate
unfolding fresh reject
started contract (ok _) = fresh contract
started contract (err problem) = reject invalid_contract problem (fresh contract)

-- The constructor. A candidate that is loading has its module opened at this path, with this digest.
unfoldable pub new_candidate : Bytes → ModuleContract → Candidate
unfolding check_contract started
new_candidate path contract = started contract (check_contract path contract)

-- The loops over the descriptor's entries: each is checked against the contract, and copied.
unfoldable pub own : Bytes → Option Bytes → Option ℕ → Option OwnedEntry
own expected none address = none
own expected (some name) none = none
own expected (some name) (some address) =
    if equal expected name then some (record { name = name; address = address }) else none

unfoldable pub own_entry : Bytes → ModuleEntry → Option OwnedEntry
unfolding own
own_entry expected e = own expected e.name e.address

unfoldable pub own_next : Option OwnedEntry → Option (List OwnedEntry) → Option (List OwnedEntry)
own_next none rest = none
own_next (some e) none = none
own_next (some e) (some es) = some (e ∷ es)

unfoldable pub own_entries : List Bytes → (ℕ → ModuleEntry) → ℕ → Option (List OwnedEntry)
unfolding own_entry
own_entries [] entries index = some []
own_entries (expected ∷ names) entries index =
    own_next (own_entry expected (entries index)) (own_entries names entries (suc index))

abbrev pub Verdict : Type 0 → Type 0
Verdict A = Result (CandidateError × Bytes) A

require_entries : Option (ℕ → ModuleEntry) → Verdict (ℕ → ModuleEntry)
require_entries none = err (invalid_descriptor, codes "wasm entry membership mismatch")
require_entries (some entries) = ok entries

require_owned : Option (List OwnedEntry) → Verdict (List OwnedEntry)
require_owned none = err (invalid_descriptor, codes "invalid wasm entry descriptor")
require_owned (some entries) = ok entries

has_abi : Option Bytes → Bytes → Bool
has_abi none expected = false
has_abi (some abi) expected = equal expected abi

-- What the completion checks of a descriptor that is there.
unfoldable pub verify_descriptor : ModuleContract → ModuleDescriptor → Verdict (List OwnedEntry)
unfolding own_entries require_entries require_owned has_abi
verify_descriptor contract d = do
  guard (d.version == module_interface_version && d.size == module_descriptor_size)
      (incompatible, codes "incompatible wasm descriptor layout")
  guard (has_abi d.abi_id contract.abi_id) (incompatible, codes "wasm module ABI mismatch")
  guard (d.entry_count == length contract.entries)
      (invalid_descriptor, codes "wasm entry membership mismatch")
  entries ← require_entries d.entries
  require_owned (own_entries contract.entries entries 0)

-- `image->descriptor()`, which may be null.
unfoldable pub verify_found : ModuleContract → Option ModuleDescriptor → Verdict (List OwnedEntry)
verify_found contract none = err (missing_descriptor, codes "missing wasm module descriptor")
verify_found contract (some d) = verify_descriptor contract d

or_default : Bytes → Bytes → Bytes
or_default text fallback = if is_empty text then fallback else text

unfoldable pub without_image : ModuleLoadStatus → Bytes → Candidate → Candidate
unfolding reject or_default
without_image digest_mismatch message c =
    reject integrity (or_default message (codes "wasm artifact digest mismatch")) c
without_image loaded message c =
    reject not_loaded (or_default message (codes "wasm module load failed")) c
without_image load_failed message c =
    reject not_loaded (or_default message (codes "wasm module load failed")) c

unfoldable pub settle : ModuleImage → Candidate → Verdict (List OwnedEntry) → Candidate
unfolding reject
settle image c (err (reason, text)) = reject reason text c
settle image c (ok entries) = record c {
  prepared = some (record { image = image; entries = entries });
  status = ready;
}

unfoldable pub deliver : Option ModuleImage → ModuleLoadResult → Candidate → Candidate
unfolding without_image settle verify_found
deliver none r c = without_image r.status r.message c
deliver (some image) r c = settle image c (verify_found c.contract image.descriptor)

unfoldable pub is_loading : CandidateStatus → Bool
is_loading loading = true
is_loading ready = false
is_loading rejected = false
is_loading cancelled = false
is_loading activated = false

-- The completion that the constructor passes to the loader, where the candidate is still there.
unfoldable pub complete : ModuleLoadResult → Candidate → Candidate
unfolding deliver is_loading
complete r c = if is_loading c.status then deliver r.image r c else c

unfoldable pub is_cancellable : CandidateStatus → Bool
is_cancellable loading = true
is_cancellable ready = true
is_cancellable rejected = false
is_cancellable cancelled = false
is_cancellable activated = false

unfoldable pub cancel : Candidate → Candidate
unfolding is_cancellable
cancel c = if is_cancellable c.status then record c { prepared = none; status = cancelled } else c

-- `active_module::activate`: what becomes current, the candidate, and whether it was activated.
pub record Activation : Type 0 where
  pub current : Option PreparedModule
  pub candidate : Candidate
  pub done : Bool

abbrev pub keep_resident : PreparedModule → PreparedModule
keep_resident m = record m { image = record m.image { resident = true } }

unfoldable pub unchanged : Option PreparedModule → Candidate → Activation
unchanged current c = record { current = current; candidate = c; done = false }

-- A candidate that is ready has its module.
unfoldable pub take_prepared :
    Option PreparedModule → Candidate → Option PreparedModule → Activation
unfolding unchanged
take_prepared current c none = unchanged current c
take_prepared current c (some m) = record {
  current = some (keep_resident m);
  candidate = record c { prepared = none; status = activated };
  done = true;
}

unfoldable pub is_ready : CandidateStatus → Bool
is_ready loading = false
is_ready ready = true
is_ready rejected = false
is_ready cancelled = false
is_ready activated = false

unfoldable pub activate : Option PreparedModule → Candidate → Activation
unfolding take_prepared unchanged is_ready
activate current c =
    if is_ready c.status then take_prepared current c c.prepared else unchanged current c
