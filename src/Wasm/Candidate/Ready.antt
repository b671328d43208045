-- ===== src/Wasm/Candidate/Ready.antt =====
-- A candidate that is ready has a module that fulfils its contract, and only such a module becomes
-- active.
use nekomata.Base.{
  ◌≡◌, refl, subst, inl, inr, true, false, List, Option, none, some, Result, ok, err, Bool-cases,
}
use nekomata.Text.{Bytes}
use nekomata.Wasm.Module.{
  ModuleDescriptor, ModuleImage, ModuleLoadStatus, loaded, load_failed, digest_mismatch,
  ModuleLoadResult, ModuleContract,
}
use nekomata.Wasm.Candidate.{
  CandidateStatus, loading, ready, rejected, cancelled, activated, CandidateError, OwnedEntry,
  PreparedModule, Candidate, without_image, deliver, is_loading, complete, is_cancellable, activate,
  new_candidate, rejected_candidate, check_contract, started, settle, verify_found, Activation,
  keep_resident,
}
use nekomata.Wasm.Candidate.Contract.{Fulfils, verify_descriptor_iff}

-- The module's image has a descriptor that fulfils the contract with the module's entries.
abbrev pub IsFulfilled : ModuleContract → PreparedModule → Type 0
IsFulfilled contract m =
    (d : ModuleDescriptor) × (m.image.descriptor ≡ some d) × Fulfils contract d m.entries

-- What holds of a candidate with this status.
abbrev pub Stands : CandidateStatus → Candidate → Type 0
Stands loading c = c.prepared ≡ none
Stands ready c = (m : PreparedModule) × (c.prepared ≡ some m) × IsFulfilled c.contract m
Stands rejected c = c.prepared ≡ none
Stands cancelled c = c.prepared ≡ none
Stands activated c = c.prepared ≡ none

abbrev pub IsSound : Candidate → Type 0
IsSound c = Stands c.status c

started-IsSound :
    (contract : ModuleContract) (r : Result Bytes (Unit {0})) → IsSound (started contract r)
unfolding started
started-IsSound contract (ok u) = refl
started-IsSound contract (err problem) = refl

pub new_candidate-IsSound :
    (path : Bytes) (contract : ModuleContract) → IsSound (new_candidate path contract)
unfolding new_candidate
new_candidate-IsSound path contract = started-IsSound contract (check_contract path contract)

pub rejected_candidate-IsSound :
    (error : CandidateError) (message : Bytes) → IsSound (rejected_candidate error message)
unfolding rejected_candidate
rejected_candidate-IsSound error message = refl

without_image-IsSound :
    (status : ModuleLoadStatus) (message : Bytes) (c : Candidate)
    → c.prepared ≡ none
    → IsSound (without_image status message c)
unfolding without_image
without_image-IsSound loaded message c absent = absent
without_image-IsSound load_failed message c absent = absent
without_image-IsSound digest_mismatch message c absent = absent

settle-IsSound :
    (image : ModuleImage) (c : Candidate) (found : Option ModuleDescriptor)
    → image.descriptor ≡ found
    → c.prepared ≡ none
    → (v : Result (CandidateError × Bytes) (List OwnedEntry)) → verify_found c.contract found ≡ v
    → IsSound (settle image c v)
unfolding settle verify_found
settle-IsSound image c found e absent (err (reason, text)) v = absent
settle-IsSound image c none e absent (ok entries) v = cc
settle-IsSound image c (some d) e absent (ok entries) v = (
  record { image = image; entries = entries },
  refl,
  (d, e, (verify_descriptor_iff c.contract d entries).0 v),
)

deliver-IsSound :
    (found : Option ModuleImage) (r : ModuleLoadResult) (c : Candidate)
    → c.prepared ≡ none
    → IsSound (deliver found r c)
unfolding deliver
deliver-IsSound none r c absent = without_image-IsSound r.status r.message c absent
deliver-IsSound (some image) r c absent =
    settle-IsSound image c image.descriptor refl absent (verify_found c.contract image.descriptor)
      refl

-- While it loads, a sound candidate has no module.
loading-absent :
    (status : CandidateStatus) (c : Candidate)
    → Stands status c
    → is_loading status ≡ true
    → c.prepared ≡ none
unfolding is_loading
loading-absent loading c s e = s
loading-absent ready c s e = cc
loading-absent rejected c s e = s
loading-absent cancelled c s e = s
loading-absent activated c s e = s

-- A completion leaves a sound candidate sound: it becomes ready only with a module that fulfils its
-- contract, and late completions change nothing.
pub complete-IsSound : (r : ModuleLoadResult) (c : Candidate) → IsSound c → IsSound (complete r c)
unfolding complete
complete-IsSound r c s = elim (Bool-cases (is_loading c.status)) [
  | inl pending ↦
      rw (pending, complete) (deliver-IsSound r.image r c (loading-absent c.status c s pending))
  | inr late ↦ rw (late, complete) s
]

deliver-contract :
    (found : Option ModuleImage) (r : ModuleLoadResult) (c : Candidate)
    → (deliver found r c).contract ≡ c.contract
unfolding deliver
deliver-contract none r c = go r.status
  where
    go : (status : ModuleLoadStatus) → (without_image status r.message c).contract ≡ c.contract
    go loaded = refl
    go load_failed = refl
    go digest_mismatch = refl
deliver-contract (some image) r c = go (verify_found c.contract image.descriptor)
  where
    go :
        (v : Result (CandidateError × Bytes) (List OwnedEntry))
        → (settle image c v).contract ≡ c.contract
    go (ok entries) = refl
    go (err (reason, text)) = refl

pub complete-contract :
    (r : ModuleLoadResult) (c : Candidate) → (complete r c).contract ≡ c.contract
unfolding complete
complete-contract r c = elim (Bool-cases (is_loading c.status)) [
  | inl pending ↦ rw (pending, complete) (deliver-contract r.image r c)
  | inr late ↦ rw (late, complete) refl
]

-- The module that is current after an activation: the one before, or the candidate's, kept resident.
pub data Becomes (current : Option PreparedModule) (c : Candidate) (a : Activation) : Type 0 where
  stays : a ≡ record { current = current; candidate = c; done = false } → Becomes current c a
  replaced :
      (m : PreparedModule)
      → c.status ≡ ready
      → IsFulfilled c.contract m
      → a ≡ record {
        current = some (keep_resident m);
        candidate = record c { prepared = none; status = activated };
        done = true;
      }
      → Becomes current c a

-- A sound candidate is activated exactly when it is ready, and then its module is current.
pub activate-Becomes :
    (current : Option PreparedModule) (c : Candidate)
    → IsSound c
    → Becomes current c (activate current c)
unfolding activate
activate-Becomes current c s = go c.status refl s
  where
    go :
        (status : CandidateStatus)
        → c.status ≡ status
        → Stands status c
        → Becomes current c (activate current c)
    go ready e (m, found, fulfilled) = replaced m e fulfilled (rw (e, found, activate) refl)
    go loading e s = stays (rw (e, activate) refl)
    go rejected e s = stays (rw (e, activate) refl)
    go cancelled e s = stays (rw (e, activate) refl)
    go activated e s = stays (rw (e, activate) refl)

started-contract :
    (contract : ModuleContract) (r : Result Bytes (Unit {0}))
    → (started contract r).contract ≡ contract
unfolding started
started-contract contract (ok u) = refl
started-contract contract (err problem) = refl

pub new_candidate-contract :
    (path : Bytes) (contract : ModuleContract) → (new_candidate path contract).contract ≡ contract
unfolding new_candidate
new_candidate-contract path contract = started-contract contract (check_contract path contract)

loading-cancellable :
    (status : CandidateStatus) → is_loading status ≡ true → is_cancellable status ≡ true
unfolding is_loading is_cancellable
loading-cancellable loading e = refl
loading-cancellable ready e = cc
loading-cancellable rejected e = cc
loading-cancellable cancelled e = cc
loading-cancellable activated e = cc

-- A completion does not bring a candidate back that was decided against.
pub complete-cancellable :
    (r : ModuleLoadResult) (c : Candidate)
    → is_cancellable (complete r c).status ≡ true
    → is_cancellable c.status ≡ true
unfolding complete
complete-cancellable r c e = elim (Bool-cases (is_loading c.status)) [
  | inl pending ↦ loading-cancellable c.status pending
  | inr late ↦
      let same : complete r c ≡ c = rw (late, complete) refl in
      subst (λ x. is_cancellable x.status ≡ true) same e
]
