-- ===== src/Wasm/Poller/Host.antt =====
-- What a host's contract demands of the candidates and modules of its group, and that the poller
-- holds to it.
use nekomata.Base.{
  ℕ, ◌≡◌, refl, sym, subst, true, false, not, ◌&&◌, Option, none, some, arith, Bool-cases, inl, inr,
  Result, ok, err,
}
use nekomata.Text.{Bytes, equal, equal_iff, equal_texts_iff}
use nekomata.Protocol.Scanner.{is_empty}
use nekomata.Protocol.WasmOffer.{WasmOffer, WasmOfferError}
use nekomata.Protocol.WasmOffer.Parse.{parse_wasm_offer}
use nekomata.Protocol.WasmOffer.Ordering.{WasmOfferOrdering, supersede, duplicate, stale, conflict}
use nekomata.Wasm.Module.{ModuleContract, ModuleLoadResult}
use nekomata.Wasm.Candidate.{
  PreparedModule, CandidateError, Candidate, incompatible, is_cancellable, new_candidate,
  rejected_candidate, complete,
}
use nekomata.Wasm.Candidate.Ready.{
  IsSound, IsFulfilled, new_candidate-IsSound, new_candidate-contract, complete-IsSound,
  complete-contract, complete-cancellable,
}
use nekomata.Wasm.Poller.{
  OfferPoller, Pending, ManifestText, contract_of, departs, candidate_for, on_ordering, on_offer,
  on_parsed, handle, delivered,
}

-- The contract is the host's, where the host registered one.
abbrev pub Matches : ModuleContract → ModuleContract → Type 0
Matches host contract =
    is_empty host.abi_id ≡ false
    → (contract.abi_id ≡ host.abi_id) × (contract.entries ≡ host.entries)

-- A candidate that may still become active is held to the host's contract.
abbrev pub IsHeld : ModuleContract → Candidate → Type 0
IsHeld host c = IsSound c × (is_cancellable c.status ≡ true → Matches host c.contract)

abbrev pub IsPending : ModuleContract → Option Pending → Type 0
IsPending host none = Unit {0}
IsPending host (some pending) = IsHeld host pending.candidate

abbrev pub IsActive : ModuleContract → Option PreparedModule → Type 0
IsActive host none = Unit {0}
IsActive host (some m) =
    (contract : ModuleContract) × IsFulfilled contract m × Matches host contract

departs-Matches :
    (host contract : ModuleContract) → departs host contract ≡ false → Matches host contract
unfolding departs
departs-Matches host contract e =
    ground
      (arith, equal_iff contract.abi_id host.abi_id, equal_texts_iff contract.entries host.entries)

rejected_candidate-IsHeld :
    (host : ModuleContract) (error : CandidateError) (message : Bytes)
    → IsHeld host (rejected_candidate error message)
unfolding rejected_candidate is_cancellable
rejected_candidate-IsHeld host error message = (refl, λ e. cc)

new_candidate-IsHeld :
    (host : ModuleContract) (path : Bytes) (contract : ModuleContract)
    → Matches host contract
    → IsHeld host (new_candidate path contract)
new_candidate-IsHeld host path contract same = (
  new_candidate-IsSound path contract,
  λ e. subst (Matches host) (sym (new_candidate-contract path contract)) same,
)

candidate_for-IsHeld :
    (p : OfferPoller) (offer : WasmOffer) → IsHeld p.expected_contract (candidate_for p offer)
unfolding candidate_for
candidate_for-IsHeld p offer = elim (Bool-cases (departs p.expected_contract (contract_of offer))) [
  | inl departing ↦
      rw (departing, candidate_for) (rejected_candidate-IsHeld p.expected_contract incompatible _)
  | inr same ↦
      rw (same, candidate_for)
        (new_candidate-IsHeld p.expected_contract _ (contract_of offer)
          (departs-Matches p.expected_contract (contract_of offer) same))
]

-- What a delivery leaves of a poller: its registration, and a pending candidate that is held to it.
abbrev Keeps : OfferPoller → OfferPoller → Type 0
Keeps p q = (q.expected_contract ≡ p.expected_contract) × IsPending q.expected_contract q.pending

on_ordering-Keeps :
    (identity : ℕ) (p : OfferPoller) (offer : WasmOffer) (o : WasmOfferOrdering)
    → IsPending p.expected_contract p.pending
    → Keeps p (on_ordering identity p offer o).0
unfolding on_ordering
on_ordering-Keeps identity p offer supersede held = (refl, candidate_for-IsHeld p offer)
on_ordering-Keeps identity p offer duplicate held = (refl, held)
on_ordering-Keeps identity p offer stale held = (refl, held)
on_ordering-Keeps identity p offer conflict held = (refl, held)

on_parsed-Keeps :
    (identity : ℕ) (p : OfferPoller) (r : Result WasmOfferError WasmOffer)
    → IsPending p.expected_contract p.pending
    → Keeps p (on_parsed identity p r).0
unfolding on_parsed on_offer
on_parsed-Keeps identity p (err e) held = (refl, held)
on_parsed-Keeps identity p (ok offer) held =
    elim (Bool-cases
      (not (is_empty p.expected_group) && not (equal offer.group_id p.expected_group))) [
        | inl other ↦ rw (other, on_offer) (refl, held)
        | inr ours ↦ rw (ours, on_offer) (on_ordering-Keeps identity p offer _ held)
      ]

pub delivered-Keeps :
    (identity : ℕ) (p : OfferPoller) (m : ManifestText)
    → IsPending p.expected_contract p.pending
    → ((delivered identity p m).0.expected_contract ≡ p.expected_contract)
      × IsPending (delivered identity p m).0.expected_contract (delivered identity p m).0.pending
unfolding delivered handle
delivered-Keeps identity p m held = elim (Bool-cases m.fetched) [
  | inl arrived ↦
      rw (arrived, delivered, handle)
        (on_parsed-Keeps identity (record p { fetching = false })
          (parse_wasm_offer m.text p.manifest_url) held)
  | inr failed ↦ rw (failed, delivered, handle) (refl, held)
]

pub complete-IsHeld :
    (host : ModuleContract) (r : ModuleLoadResult) (c : Candidate)
    → IsHeld host c
    → IsHeld host (complete r c)
complete-IsHeld host r c held = (
  complete-IsSound r c held.0,
  λ e. subst (Matches host) (sym (complete-contract r c)) (held.1 (complete-cancellable r c e)),
)
