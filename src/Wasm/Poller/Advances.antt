-- ===== src/Wasm/Poller/Advances.antt =====
-- What a delivery does to a poller.
use nekomata.Base.{
  ℕ, ◌≡◌, ◌≢◌, refl, sym, subst, ◌<◌, true, false, not, ◌&&◌, Option, none, some, arith, Bool-cases,
  inl, inr, Result, ok, err,
}
use nekomata.Text.{equal, equal_iff}
use nekomata.Protocol.Scanner.{is_empty}
use nekomata.Protocol.WasmOffer.{WasmOffer, WasmOfferError}
use nekomata.Protocol.WasmOffer.Parse.{parse_wasm_offer}
use nekomata.Protocol.WasmOffer.Validity.{IsValid}
use nekomata.Protocol.WasmOffer.Parse.Sound.{parse_wasm_offer-IsValid}
use nekomata.Protocol.WasmOffer.Ordering.{
  WasmOfferOrdering, supersede, duplicate, stale, conflict, compare_wasm_offers, compare_with_cases,
}
use nekomata.Wasm.Poller.{
  OfferPoller, OfferEvent, offer_accepted, manifest_fetch_failed, ManifestText, candidate_for,
  on_ordering, on_offer, on_parsed, handle, delivered,
}

-- The sequence goes up.
abbrev pub IsNewer : Option WasmOffer → WasmOffer → Type 0
IsNewer none offer = Unit {0}
IsNewer (some last) offer = last.sequence < offer.sequence

-- The group that the poller watches, if it watches one.
abbrev pub IsWatched : OfferPoller → WasmOffer → Type 0
IsWatched p offer = is_empty p.expected_group ≡ false → offer.group_id ≡ p.expected_group

-- What happens to a poller that is not fetching any more: the delivery is ignored or reported, or it
-- accepts an offer that is valid, of the watched group and newer than the last one.
pub data Advances (identity : ℕ) (p : OfferPoller) (m : ManifestText) (r : OfferPoller × OfferEvent)
    : Type 0 where
  stays : r.0 ≡ p → r.1.kind ≢ offer_accepted → Advances identity p m r
  accepts :
      (offer : WasmOffer)
      → m.fetched ≡ true
      → parse_wasm_offer m.text p.manifest_url ≡ ok offer
      → IsValid offer
      → IsWatched p offer
      → IsNewer p.last offer
      → r.0 ≡ record p {
        pending = some (record { identity = identity; candidate = candidate_for p offer });
        last = some offer;
      }
      → r.1.kind ≡ offer_accepted
      → Advances identity p m r

supersede-IsNewer :
    (offer : WasmOffer) (last : Option WasmOffer)
    → compare_wasm_offers offer last ≡ supersede
    → IsNewer last offer
unfolding compare_wasm_offers
supersede-IsNewer offer none e = tt
supersede-IsNewer offer (some last) e = (compare_with_cases offer last).0.0 e

watched :
    (p : OfferPoller) (offer : WasmOffer)
    → (not (is_empty p.expected_group) && not (equal offer.group_id p.expected_group)) ≡ false
    → IsWatched p offer
watched p offer e present = ground (arith, equal_iff offer.group_id p.expected_group)

module _ (identity : ℕ) (p : OfferPoller) (m : ManifestText) where
  on_ordering-Advances :
      (offer : WasmOffer) (o : WasmOfferOrdering)
      → m.fetched ≡ true
      → parse_wasm_offer m.text p.manifest_url ≡ ok offer
      → IsWatched p offer
      → compare_wasm_offers offer p.last ≡ o
      → Advances identity p m (on_ordering identity p offer o)
  unfolding on_ordering
  on_ordering-Advances offer supersede arrived parsed ours e =
      accepts offer arrived parsed (parse_wasm_offer-IsValid m.text p.manifest_url parsed).0 ours
        (supersede-IsNewer offer p.last e) refl refl
  on_ordering-Advances offer duplicate arrived parsed ours e = stays refl (λ h. cc)
  on_ordering-Advances offer stale arrived parsed ours e = stays refl (λ h. cc)
  on_ordering-Advances offer conflict arrived parsed ours e = stays refl (λ h. cc)

  on_parsed-Advances :
      (r : Result WasmOfferError WasmOffer)
      → m.fetched ≡ true
      → parse_wasm_offer m.text p.manifest_url ≡ r
      → Advances identity p m (on_parsed identity p r)
  unfolding on_parsed on_offer
  on_parsed-Advances (err e) arrived parsed = stays refl (λ h. cc)
  on_parsed-Advances (ok offer) arrived parsed =
      elim (Bool-cases
        (not (is_empty p.expected_group) && not (equal offer.group_id p.expected_group))) [
          | inl other ↦ rw (other, on_offer) (stays refl (λ h. cc))
          | inr ours ↦
              rw (ours, on_offer)
                (on_ordering-Advances offer (compare_wasm_offers offer p.last) arrived parsed
                  (watched p offer ours) refl)
        ]

  handle-Advances : Advances identity p m (handle identity p m)
  unfolding handle
  handle-Advances = elim (Bool-cases m.fetched) [
    | inl arrived ↦
        let same : handle identity p m
            ≡ on_parsed identity p (parse_wasm_offer m.text p.manifest_url) =
          rw (arrived, handle) refl in
        subst (Advances identity p m) (sym same)
          (on_parsed-Advances (parse_wasm_offer m.text p.manifest_url) arrived refl)
    | inr failed ↦
        let same : (handle identity p m).0 ≡ p = rw (failed, handle) refl in
        let kind : (handle identity p m).1.kind ≡ manifest_fetch_failed =
          rw (failed, handle) refl in
        stays same (λ h. cc)
  ]

-- A delivery frees the poller to fetch again. Either it changes nothing else and its event is no
-- acceptance, or the manifest arrived and parses to a valid offer of the watched group whose sequence
-- is above that of the last accepted one; then that offer is the last accepted one, its candidate
-- replaces the pending one, and the event is an acceptance.
pub delivered-Advances :
    (identity : ℕ) (p : OfferPoller) (m : ManifestText)
    → Advances identity (record p { fetching = false }) m (delivered identity p m)
unfolding delivered
delivered-Advances identity p m = handle-Advances identity (record p { fetching = false }) m
