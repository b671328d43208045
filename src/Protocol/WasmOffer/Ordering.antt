-- ===== src/Protocol/WasmOffer/Ordering.antt =====
-- `compare_wasm_offers` of src/protocol/wasm_offer.cpp.
use nekomata.Base.{
  ◌≡◌, refl, ◌<◌, Bool, true, ◌&&◌, Option, none, some, ◌==◌, ltb, if◌then◌else◌, arith, &&-true,
  ==_iff, ◌↔◌, ◌≢◌, subst,
}
use nekomata.Text.{equal, equal_iff, equal_refl, equal_texts, equal_texts_iff}
use nekomata.Protocol.WasmOffer.{WasmOffer}

-- The defaulted `operator==`, member by member.
unfoldable pub equal_offer : WasmOffer → WasmOffer → Bool
equal_offer a b =
    equal a.group_id b.group_id
    && ((a.sequence == b.sequence)
        && (equal a.generation_id b.generation_id
            && (equal a.abi_id b.abi_id
                && (equal a.artifact_path b.artifact_path
                    && (equal a.sha256 b.sha256 && equal_texts a.entries b.entries)))))

pub data WasmOfferOrdering : Type 0 where
  supersede duplicate stale conflict : WasmOfferOrdering

-- The comparison with an offer that is there.
unfoldable pub compare_with : WasmOffer → WasmOffer → WasmOfferOrdering
compare_with incoming last =
    if ltb last.sequence incoming.sequence
    then supersede
    else if ltb incoming.sequence last.sequence
    then stale
    else if equal_offer incoming last
    then duplicate
    else conflict

unfoldable pub compare_wasm_offers : WasmOffer → Option WasmOffer → WasmOfferOrdering
unfolding compare_with
compare_wasm_offers incoming none = supersede
compare_wasm_offers incoming (some last) = compare_with incoming last

equal_offer-eq : (a b : WasmOffer) → equal_offer a b ≡ true → a ≡ b
unfolding equal_offer
equal_offer-eq a b e =
    let (same_group, e1) = &&-true _ _ e in
    let (same_sequence, e2) = &&-true _ _ e1 in
    let (same_generation, e3) = &&-true _ _ e2 in
    let (same_abi, e4) = &&-true _ _ e3 in
    let (same_path, e5) = &&-true _ _ e4 in
    let (same_digest, same_entries) = &&-true _ _ e5 in
    let p1 = (equal_iff a.group_id b.group_id).0 same_group in
    let p2 = (==_iff a.sequence b.sequence).0 same_sequence in
    let p3 = (equal_iff a.generation_id b.generation_id).0 same_generation in
    let p4 = (equal_iff a.abi_id b.abi_id).0 same_abi in
    let p5 = (equal_iff a.artifact_path b.artifact_path).0 same_path in
    let p6 = (equal_iff a.sha256 b.sha256).0 same_digest in
    let p7 = (equal_texts_iff a.entries b.entries).0 same_entries in
    λ i. record {
      group_id = p1 i;
      sequence = p2 i;
      generation_id = p3 i;
      abi_id = p4 i;
      artifact_path = p5 i;
      sha256 = p6 i;
      entries = p7 i;
    }

equal_offer_refl : (a : WasmOffer) → equal_offer a a ≡ true
unfolding equal_offer
equal_offer_refl a =
    rw
      (
        equal_refl a.group_id,
        (==_iff a.sequence a.sequence).1 refl,
        equal_refl a.generation_id,
        equal_refl a.abi_id,
        equal_refl a.artifact_path,
        equal_refl a.sha256,
      )
      ((equal_texts_iff a.entries a.entries).1 refl)

pub equal_offer_iff : (a b : WasmOffer) → (equal_offer a b ≡ true) ↔ (a ≡ b)
equal_offer_iff a b =
    (equal_offer-eq a b, λ same. subst (λ x. equal_offer a x ≡ true) same (equal_offer_refl a))

-- An incoming offer supersedes only a smaller sequence, is stale behind a larger one, and at the
-- same sequence is a duplicate exactly when it is the same offer, and otherwise a conflict.
pub compare_with_cases :
    (incoming last : WasmOffer)
    → ((compare_with incoming last ≡ supersede) ↔ (last.sequence < incoming.sequence))
      × ((compare_with incoming last ≡ stale) ↔ (incoming.sequence < last.sequence))
      × ((compare_with incoming last ≡ duplicate) ↔ (incoming ≡ last))
      × ((compare_with incoming last ≡ conflict)
          ↔ ((incoming.sequence ≡ last.sequence) × (incoming ≢ last)))
unfolding compare_with
compare_with_cases incoming last = (
  ground (arith, equal_offer_iff incoming last),
  ground (arith, equal_offer_iff incoming last),
  ground (arith, equal_offer_iff incoming last),
  ground (arith, equal_offer_iff incoming last),
)
