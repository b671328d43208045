-- ===== src/Runtime/Stream/Poll/Quiet.antt =====
-- When a pass of `poll` observes nothing (src/runtime/generation_stream.cpp).
use nekomata.Base.{
  ℕ, ◌≡◌, ◌≤◌, true, List, [], ◌∷◌, none, Result, ok, err, All, Bool-cases, inl, inr, ltb,
  if◌then◌else◌, arith,
}
use nekomata.Text.{Bytes, codes, member_of, ends_with}
use nekomata.Protocol.GenerationOffer.{GenerationOfferReference, GenerationOfferError}
use nekomata.Protocol.GenerationOffer.Marker.{parse_generation_offer_marker}
use nekomata.Runtime.Stream.{scan_markers, first_unreported, sorted, insert, less}

module _ (cursor : ℕ) (reported : List Bytes) where
  -- What a marker tells that is no news: an offer at the cursor or before it, or a malformed name
  -- that was reported.
  abbrev pub IsKnown : Bytes → Result GenerationOfferError GenerationOfferReference → Type 0
  IsKnown name (ok r) = r.sequence ≤ cursor
  IsKnown name (err e) = member_of name reported ≡ true

  -- A file of the listing that is no marker, or no news.
  abbrev pub NoNews : Bytes → Type 0
  NoNews name =
      ends_with name (codes ".ready") ≡ true
      → IsKnown name (parse_generation_offer_marker name name)

  pub scan_markers-NoNews :
      (names : List Bytes)
      → (scan_markers cursor names).0 ≡ []
      → All (λ name. member_of name reported ≡ true) (scan_markers cursor names).1
      → All NoNews names
  unfolding scan_markers
  scan_markers-NoNews [] e h = tt
  scan_markers-NoNews (name ∷ names) e h = elim (Bool-cases (ends_with name (codes ".ready"))) [
    | inr other ↦ (
      (λ ready. cc),
      scan_markers-NoNews names (rw (other, scan_markers) at e) (rw (other, scan_markers) at h),
    )
    | inl ready ↦
        let (known, e', h') =
          go (parse_generation_offer_marker name name) (rw (ready, scan_markers) at e)
            (rw (ready, scan_markers) at h) in
        ((λ _. known), scan_markers-NoNews names e' h')
  ]
    where
      collect :
          Result GenerationOfferError GenerationOfferReference
          → List GenerationOfferReference × List Bytes
      collect parsed = elim parsed [
        | ok r ↦ (
          if ltb cursor r.sequence
              then r ∷ (scan_markers cursor names).0
              else (scan_markers cursor names).0,
          (scan_markers cursor names).1,
        )
        | err e ↦ ((scan_markers cursor names).0, name ∷ (scan_markers cursor names).1)
      ]

      go :
          (parsed : Result GenerationOfferError GenerationOfferReference)
          → (collect parsed).0 ≡ []
          → All (λ name. member_of name reported ≡ true) (collect parsed).1
          → IsKnown name parsed
            × ((scan_markers cursor names).0 ≡ [])
            × All (λ name. member_of name reported ≡ true) (scan_markers cursor names).1
      go (err reason) e h = (h.0, e, h.1)
      go (ok r) e h = elim (Bool-cases (ltb cursor r.sequence)) [
        | inl past ↦ absurd (cc (rw past at e))
        | inr old ↦ (ground (arith, old), rw old at e, h)
      ]

insert-All_inverse :
    (P : Bytes → Type 0) (x : Bytes) (ys : List Bytes) → All P (insert x ys) → P x × All P ys
unfolding insert
insert-All_inverse P x [] h = h
insert-All_inverse P x (y ∷ ys) h = elim (Bool-cases (less y x)) [
  | inl later ↦
      let h' : All P (y ∷ insert x ys) = rw (later, insert) at h in
      let (hx, hs) = insert-All_inverse P x ys h'.1 in (hx, (h'.0, hs))
  | inr here ↦ let h' : All P (x ∷ y ∷ ys) = rw (here, insert) at h in h'
]

sorted-All_inverse : (P : Bytes → Type 0) (xs : List Bytes) → All P (sorted xs) → All P xs
unfolding sorted
sorted-All_inverse P [] h = tt
sorted-All_inverse P (x ∷ xs) h =
    let (hx, hs) = insert-All_inverse P x (sorted xs) h in (hx, sorted-All_inverse P xs hs)

first_unreported-none :
    (reported names : List Bytes)
    → first_unreported reported names ≡ none
    → All (λ name. member_of name reported ≡ true) names
unfolding first_unreported
first_unreported-none reported [] e = tt
first_unreported-none reported (x ∷ names) e = elim (Bool-cases (member_of x reported)) [
  | inl seen ↦ (seen, first_unreported-none reported names (rw (seen, first_unreported) at e))
  | inr fresh ↦ absurd (cc (rw (fresh, first_unreported) at e))
]

-- Where no malformed name is left to report, each was reported.
pub first_unreported-reported :
    (reported names : List Bytes)
    → first_unreported reported (sorted names) ≡ none
    → All (λ name. member_of name reported ≡ true) names
first_unreported-reported reported names e =
    sorted-All_inverse _ names (first_unreported-none reported (sorted names) e)
