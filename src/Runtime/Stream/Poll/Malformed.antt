-- ===== src/Runtime/Stream/Poll/Malformed.antt =====
-- Which marker a pass of `poll` reports as malformed (src/runtime/generation_stream.cpp).
use nekomata.Base.{
  ◌≡◌, refl, subst, ◌⊎◌, inl, inr, true, List, [], ◌∷◌, Option, none, some, Result, ok, err, All,
  Bool-cases, ltb, ℕ, if◌then◌else◌,
}
use nekomata.Text.{Bytes, codes, member_of, ends_with}
use nekomata.Protocol.GenerationOffer.{GenerationOfferReference, GenerationOfferError}
use nekomata.Protocol.GenerationOffer.Marker.{parse_generation_offer_marker}
use nekomata.Runtime.Stream.{scan_markers, first_unreported, sorted, insert, less}

-- A name of the listing.
pub Listed : List Bytes → Bytes → Type 0
Listed [] name = ⊥
Listed (x ∷ names) name = (name ≡ x) ⊎ Listed names name

-- A file of the listing with the name of a marker that no offer's marker has.
abbrev pub IsMalformed : List Bytes → Bytes → Type 0
IsMalformed names name =
    Listed names name
    × (ends_with name (codes ".ready") ≡ true)
    × ((e : GenerationOfferError) × (parse_generation_offer_marker name name ≡ err e))

All-Listed :
    (P : Bytes → Type 0) (names : List Bytes)
    → ((name : Bytes) → Listed names name → P name)
    → All P names
unfolding Listed
All-Listed P [] h = tt
All-Listed P (x ∷ names) h = (h x (inl refl), All-Listed P names λ name here. h name (inr here))

module _ (whole : List Bytes) where
  scan_markers-All :
      (cursor : ℕ) (names : List Bytes)
      → All (Listed whole) names
      → All (IsMalformed whole) (scan_markers cursor names).1
  unfolding scan_markers
  scan_markers-All cursor [] hs = tt
  scan_markers-All cursor (name ∷ names) (h, hs) =
      elim (Bool-cases (ends_with name (codes ".ready"))) [
        | inr other ↦ rw other (scan_markers-All cursor names hs)
        | inl ready ↦ rw ready (
            go ready (parse_generation_offer_marker name name) refl
              (scan_markers-All cursor names hs))
      ]
    where
      collect :
          Result GenerationOfferError GenerationOfferReference
          → List GenerationOfferReference × List Bytes
      collect parsed = elim parsed [
        | ok r ↦ (
          if ltb cursor r.sequence
              then r ∷ (scan_markers cursor names).0
              else (scan_markers cursor names).0,
          (scan_markers cursor names).1,
        )
        | err e ↦ ((scan_markers cursor names).0, name ∷ (scan_markers cursor names).1)
      ]

      go :
          ends_with name (codes ".ready") ≡ true
          → (parsed : Result GenerationOfferError GenerationOfferReference)
          → parse_generation_offer_marker name name ≡ parsed
          → All (IsMalformed whole) (scan_markers cursor names).1
          → All (IsMalformed whole) (collect parsed).1
      go ready (ok r) e later = later
      go ready (err reason) e later = ((h, ready, (reason, e)), later)

insert-All :
    (P : Bytes → Type 0) (x : Bytes) (ys : List Bytes) → P x → All P ys → All P (insert x ys)
unfolding insert
insert-All P x [] h hs = (h, tt)
insert-All P x (y ∷ ys) h (hy, hs) = elim (Bool-cases (less y x)) [
  | inl later ↦ rw later (hy, insert-All P x ys h hs)
  | inr here ↦ rw here (h, (hy, hs))
]

sorted-All : (P : Bytes → Type 0) (xs : List Bytes) → All P xs → All P (sorted xs)
unfolding sorted
sorted-All P [] hs = tt
sorted-All P (x ∷ xs) (h, hs) = insert-All P x (sorted xs) h (sorted-All P xs hs)

IfAny : (Bytes → Type 0) → Option Bytes → Type 0
IfAny P none = Unit {0}
IfAny P (some name) = P name

first_unreported-IfAny :
    (P : Bytes → Type 0) (reported names : List Bytes)
    → All P names
    → IfAny P (first_unreported reported names)
unfolding first_unreported IfAny
first_unreported-IfAny P reported [] hs = tt
first_unreported-IfAny P reported (x ∷ names) (h, hs) = elim (Bool-cases (member_of x reported)) [
  | inl seen ↦ rw seen (first_unreported-IfAny P reported names hs)
  | inr fresh ↦ rw fresh h
]

-- The malformed names of a pass are names of its listing, with a marker's ending, that do not parse.
pub scan_markers-AreMalformed :
    (cursor : ℕ) (names : List Bytes) → All (IsMalformed names) (scan_markers cursor names).1
scan_markers-AreMalformed cursor names =
    scan_markers-All names cursor names (All-Listed (Listed names) names λ name here. here)

pub first_unreported-All :
    (P : Bytes → Type 0) (reported names : List Bytes) {name : Bytes}
    → All P names
    → first_unreported reported (sorted names) ≡ some name
    → P name
unfolding IfAny
first_unreported-All P reported names hs e =
    subst (IfAny P) e (first_unreported-IfAny P reported (sorted names) (sorted-All P names hs))
