-- ===== src/Runtime/Publisher/Sequence.antt =====
-- The sequence of a new offer is past those of the stream.
use nekomata.Base.{
  ℕ, ◌+◌, ◌<◌, ◌≤◌, ◌≡◌, ap, true, List, [], ◌∷◌, arith, Result, ok, err, All, Bool-cases, inl, inr,
  ok-injective,
}
use nekomata.Text.{Bytes, codes, ends_with, uint64_limit}
use nekomata.Protocol.GenerationOffer.{GenerationOfferReference, GenerationOfferError}
use nekomata.Protocol.GenerationOffer.Marker.{parse_generation_offer_marker}
use nekomata.Runtime.Publisher.{raised, raise_to, next_sequence_from}

-- A name whose marker, if it is one, has a sequence below `next`.
abbrev pub IsBelow : ℕ → Bytes → Type 0
IsBelow next name =
    (r : GenerationOfferReference)
    → ends_with name (codes ".ready") ≡ true
    → parse_generation_offer_marker name name ≡ ok r
    → r.sequence + 1 < uint64_limit
    → r.sequence < next

raise_to-bounds :
    (next : ℕ) (parsed : Result GenerationOfferError GenerationOfferReference)
    → (next ≤ raise_to next parsed)
      × (next < uint64_limit → raise_to next parsed < uint64_limit)
      × ((r : GenerationOfferReference)
          → parsed ≡ ok r
          → r.sequence + 1 < uint64_limit
          → r.sequence < raise_to next parsed)
unfolding raise_to
raise_to-bounds next (err e) = (omega arith, λ low. low, λ r same. cc)
raise_to-bounds next (ok s) = (
  omega arith,
  λ low. omega arith,
  λ r same small.
      let sequences : s.sequence ≡ r.sequence =
        ap (λ (x : GenerationOfferReference). x.sequence) (ok-injective same) in
      omega (arith, sequences),
)

raised-bounds :
    (next : ℕ) (name : Bytes)
    → (next ≤ raised next name)
      × (next < uint64_limit → raised next name < uint64_limit)
      × IsBelow (raised next name) name
unfolding raised
raised-bounds next name = elim (Bool-cases (ends_with name (codes ".ready"))) [
  | inr other ↦ simp other (omega arith, λ low. low, λ r ready. cc)
  | inl ready ↦
      let (le, lt, below) = raise_to-bounds next (parse_generation_offer_marker name name) in
      simp ready (le, lt, λ r _. below r)
]

next_sequence_from-le : (names : List Bytes) (next : ℕ) → next ≤ next_sequence_from next names
unfolding next_sequence_from
next_sequence_from-le [] next = omega arith
next_sequence_from-le (name ∷ names) next =
    omega (arith, (raised-bounds next name).0, next_sequence_from-le names (raised next name))

pub next_sequence_from-lt :
    (names : List Bytes) (next : ℕ)
    → next < uint64_limit
    → next_sequence_from next names < uint64_limit
unfolding next_sequence_from
next_sequence_from-lt [] next low = low
next_sequence_from-lt (name ∷ names) next low =
    next_sequence_from-lt names (raised next name) ((raised-bounds next name).1 low)

-- The sequence allocated for a new offer is greater than that of every marker in the stream, except
-- a marker whose sequence is the greatest std::uint64_t.
pub next_sequence_from-IsBelow :
    (names : List Bytes) (next : ℕ) → All (IsBelow (next_sequence_from next names)) names
unfolding next_sequence_from
next_sequence_from-IsBelow [] next = tt
next_sequence_from-IsBelow (name ∷ names) next =
    let (le, lt, below) = raised-bounds next name in
    (
      λ r ready parsed small.
          omega (arith, below r ready parsed small, next_sequence_from-le names (raised next name)),
      next_sequence_from-IsBelow names (raised next name),
    )
