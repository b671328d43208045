-- ===== src/Protocol/GenerationOffer/Against.antt =====
-- `validate_generation_offer_against_descriptor` of src/protocol/generation_offer.cpp.
use nekomata.Base.{
  ℕ, ◌+◌, ◌≡◌, refl, ap, ◌↔◌, List, [], ◌∷◌, ◌++◌, map, ◌==◌, arith, Result, ok, err, ◌>>◌, guard,
  length, length-map,
}
use nekomata.Text.{Bytes, codes, to_string, equal, equal_iff}
use nekomata.Protocol.GroupDescriptor.{GroupDescriptor, DescriptorError, validate_group_descriptor}
use nekomata.Protocol.GroupDescriptor.Validity
use nekomata.Protocol.GroupDescriptor.Validity.{validate_group_descriptor-IsValid}
use nekomata.Protocol.GenerationOffer.Validity.{IsValid, validate_generation_offer-IsValid}
use nekomata.Protocol.GenerationOffer.{
  GenerationOffer, GenerationOfferMember, GenerationOfferError, group_mismatch,
  compatibility_mismatch, abi_mismatch, membership_mismatch, reject, validate_generation_offer,
}

-- Both kinds of exception can leave this function.
pub data AgainstError : Type 0 where
  offer_error : GenerationOfferError → AgainstError
  descriptor_error : DescriptorError → AgainstError

abbrev as_offer {ℓ} : {A : Type ℓ} → Result GenerationOfferError A → Result AgainstError A
as_offer (ok a) = ok a
as_offer (err e) = err (offer_error e)

abbrev as_descriptor {ℓ} : {A : Type ℓ} → Result DescriptorError A → Result AgainstError A
as_descriptor (ok a) = ok a
as_descriptor (err e) = err (descriptor_error e)

-- The loop over the members, from `index`; the counts are equal.
match_members : Bytes → ℕ → List GenerationOfferMember → List Bytes → Result AgainstError (Unit {0})
match_members source index [] expected = ok tt
match_members source index (m ∷ ms) [] = ok tt
match_members source index (m ∷ ms) (x ∷ xs) = do
  guard (equal m.member x) (
      offer_error (
        reject membership_mismatch source 0 (
          codes "member at index "
          ++ to_string index
          ++ codes " is '"
          ++ m.member
          ++ codes "', expected '"
          ++ x
          ++ codes "'")))
  match_members source (index + 1) ms xs

unfoldable pub validate_generation_offer_against_descriptor :
    GenerationOffer → GroupDescriptor → Bytes → Result AgainstError (Unit {0})
unfolding match_members
validate_generation_offer_against_descriptor offer d source = do
  as_offer (validate_generation_offer offer source)
  as_descriptor (validate_group_descriptor d (codes "<memory>"))
  guard (equal offer.group_id d.group_id) (
      offer_error (
        reject group_mismatch source 0 (
          codes "group_id '"
          ++ offer.group_id
          ++ codes "' does not match descriptor '"
          ++ d.group_id
          ++ codes "'")))
  guard (equal offer.compatibility_id d.compatibility_id) (
      offer_error (
        reject compatibility_mismatch source 0
          (codes "compatibility_id does not match descriptor")))
  guard (equal offer.abi_id d.abi_id)
      (offer_error (reject abi_mismatch source 0 (codes "abi_id does not match descriptor")))
  guard (length offer.members == length d.members) (
      offer_error (
        reject membership_mismatch source 0 (
          codes "member count "
          ++ to_string (length offer.members)
          ++ codes " does not match descriptor count "
          ++ to_string (length d.members))))
  match_members source 0 offer.members d.members

pub record Agrees (offer : GenerationOffer) (d : GroupDescriptor) : Type 0 where
  pub offer_valid : IsValid offer
  pub descriptor_valid : Validity.IsValid d
  pub same_group : offer.group_id ≡ d.group_id
  pub same_compatibility : offer.compatibility_id ≡ d.compatibility_id
  pub same_abi : offer.abi_id ≡ d.abi_id
  pub same_members : map (λ m. m.member) offer.members ≡ d.members

match_members-eq :
    (source : Bytes) (index : ℕ) (ms : List GenerationOfferMember) (xs : List Bytes)
    → length ms ≡ length xs
    → (match_members source index ms xs ≡ ok tt) ↔ (map (λ m. m.member) ms ≡ xs)
unfolding match_members
match_members-eq source index [] [] h = (λ _. refl, λ _. refl)
match_members-eq source index [] (x ∷ xs) h = absurd (omega arith)
match_members-eq source index (m ∷ ms) [] h = absurd (omega arith)
match_members-eq source index (m ∷ ms) (x ∷ xs) h =
    ground (arith, equal_iff m.member x, match_members-eq source (index + 1) ms xs)

-- An offer is accepted for a descriptor exactly when both are valid and their group, compatibility
-- and ABI identities and their ordered members agree.
pub validate_against-Agrees :
    (offer : GenerationOffer) (d : GroupDescriptor) (source : Bytes)
    → (validate_generation_offer_against_descriptor offer d source ≡ ok tt) ↔ Agrees offer d
unfolding validate_generation_offer_against_descriptor
validate_against-Agrees offer d source = ground (
  arith,
  validate_generation_offer-IsValid offer source,
  validate_group_descriptor-IsValid d (codes "<memory>"),
  equal_iff offer.group_id d.group_id,
  equal_iff offer.compatibility_id d.compatibility_id,
  equal_iff offer.abi_id d.abi_id,
  match_members-eq source 0 offer.members d.members,
  same-length offer.members d.members,
)
  where
    same-length :
        (ms : List GenerationOfferMember) (xs : List Bytes)
        → map (λ (m : GenerationOfferMember). m.member) ms ≡ xs
        → length ms ≡ length xs
    same-length ms xs e = omega (arith, ap length e, length-map ms (λ m. m.member))
