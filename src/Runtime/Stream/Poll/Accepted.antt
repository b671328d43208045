-- ===== src/Runtime/Stream/Poll/Accepted.antt =====
-- What `poll` promises of an observation.
use nekomata.Base.{
  ◌≡◌, sym, ap, subst, true, List, [], ◌∷◌, Option, none, some, Result, ok, err, guard, arith,
  bind-eq-ok, guard-eq-ok, ok-injective,
}
use nekomata.Text.{Bytes, equal, equal_iff}
use nekomata.Protocol.GenerationOffer.{
  GenerationOffer, GenerationOfferMember, GenerationOfferReference, GenerationOfferError,
  validate_generation_offer,
}
use nekomata.Protocol.GenerationOffer.Parse.{parse_generation_offer}
use nekomata.Protocol.GenerationOffer.Against.{
  AgainstError, offer_error, descriptor_error, Agrees, validate_generation_offer_against_descriptor,
  validate_against-Agrees,
}
use nekomata.Protocol.GenerationOffer.Marker.{
  serialize_generation_offer_marker, validate_generation_offer_reference,
}
use nekomata.Runtime.Paths.{join, is_beneath}
use nekomata.Runtime.Stream.{filesystem_error, FileSystem, GenerationStream}
use nekomata.Runtime.Stream.Poll.{
  Stop, throws, from_offer, from_against, required, check_object, check_objects, check_offer,
}

from_offer-ok {ℓ} :
    {A : Type ℓ} (r : Result GenerationOfferError A) {a : A} → from_offer r ≡ ok a → r ≡ ok a
unfolding from_offer
from_offer-ok (ok a) e = ap ok (ok-injective e)
from_offer-ok (err x) e = absurd cc

from_against-ok {ℓ} :
    {A : Type ℓ} (r : Result AgainstError A) {a : A} → from_against r ≡ ok a → r ≡ ok a
unfolding from_against
from_against-ok (ok a) e = ap ok (ok-injective e)
from_against-ok (err (offer_error x)) e = absurd cc
from_against-ok (err (descriptor_error x)) e = absurd cc

required-ok {ℓ} :
    {A : Type ℓ} (o : Option A) (stop : Stop) {a : A} → required o stop ≡ ok a → o ≡ some a
unfolding required
required-ok none stop e = absurd cc
required-ok (some a) stop e = ap some (ok-injective e)

same_reference :
    (r : GenerationOfferReference) (offer : GenerationOffer) (source : Bytes)
    → validate_generation_offer_reference r offer source ≡ ok tt
    → (r.sequence ≡ offer.sequence) × (r.generation_id ≡ offer.generation_id)
unfolding validate_generation_offer_reference
same_reference r offer source e = ground (arith, equal_iff r.generation_id offer.generation_id)

module _ (fs : FileSystem) where
  -- The object at `path` lies below the directory and has the digest that the manifest states.
  pub record IsVerified (canonical_directory : Bytes) (m : GenerationOfferMember) (path : Bytes)
      : Type 0 where
    pub beneath : is_beneath path canonical_directory ≡ true
    pub bytes : Bytes
    pub present : fs.read_file_if_present path ≡ some bytes
    pub digest : fs.sha256_hex bytes ≡ m.sha256

  -- One verified object for each member, in order.
  abbrev pub AreVerified : Bytes → List GenerationOfferMember → List Bytes → Type 0
  AreVerified directory [] [] = Unit {0}
  AreVerified directory [] (x ∷ xs) = ⊥
  AreVerified directory (m ∷ ms) [] = ⊥
  AreVerified directory (m ∷ ms) (x ∷ xs) = IsVerified directory m x × AreVerified directory ms xs

  check_object-IsVerified :
      (s : GenerationStream) (g c : Bytes) (m : GenerationOfferMember) {path : Bytes}
      → check_object fs s g c m ≡ ok path
      → IsVerified c m path
  unfolding check_object
  check_object-IsVerified s g c m e =
      let (resolved, found, e1) =
        bind-eq-ok (required (fs.weakly_canonical (join g m.object_path)) _) _ e in
      let (u, inside, e2) = bind-eq-ok (guard (is_beneath resolved c) _) _ e1 in
      let (bytes, opened, e3) = bind-eq-ok (required (fs.read_file_if_present resolved) _) _ e2 in
      let (v, matches, e4) = bind-eq-ok (guard (equal (fs.sha256_hex bytes) m.sha256) _) _ e3 in
      subst (IsVerified c m) (ok-injective e4) (record {
        beneath = guard-eq-ok (is_beneath resolved c) _ inside;
        bytes = bytes;
        present = required-ok (fs.read_file_if_present resolved) _ opened;
        digest =
            (equal_iff (fs.sha256_hex bytes) m.sha256).0
              (guard-eq-ok (equal (fs.sha256_hex bytes) m.sha256) _ matches);
      })

  check_objects-AreVerified :
      (s : GenerationStream) (g c : Bytes) (ms : List GenerationOfferMember) {paths : List Bytes}
      → check_objects fs s g c ms ≡ ok paths
      → AreVerified c ms paths
  unfolding check_objects
  check_objects-AreVerified s g c [] e = subst (AreVerified c []) (ok-injective e) tt
  check_objects-AreVerified s g c (m ∷ ms) e =
      let (path, one, e1) = bind-eq-ok (check_object fs s g c m) _ e in
      let (rest, others, e2) = bind-eq-ok (check_objects fs s g c ms) _ e1 in
      subst (AreVerified c (m ∷ ms)) (ok-injective e2)
        (check_object-IsVerified s g c m one, check_objects-AreVerified s g c ms others)

  -- What an accepted offer has.
  pub record IsAccepted (s : GenerationStream) (r : GenerationOfferReference) (directory : Bytes)
      (offer : GenerationOffer) (objects : List Bytes) : Type 0 where
    pub agrees : Agrees offer s.descriptor
    pub same_sequence : offer.sequence ≡ r.sequence
    pub same_id : offer.generation_id ≡ r.generation_id
    pub canonical_directory : Bytes
    pub resolved : fs.canonical directory ≡ some canonical_directory
    pub verified : AreVerified canonical_directory offer.members objects

  pub check_offer-IsAccepted :
      (s : GenerationStream) (r : GenerationOfferReference) (directory path text : Bytes)
      {x : GenerationOffer × List Bytes}
      → check_offer fs s r directory path text ≡ ok x
      → IsAccepted s r directory x.0 x.1
  unfolding check_offer
  check_offer-IsAccepted s r directory path text e =
      let (offer, parsed, e1) = bind-eq-ok (from_offer (parse_generation_offer text path)) _ e in
      let (u, valid, e2) = bind-eq-ok (from_offer (validate_generation_offer offer path)) _ e1 in
      let (v, agree, e3) =
        bind-eq-ok
          (from_against (validate_generation_offer_against_descriptor offer s.descriptor path)) _
          e2 in
      let (marker, named, e4) =
        bind-eq-ok (from_offer (serialize_generation_offer_marker r)) _ e3 in
      let (w, refers, e5) =
        bind-eq-ok (from_offer (validate_generation_offer_reference r offer marker)) _ e4 in
      let (c, canonical, e6) =
        bind-eq-ok (required (fs.canonical directory) (throws filesystem_error)) _ e5 in
      let (objects, checked, e7) = bind-eq-ok (check_objects fs s directory c offer.members) _ e6 in
      let (sequences, ids) =
        same_reference r offer marker
          (from_offer-ok (validate_generation_offer_reference r offer marker) refers) in
      subst (λ (x : GenerationOffer × List Bytes). IsAccepted s r directory x.0 x.1)
        (ok-injective e7)
        (record {
          agrees = (validate_against-Agrees offer s.descriptor path).0 (
              from_against-ok (validate_generation_offer_against_descriptor offer s.descriptor path)
                agree);
          same_sequence = sym sequences;
          same_id = sym ids;
          canonical_directory = c;
          resolved = required-ok (fs.canonical directory) _ canonical;
          verified = check_objects-AreVerified s directory c offer.members checked;
        })
