-- ===== src/Runtime/Publisher/Released.antt =====
-- What a publication releases can be read by its consumers.
use nekomata.Base.{◌≡◌, ◌++◌, List, [], ◌∷◌, All, append_assoc, ok}
use nekomata.Text.{Bytes, codes}
use nekomata.Protocol.GenerationOffer.{GenerationOffer, GenerationOfferReference}
use nekomata.Protocol.GenerationOffer.Parse.{parse_generation_offer}
use nekomata.Protocol.GenerationOffer.Marker.{parse_generation_offer_marker}
use nekomata.Runtime.Paths.{join}
use nekomata.Runtime.Stream.{FileSystem}
use nekomata.Runtime.Publisher.Staged.{Hides, Stages}
use nekomata.Runtime.Publisher.{
  PublishRequest, Publication, FileOperation, remove_all, write_required_file, rename,
}

abbrev pub published_reference : GenerationOffer → GenerationOfferReference
published_reference offer = record {
  sequence = offer.sequence;
  generation_id = offer.generation_id;
}

-- Where the consumers of a stream look for a generation, and where they list the markers.
abbrev pub generation_directory : PublishRequest → Bytes → Bytes
generation_directory request generation_id =
    join (join (join request.generation_root request.publication_key) (codes "generations"))
      generation_id

abbrev pub offers_directory : PublishRequest → Bytes
offers_directory request =
    join (join request.generation_root request.publication_key) (codes "offers")

abbrev pub staging_directory : PublishRequest → Bytes → Bytes
staging_directory request nonce =
    join (join request.generation_root request.publication_key) (codes ".staging-" ++ nonce)

-- A publication: what it stages, hidden and complete, before it releases the directory and then the
-- marker, and that both read back as its offer.
pub record IsReadable (fs : FileSystem) (nonce : Bytes) (request : PublishRequest) (p : Publication)
    : Type 0 where
  pub before : List FileOperation
  pub hidden : All (Hides (staging_directory request nonce)) before
  pub objects : Stages fs (staging_directory request nonce) p.offer.members before
  pub performed :
      p.operations
      ≡ before
        ++ write_required_file
            (join (staging_directory request nonce) (codes "manifest"))
            p.manifest
          ∷ remove_all (generation_directory request p.offer.generation_id)
          ∷ rename
              (staging_directory request nonce)
              (generation_directory request p.offer.generation_id)
          ∷ write_required_file (join (offers_directory request) (codes "offer.staging")) []
          ∷ rename
              (join (offers_directory request) (codes "offer.staging"))
              (join (offers_directory request) p.marker)
          ∷ []
  pub manifest_reads : (source : Bytes) → parse_generation_offer p.manifest source ≡ ok p.offer
  pub marker_reads :
      (source : Bytes)
      → parse_generation_offer_marker p.marker source ≡ ok (published_reference p.offer)

split_at :
    (made staged rest : List FileOperation) (op next : FileOperation)
    → made ++ staged ++ (op ∷ next ∷ []) ++ rest ≡ made ++ (staged ++ op ∷ []) ++ next ∷ rest
split_at made staged rest op next = simp (append_assoc)
