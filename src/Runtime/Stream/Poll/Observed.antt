-- ===== src/Runtime/Stream/Poll/Observed.antt =====
-- How a pass of `poll` moves the stream.
use nekomata.Base.{◌<◌, ◌≡◌, ◌⊎◌, false, List, [], ◌∷◌, ◌++◌, none, some, Result, ok, err, All}
use nekomata.Text.{Bytes, codes, member_of}
use nekomata.Protocol.GenerationOffer.{GenerationOffer, GenerationOfferReference}
use nekomata.Runtime.Paths.{join}
use nekomata.Runtime.Stream.{
  Thrown, FileSystem, StreamStatus, idle, consumed, rejected, GenerationStreamObservation,
  GenerationStream,
}
use nekomata.Runtime.Stream.Poll.Malformed.{IsMalformed}
use nekomata.Runtime.Stream.Poll.Quiet.{NoNews}
use nekomata.Runtime.Stream.Poll.Accepted.{IsAccepted}

abbrev pub reference_of : GenerationStreamObservation → GenerationOfferReference
reference_of o = record { sequence = o.sequence; generation_id = o.generation_id }

module _ (fs : FileSystem) (s : GenerationStream) where
  -- An offer past the cursor was observed, and the cursor is at it.
  abbrev pub Moved : GenerationStream → GenerationStreamObservation → Type 0
  Moved s' o = (s.cursor < o.sequence) × (s' ≡ record s { cursor = o.sequence })

  -- Where the stream's markers are.
  abbrev pub offers : Bytes
  offers = join (join s.root s.descriptor.publication_key) (codes "offers")

  -- A malformed marker of the listing that was not reported before is noted.
  abbrev pub Reported : GenerationStream → Type 0
  Reported s' =
      (names : List Bytes) × (fs.list_directory offers ≡ some names)
      × ((name : Bytes) × IsMalformed names name
          × (member_of name s.reported_bad_markers ≡ false)
          × (s' ≡ record s { reported_bad_markers = s.reported_bad_markers ++ name ∷ [] }))

  -- There is nothing to observe: the directory of markers is missing, cannot be listed, or lists no
  -- marker of an offer past the cursor and no malformed one that was not reported before.
  abbrev pub Quiet : Type 0
  Quiet =
      (fs.is_directory offers ≡ false)
      ⊎ (fs.list_directory offers ≡ none)
      ⊎ ((names : List Bytes) × (fs.list_directory offers ≡ some names)
          × All (NoNews s.cursor s.reported_bad_markers) names)

  -- What each status stands for.
  abbrev pub Outcome : StreamStatus → GenerationStream → GenerationStreamObservation → Type 0
  Outcome idle s' o = (s' ≡ s) × Quiet
  Outcome consumed s' o =
      Moved s' o × IsAccepted fs s (reference_of o) o.generation_directory o.offer o.objects
  Outcome rejected s' o = Moved s' o ⊎ Reported s'

  Observes : Result Thrown (GenerationStream × GenerationStreamObservation) → Type 0
  Observes (err e) = Unit {0}
  Observes (ok (s', o)) = Outcome o.status s' o
