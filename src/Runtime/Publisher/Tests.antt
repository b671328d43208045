-- ===== src/Runtime/Publisher/Tests.antt =====
-- A publication into a stream that holds one offer.
use nekomata.Base.{List, [], ◌∷◌, some, Result, ok, err, All}
use nekomata.Text.{Bytes, codes}
use nekomata.Protocol.GenerationOffer.Parse.{empty_offer}
use nekomata.Runtime.Samples.{disk}
use nekomata.Runtime.Stream.{FileSystem}
use nekomata.Runtime.Publisher.{
  PublishRequest, PublishError, Publication, publish_generation, next_sequence_from,
}
use nekomata.Runtime.Publisher.Sequence.{IsBelow, next_sequence_from-IsBelow}

abbrev names : List Bytes
names = codes "4-a.ready" ∷ codes "bad.ready" ∷ codes "12-b.ready" ∷ []

next_sequence_from-IsBelow_example : All (IsBelow (next_sequence_from 1 names)) names
next_sequence_from-IsBelow_example = next_sequence_from-IsBelow names 1

abbrev published_disk : FileSystem
published_disk = record disk {
  list_directory = λ path. some names;
  read_file_if_present = λ path. some (codes "object");
  sha256_hex = λ bytes. codes "0123456789abcdef0123456789abcdef0123456789abcdef0123456789abcdef";
}

abbrev request : PublishRequest
request = record {
  generation_root = codes "/r";
  publication_key = codes "k";
  group_id = codes "game";
  compatibility_id = codes "c";
  abi_id = codes "x";
  members =
      record {
        member = codes "a";
        object_file = codes "a.o";
        source_identity = codes "a.cpp";
        build_information = [];
      }
      ∷ [];
  changed_inputs = [];
}

abbrev publication_of : Result PublishError Publication → Publication
publication_of (ok p) = p
publication_of (err e) = record { offer = empty_offer; manifest = []; marker = []; operations = [] }

abbrev publication : Publication
publication = publication_of (publish_generation published_disk (codes "n") request)
