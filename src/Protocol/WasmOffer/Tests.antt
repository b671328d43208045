-- ===== src/Protocol/WasmOffer/Tests.antt =====
-- The codec of src/protocol/wasm_offer.cpp at the values of its unit test.
use nekomata.Base.{◌<◌, ◌≡◌, refl, [], ◌∷◌, some, ok, arith}
use nekomata.Text.{Bytes, codes, uint64_limit, member_of}
use nekomata.Protocol.Scanner.{inspect_portable_key, contains_control_character, is_empty}
use nekomata.Protocol.Codec.{require_identity, require_portable, require_sha256, is_lower_hex}
use nekomata.Protocol.WasmOffer.{WasmOffer, validate_wasm_offer}
use nekomata.Protocol.WasmOffer.Validity.{IsValid}
use nekomata.Protocol.WasmOffer.Print.{render, serialize_wasm_offer}
use nekomata.Protocol.WasmOffer.Parse.{parse_wasm_offer}
use nekomata.Protocol.WasmOffer.Parse.RoundTrip.{parse_wasm_offer-serialize}
use nekomata.Protocol.WasmOffer.Parse.Sound.{parse_wasm_offer-IsValid}
use nekomata.Protocol.WasmOffer.Ordering.{supersede, compare_wasm_offers}

abbrev source : Bytes
source = codes "fixture"

abbrev pub offer : WasmOffer
offer = record {
  group_id = codes "//game:logic(//toolchain:wasm)";
  sequence = 17;
  generation_id = codes "gen-17-b2";
  abi_id = codes "wasm32-boids-v3";
  artifact_path = codes "modules/gen-17-b2.wasm";
  sha256 = codes "aaaaaaaaaaaaaaaaaaaaaaaaaaaaaaaaaaaaaaaaaaaaaaaaaaaaaaaaaaaaaaaa";
  entries = codes "update" ∷ codes "identity" ∷ [];
}

abbrev later : WasmOffer
later = record offer { sequence = 18 }

pub offer-serializes : serialize_wasm_offer offer ≡ ok (render offer)
unfolding serialize_wasm_offer validate_wasm_offer codes require_identity is_empty
    contains_control_character require_portable inspect_portable_key require_sha256 is_lower_hex
    member_of
offer-serializes = refl

parse_wasm_offer-serialize_example : parse_wasm_offer (render offer) source ≡ ok offer
parse_wasm_offer-serialize_example =
    parse_wasm_offer-serialize source offer {text = render offer} (omega arith) offer-serializes

parse_wasm_offer-IsValid_example : IsValid offer × (17 < uint64_limit)
parse_wasm_offer-IsValid_example =
    parse_wasm_offer-IsValid (render offer) source parse_wasm_offer-serialize_example

later-supersedes : compare_wasm_offers later (some offer) ≡ supersede
unfolding compare_wasm_offers
later-supersedes = refl
