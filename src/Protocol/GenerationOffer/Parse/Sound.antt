-- ===== src/Protocol/GenerationOffer/Parse/Sound.antt =====
-- What `parse_generation_offer` returns is well formed.
use nekomata.Base.{ℕ, ◌<◌, ◌≡◌, sym, subst, List, [], ◌∷◌, arith, ok, bind-eq-ok}
use nekomata.Text.{Bytes, lines, trim_return, read_word, uint64_limit}
use nekomata.Protocol.Scanner.{inspect_magic_line}
use nekomata.Protocol.Scanner.Fields.{parse_unsigned_decimal-lt}
use nekomata.Protocol.Codec.Rows.{scan_rows-keeps}
use nekomata.Protocol.GenerationOffer.Validity.{IsValid, validate_generation_offer-IsValid}
use nekomata.Protocol.GenerationOffer.Parse.{
  Draft, Directive, sequence, empty_draft, directive_of, directive_row, parse_rows, finish,
  parse_lines, magic_verdict, parse_generation_offer,
}
use nekomata.Protocol.GenerationOffer.{
  GenerationOffer, format_name, format_version, validate_generation_offer,
}

abbrev Fits : Draft → Type 0
Fits d = d.offer.sequence < uint64_limit

directive_row-Fits :
    (δ : Directive) (word source : Bytes) (line : ℕ) (d : Draft) (row : Bytes) (d' : Draft)
    → directive_row δ word source line d row ≡ ok d'
    → Fits d
    → Fits d'
unfolding directive_row
directive_row-Fits sequence word source line d row d' e f =
    ground (arith, parse_unsigned_decimal-lt (read_word row).0)
directive_row-Fits _ word source line d row d' e f = ground arith

finish-eq-ok :
    (source : Bytes) (r : Draft × ℕ) {offer : GenerationOffer}
    → finish source r ≡ ok offer
    → (offer ≡ r.0.offer) × (validate_generation_offer r.0.offer source ≡ ok tt)
unfolding finish
finish-eq-ok source (draft, line) e = ground arith

parse_lines-finish :
    (source : Bytes) (ls : List Bytes) {offer : GenerationOffer}
    → parse_lines source ls ≡ ok offer
    → (rest : List Bytes) × (r : Draft × ℕ) × (parse_rows source rest 1 empty_draft ≡ ok r)
      × (finish source r ≡ ok offer)
unfolding parse_lines
parse_lines-finish source [] e = cc
parse_lines-finish source (l ∷ ls) e =
    let (u, magic, rest) =
      bind-eq-ok
        (magic_verdict source (inspect_magic_line (trim_return l) format_name format_version)) _
        e in
    let (r, rows, done) = bind-eq-ok (parse_rows source ls 1 empty_draft) (finish source) rest in
    (ls, r, rows, done)

-- Every offer that the parser returns is valid, and its sequence fits std::uint64_t.
pub parse_generation_offer-IsValid :
    (text source : Bytes) {offer : GenerationOffer}
    → parse_generation_offer text source ≡ ok offer
    → IsValid offer × (offer.sequence < uint64_limit)
unfolding parse_generation_offer
parse_generation_offer-IsValid text source e =
    let (ls, r, rows, done) = parse_lines-finish source (lines text) e in
    let (same, valid) = finish-eq-ok source r done in
    let fits : Fits r.0 =
      unfold parse_rows in
      scan_rows-keeps _ Fits
        (λ word line d row d' step.
          directive_row-Fits (directive_of word) word source line d row d' step)
        ls 1 empty_draft rows (omega arith) in
    (
      subst IsValid (sym same) ((validate_generation_offer-IsValid r.0.offer source).0 valid),
      rw same fits,
    )
