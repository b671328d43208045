-- ===== src/Protocol/GroupDescriptor/Parse/Sound.antt =====
-- What `parse_group_descriptor` returns is well formed, so it serializes again.
use nekomata.Base.{ℕ, ◌<◌, ◌≡◌, refl, sym, subst, List, [], ◌∷◌, arith, ok, bind-eq-ok}
use nekomata.Text.{Bytes, codes, lines, trim_return, read_word, uint64_limit}
use nekomata.Protocol.Scanner.{inspect_magic_line}
use nekomata.Protocol.Scanner.Fields.{parse_unsigned_decimal-lt}
use nekomata.Protocol.Codec.Rows.{scan_rows-keeps}
use nekomata.Protocol.GroupDescriptor.Print.{render, serialize_group_descriptor}
use nekomata.Protocol.GroupDescriptor.Validity.{IsValid, validate_group_descriptor-IsValid}
use nekomata.Protocol.GroupDescriptor.Parse.RoundTrip.{parse_group_descriptor-serialize}
use nekomata.Protocol.GroupDescriptor.Parse.{
  Draft, Directive, baseline_sequence, empty_draft, directive_of, directive_row, parse_rows, finish,
  parse_lines, magic_verdict, parse_group_descriptor,
}
use nekomata.Protocol.GroupDescriptor.{
  GroupDescriptor, format_name, format_version, validate_group_descriptor,
}

abbrev Fits : Draft → Type 0
Fits d = d.descriptor.baseline_sequence < uint64_limit

directive_row-Fits :
    (δ : Directive) (word source : Bytes) (line : ℕ) (d : Draft) (row : Bytes) (d' : Draft)
    → directive_row δ word source line d row ≡ ok d'
    → Fits d
    → Fits d'
unfolding directive_row
directive_row-Fits baseline_sequence word source line d row d' e f =
    ground (arith, parse_unsigned_decimal-lt (read_word row).0)
directive_row-Fits _ word source line d row d' e f = ground arith

finish-eq-ok :
    (source : Bytes) (r : Draft × ℕ) {d : GroupDescriptor}
    → finish source r ≡ ok d
    → (d ≡ r.0.descriptor) × (validate_group_descriptor r.0.descriptor source ≡ ok tt)
unfolding finish
finish-eq-ok source (draft, line) e = ground arith

parse_lines-finish :
    (source : Bytes) (ls : List Bytes) {d : GroupDescriptor}
    → parse_lines source ls ≡ ok d
    → (l : Bytes) × (rest : List Bytes) × (r : Draft × ℕ) × (parse_rows source rest 1 empty_draft
        ≡ ok r)
      × (finish source r ≡ ok d)
unfolding parse_lines
parse_lines-finish source [] e = cc
parse_lines-finish source (l ∷ ls) e =
    let (u, magic, rest) =
      bind-eq-ok
        (magic_verdict source (inspect_magic_line (trim_return l) format_name format_version)) _
        e in
    let (r, rows, done) = bind-eq-ok (parse_rows source ls 1 empty_draft) (finish source) rest in
    (l, ls, r, rows, done)

-- Every descriptor that the parser returns is valid, and its baseline sequence fits std::uint64_t.
pub parse_group_descriptor-IsValid :
    (text source : Bytes) {d : GroupDescriptor}
    → parse_group_descriptor text source ≡ ok d
    → IsValid d × (d.baseline_sequence < uint64_limit)
unfolding parse_group_descriptor
parse_group_descriptor-IsValid text source e =
    let (l, ls, r, rows, done) = parse_lines-finish source (lines text) e in
    let (same, valid) = finish-eq-ok source r done in
    let fits : Fits r.0 =
      unfold parse_rows in
      scan_rows-keeps _ Fits
        (λ word line d row d' step.
          directive_row-Fits (directive_of word) word source line d row d' step)
        ls 1 empty_draft rows (omega arith) in
    (
      subst IsValid (sym same) ((validate_group_descriptor-IsValid r.0.descriptor source).0 valid),
      rw same fits,
    )

-- Serializing what was parsed succeeds, and the result parses to the same descriptor.
pub serialize-parse_group_descriptor :
    (text source : Bytes) {d : GroupDescriptor}
    → parse_group_descriptor text source ≡ ok d
    → (again : Bytes) × (serialize_group_descriptor d ≡ ok again)
      × (parse_group_descriptor again source ≡ ok d)
unfolding serialize_group_descriptor
serialize-parse_group_descriptor text source {d} e =
    let (valid, small) = parse_group_descriptor-IsValid text source e in
    let printed = (validate_group_descriptor-IsValid d (codes "<memory>")).1 valid in
    (
      render d,
      rw printed refl,
      parse_group_descriptor-serialize source d small
          (unfold serialize_group_descriptor in rw printed refl),
    )
