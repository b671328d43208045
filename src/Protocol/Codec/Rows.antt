-- ===== src/Protocol/Codec/Rows.antt =====
-- The `while (std::getline(...))` loop of the three codecs, over what each does with a directive,
-- and its rows as they are printed.
use nekomata.Base.{
  ℕ, ◌+◌, ◌≡◌, refl, ap, false, List, [], ◌∷◌, ◌++◌, ◌==◌, arith, Result, ok, ◌>>=◌, append_assoc,
  if◌then◌else◌, subst, bind-eq-ok, ok-injective, Bool-cases, inl, inr,
}
use nekomata.Text.{
  Bytes, quoted, lines, trim_return, skip_spaces, read_word, is_space, IsLine, IsWord, lines-cons,
  trim_return-IsLine, read_word-space,
}

-- `output << word << ' ' << std::quoted(text) << '\n'`, in front of `rest`.
unfoldable pub field_line : Bytes → Bytes → Bytes → Bytes
field_line word text rest = word ++ (b' ' ∷ (quoted text ++ (b'\n' ∷ rest)))

module _ {E D : Type 0} (directive : Bytes → ℕ → D → Bytes → Result E D) where
  -- One line, trimmed and with its leading spaces skipped: blank lines and comments pass.
  unfoldable pub scan_row : ℕ → D → Bytes → Result E D
  scan_row line d [] = ok d
  scan_row line d (c ∷ cs) =
      let (word, rest) = read_word (c ∷ cs) in
      if c == b'#' then ok d else directive word line d rest

  -- The result, and the number of the last line that was read.
  unfoldable pub scan_rows : List Bytes → ℕ → D → Result E (D × ℕ)
  unfolding scan_row
  scan_rows [] line d = ok (d, line)
  scan_rows (l ∷ ls) line d = do
    d' ← scan_row (line + 1) d (skip_spaces (trim_return l))
    scan_rows ls (line + 1) d'

  word-IsLine : (w row : Bytes) → IsWord w → IsLine row → IsLine (w ++ (b' ' ∷ row))
  unfolding is_space
  word-IsLine [] row h k = k
  word-IsLine (c ∷ cs) row h k = ground (arith, word-IsLine cs row)

  scan_row-word :
      (c : ℕ) (w : Bytes) (n : ℕ) (d : D) (row : Bytes)
      → IsWord (c ∷ w)
      → (c == b'#') ≡ false
      → scan_row n d (skip_spaces (c ∷ (w ++ (b' ' ∷ row)))) ≡ directive (c ∷ w) n d (b' ' ∷ row)
  unfolding scan_row skip_spaces
  scan_row-word c w n d row h k = ground (arith, read_word-space c w row h)

  -- A directive's row is dispatched on its word, and the loop goes on behind it.
  pub scan_rows-word :
      (c : ℕ) (w row rest : Bytes) (n : ℕ) (d : D)
      → IsWord (c ∷ w)
      → (c == b'#') ≡ false
      → IsLine row
      → scan_rows (lines ((c ∷ w) ++ (b' ' ∷ (row ++ (b'\n' ∷ rest))))) n d
        ≡ (directive (c ∷ w) (n + 1) d (b' ' ∷ row) >>= λ d'. scan_rows (lines rest) (n + 1) d')
  unfolding scan_rows
  scan_rows-word c w row rest n d h k q =
      let whole : IsLine ((c ∷ w) ++ (b' ' ∷ row)) = word-IsLine (c ∷ w) row h q in
      rw
        (
          ← append_assoc (c ∷ w) (b' ' ∷ row) (b'\n' ∷ rest),
          lines-cons ((c ∷ w) ++ (b' ' ∷ row)) rest whole,
          scan_rows,
          trim_return-IsLine ((c ∷ w) ++ (b' ' ∷ row)) whole,
          scan_row-word c w (n + 1) d row h k,
        )
        refl

  pub scan_rows-nil : (n : ℕ) (d : D) → scan_rows (lines []) n d ≡ ok (d, n)
  unfolding scan_rows lines
  scan_rows-nil n d = refl

  -- What every directive keeps, the loop keeps.
  pub scan_rows-keeps {ℓ} :
      (P : D → Type ℓ)
      → ((word : Bytes) (line : ℕ) (d : D) (row : Bytes) (d' : D)
          → directive word line d row ≡ ok d'
          → P d
          → P d')
      → (ls : List Bytes) (n : ℕ) (d : D) {r : D × ℕ} → scan_rows ls n d ≡ ok r
      → P d
      → P r.0
  unfolding scan_rows
  scan_rows-keeps P keep [] n d e p = subst P (ap (λ r. r.0) (ok-injective e)) p
  scan_rows-keeps P keep (l ∷ ls) n d e p =
      let (d', step, later) = bind-eq-ok (scan_row (n + 1) d (skip_spaces (trim_return l))) _ e in
      scan_rows-keeps P keep ls (n + 1) d' later
        (kept (n + 1) d (skip_spaces (trim_return l)) d' step p)
    where
      kept : (m : ℕ) (d : D) (row : Bytes) (d' : D) → scan_row m d row ≡ ok d' → P d → P d'
      kept m d [] d' e p = subst P (ok-injective e) p
      kept m d (c ∷ cs) d' e p = elim (Bool-cases (c == b'#')) [
        | inl comment ↦ subst P (ok-injective (rw comment at e)) p
        | inr other ↦ keep (read_word (c ∷ cs)).0 m d (read_word (c ∷ cs)).1 d' (rw other at e) p
      ]
