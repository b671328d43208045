-- ===== src/Pe/ImageLayout/Placed.antt =====
-- The two placing loops put each chosen section behind the ones before it.
use nekomata.Base.{
  ℕ, ◌+◌, ◌-◌, ◌%◌, ◌≤◌, ◌<◌, max, ◌≡◌, refl, subst, Bool, true, false, List, [], ◌∷◌, arith,
  Bool-cases, inl, inr, leb, ok, ok-injective, bind-eq-ok, guard,
}
use native.Mathlib.Nat.{div-add-mod', mod-lt, mod-eq_of_lt, mul-mod_left}
use nekomata.Text.{uint64_limit}
use nekomata.Pe.ObjectFile.{Section}
use nekomata.Pe.ImageLayout.{
  align_up, section_align, unwind_align, is_code, unwind_section, SectionPlacement, place,
  size_behind, place_code, place_unwind, max_section_align,
}

-- Rounding up stays below the next multiple, and is one itself.
pub align_up-bounds :
    (value align : ℕ)
    → 0 < align
    → value + align ≤ uint64_limit
    → (value ≤ align_up value align)
      × (align_up value align < value + align)
      × (align_up value align % align ≡ 0)
unfolding align_up
align_up-bounds value align positive room =
    let whole : (value + align - 1) % uint64_limit ≡ value + align - 1 =
      mod-eq_of_lt (omega arith) in
    let split = div-add-mod' (value + align - 1) align in
    let low = mod-lt (value + align - 1) positive in
    rw whole (omega (arith, split, low), omega (arith, split, low), mul-mod_left _ align)

-- A placement at or behind `at`, as near as the alignment allows.
pub record IsAt (floor at : ℕ) (sec : Section) (p : SectionPlacement) : Type 0 where
  pub section : p.section ≡ sec.index
  pub size : p.size ≡ sec.size
  pub behind : at ≤ p.offset
  pub near : p.offset < at + max floor sec.align
  pub aligned : p.offset % max floor sec.align ≡ 0

-- The chosen sections in their order, each behind the one before; `end_` is the end of the last.
pub data Placed (chosen : Section → Bool) (floor : ℕ)
    : ℕ → List Section → List SectionPlacement → ℕ → Type 0 where
  done : {at : ℕ} → Placed chosen floor at [] [] at
  left_out :
      {at end_ : ℕ} (sec : Section) {secs : List Section} {ps : List SectionPlacement}
      → chosen sec ≡ false
      → Placed chosen floor at secs ps end_
      → Placed chosen floor at (sec ∷ secs) ps end_
  put :
      {at end_ : ℕ} (sec : Section) {secs : List Section} (p : SectionPlacement)
      {ps : List SectionPlacement}
      → chosen sec ≡ true
      → IsAt floor at sec p
      → Placed chosen floor (p.offset + p.size) secs ps end_
      → Placed chosen floor at (sec ∷ secs) (p ∷ ps) end_

-- What the sections take at most, with their padding.
abbrev pub demand : List Section → ℕ
demand [] = 0
demand (sec ∷ secs) = sec.size + max section_align sec.align + demand secs

place-IsAt :
    (floor at : ℕ) (sec : Section)
    → 0 < floor
    → floor ≤ section_align
    → at + (sec.size + max section_align sec.align) ≤ uint64_limit
    → IsAt floor at sec (place floor at sec)
unfolding place
place-IsAt floor at sec positive small room =
    let (behind, near, aligned) =
      align_up-bounds at (max floor sec.align) (omega arith) (omega arith) in
    record { section = refl; size = refl; behind = behind; near = near; aligned = aligned }

-- The image size behind a placement does not wrap.
size_behind-eq :
    (floor at : ℕ) (sec : Section)
    → 0 < floor
    → floor ≤ section_align
    → at + (sec.size + max section_align sec.align) ≤ uint64_limit
    → (size_behind (place floor at sec) ≡ (place floor at sec).offset + sec.size)
      × (size_behind (place floor at sec) ≤ at + (sec.size + max section_align sec.align))
unfolding size_behind place
size_behind-eq floor at sec positive small room =
    let (behind, near, aligned) =
      align_up-bounds at (max floor sec.align) (omega arith) (omega arith) in
    let whole : (align_up at (max floor sec.align) + sec.size) % uint64_limit
        ≡ align_up at (max floor sec.align) + sec.size =
      mod-eq_of_lt (omega arith) in
    (whole, omega (arith, whole))

module _ (chosen : Section → Bool) (floor : ℕ) (positive : 0 < floor)
    (small : floor ≤ section_align) where
  -- One more chosen section in front.
  put-Placed :
      {at end_ : ℕ} (sec : Section) {secs : List Section} {ps : List SectionPlacement}
      → chosen sec ≡ true
      → at + (sec.size + max section_align sec.align) ≤ uint64_limit
      → Placed chosen floor (size_behind (place floor at sec)) secs ps end_
      → Placed chosen floor at (sec ∷ secs) (place floor at sec ∷ ps) end_
  unfolding place
  put-Placed {at} {end_} sec {secs} {ps} here room placed =
      put sec (place floor at sec) here (place-IsAt floor at sec positive small room) (
        subst (λ k. Placed chosen floor k secs ps end_)
          (size_behind-eq floor at sec positive small room).0 placed)

pub place_unwind-Placed :
    (secs : List Section) (at : ℕ)
    → at + demand secs ≤ uint64_limit
    → Placed unwind_section unwind_align at secs (place_unwind at secs).1 (place_unwind at secs).0
      × ((place_unwind at secs).0 ≤ at + demand secs)
unfolding place_unwind
place_unwind-Placed [] at room = (done, omega arith)
place_unwind-Placed (sec ∷ secs) at room = elim (Bool-cases (unwind_section sec)) [
  | inr other ↦
      let (placed, low) = place_unwind-Placed secs at (omega arith) in
      rw other (left_out sec other placed, omega (arith, low))
  | inl here ↦
      let behind =
        (size_behind-eq unwind_align at sec (omega arith) (omega arith) (omega arith)).1 in
      let (placed, low) =
        place_unwind-Placed secs (size_behind (place unwind_align at sec))
          (omega (arith, behind)) in
      rw here (
        put-Placed unwind_section unwind_align (omega arith) (omega arith) sec here (omega arith)
            placed,
        omega (arith, low, behind),
      )
]

pub place_code-Placed :
    (secs : List Section) (at : ℕ) {r : ℕ × List SectionPlacement}
    → at + demand secs ≤ uint64_limit
    → place_code at secs ≡ ok r
    → Placed is_code section_align at secs r.1 r.0 × (r.0 ≤ at + demand secs)
unfolding place_code
place_code-Placed [] at {r} room e =
    subst
      (λ (x : ℕ × List SectionPlacement).
        Placed is_code section_align at [] x.1 x.0 × (x.0 ≤ at + 0))
      (ok-injective e) (done, omega arith)
place_code-Placed (sec ∷ secs) at {r} room e = elim (Bool-cases (is_code sec)) [
  | inr other ↦
      let (placed, low) = place_code-Placed secs at (omega arith) (rw other at e) in
      (left_out sec other placed, omega (arith, low))
  | inl here ↦
      let behind =
        (size_behind-eq section_align at sec (omega arith) (omega arith) (omega arith)).1 in
      let (u, fits, e') = bind-eq-ok (guard (leb sec.align max_section_align) _) _ (rw here at e) in
      let (r', first, e'') =
        bind-eq-ok (place_code (size_behind (place section_align at sec)) secs) _ e' in
      let (placed, low) =
        place_code-Placed secs (size_behind (place section_align at sec)) (omega (arith, behind))
          first in
      subst
        (λ (x : ℕ × List SectionPlacement).
          Placed is_code section_align at (sec ∷ secs) x.1 x.0 × (x.0 ≤ at + demand (sec ∷ secs)))
        (ok-injective e'')
        (
          put-Placed is_code section_align (omega arith) (omega arith) sec here (omega arith)
              placed,
          omega (arith, low, behind),
        )
]
