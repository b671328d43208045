-- ===== src/Pe/ImageLayout/Imports.antt =====
-- What the trampolines of an image are for, said without the code's tests: which relocation asks
-- for one, and for which symbol (src/pe/image_layout.cpp).
use nekomata.Base.{
  ℕ, ◌≡◌, refl, ◌⊎◌, ◌↔◌, true, false, List, [], ◌∷◌, Option, none, some, arith, any, ◌==◌, map,
  get_elem?,
}
use nekomata.Pe.ObjectFile.{Symbol, Relocation, RelocationKind, is_common}
use nekomata.Pe.ImageLayout.{
  SectionPlacement, TrampolineSlot, is_relative_32, is_placed, imported, wanted,
}
use nekomata.Pe.ImageLayout.Slots.{is_wanted, wants}

-- The section has a place among the code.
pub InImage : List SectionPlacement → ℕ → Type 0
InImage [] section = ⊥
InImage (p ∷ ps) section = (p.section ≡ section) ⊎ InImage ps section

-- The symbol is there, and it is an undefined external with no size of its own.
pub IsImport : Option Symbol → Type 0
IsImport none = ⊥
IsImport (some s) =
    (s.auxiliary ≡ false) × (s.section_number ≡ 0) × (s.storage_class ≡ 2) × (s.value ≡ 0)

-- The relocation is a 32-bit displacement in the image to such a symbol, the one of that index.
abbrev pub AsksFor : List Symbol → List SectionPlacement → ℕ → Relocation → Type 0
AsksFor symbols code index rel =
    (rel.symbol_index ≡ index)
    × (rel.kind ≡ RelocationKind.relative_32)
    × InImage code rel.target_section
    × IsImport (get_elem? symbols rel.symbol_index)

pub SomeAsks : List Symbol → List SectionPlacement → ℕ → List Relocation → Type 0
SomeAsks symbols code index [] = ⊥
SomeAsks symbols code index (rel ∷ rels) =
    AsksFor symbols code index rel ⊎ SomeAsks symbols code index rels

-- A slot stands for the symbol of that index.
pub HasSlot : ℕ → List TrampolineSlot → Type 0
HasSlot index [] = ⊥
HasSlot index (t ∷ ts) = (t.symbol_index ≡ index) ⊎ HasSlot index ts

InImage-iff :
    (code : List SectionPlacement) (section : ℕ)
    → (is_placed code section ≡ true) ↔ InImage code section
unfolding is_placed InImage
InImage-iff [] section = (λ h. absurd cc, λ h. absurd h)
InImage-iff (p ∷ ps) section = ground (arith, InImage-iff ps section)

IsImport-iff : (s : Option Symbol) → (is_wanted (imported s) ≡ true) ↔ IsImport s
unfolding imported IsImport is_common
IsImport-iff none = (λ h. absurd cc, λ h. absurd h)
IsImport-iff (some s) = ground arith

relative_32_iff :
    (kind : RelocationKind) → (is_relative_32 kind ≡ true) ↔ (kind ≡ RelocationKind.relative_32)
unfolding is_relative_32
relative_32_iff RelocationKind.absolute_64 = (λ h. absurd cc, λ h. absurd cc)
relative_32_iff RelocationKind.absolute_32 = (λ h. absurd cc, λ h. absurd cc)
relative_32_iff RelocationKind.image_relative_32 = (λ h. absurd cc, λ h. absurd cc)
relative_32_iff RelocationKind.relative_32 = (λ h. refl, λ h. refl)
relative_32_iff RelocationKind.section_relative_32 = (λ h. absurd cc, λ h. absurd cc)
relative_32_iff RelocationKind.section_index_16 = (λ h. absurd cc, λ h. absurd cc)
relative_32_iff RelocationKind.unsupported = (λ h. absurd cc, λ h. absurd cc)

AsksFor-iff :
    (symbols : List Symbol) (code : List SectionPlacement) (index : ℕ) (rel : Relocation)
    → (wants symbols code index rel ≡ true) ↔ AsksFor symbols code index rel
unfolding wanted
AsksFor-iff symbols code index rel = ground (
  arith,
  relative_32_iff rel.kind,
  InImage-iff code rel.target_section,
  IsImport-iff (get_elem? symbols rel.symbol_index),
)

pub SomeAsks-iff :
    (symbols : List Symbol) (code : List SectionPlacement) (index : ℕ) (rels : List Relocation)
    → (any (wants symbols code index) rels ≡ true) ↔ SomeAsks symbols code index rels
unfolding SomeAsks
SomeAsks-iff symbols code index [] = (λ h. absurd cc, λ h. absurd h)
SomeAsks-iff symbols code index (rel ∷ rels) =
    let first = AsksFor-iff symbols code index rel in
    let rest = SomeAsks-iff symbols code index rels in ground (arith, first, rest)

pub HasSlot-iff :
    (index : ℕ) (ts : List TrampolineSlot)
    → (any (λ i. i == index) (map (λ (t : TrampolineSlot). t.symbol_index) ts) ≡ true)
      ↔ HasSlot index ts
unfolding HasSlot
HasSlot-iff index [] = (λ h. absurd cc, λ h. absurd h)
HasSlot-iff index (t ∷ ts) = ground (arith, HasSlot-iff index ts)
