-- ===== src/Pe/ImageLayout.antt =====
-- src/backends/pe/format/image_layout.cpp and .hpp: where the sections of an object land.
pub mod Placed
pub mod Regions
pub mod Slots
pub mod Imports
use nekomata.Base.{
  ℕ, ◌+◌, ◌-◌, ◌*◌, ◌/◌, ◌%◌, max, Bool, true, false, not, ◌&&◌, ◌||◌, List, [], ◌∷◌, ◌++◌, Option,
  none, some, ◌==◌, leb, ltb, if◌then◌else◌, any, get_elem?, Result, ok, ◌>>=◌, ◌>>◌, guard,
}
use nekomata.Text.{Bytes, codes, equal, to_string, uint64_limit}
use nekomata.Pe.ObjectFile.{
  SectionClass, Section, Symbol, is_function, is_common, RelocationKind, relative_32, Relocation,
  ObjectFile,
}

abbrev pub section_align : ℕ
section_align = 16

abbrev pub max_section_align : ℕ
max_section_align = 4096

abbrev pub unwind_align : ℕ
unwind_align = 4

abbrev pub trampoline_size : ℕ
trampoline_size = 13

abbrev pub uint32_limit : ℕ
uint32_limit = 4294967296

-- The sum is a std::uint64_t, and `align` is not 0.
unfoldable pub align_up : ℕ → ℕ → ℕ
align_up value align = (value + align - 1) % uint64_limit / align * align

unfoldable pub unwind_section : Section → Bool
unfolding equal
unwind_section sec = equal sec.name (codes ".pdata") || equal sec.name (codes ".xdata")

unfoldable pub is_text : SectionClass → Bool
is_text SectionClass.text = true
is_text SectionClass.rodata = false
is_text SectionClass.data_ = false
is_text SectionClass.other = false

-- The classes that the first loop places.
unfoldable pub is_code : Section → Bool
is_code sec = elim sec.cls [
  | SectionClass.text ↦ true
  | SectionClass.rodata ↦ true
  | SectionClass.data_ ↦ false
  | SectionClass.other ↦ false
]

pub record SectionPlacement : Type 0 where
  pub section : ℕ
  pub offset : ℕ
  pub size : ℕ

pub record ReplacementCandidate : Type 0 where
  pub symbol_index : ℕ
  pub name : Bytes
  pub offset_in_image : ℕ

pub record TrampolineSlot : Type 0 where
  pub symbol_index : ℕ
  pub name : Bytes
  pub offset_in_image : ℕ

pub record ImageLayout : Type 0 where
  pub code : List SectionPlacement
  pub unwind : List SectionPlacement
  pub image_size : ℕ
  pub functions : List ReplacementCandidate
  pub trampolines : List TrampolineSlot

-- A dash in UTF-8.
abbrev pub em_dash : Bytes
em_dash = 0xe2 ∷ 0x80 ∷ 0x94 ∷ []

-- What both placing loops do with a section: the placement, and the image size behind it.
unfoldable pub place : ℕ → ℕ → Section → SectionPlacement
unfolding align_up
place floor image_size sec = record {
  section = sec.index;
  offset = align_up image_size (max floor sec.align);
  size = sec.size;
}

unfoldable pub size_behind : SectionPlacement → ℕ
size_behind p = (p.offset + p.size) % uint64_limit

unfoldable pub place_code : ℕ → List Section → Result Bytes (ℕ × List SectionPlacement)
unfolding place size_behind is_code
place_code image_size [] = ok (image_size, [])
place_code image_size (sec ∷ secs) =
    let p = place section_align image_size sec in
    let rest = place_code (if is_code sec then size_behind p else image_size) secs in
    if is_code sec
    then (guard (leb sec.align max_section_align) (
          codes "section '"
          ++ sec.name
          ++ codes "' requires alignment "
          ++ to_string sec.align
          ++ 32 ∷ em_dash
          ++ codes " over-aligned sections beyond a page are not supported yet")
        >> (rest >>= λ r. ok (r.0, p ∷ r.1)))
    else rest

unfoldable pub place_unwind : ℕ → List Section → ℕ × List SectionPlacement
unfolding place size_behind unwind_section
place_unwind image_size [] = (image_size, [])
place_unwind image_size (sec ∷ secs) =
    let p = place unwind_align image_size sec in
    let rest = place_unwind (if unwind_section sec then size_behind p else image_size) secs in
    if unwind_section sec then (rest.0, p ∷ rest.1) else rest

unfoldable pub find_placement : ℕ → List SectionPlacement → Option SectionPlacement
find_placement index [] = none
find_placement index (p ∷ ps) =
    let rest = find_placement index ps in if p.section == index then some p else rest

-- The parser has checked that a positive section number is in range.
unfoldable pub text_placement : List SectionPlacement → Option Section → Option SectionPlacement
unfolding is_text find_placement
text_placement code none = none
text_placement code (some sec) = if is_text sec.cls then find_placement sec.index code else none

unfoldable pub candidate_of : ℕ → Symbol → Option SectionPlacement → List ReplacementCandidate
candidate_of index sym none = []
candidate_of index sym (some p) =
    record {
      symbol_index = index;
      name = sym.name;
      offset_in_image = (p.offset + sym.value) % uint32_limit;
    }
    ∷ []

unfoldable pub is_defined : Symbol → Bool
is_defined sym = leb 1 sym.section_number && ltb sym.section_number 32768

unfoldable pub functions_from :
    List Section → List SectionPlacement → ℕ → List Symbol → List ReplacementCandidate
unfolding is_function is_defined text_placement candidate_of
functions_from sections code index [] = []
functions_from sections code index (sym ∷ syms) =
    (if not sym.auxiliary && (is_function sym && is_defined sym)
      then (candidate_of index sym
          (text_placement code (get_elem? sections (sym.section_number - 1))))
      else [])
    ++ functions_from sections code (index + 1) syms

unfoldable pub is_placed : List SectionPlacement → ℕ → Bool
is_placed code index = any (λ (p : SectionPlacement). p.section == index) code

unfoldable pub is_relative_32 : RelocationKind → Bool
is_relative_32 RelocationKind.absolute_64 = false
is_relative_32 RelocationKind.absolute_32 = false
is_relative_32 RelocationKind.image_relative_32 = false
is_relative_32 RelocationKind.relative_32 = true
is_relative_32 RelocationKind.section_relative_32 = false
is_relative_32 RelocationKind.section_index_16 = false
is_relative_32 RelocationKind.unsupported = false

-- An undefined external that is not a common symbol.
unfoldable pub imported : Option Symbol → Option Symbol
unfolding is_common
imported none = none
imported (some sym) =
    if not sym.auxiliary
      && (sym.section_number == 0 && (sym.storage_class == 2 && not (is_common sym)))
    then some sym
    else none

-- The symbol for which a relocation site wants a slot.
unfoldable pub wanted : List Symbol → List SectionPlacement → Relocation → Option Symbol
unfolding is_relative_32 is_placed imported
wanted symbols code rel =
    if is_relative_32 rel.kind && is_placed code rel.target_section
    then imported (get_elem? symbols rel.symbol_index)
    else none

pub record Slotting : Type 0 where
  pub slotted : List ℕ
  pub image_size : ℕ
  pub trampolines : List TrampolineSlot

-- The rest of the loop's body.
unfoldable pub slot_for : Slotting → ℕ → Option Symbol → Slotting
unfolding align_up
slot_for s index none = s
slot_for s index (some sym) = if any (λ i. i == index) s.slotted then s else record {
  slotted = s.slotted ++ index ∷ [];
  image_size = (align_up s.image_size section_align + trampoline_size) % uint64_limit;
  trampolines =
      s.trampolines
      ++ record {
        symbol_index = index;
        name = sym.name;
        offset_in_image = align_up s.image_size section_align % uint32_limit;
      }
        ∷ [];
}

unfoldable pub slots_from :
    List Symbol → List SectionPlacement → Slotting → List Relocation → Slotting
unfolding slot_for wanted
slots_from symbols code s [] = s
slots_from symbols code s (rel ∷ rels) =
    slots_from symbols code (slot_for s rel.symbol_index (wanted symbols code rel)) rels

abbrev pub no_code : List SectionPlacement → Bool
no_code [] = true
no_code (p ∷ ps) = false

unfoldable pub laid_out : ObjectFile → List SectionPlacement → ℕ → ImageLayout
unfolding place_unwind functions_from slots_from
laid_out obj code code_size =
    let (unwind_size, unwind) = place_unwind code_size obj.sections in
    let slots =
      slots_from obj.symbols code
        (record { slotted = []; image_size = unwind_size; trampolines = [] }) obj.relocations in
    record {
      code = code;
      unwind = unwind;
      image_size = slots.image_size;
      functions = functions_from obj.sections code 0 obj.symbols;
      trampolines = slots.trampolines;
    }

unfoldable pub plan_image : ObjectFile → Result Bytes ImageLayout
unfolding place_code laid_out
plan_image obj = do
  placed ← place_code 0 obj.sections
  guard (not (no_code placed.1)) (codes "object file carries no code")
  ok (laid_out obj placed.1 placed.0)
