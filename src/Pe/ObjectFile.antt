-- ===== src/Pe/ObjectFile.antt =====
-- src/backends/pe/format/object_file.hpp: a parsed COFF object.
use nekomata.Base.{ℕ, Bool, ◌&&◌, not, List, ◌==◌}
use nekomata.Text.{Bytes}

pub data SectionClass : Type 0 where
  text rodata data_ other : SectionClass

pub data ComdatSelection : Type 0 where
  none_ no_duplicates any_ same_size exact_match associative largest : ComdatSelection

pub record Section : Type 0 where
  pub name : Bytes
  pub cls : SectionClass
  pub index : ℕ
  pub size : ℕ
  pub align : ℕ
  pub bytes : List ℕ
  pub comdat : Bool
  pub selection : ComdatSelection
  pub association : ℕ

-- `section_number` holds the 16 bits of the field: from 2 ^ 15 on they stand for a negative number.
pub record Symbol : Type 0 where
  pub name : Bytes
  pub section_number : ℕ
  pub type_ : ℕ
  pub storage_class : ℕ
  pub value : ℕ
  pub auxiliary : Bool

unfoldable pub is_function : Symbol → Bool
is_function sym = sym.type_ == 0x20

unfoldable pub is_common : Symbol → Bool
is_common sym = sym.storage_class == 2 && (sym.section_number == 0 && not (sym.value == 0))

pub data RelocationKind : Type 0 where
  absolute_64 absolute_32 image_relative_32 relative_32 : RelocationKind
  section_relative_32 section_index_16 unsupported : RelocationKind

pub record Relocation : Type 0 where
  pub target_section : ℕ
  pub offset : ℕ
  pub symbol_index : ℕ
  pub kind : RelocationKind
  pub rel32_bias : ℕ

pub record UnwindEntry : Type 0 where
  pub begin_offset : ℕ
  pub end_offset : ℕ
  pub unwind_offset : ℕ
  pub text_section : ℕ
  pub xdata_section : ℕ
  pub pdata_section : ℕ

pub record ObjectFile : Type 0 where
  pub sections : List Section
  pub symbols : List Symbol
  pub relocations : List Relocation
  pub unwind_table : List UnwindEntry
