-- ===== src/Pe/Tests.antt =====
-- The plan of an object with code, constants, state, an unwind table and one call of another object.
use nekomata.Base.{ℕ, ◌≡◌, refl, false, List, [], ◌∷◌, arith, ok}
use nekomata.Text.{codes}
use nekomata.Pe.ObjectFile.{
  SectionClass, Section, none_, Symbol, RelocationKind, Relocation, ObjectFile,
}
use nekomata.Pe.ImageLayout.{ImageLayout, plan_image}
use nekomata.Pe.ImageLayout.Regions.{
  IsLaid, plan_image-IsLaid, Fits, Apart, regions, plan_image-Apart, plan_image-slots, HasSlots,
}

abbrev blank : Section
blank = record {
  name = codes ".text";
  cls = SectionClass.text;
  index = 0;
  size = 100;
  align = 16;
  bytes = [];
  comdat = false;
  selection = none_;
  association = 0;
}

abbrev sections : List Section
sections =
    blank
    ∷ record blank {
      name = codes ".rdata";
      cls = SectionClass.rodata;
      index = 1;
      size = 24;
      align = 8;
    }
    ∷ record blank {
      name = codes ".data";
      cls = SectionClass.data_;
      index = 2;
      size = 8;
      align = 8;
    }
    ∷ record blank {
      name = codes ".pdata";
      cls = SectionClass.other;
      index = 3;
      size = 12;
      align = 4;
    }
    ∷ []

abbrev symbols : List Symbol
symbols =
    record {
      name = codes "tick";
      section_number = 1;
      type_ = 0x20;
      storage_class = 2;
      value = 32;
      auxiliary = false;
    }
    ∷ record {
      name = codes "draw";
      section_number = 0;
      type_ = 0x20;
      storage_class = 2;
      value = 0;
      auxiliary = false;
    }
    ∷ []

abbrev call_of : ℕ → ℕ → Relocation
call_of symbol offset = record {
  target_section = 0;
  offset = offset;
  symbol_index = symbol;
  kind = RelocationKind.relative_32;
  rel32_bias = 0;
}

abbrev object : ObjectFile
object = record {
  sections = sections;
  symbols = symbols;
  relocations = call_of 1 40 ∷ call_of 0 50 ∷ call_of 1 60 ∷ [];
  unwind_table = [];
}

abbrev layout : ImageLayout
layout = record {
  code =
      record { section = 0; offset = 0; size = 100 }
      ∷ record { section = 1; offset = 112; size = 24 }
      ∷ [];
  unwind = record { section = 3; offset = 136; size = 12 } ∷ [];
  image_size = 173;
  functions = record { symbol_index = 0; name = codes "tick"; offset_in_image = 32 } ∷ [];
  trampolines = record { symbol_index = 1; name = codes "draw"; offset_in_image = 160 } ∷ [];
}

planned : plan_image object ≡ ok layout
unfolding plan_image codes
planned = refl

object-Fits : Fits object
object-Fits = omega arith

plan_image-IsLaid_example : IsLaid object layout
plan_image-IsLaid_example = plan_image-IsLaid object object-Fits planned

plan_image-Apart_example : Apart (regions layout) 173
plan_image-Apart_example = plan_image-Apart object object-Fits planned

plan_image-slots_example : HasSlots object layout
plan_image-slots_example = plan_image-slots object planned
