-- ===== src/Wasm/Module.antt =====
-- include/neko/detail/wasm_module_descriptor.hpp, and the loader's types of
-- src/backends/wasm/candidate.hpp.
use nekomata.Base.{ℕ, Bool, List, Option}
use nekomata.Text.{Bytes}

-- A pointer that may be null is an option. The array is read at the indices below its count.
pub record ModuleEntry : Type 0 where
  pub name : Option Bytes
  pub address : Option ℕ

pub record ModuleDescriptor : Type 0 where
  pub version : ℕ
  pub size : ℕ
  pub abi_id : Option Bytes
  pub entry_count : ℕ
  pub entries : Option (ℕ → ModuleEntry)

abbrev pub module_interface_version : ℕ
module_interface_version = 1

-- `sizeof(module_descriptor)`: five words of four bytes.
abbrev pub module_descriptor_size : ℕ
module_descriptor_size = 20

-- A loader's image; `resident` is what keep_resident() sets.
pub record ModuleImage : Type 0 where
  pub descriptor : Option ModuleDescriptor
  pub resident : Bool

pub data ModuleLoadStatus : Type 0 where
  loaded load_failed digest_mismatch : ModuleLoadStatus

pub record ModuleLoadResult : Type 0 where
  pub image : Option ModuleImage
  pub message : Bytes
  pub status : ModuleLoadStatus

pub record ModuleContract : Type 0 where
  pub abi_id : Bytes
  pub entries : List Bytes
  pub sha256 : Bytes
