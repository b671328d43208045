-- ===== src/Runtime/Samples.antt =====
-- A process with two patchable entries, over the pages of the ELF backend, and a session for it.
use nekomata.Base.{
  ℕ, ◌-◌, refl, Bool, true, false, not, ◌||◌, List, [], ◌∷◌, none, some, ◌==◌, if◌then◌else◌,
  get_or, Result, ok, err,
}
use nekomata.Text.{Bytes, codes}
use nekomata.Protocol.GroupDescriptor.{GroupDescriptor}
use nekomata.Elf.CodePages.{Pages}
use nekomata.Elf.CodePages.Backend.{code_pages}
use nekomata.Runtime.Backend.{Memory, in_entry, Loader, Replacement}
use nekomata.Runtime.Generation.{Failure, PreparedGeneration, Ledger}
use nekomata.Runtime.Transaction.{commit}
use nekomata.Runtime.Stream.{FileSystem, GenerationStream}
use nekomata.Runtime.Session.{ManagedGroup, Session}

-- Every call of mprotect succeeds; the second write fails; its rollback fails as well.
abbrev pub writable : ℕ → ℕ → ℕ → Bool
writable n at size = true

abbrev pub second_refused : ℕ → ℕ → ℕ → Bool
second_refused n at size = not (n == 2)

abbrev pub rollback_refused : ℕ → ℕ → ℕ → Bool
rollback_refused n at size = not (n == 2 || n == 3)

abbrev pub endbr64_code : Bytes
endbr64_code = 0xf3 ∷ 0x0f ∷ 0x1e ∷ 0xfa ∷ 0x55 ∷ []

abbrev pub live : Memory
live x =
    if in_entry 1000 x
    then get_or endbr64_code (x - 1000) 0
    else if in_entry 2000 x
    then get_or endbr64_code (x - 2000) 0
    else 0

abbrev pub process : Pages
process = record { bytes = live; pools = []; calls = 0 }

-- A loader whose images need no linking.
abbrev pub loader : (mprotect : ℕ → ℕ → ℕ → Bool) → Loader (code_pages mprotect)
loader mprotect = record {
  Linkage = Unit {0};
  load = λ p bytes path. (p, err (codes "unsupported"));
  link_generation = λ p images. (p, ok []);
  prepare_generation_commit = λ p images. (p, ok tt);
  commit_generation = λ p images. p;
  prepare_keeps = λ p images x. refl;
  commit_keeps = λ p images x. refl;
}

abbrev pub replacement : Bytes → ℕ → ℕ → Replacement
replacement name old_entry offset = record {
  name = name;
  old_entry = old_entry;
  offset_in_image = offset;
}

abbrev pub generation : PreparedGeneration (Unit {0})
generation = record {
  id = codes "g4";
  manifest_key = codes "managed:game";
  reloads =
      record {
        watch_key = codes "game/a.cpp";
        build_information = [];
        image = record {
          allocation = some (record { handle = 1; code = 5000 });
          replacements = replacement (codes "f") 1000 0 ∷ replacement (codes "g") 2000 64 ∷ [];
          state_allocations = [];
          linkage = tt;
        };
      }
      ∷ [];
}

abbrev pub ledger : Ledger
ledger = record {
  active_allocations = [];
  active_state_allocations = [];
  commit_poisoned = false;
  last_redirected = [];
  stale_redirects = [];
  applied_generations = [];
  applied = 0;
  rejected = 0;
  last_result = codes "no offers yet";
}

abbrev pub run : (ℕ → ℕ → ℕ → Bool) → Pages × Ledger × Result Failure (Unit {0})
run mprotect = commit (code_pages mprotect) (loader mprotect) process generation ledger

abbrev pub rejected_message : Bytes
rejected_message = codes "reload rejected and rolled back 1 entry: cannot patch entry of g"

-- The file system at the end of a stream with one malformed marker.
abbrev pub disk : FileSystem
disk = record {
  absolute = λ path. some path;
  is_regular_file = λ path. false;
  rename = λ from to. false;
  lexically_normal = λ path. path;
  is_directory = λ path. true;
  list_directory = λ path. some (codes "bad.ready" ∷ codes "manifest" ∷ []);
  read_file_if_present = λ path. none;
  canonical = λ path. none;
  weakly_canonical = λ path. none;
  sha256_hex = λ bytes. [];
}

abbrev pub descriptor : GroupDescriptor
descriptor = record {
  group_id = codes "game";
  members = codes "a.cpp" ∷ [];
  publication_key = codes "game";
  baseline_sequence = 3;
  compatibility_id = codes "c";
  abi_id = codes "x";
  generation_root_hint = some (codes "/tmp");
}

abbrev pub stream : GenerationStream
stream = record {
  descriptor = descriptor;
  root = codes "/tmp";
  cursor = 3;
  reported_bad_markers = [];
}

-- A group that waits with a generation, and one that waits with a rejection.
abbrev pub ready_group : ManagedGroup (Unit {0})
ready_group = record {
  descriptor = descriptor;
  stream = some stream;
  enabled = true;
  failed = false;
  last_applied_generation = [];
  prepared = some generation;
  pending_rejection = [];
  pending_rejection_sequence = 0;
  pending_rejection_id = [];
}

abbrev pub failed_group : ManagedGroup (Unit {0})
failed_group = record ready_group {
  failed = true;
  prepared = none;
  pending_rejection = codes "digest mismatch";
  pending_rejection_sequence = 4;
  pending_rejection_id = codes "g4";
}

abbrev pub groups : List (ManagedGroup (Unit {0}))
groups = ready_group ∷ failed_group ∷ []

abbrev pub session : Session (Unit {0})
session = record {
  ledger = ledger;
  watched = [];
  managed_groups = groups;
  worker_running = true;
  fatal_worker_error = none;
}
