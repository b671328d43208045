-- ===== src/Lib.antt =====
-- Nekomata reloads C++ code in a running process. A publisher writes immutable generations below a
-- root directory; each process that embeds a group descriptor observes its group's stream, prepares
-- the newest generation in a worker, and redirects the old function entries to the new bodies when the
-- application calls update(). This library models the parts of that path that decide what is
-- accepted and what a failure leaves behind.
--
-- Files, and the sources they model (paths from the repository's root):
--   Base, Text           shared helpers: numbers, lists, results; strings, decimals and the parts of
--                        std::istringstream that the codecs use, as functions on lists of bytes
--   Protocol/Scanner     src/protocol/scanner.hpp
--   Protocol/Codec       what the codecs below do alike with fields and rows
--   Protocol/GroupDescriptor   src/protocol/group_descriptor.cpp: validate, parse, serialize
--   Protocol/GenerationOffer   src/protocol/generation_offer.cpp: the manifest, its marker, and the
--                        checks against a descriptor
--   Runtime/Backend      include/neko/backend: what the session calls of a backend, with the laws of
--                        the two-phase patch protocol; a section parameter of all that follows
--   Runtime/Generation, Runtime/Transaction   src/runtime/reload_transaction.cpp: preparing objects,
--                        and commit with its snapshots, writes and rollback
--   Runtime/Paths, Runtime/Stream   src/runtime/generation_stream.cpp: one pass of poll()
--   Runtime/Session      src/runtime/native_session.cpp, managed_worker.cpp, prepare_generation.cpp:
--                        the calls of the session, the worker's pass, and update()
--   Protocol/DescriptorSection   src/protocol/descriptor_section.cpp: the framing of embedded
--                        descriptors, and (DescriptorSection/Resolve) one descriptor for each group
--   Runtime/Publisher    src/runtime/publisher.cpp: sequence allocation and publish_generation
--   Elf/Arena, Elf/Pools, Elf/CodePages   src/backends/elf/runtime/code_pages.cpp: the slots of the
--                        mapped pools, the search for new pools, and the writes to entries;
--                        Elf/CodePages/Backend shows that these fill the substituter interface of
--                        Runtime/Backend
--   Pe/ObjectFile, Pe/ImageLayout   src/backends/pe/format: a parsed COFF object, and plan_image
--   Protocol/WasmOffer   src/protocol/wasm_offer.cpp: validate, parse, serialize, and the ordering
--   Wasm/Module, Wasm/Candidate   src/backends/wasm/candidate.cpp: a module from its load to its
--                        activation
--   Wasm/Poller          src/backends/wasm/offer_poller.cpp
--   Wasm/Registration    src/backends/wasm/registration.cpp: groups and PLT slots
--   Wasm/Page            src/backends/wasm/wasm.cpp: how a page makes its session
--   Wasm/Session         src/backends/wasm/session.cpp: the calls; Session/Update and /Snapshot, and
--                        Session/Loop, the page's event loop as a step relation
--
-- Conventions. A function that throws returns a result with the exception; a member function that
-- changes its object returns the new state. Strings are lists of byte codes. Memory is the executable
-- bytes of the process by address; a write to an entry changes five of them. A session step is one
-- call, or one pass of the worker: the mutex separates them. Loops are recursion on the lists they run
-- over; the section parser alone has fuel, the number of bytes, and each turn consumes five or more.
--
-- In the browser one event loop runs everything: a step of the loop is a call of the session, a timer
-- tick, the delivery of a manifest, or that of a loaded module, in any order. An observation and a
-- candidate are known by numbers, so that a callback that outlives its object finds it gone. A module
-- descriptor has the size 20, that of five words of wasm32. A page of the process has 4096 bytes, where
-- code_pages.cpp asks sysconf.
--
-- Outside the model, as parameters: the file system that a pass sees and the SHA-256 digest (record
-- FileSystem), the outcome of each call of mprotect and mmap, the list of the process's mappings, and
-- the object loader. Machine integers: a parsed sequence is proved to be below 2 ^ 64, addresses are
-- assumed to lie where the std::int64_t differences of the code are exact, and the image layout has
-- its wrap-around written out and excluded by a bound on the object. Not modelled: logging, threads
-- and their start, the removal of claimed files, reading and relocating objects, the pages of the PE
-- backend, debug information, the publisher of WASM offers, the calls of the Emscripten runtime, and
-- the terminal monitor.
mod Base
pub mod Text
pub mod Protocol
pub mod Runtime
pub mod Elf
pub mod Pe
pub mod Wasm
