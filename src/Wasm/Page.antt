-- ===== src/Wasm/Page.antt =====
-- The session of a page, as the constructor of `browser_session` in src/backends/wasm/wasm.cpp makes
-- it.
pub mod Wired
pub mod Callable
use nekomata.Base.{List, Result, ok, ◌>>=◌, ◌>>◌}
use nekomata.Text.{Bytes}
use nekomata.Wasm.Registration.{GroupRecord, PltSlot, read_group_records, validate_plt_slots}
use nekomata.Wasm.Session.{ManagedSession, new_session}

-- From the records of the page's groups and its PLT slots.
unfoldable pub new_browser_session : List GroupRecord → List PltSlot → Result Bytes ManagedSession
unfolding read_group_records new_session validate_plt_slots
new_browser_session records slots = do
  groups ← read_group_records records
  s ← new_session slots groups
  validate_plt_slots groups slots
  ok s
