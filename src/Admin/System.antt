-- ===== src/Admin/System.antt =====
-- packages/server/src/module/admin/system/system.service.ts: a snapshot of the heap. The state is
-- `__writingSnapshot`.
pub mod Attempts
use cot_server.Base.{
  ℕ, zero, suc, ◌+◌, String, Bool, true, false, Option, none, some, ltb, if◌then◌else◌,
}
use cot_server.Host.{
  Host, Action, pure, get, put, ask_now, ◌>>=◌, ◌>>◌, catch_with, write_heap_snapshot,
}

-- One round of the loop: the path of the snapshot, or nothing after an error. Making the directory
-- and writing the file is one call, which gives the path.
unfoldable pub try_to_write : Action Bool (Option String)
try_to_write =
    catch_with (do path ← ask_now (λ h. h.text) write_heap_snapshot; pure (some path)) none

-- After a round: the method returns the path, or the loop goes on.
unfoldable pub after_try : Action Bool (Option String) → Option String → Action Bool (Option String)
after_try go_on none = go_on
after_try go_on (some path) = do put false; pure (some path)

-- The loop with so many tries left; the method returns `undefined` when none is left.
unfoldable pub write_tries : ℕ → Action Bool (Option String)
unfolding try_to_write after_try
write_tries zero = pure none
write_tries (suc left) = try_to_write >>= after_try (write_tries left)

-- writeHeapSnapshop
unfoldable pub write_heap_snapshop : Action Bool (Option String)
unfolding write_tries
write_heap_snapshop = do writing ← get; if writing then pure none else do put true; write_tries 3
