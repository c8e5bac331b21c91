-- ===== src/Shared/Backend/Finalize.antt =====
-- Teardown, shared-bridge/src/shared_bridge/backend.py: `finalize` and `stats`. The integration's
-- `_final_dump` and `_close` and the write of memory.json are arguments; the write sees the backend
-- and the dumped memories, and comes to an exception or nothing.
pub mod Dormant
pub mod Contained
use memory_bridge.Base.{
  ℕ, ◌+◌, Bool, true, false, ◌&&◌, List, [], ◌∷◌, Option, none, some, Str, if◌then◌else◌,
}
use memory_bridge.Shared.Config.{MemoryConfig}
use memory_bridge.Shared.Integration.{Integration}
use memory_bridge.Shared.Backend.State.{
  Step, final, Exn, Outcome, returned, raised, finalize_dump, error, Counts, Backend, log_event,
  count_backend_error,
}
use memory_bridge.Shared.Backend.Extract.{extract_once}

-- `first_error or e`
unfoldable pub first_of : Option Exn → Outcome → Option Exn
first_of (some e) o = some e
first_of none returned = none
first_of none (raised e) = some e

-- `if first_error is not None and self.config.strict: raise first_error`
unfoldable pub raise_first : Bool → Option Exn → Outcome
raise_first strict none = returned
raise_first strict (some e) = if strict then raised e else returned

-- `stats()`
pub record Stats : Type 0 where
  pub enabled : Bool
  pub available : Bool
  pub session_id : Option Str
  pub counts : Counts

-- What `_final_dump` comes to.
pub data Dumped : Type 0 where
  dumped : List Str → Dumped
  dump_raised : Exn → Dumped

module _ {I : Integration} where
  -- The dump's block: the memories, the error so far, and the backend.
  unfoldable pub settle_dump : Option Exn → Dumped × Backend I → List Str × Option Exn × Backend I
  settle_dump first (dumped memories, b) = (memories, first, b)
  settle_dump first (dump_raised e, b) = (
    [],
    first_of first (raised e),
    log_event (error finalize_dump none e.message) (count_backend_error b),
  )

module _ {I : Integration} (c : MemoryConfig I.Score) where
  unfoldable pub stats : Backend I → Stats
  stats b = record {
    enabled = c.enabled;
    available = b.available;
    session_id = b.session_id;
    counts = b.counts;
  }

module _ {I : Integration} (c : MemoryConfig I.Score)
    (perform : Step → Backend I → Outcome × Backend I) (final_dump : Backend I → Dumped × Backend I)
    (write_memory_json : List Str → Backend I → Outcome)
    (close : Backend I → Outcome × Backend I) where
  -- The final flush, despite a tripped breaker.
  unfoldable pub flush : Backend I → Option Exn × Backend I
  flush b =
      let (o, b') = extract_once c perform final b in
      if b.available then (first_of none o, b') else (none, b)

  unfoldable pub dump : Option Exn → Backend I → List Str × Option Exn × Backend I
  dump first b = if b.available then settle_dump first (final_dump b) else ([], first, b)

  unfoldable pub write_and_close : List Str → Option Exn → Backend I → Outcome × Backend I
  write_and_close memories first b =
      let (o, b') = close b in
      (raise_first c.strict (first_of (first_of first (write_memory_json memories b)) o), b')

  -- The body of `finalize` past its guard.
  unfoldable pub tear_down : Backend I → Outcome × Backend I
  tear_down b =
      let (first, b1) = flush (record b { finalized = true }) in
      let (memories, first', b2) = dump first b1 in write_and_close memories first' b2

  unfoldable pub finalize : Backend I → Outcome × Backend I
  finalize b = if b.finalized then (returned, b) else tear_down b
