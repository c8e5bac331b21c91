-- ===== src/Shared/Backend/Start/Failed.antt =====
-- A start that fails leaves the backend idle (shared-bridge/src/shared_bridge/backend.py, `start`).
use memory_bridge.Base.{
  ℕ, ◌/◌, ◌≡◌, ◌∙◌, ap, Bool, false, ◌&&◌, not, List, Str, if◌then◌else◌, arith,
}
use memory_bridge.Shared.Config.{MemoryConfig}
use memory_bridge.Shared.Integration.{Integration}
use memory_bridge.Shared.Annotate.{Net}
use memory_bridge.Shared.Backend.State.{
  Step, at, Exn, Outcome, returned, raised, AnnotationEvent, Backend,
}
use memory_bridge.Shared.Backend.Recall.{
  Searched, nothing, recall_ready, search_anew, serve_cached, recall_context,
}
use memory_bridge.Shared.Backend.Extract.{extract_due, enter_bucket, extract_once, maybe_extract}
use memory_bridge.Shared.Backend.Rewrite.{
  Structured, rewrite_due, contain_rewrite, rewrite_query, maybe_rewrite,
}
use memory_bridge.Shared.Backend.Record.{Entry, Stored, record_all, record_messages}
use memory_bridge.Shared.Backend.Start.{
  Rewriting, reset, start_failed, settle_startup, start_backend,
}

module _ {I : Integration} (c : MemoryConfig I.Score) where
  recall_closed : (b : Backend I) → b.available ≡ false → recall_ready c b ≡ false
  unfolding recall_ready
  recall_closed b h = ground arith

  extract_closed : (step : ℕ) (b : Backend I) → b.available ≡ false → extract_due c step b ≡ false
  unfolding extract_due
  extract_closed step b h = ground arith

  rewrite_closed : (step : ℕ) (b : Backend I) → b.available ≡ false → rewrite_due c step b ≡ false
  unfolding rewrite_due
  rewrite_closed step b h = ground arith

  start_failed-available :
      (close : Backend I → Outcome × Backend I) (e : Exn) (b : Backend I)
      → ((x : Backend I) → (close x).1.available ≡ x.available)
      → (start_failed c close e b).1.available ≡ false
  unfolding start_failed
  start_failed-available close e b k = k _

  start_backend_raised :
      (reset_extras : I.Native → I.Native) (close startup : Backend I → Outcome × Backend I)
      (endpoints : Bool) (connection : Rewriting) (e : Exn) (b : Backend I)
      → (startup (reset reset_extras (close b).1)).0 ≡ raised e
      → start_backend c reset_extras close startup endpoints connection b
        ≡ start_failed c close e (startup (reset reset_extras (close b).1)).1
  unfolding start_backend settle_startup
  start_backend_raised reset_extras close startup endpoints connection e b h =
      ap
        (λ (o : Outcome).
          settle_startup c close endpoints connection
            (o, (startup (reset reset_extras (close b).1)).1))
        h

module _ {I : Integration} (c : MemoryConfig I.Score) (net : Net)
    (serializable : List (AnnotationEvent I) → Bool)
    (search : Backend I → Searched I × ℕ × Backend I)
    (perform : Step → Backend I → Outcome × Backend I)
    (call : Str → List (Str × Str) → Structured × ℕ) (normalize_role : Str → Str)
    (should_store : Str → Bool)
    (store_message : Str → Str → ℕ → Backend I → Stored × Backend I) where
  -- Recall injects nothing, and no tick and no recording does anything or raises.
  pub record IsIdle (b : Backend I) : Type 0 where
    pub recall : (n : ℕ) → recall_context c net serializable search n b ≡ (nothing, b)
    pub extract : (step : ℕ) → maybe_extract c perform step b ≡ (returned, b)
    pub rewrite : (step : ℕ) → maybe_rewrite c call step b ≡ (returned, b)
    pub recording :
        (entries : List Entry) (step : ℕ)
        → record_messages c normalize_role should_store store_message entries step b ≡ (returned, b)

  unavailable-IsIdle : (b : Backend I) → b.available ≡ false → IsIdle b
  unfolding recall_context maybe_extract maybe_rewrite record_messages
  unavailable-IsIdle b h = record {
    recall = λ n.
        ap
          (λ (x : Bool).
            if x
            then (if b.search_dirty
                then search_anew c net serializable search n b
                else (serve_cached b, b))
            else (nothing, b))
          (recall_closed c b h);
    extract = λ step.
        ap
          (λ (x : Bool).
            if x then extract_once c perform (at step) (enter_bucket c step b) else (returned, b))
          (extract_closed c step b h);
    rewrite = λ step.
        ap
          (λ (x : Bool).
            if x
            then contain_rewrite c step (
                rewrite_query c call step
                  (record b { last_rewrite_bucket = step / c.rewrite_every_n_steps }))
            else (returned, b))
          (rewrite_closed c step b h);
    recording = λ entries step.
        ap
          (λ (x : Bool).
            if x && not b.finalized
            then record_all c normalize_role should_store store_message step entries b
            else (returned, b))
          h;
  }

  -- Where the integration's startup raises, `start` raises it only under `strict`, and leaves a
  -- backend on which recall, both ticks and recording do nothing, whatever an earlier episode left.
  -- Closing the integration's handle must not make the backend available.
  pub start_backend-IsIdle :
      (reset_extras : I.Native → I.Native) (close startup : Backend I → Outcome × Backend I)
      (endpoints : Bool) (connection : Rewriting) (e : Exn) (b : Backend I)
      → ((x : Backend I) → (close x).1.available ≡ x.available)
      → (startup (reset reset_extras (close b).1)).0 ≡ raised e
      → ((start_backend c reset_extras close startup endpoints connection b).0
          ≡ (if c.strict then raised e else returned))
        × IsIdle (start_backend c reset_extras close startup endpoints connection b).1
  unfolding start_failed
  start_backend-IsIdle reset_extras close startup endpoints connection e b k h =
      let failed = start_backend_raised c reset_extras close startup endpoints connection e b h in
      (
        ap (λ (r : Outcome × Backend I). r.0) failed,
        unavailable-IsIdle (start_backend c reset_extras close startup endpoints connection b).1 (
            ap (λ (r : Outcome × Backend I). r.1.available) failed
            ∙ start_failed-available c close e (startup (reset reset_extras (close b).1)).1 k),
      )
