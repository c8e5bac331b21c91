-- ===== src/Shared/Backend/Delivery.antt =====
-- Delivery of a recalled block, shared-bridge/src/shared_bridge/backend.py: `main_lane_cursor`,
-- `deliver_recall`, `note_recall`, `note_undelivered_recall`, `consume_annotation_duration`. A hook
-- that raises posts nothing, as the containment of the source has it.
pub mod Posted
pub mod Once
pub mod Refusals
use memory_bridge.Base.{
  ℕ, ◌+◌, Bool, true, false, ◌&&◌, not, List, [], ◌∷◌, ◌++◌, Option, none, some, if◌then◌else◌, ltb,
}
use memory_bridge.Shared.Config.{MemoryConfig}
use memory_bridge.Shared.Integration.{Integration}
use memory_bridge.Shared.Annotate.{Net, PostResult, cursor, consume_duration}
use memory_bridge.Shared.Recall.{Payload}
use memory_bridge.Shared.Backend.State.{
  main, at, delivery, Reason, delivery_no_cursor, delivery_rejected, delivery_unconfirmed,
  annotation, recall_noted, OperationTrace, AnnotationEvent, memory_delivery, TraceState, Backend,
  log_event,
}
use memory_bridge.Shared.Backend.Trace.{memory_refs, post_to}

-- What the agent hands over: the payload, its "cached" flag, the step, the place of the block
-- among the messages and the cursor that was read before.
pub record Delivery (I : Integration) : Type 0 where
  pub recall : Payload I
  pub cached : Bool
  pub step : ℕ
  pub msg_index : Option ℕ
  pub read_cursor : Option ℕ

-- A status below 500 is a definite rejection.
unfoldable pub refusal : Option ℕ → Reason
refusal none = delivery_unconfirmed
refusal (some status) = if ltb status 500 then delivery_rejected else delivery_unconfirmed

module _ {I : Integration} where
  -- `trace.delivery_enabled = False`
  unfoldable pub stop_delivery : Option (TraceState I) → Option (TraceState I)
  stop_delivery none = none
  stop_delivery (some t) = some (record t { delivery_enabled = false })

  -- What follows the post of a delivery.
  unfoldable pub close_delivery : ℕ → PostResult → Backend I → Backend I
  close_delivery step result b =
      if result.ok
      then b
      else log_event
          (annotation delivery (refusal result.status) (some (at step)) none result.status)
          (record b { trace = stop_delivery b.trace })

  -- The search that the delivery cites.
  unfoldable pub cited : Bool → TraceState I → Backend I → Option OperationTrace
  cited cached t b = if cached then b.cached_anchor else t.pending_search

  unfoldable pub note_recall : Payload I → Bool → ℕ → Backend I → Backend I
  note_recall payload cached step b =
      log_event (recall_noted step payload.n_memories payload.chars payload.origins) (record b {
        counts = record b.counts {
          recall_injections = b.counts.recall_injections + 1;
          recall_cache_hits = b.counts.recall_cache_hits + (if cached then 1 else 0);
        };
      })

  unfoldable pub note_undelivered_recall : ℕ → Reason → Backend I → Backend I
  note_undelivered_recall step reason =
      log_event (annotation delivery reason (some (at step)) none none)

  consume_from : Option (TraceState I) → ℕ → Backend I → ℕ × Backend I
  consume_from none total b = (total, b)
  consume_from (some t) total b =
      let (seconds, a) = consume_duration t.annotator in
      (total + seconds, record b { trace = some (record t { annotator = a }) })

  unfoldable pub consume_annotation_duration : Backend I → ℕ × Backend I
  unfolding consume_from
  consume_annotation_duration b = consume_from b.trace b.io_duration (record b { io_duration = 0 })

module _ {I : Integration} (c : MemoryConfig I.Score) (net : Net)
    (serializable : List (AnnotationEvent I) → Bool) where
  unfoldable pub cursor_from : Option (TraceState I) → Backend I → Option ℕ × Backend I
  cursor_from none b = (none, b)
  cursor_from (some t) b =
      let (result, b') = post_to c net serializable main [] t b in
      if t.session_open && t.delivery_enabled
      then (if result.ok then cursor result else none, b')
      else (none, b)

  unfoldable pub main_lane_cursor : Backend I → Option ℕ × Backend I
  unfolding cursor_from
  main_lane_cursor b = cursor_from b.trace b

  -- The post of a delivery and what follows it.
  unfoldable pub post_delivery :
      Delivery I → OperationTrace → ℕ → ℕ → List I.Ref → TraceState I → Backend I → Backend I
  post_delivery d operation msg_index read refs t b =
      let event =
        memory_delivery t.trace_session_id b.next_id operation.operation_id d.step d.recall.content
          refs d.cached msg_index read in
      let (result, b') =
        post_to c net serializable main (event ∷ []) t (record b { next_id = b.next_id + 1 }) in
      close_delivery d.step result b'

  -- Past the citation: the cursor, the refs and the post.
  unfoldable pub place_delivery :
      Delivery I
      → OperationTrace
      → Option ℕ
      → Option ℕ
      → Option (List I.Ref)
      → TraceState I
      → Backend I
      → Backend I
  place_delivery d operation (some msg_index) (some read) (some refs) t b =
      post_delivery d operation msg_index read refs t b
  place_delivery d operation (some msg_index) (some read) none t b = b
  place_delivery d operation (some msg_index) none refs t b =
      log_event
        (annotation delivery delivery_no_cursor (some (at d.step)) (some operation.operation_id)
          none)
        b
  place_delivery d operation none read refs t b =
      log_event
        (annotation delivery delivery_no_cursor (some (at d.step)) (some operation.operation_id)
          none)
        b

  unfoldable pub deliver_cited :
      Delivery I → Option OperationTrace → TraceState I → Backend I → Backend I
  deliver_cited d none t b = b
  deliver_cited d (some operation) t b =
      place_delivery d operation d.msg_index d.read_cursor (memory_refs I d.recall.memories) t b

  unfoldable pub deliver_from : Delivery I → Option (TraceState I) → Backend I → Backend I
  unfolding deliver_cited
  deliver_from d none b = b
  deliver_from d (some t) b =
      let t' : TraceState I = record t { pending_search = none } in
      if t.session_open && t.delivery_enabled
      then deliver_cited d (cited d.cached t b) t' (record b { trace = some t' })
      else b

  unfoldable pub deliver_recall : Delivery I → Backend I → Backend I
  deliver_recall d b = deliver_from d b.trace b
