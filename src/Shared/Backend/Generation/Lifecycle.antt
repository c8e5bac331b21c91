-- ===== src/Shared/Backend/Generation/Lifecycle.antt =====
-- A generation from its start to its end, shared-bridge/src/shared_bridge/backend.py:
-- `_generation_begin`, `_generation_finish` and `_generation_finish_exception`. `digest` is the
-- SHA-256 of a text; `snapshot`, `attribute` and `end_context` are the integration's hooks. A hook
-- that raises makes the function raise before it posts, and the integration contains that.
use memory_bridge.Base.{
  ℕ, ◌+◌, Bool, true, false, ◌&&◌, not, List, [], ◌∷◌, map, Option, none, some, Str, if◌then◌else◌,
  ltb, ◌==◌, is_empty, length, take,
}
use memory_bridge.Shared.Ids.{sanitize_error_code}
use memory_bridge.Shared.Chunk.{max_post_bytes}
use memory_bridge.Shared.Config.{MemoryConfig}
use memory_bridge.Shared.Integration.{Integration}
use memory_bridge.Shared.Annotate.{Net}
use memory_bridge.Shared.Backend.State.{
  memory, Step, Exn, AnnotationEvent, memory_generate_start, generate_start, inputs_degraded,
  annotation, new_operation, GenerationInput, Change, all_done, some_done, none_done, unknown,
  seen_in_part, seen, Checkpoint, held, advanced, unchanged, Audit, GenerationEnd, TraceState,
  Backend, log_event,
}
use memory_bridge.Shared.Backend.Trace.{bind_start_result, post_to}
use memory_bridge.Shared.Backend.Generation.{
  Generation, Attribution, input_of, degrade, mark_partial, both_known, post_generation,
}

module _ {I : Integration} (c : MemoryConfig I.Score) (net : Net)
    (serializable : List (AnnotationEvent I) → Bool) (size_of : AnnotationEvent I → ℕ)
    (digest : Str → Str) {Snapshot : Type 0} (snapshot : Backend I → Option Snapshot) where
  -- The start event, its inputs degraded to their digests where the request,
  -- `{"events": [event]}`, is too large.
  unfoldable pub start_inputs :
      Option ℕ → ℕ → Step → Option Str → List GenerationInput → List GenerationInput × Bool
  start_inputs session operation_id step session_id inputs =
      let event = memory_generate_start session operation_id step inputs session_id in
      if ltb max_post_bytes (size_of event + 14)
      then (map degrade inputs, true)
      else (inputs, false)

  unfoldable pub begin_generation :
      Step → TraceState I → Backend I → Option (Generation Snapshot) × Backend I
  begin_generation step t b =
      let all_inputs = map (input_of digest) t.pending_inputs in
      let (inputs, degraded) =
        start_inputs t.trace_session_id b.next_id step b.session_id all_inputs in
      let b1 : Backend I = record b { next_id = b.next_id + 1 } in
      let b2 : Backend I =
        if degraded
        then log_event (annotation generate_start inputs_degraded (some step) (some b.next_id) none)
            b1
        else b1 in
      let event = memory_generate_start t.trace_session_id b.next_id step inputs b.session_id in
      let (result, b3) = post_to c net serializable memory (event ∷ []) t b2 in
      let (operation, b4) =
        bind_start_result (new_operation b.next_id) result step generate_start b3 in
      (
        some (record {
          operation = operation;
          before = if operation.disabled then none else snapshot b4;
          input_count = length all_inputs;
        }),
        b4,
      )

  unfoldable pub generation_begin : Step → Backend I → Option (Generation Snapshot) × Backend I
  generation_begin step b = elim b.trace [
    | none ↦ (none, b)
    | some t ↦
        if t.session_open && t.memory_lane_enabled then begin_generation step t b else (none, b)
  ]

  module _ {Result : Type 0}
      (attribute : Generation Snapshot
        → Option Result
        → Option Snapshot
        → Backend I
        → Option (Attribution I))
      (end_context : Step → Option Result → Audit → Str) where
    unfoldable pub checkpoint_state : List Str → ℕ → Checkpoint
    checkpoint_state errors input_count =
        if not (is_empty errors) then held else if input_count == 0 then unchanged else advanced

    -- `_generation_finish` from the attribution on.
    unfoldable pub finish_with :
        Generation Snapshot
        → Step
        → Result
        → List Str
        → Option Snapshot
        → Option (Attribution I)
        → Backend I
        → Backend I
    finish_with g step result errors after none b = b
    finish_with g step result errors after (some a) b =
        let drifted = not (is_empty a.unexplained) in
        let changes = if drifted then map mark_partial a.changes else a.changes in
        let audit : Audit = record {
          clean = not drifted;
          unexplained = take 10 a.unexplained;
          checkpoint = checkpoint_state errors g.input_count;
        } in
        let report : GenerationEnd I = record {
          status = if is_empty errors then all_done else none_done;
          produced = a.produced;
          change_count = length changes;
          state_evidence =
              if not (both_known g.before after)
              then unknown
              else if drifted
              then seen_in_part
              else seen;
          error_codes = map sanitize_error_code errors;
          context = end_context step (some result) audit;
        } in
        (post_generation c net serializable size_of g.operation step changes report b).1

    unfoldable pub generation_finish :
        Option (Generation Snapshot) → Step → Result → List Str → Backend I → Backend I
    generation_finish none step result errors b = b
    generation_finish (some g) step result errors b =
        let after = snapshot b in
        if g.operation.disabled
        then b
        else finish_with g step result errors after (attribute g (some result) after b) b

    -- `_generation_finish_exception` from the attribution on.
    unfoldable pub fail_with :
        Generation Snapshot
        → Step
        → Exn
        → Option Snapshot
        → Option (List (Change I))
        → Backend I
        → Backend I
    fail_with g step e after none b = b
    fail_with g step e after (some observed) b =
        let changes = map mark_partial observed in
        let audit : Audit = record {
          clean = is_empty changes;
          unexplained = [];
          checkpoint = held;
        } in
        let report : GenerationEnd I = record {
          status = if is_empty changes then none_done else some_done;
          produced = [];
          change_count = length changes;
          state_evidence = if both_known g.before after then seen_in_part else unknown;
          error_codes = e.class_name ∷ [];
          context = end_context step none audit;
        } in
        (post_generation c net serializable size_of g.operation step changes report b).1

    unfoldable pub generation_finish_exception :
        Option (Generation Snapshot) → Step → Exn → Backend I → Backend I
    generation_finish_exception none step e b = b
    generation_finish_exception (some g) step e b =
        let after = snapshot b in
        let observed : Option (List (Change I)) =
          if both_known g.before after
          then (elim (attribute g none after b) [ none ↦ none | some a ↦ some a.changes ])
          else some [] in
        if g.operation.disabled then b else fail_with g step e after observed b
