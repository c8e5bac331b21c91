-- ===== src/Shared/Backend/Generation/Frame.antt =====
-- Generation tracing is observability: it leaves the integration's state, the counters and the
-- failures in a row.
use memory_bridge.Base.{
  ℕ, ◌+◌, ◌≡◌, refl, ◌∙◌, Bool, true, false, ◌&&◌, List, [], ◌∷◌, map, Option, none, some, Str,
  arith, if◌then◌else◌,
}
use memory_bridge.Shared.Config.{MemoryConfig}
use memory_bridge.Shared.Integration.{Integration}
use memory_bridge.Shared.Annotate.{Net, PostResult}
use memory_bridge.Shared.Backend.State.{
  Lane, memory, Step, Exn, AnnotationOp, OperationTrace, AnnotationEvent, Audit, Change,
  GenerationEnd, TraceState, Backend, LogEvent, log_event,
}
use memory_bridge.Shared.Backend.Trace.{post_to, stop_memory_lane, bind_start_result}
use memory_bridge.Shared.Backend.Generation.{
  new_operation, input_of, inputs_degraded, generate_start, annotation, Generation, Attribution,
  rejection, abandon_operation, post_chunks, post_end, settle_chunks, post_series, post_generation,
}
use memory_bridge.Shared.Backend.Generation.Lifecycle.{
  start_inputs, begin_generation, generation_begin, finish_with, generation_finish, fail_with,
  generation_finish_exception,
}

-- The fields that the extraction schedule and the integration read.
pub record SameWork {I : Integration} (b b' : Backend I) : Type 0 where
  pub native : b'.native ≡ b.native
  pub counts : b'.counts ≡ b.counts
  pub consecutive_errors : b'.consecutive_errors ≡ b.consecutive_errors

module _ {I : Integration} where
  pub SameWork-refl : (b : Backend I) → SameWork b b
  SameWork-refl b = record { native = refl; counts = refl; consecutive_errors = refl }

  pub SameWork-trans : {a b d : Backend I} → SameWork a b → SameWork b d → SameWork a d
  SameWork-trans p q = record {
    native = q.native ∙ p.native;
    counts = q.counts ∙ p.counts;
    consecutive_errors = q.consecutive_errors ∙ p.consecutive_errors;
  }

  log_event-SameWork : (e : LogEvent) (b : Backend I) → SameWork b (log_event e b)
  log_event-SameWork e b = record { native = refl; counts = refl; consecutive_errors = refl }

  stop_memory_lane-SameWork : (b : Backend I) → SameWork b (stop_memory_lane b)
  unfolding stop_memory_lane
  stop_memory_lane-SameWork b = ground arith

  bind_start_result-SameWork :
      (operation : OperationTrace) (result : PostResult) (step : Step) (op : AnnotationOp)
      (b : Backend I)
      → SameWork b (bind_start_result operation result step op b).1
  unfolding bind_start_result stop_memory_lane
  bind_start_result-SameWork operation result step op b = ground arith

  abandon_operation-SameWork :
      (operation : OperationTrace) (step : Step) (status : ℕ) (b : Backend I)
      → SameWork b (abandon_operation operation step status b).1
  unfolding abandon_operation stop_memory_lane
  abandon_operation-SameWork operation step status b = ground arith

module _ {I : Integration} (c : MemoryConfig I.Score) (net : Net)
    (serializable : List (AnnotationEvent I) → Bool) (size_of : AnnotationEvent I → ℕ) where
  post_to-SameWork :
      (lane : Lane) (events : List (AnnotationEvent I)) (t : TraceState I) (b : Backend I)
      → SameWork b (post_to c net serializable lane events t b).1
  unfolding post_to
  post_to-SameWork lane events t b = ground arith

  rest-SameWork :
      (o : Option ℕ) (b d : Backend I) (rest : Option ℕ × Backend I)
      → SameWork b d
      → SameWork d rest.1
      → let r : Option ℕ × Backend I = elim o [ some code ↦ (some code, d) | none ↦ rest ] in
        SameWork b r.1
  rest-SameWork none b d rest p q = SameWork-trans p q
  rest-SameWork (some code) b d rest p q = p

  post_chunks-SameWork :
      (chunks : List (List (AnnotationEvent I))) (trace : Option (TraceState I)) (b : Backend I)
      → SameWork b (post_chunks c net serializable size_of chunks trace b).1
  unfolding post_chunks
  post_chunks-SameWork [] trace b = SameWork-refl b
  post_chunks-SameWork (chunk ∷ chunks) none b = SameWork-refl b
  post_chunks-SameWork (chunk ∷ chunks) (some t) b =
      let posted = post_to c net serializable memory chunk t b in
      rest-SameWork (rejection posted.0) b posted.1 _ (post_to-SameWork memory chunk t b)
        (post_chunks-SameWork chunks posted.1.trace posted.1)

  post_end-SameWork :
      (event : AnnotationEvent I) (trace : Option (TraceState I)) (b : Backend I)
      → SameWork b (post_end c net serializable size_of event trace b)
  unfolding post_end
  post_end-SameWork event none b = SameWork-refl b
  post_end-SameWork event (some t) b = post_to-SameWork memory (event ∷ []) t b

  settle_chunks-SameWork :
      (operation : OperationTrace) (step : Step) (event : AnnotationEvent I) (b : Backend I)
      (r : Option ℕ × Backend I)
      → SameWork b r.1
      → SameWork b (settle_chunks c net serializable size_of operation step event r).1
  unfolding settle_chunks
  settle_chunks-SameWork operation step event b (some code, d) p =
      SameWork-trans p (abandon_operation-SameWork operation step code d)
  settle_chunks-SameWork operation step event b (none, d) p =
      SameWork-trans p (post_end-SameWork event d.trace d)

  post_series-SameWork :
      (operation : OperationTrace) (step : Step) (changes : List (Change I))
      (report : GenerationEnd I) (trace : Option (TraceState I)) (b : Backend I)
      → SameWork b (post_series c net serializable size_of operation step changes report trace b).1
  unfolding post_series
  post_series-SameWork operation step changes report none b = SameWork-refl b
  post_series-SameWork operation step changes report (some t) b =
      settle_chunks-SameWork operation step _ b _ (post_chunks-SameWork _ (some t) b)

  post_generation-SameWork :
      (operation : OperationTrace) (step : Step) (changes : List (Change I))
      (report : GenerationEnd I) (b : Backend I)
      → SameWork b (post_generation c net serializable size_of operation step changes report b).1
  unfolding post_generation
  post_generation-SameWork operation step changes report b =
      post_series-SameWork operation step changes report b.trace b

  module _ (digest : Str → Str) {Snapshot : Type 0} (snapshot : Backend I → Option Snapshot) where
    begin_generation-SameWork :
        (step : Step) (t : TraceState I) (b : Backend I)
        → SameWork b (begin_generation c net serializable size_of digest snapshot step t b).1
    unfolding begin_generation
    begin_generation-SameWork step t b =
        SameWork-trans
          (noted
            (start_inputs c net serializable size_of digest snapshot t.trace_session_id b.next_id
              step b.session_id (map (input_of digest) t.pending_inputs)).1)
          (SameWork-trans (post_to-SameWork memory _ t _)
            (bind_start_result-SameWork (new_operation b.next_id) _ step generate_start _))
      where
        noted :
            (degraded : Bool)
            → SameWork b (
                if degraded
                then log_event
                    (annotation generate_start inputs_degraded (some step) (some b.next_id) none)
                    (record b { next_id = b.next_id + 1 })
                else record b { next_id = b.next_id + 1 })
        noted true = record { native = refl; counts = refl; consecutive_errors = refl }
        noted false = record { native = refl; counts = refl; consecutive_errors = refl }

    pub generation_begin-SameWork :
        (step : Step) (b : Backend I)
        → SameWork b (generation_begin c net serializable size_of digest snapshot step b).1
    unfolding generation_begin
    generation_begin-SameWork step b = traced b.trace
      where
        opened :
            (t : TraceState I) (x : Bool)
            → let r : Option (Generation Snapshot) × Backend I =
                if x
                then begin_generation c net serializable size_of digest snapshot step t b
                else (none, b) in
              SameWork b r.1
        opened t true = begin_generation-SameWork step t b
        opened t false = SameWork-refl b

        traced :
            (o : Option (TraceState I))
            → let r : Option (Generation Snapshot) × Backend I = elim o [
              | none ↦ (none, b)
              | some t ↦
                  if t.session_open && t.memory_lane_enabled
                  then begin_generation c net serializable size_of digest snapshot step t b
                  else (none, b)
            ] in
              SameWork b r.1
        traced none = SameWork-refl b
        traced (some t) = opened t (t.session_open && t.memory_lane_enabled)

    module _ {Result : Type 0}
        (attribute : Generation Snapshot
          → Option Result
          → Option Snapshot
          → Backend I
          → Option (Attribution I))
        (end_context : Step → Option Result → Audit → Str) where
      SameWork-unless :
          (x : Bool) (b d : Backend I) → SameWork b d → SameWork b (if x then b else d)
      SameWork-unless true b d p = SameWork-refl b
      SameWork-unless false b d p = p

      finish_with-SameWork :
          (g : Generation Snapshot) (step : Step) (result : Result) (errors : List Str)
          (after : Option Snapshot) (o : Option (Attribution I)) (b : Backend I)
          → SameWork b (
              finish_with c net serializable size_of digest snapshot attribute end_context g step
                result errors after o b)
      unfolding finish_with
      finish_with-SameWork g step result errors after none b = SameWork-refl b
      finish_with-SameWork g step result errors after (some a) b =
          post_generation-SameWork g.operation step _ _ b

      fail_with-SameWork :
          (g : Generation Snapshot) (step : Step) (e : Exn) (after : Option Snapshot)
          (o : Option (List (Change I))) (b : Backend I)
          → SameWork b (
              fail_with c net serializable size_of digest snapshot attribute end_context g step e
                after o b)
      unfolding fail_with
      fail_with-SameWork g step e after none b = SameWork-refl b
      fail_with-SameWork g step e after (some observed) b =
          post_generation-SameWork g.operation step _ _ b

      pub generation_finish-SameWork :
          (g : Option (Generation Snapshot)) (step : Step) (result : Result) (errors : List Str)
          (b : Backend I)
          → SameWork b (
              generation_finish c net serializable size_of digest snapshot attribute end_context g
                step result errors b)
      unfolding generation_finish
      generation_finish-SameWork none step result errors b = SameWork-refl b
      generation_finish-SameWork (some g) step result errors b =
          SameWork-unless g.operation.disabled b _
            (finish_with-SameWork g step result errors (snapshot b) _ b)

      pub generation_finish_exception-SameWork :
          (g : Option (Generation Snapshot)) (step : Step) (e : Exn) (b : Backend I)
          → SameWork b (
              generation_finish_exception c net serializable size_of digest snapshot attribute
                end_context g step e b)
      unfolding generation_finish_exception
      generation_finish_exception-SameWork none step e b = SameWork-refl b
      generation_finish_exception-SameWork (some g) step e b =
          SameWork-unless g.operation.disabled b _ (fail_with-SameWork g step e (snapshot b) _ b)
