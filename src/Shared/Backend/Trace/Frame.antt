-- ===== src/Shared/Backend/Trace/Frame.antt =====
-- Search tracing is observability: it changes the trace, the event log and the id counter, and
-- nothing that recall reads.
use memory_bridge.Base.{
  ℕ, ◌+◌, ◌≡◌, refl, ◌∙◌, Bool, true, false, ◌&&◌, List, Option, none, some, arith, if◌then◌else◌,
  Bool-cases, inl, inr,
}
use memory_bridge.Shared.Config.{MemoryConfig}
use memory_bridge.Shared.Integration.{Integration}
use memory_bridge.Shared.Annotate.{Net, PostResult}
use memory_bridge.Shared.Backend.State.{
  Lane, memory, at, search_start, new_operation, Step, AnnotationOp, OperationTrace, SearchStatus,
  AnnotationEvent, TraceState, Backend, LogEvent, log_event,
}
use memory_bridge.Shared.Backend.Trace.{
  begin_search, search_from, finish_from, close_from, post_to, stop_memory_lane, bind_start_result,
  recall_search, search_finish, arm_delivery, close_search, recall_rendered, memory_refs,
}

-- The fields that recall reads or that its answer depends on.
pub record SameRecall {I : Integration} (b b' : Backend I) : Type 0 where
  pub available : b'.available ≡ b.available
  pub finalized : b'.finalized ≡ b.finalized
  pub session_id : b'.session_id ≡ b.session_id
  pub task_text : b'.task_text ≡ b.task_text
  pub current_query : b'.current_query ≡ b.current_query
  pub search_dirty : b'.search_dirty ≡ b.search_dirty
  pub cached_recall : b'.cached_recall ≡ b.cached_recall

module _ {I : Integration} where
  pub SameRecall-refl : (b : Backend I) → SameRecall b b
  SameRecall-refl b = record {
    available = refl;
    finalized = refl;
    session_id = refl;
    task_text = refl;
    current_query = refl;
    search_dirty = refl;
    cached_recall = refl;
  }

  pub SameRecall-trans : {a b d : Backend I} → SameRecall a b → SameRecall b d → SameRecall a d
  SameRecall-trans p q = record {
    available = q.available ∙ p.available;
    finalized = q.finalized ∙ p.finalized;
    session_id = q.session_id ∙ p.session_id;
    task_text = q.task_text ∙ p.task_text;
    current_query = q.current_query ∙ p.current_query;
    search_dirty = q.search_dirty ∙ p.search_dirty;
    cached_recall = q.cached_recall ∙ p.cached_recall;
  }

  pub SameRecall-if :
      {a b d : Backend I} (t : Bool)
      → SameRecall a b
      → SameRecall a d
      → SameRecall a (if t then b else d)
  SameRecall-if true p q = p
  SameRecall-if false p q = q

  pub log_event-SameRecall : (e : LogEvent) (b : Backend I) → SameRecall b (log_event e b)
  log_event-SameRecall e b = record {
    available = refl;
    finalized = refl;
    session_id = refl;
    task_text = refl;
    current_query = refl;
    search_dirty = refl;
    cached_recall = refl;
  }

  pub trace-SameRecall :
      (t : Option (TraceState I)) (b : Backend I) → SameRecall b (record b { trace = t })
  trace-SameRecall t b = record {
    available = refl;
    finalized = refl;
    session_id = refl;
    task_text = refl;
    current_query = refl;
    search_dirty = refl;
    cached_recall = refl;
  }

  stop_memory_lane-SameRecall : (b : Backend I) → SameRecall b (stop_memory_lane b)
  unfolding stop_memory_lane
  stop_memory_lane-SameRecall b = ground arith

  arm_delivery-SameRecall :
      (token : OperationTrace) (b : Backend I) → SameRecall b (arm_delivery token b)
  unfolding arm_delivery
  arm_delivery-SameRecall token b = ground arith

  bind_start_result-SameRecall :
      (operation : OperationTrace) (result : PostResult) (step : Step) (op : AnnotationOp)
      (b : Backend I)
      → SameRecall b (bind_start_result operation result step op b).1
  unfolding bind_start_result stop_memory_lane
  bind_start_result-SameRecall operation result step op b = ground arith

  close_search-SameRecall :
      (token : OperationTrace) (status : SearchStatus) (rendered : List I.Hit)
      (result : Option PostResult) (b : Backend I)
      → SameRecall b (close_search token status rendered result b)
  unfolding close_search arm_delivery
  close_search-SameRecall token status rendered result b = ground arith

module _ {I : Integration} (c : MemoryConfig I.Score) (net : Net)
    (serializable : List (AnnotationEvent I) → Bool) where
  pub post_to-SameRecall :
      (lane : Lane) (events : List (AnnotationEvent I)) (t : TraceState I) (b : Backend I)
      → SameRecall b (post_to c net serializable lane events t b).1
  unfolding post_to
  post_to-SameRecall lane events t b = ground arith

  pub id-SameRecall : (n : ℕ) (b : Backend I) → SameRecall b (record b { next_id = n })
  id-SameRecall n b = ground arith

  begin_search-SameRecall :
      (planned_step : ℕ) (t : TraceState I) (b : Backend I)
      → SameRecall b (begin_search c net serializable planned_step t b).1
  unfolding begin_search
  begin_search-SameRecall planned_step t b = SameRecall-trans (id-SameRecall (b.next_id + 1) b) (
      SameRecall-trans (post_to-SameRecall memory _ _ (record b { next_id = b.next_id + 1 }))
        (bind_start_result-SameRecall (new_operation b.next_id) _ (at planned_step) search_start _))

  search_from-SameRecall :
      (planned_step : ℕ) (t : Option (TraceState I)) (b : Backend I)
      → SameRecall b (search_from c net serializable planned_step t b).1
  unfolding search_from
  search_from-SameRecall planned_step none b = SameRecall-refl b
  search_from-SameRecall planned_step (some t) b =
      elim (Bool-cases (t.session_open && t.memory_lane_enabled)) [
        | inl e ↦ rw e (begin_search-SameRecall planned_step t b)
        | inr e ↦ rw e (SameRecall-refl b)
      ]

  pub recall_search-SameRecall :
      (planned_step : ℕ) (b : Backend I)
      → SameRecall b (recall_search c net serializable planned_step b).1
  unfolding recall_search
  recall_search-SameRecall planned_step b = search_from-SameRecall planned_step b.trace b

  -- What `search_finish` returns keeps the fields, if it returns.
  abbrev KeepsIfAny : Backend I → Option (Option PostResult × Backend I) → Type 0
  KeepsIfAny b none = Unit
  KeepsIfAny b (some (result, b')) = SameRecall b b'

  finish_from-SameRecall :
      (token : OperationTrace) (status : SearchStatus) (selected : ℕ) (t : Option (TraceState I))
      (refs : Option (List I.Ref)) (b : Backend I)
      → KeepsIfAny b (finish_from c net serializable token status selected t refs b)
  unfolding finish_from
  finish_from-SameRecall token status selected none refs b = SameRecall-refl b
  finish_from-SameRecall token status selected (some t) none b = tt
  finish_from-SameRecall token status selected (some t) (some refs) b =
      post_to-SameRecall memory _ t b

  search_finish-SameRecall :
      (token : OperationTrace) (status : SearchStatus) (rendered : List I.Hit) (selected : ℕ)
      (b : Backend I)
      → KeepsIfAny b (search_finish c net serializable token status rendered selected b)
  unfolding search_finish
  search_finish-SameRecall token status rendered selected b = elim (Bool-cases token.disabled) [
    | inl e ↦ rw e (SameRecall-refl b)
    | inr e ↦ rw e (finish_from-SameRecall token status selected b.trace (memory_refs I rendered) b)
  ]

  close_from-SameRecall :
      (token : OperationTrace) (status : SearchStatus) (rendered : List I.Hit)
      (finished : Option (Option PostResult × Backend I)) (b : Backend I)
      → KeepsIfAny b finished
      → SameRecall b (close_from c net serializable token status rendered finished b)
  unfolding close_from
  close_from-SameRecall token status rendered none b h = SameRecall-refl b
  close_from-SameRecall token status rendered (some (result, b')) b h =
      SameRecall-trans h (close_search-SameRecall token status rendered result b')

  pub recall_rendered-SameRecall :
      (token : Option OperationTrace) (status : SearchStatus) (rendered : List I.Hit) (selected : ℕ)
      (b : Backend I)
      → SameRecall b (recall_rendered c net serializable token status rendered selected b)
  unfolding recall_rendered
  recall_rendered-SameRecall none status rendered selected b = SameRecall-refl b
  recall_rendered-SameRecall (some token) status rendered selected b =
      close_from-SameRecall token status rendered _ b
        (search_finish-SameRecall token status rendered selected b)
