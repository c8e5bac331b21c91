-- ===== src/Shared/Backend/Recall/Frame.antt =====
-- What each part of `recall_context` leaves alone, and what it memoizes.
use memory_bridge.Base.{
  keep_if, length, ℕ, ◌≡◌, refl, ◌∙◌, Bool, true, false, List, [], ◌∷◌, Option, none, Str, arith,
  if◌then◌else◌,
}
use memory_bridge.Shared.Config.{MemoryConfig}
use memory_bridge.Shared.Integration.{Integration}
use memory_bridge.Shared.Recall.{Fill, fill, no_lines, select_hits}
use memory_bridge.Shared.Annotate.{Net}
use memory_bridge.Shared.Backend.State.{
  log_event, error, recall_op, count_backend_error, Exn, OperationTrace, AnnotationEvent, Backend,
  completed, failed,
}
use memory_bridge.Shared.Backend.Trace.{or_else, recall_query, recall_rendered}
use memory_bridge.Shared.Backend.Trace.Frame.{
  SameRecall, SameRecall-trans, recall_rendered-SameRecall,
}
use memory_bridge.Shared.Backend.Recall.{
  Recalled, nothing, injected, recall_raised, ready_of, recall_ready, serve_cached, memoize_empty,
  memoize, gate, conclude, deliver_hits, recall_failed, spend,
}

-- The fields that the guards of recall read.
pub record SameReady {I : Integration} (b b' : Backend I) : Type 0 where
  pub available : b'.available ≡ b.available
  pub finalized : b'.finalized ≡ b.finalized
  pub task_text : b'.task_text ≡ b.task_text
  pub current_query : b'.current_query ≡ b.current_query

-- The answer as the cache gives it.
abbrev pub as_cached : {I : Integration} → Recalled I → Recalled I
as_cached nothing = nothing
as_cached (injected payload cached) = injected payload true
as_cached (recall_raised e) = nothing

-- The backend is clean for the answer: it would serve the same one.
abbrev pub IsCached : {I : Integration} → Recalled I × Backend I → Type 0
IsCached (r, b) = serve_cached b ≡ as_cached r

module _ {I : Integration} where
  pub as-IsCached-serve_cached : (b : Backend I) → IsCached (serve_cached b, b)
  unfolding serve_cached
  as-IsCached-serve_cached b = ground arith

  pub SameReady-refl : (b : Backend I) → SameReady b b
  SameReady-refl b = record {
    available = refl;
    finalized = refl;
    task_text = refl;
    current_query = refl;
  }

  pub SameReady-trans : {a b d : Backend I} → SameReady a b → SameReady b d → SameReady a d
  SameReady-trans p q = record {
    available = q.available ∙ p.available;
    finalized = q.finalized ∙ p.finalized;
    task_text = q.task_text ∙ p.task_text;
    current_query = q.current_query ∙ p.current_query;
  }

  pub SameReady-of : {b b' : Backend I} → SameRecall b b' → SameReady b b'
  SameReady-of s = record {
    available = s.available;
    finalized = s.finalized;
    task_text = s.task_text;
    current_query = s.current_query;
  }

  pub spend-SameRecall : (seconds : ℕ) (b : Backend I) → SameRecall b (spend seconds b)
  spend-SameRecall seconds b = ground arith

  pub count_error-SameRecall :
      (message : Str) (b : Backend I)
      → SameRecall b (log_event (error recall_op none message) (count_backend_error b))
  count_error-SameRecall message b = ground arith

  pub gate-answer :
      (strict : Bool) (e : Exn) (b : Backend I)
      → (gate strict e b).0 ≡ (if strict then recall_raised e else nothing)
  unfolding gate
  gate-answer true e b = refl
  gate-answer false e b = refl

  pub gate-SameRecall :
      (strict : Bool) (e : Exn) (b d : Backend I)
      → SameRecall b d
      → SameRecall b (gate strict e d).1
  unfolding gate
  gate-SameRecall true e b d s = s
  gate-SameRecall false e b d s = s

  pub conclude-IsCached :
      (token : Option OperationTrace) (rendered : List I.Hit) (acc : Fill I) (b : Backend I)
      → IsCached (conclude token rendered acc b)
  unfolding conclude memoize_empty memoize serve_cached
  conclude-IsCached token [] acc b = refl
  conclude-IsCached token (hit ∷ hits) acc b = refl

  pub conclude-SameReady :
      (token : Option OperationTrace) (rendered : List I.Hit) (acc : Fill I) (b : Backend I)
      → SameReady b (conclude token rendered acc b).1
  unfolding conclude memoize_empty memoize
  conclude-SameReady token [] acc b = ground arith
  conclude-SameReady token (hit ∷ hits) acc b = ground arith

module _ {I : Integration} (c : MemoryConfig I.Score) where
  pub ready-SameReady : (b b' : Backend I) → SameReady b b' → recall_ready c b' ≡ recall_ready c b
  unfolding recall_ready recall_query
  ready-SameReady b b' s = λ i.
      ready_of c.inject_recall (s.available i) (s.finalized i) (s.task_text i)
        (or_else (s.current_query i) (s.task_text i))

  module _ (net : Net) (serializable : List (AnnotationEvent I) → Bool) where
    -- After a search that returned, the backend is clean for the answer.
    pub deliver_hits-IsCached :
        (token : Option OperationTrace) (hits : List I.Hit) (b : Backend I)
        → IsCached (deliver_hits c net serializable token hits b)
          × SameReady b (deliver_hits c net serializable token hits b).1
    unfolding deliver_hits
    deliver_hits-IsCached token hits b =
        let acc = fill I c b.session_id (no_lines I) (select_hits I c hits) in
        let b' =
          recall_rendered c net serializable token
            (completed (length (keep_if I.hit_is_match hits))) acc.rendered
            (length (select_hits I c hits)) b in
        (
          conclude-IsCached token acc.rendered acc b',
          SameReady-trans
              (SameReady-of (recall_rendered-SameRecall c net serializable token _ _ _ b))
              (conclude-SameReady token acc.rendered acc b'),
        )

    -- A search that raised leaves the flag, the cache and the guards' fields as they were.
    pub recall_failed-SameRecall :
        (token : Option OperationTrace) (e : Exn) (b : Backend I)
        → SameRecall b (recall_failed c net serializable token e b).1
    unfolding recall_failed
    recall_failed-SameRecall token e b = gate-SameRecall c.strict e b _ (
        SameRecall-trans
          (recall_rendered-SameRecall c net serializable token (failed e.class_name) [] 0 b)
          (count_error-SameRecall e.message _))
