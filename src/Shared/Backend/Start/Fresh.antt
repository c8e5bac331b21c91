-- ===== src/Shared/Backend/Start/Fresh.antt =====
-- A changed query or store is searched anew (shared-bridge/src/shared_bridge/backend.py,
-- `set_task`, `maybe_extract`, `maybe_rewrite`, `recall_context`).
use memory_bridge.Base.{
  ℕ, ◌+◌, ◌<◌, ◌≡◌, ap, Bool, true, List, [], ◌∷◌, Option, none, some, Str, if◌then◌else◌,
}
use memory_bridge.Shared.Config.{MemoryConfig}
use memory_bridge.Shared.Integration.{Integration}
use memory_bridge.Shared.Annotate.{Net}
use memory_bridge.Shared.Backend.State.{
  main, memory, task, memory_session, memory_role_bind, Step, Outcome, AnnotationEvent, TraceState,
  Backend,
}
use memory_bridge.Shared.Backend.Trace.{post_to, recall_query, or_else}
use memory_bridge.Shared.Backend.Trace.Frame.{
  SameRecall, SameRecall-refl, SameRecall-trans, SameRecall-if, trace-SameRecall, id-SameRecall,
  post_to-SameRecall,
}
use memory_bridge.Shared.Backend.Recall.{
  Searched, nothing, recall_ready, search_anew, serve_cached, recall_context,
}
use memory_bridge.Shared.Backend.Extract.{extract_once}
use memory_bridge.Shared.Backend.Extract.Schedule.{search_dirty-extract_once}
use memory_bridge.Shared.Backend.Start.{open_session, bind_memory, announce, announce_on, set_task}

module _ {I : Integration} (c : MemoryConfig I.Score) (net : Net)
    (serializable : List (AnnotationEvent I) → Bool)
    (search : Backend I → Searched I × ℕ × Backend I) where
  -- A recall that is ready makes a search; one that is not does nothing. No answer is from the memo.
  abbrev pub SearchesAnew : ℕ → Backend I → Type 0
  SearchesAnew n b =
      recall_context c net serializable search n b
      ≡ (if recall_ready c b then search_anew c net serializable search n b else (nothing, b))

  pub recall_dirty : (n : ℕ) (b : Backend I) → b.search_dirty ≡ true → SearchesAnew n b
  unfolding recall_context
  recall_dirty n b h =
      ap
        (λ (x : Bool).
          if recall_ready c b
          then (if x then search_anew c net serializable search n b else (serve_cached b, b))
          else (nothing, b))
        h

module _ {I : Integration} (c : MemoryConfig I.Score) (net : Net)
    (serializable : List (AnnotationEvent I) → Bool) where
  bind_memory-SameRecall :
      (id : ℕ) (t : Option (TraceState I)) (b : Backend I)
      → SameRecall b (bind_memory c net serializable id t b).1
  unfolding bind_memory
  bind_memory-SameRecall id none b = SameRecall-refl b
  bind_memory-SameRecall id (some t) b = post_to-SameRecall c net serializable memory _ t b

  announce-SameRecall :
      (text : Str) (t : TraceState I) (b : Backend I)
      → SameRecall b (announce c net serializable text t b)
  unfolding announce open_session
  announce-SameRecall text t b =
      let id = b.next_id in
      let (result, b') =
        post_to c net serializable main (memory_session id text ∷ memory_role_bind id main ∷ [])
          (record t { trace_session_id = some id }) (record b { next_id = id + 1 }) in
      let posted : SameRecall b b' =
        SameRecall-trans (id-SameRecall c net serializable (id + 1) b)
          (post_to-SameRecall c net serializable main _ _ _) in
      SameRecall-if result.ok
        (SameRecall-trans posted
          (SameRecall-trans (bind_memory-SameRecall id b'.trace b') (trace-SameRecall _ _)))
        (SameRecall-trans posted (trace-SameRecall _ b'))

  announce_on-SameRecall :
      (text : Str) (t : Option (TraceState I)) (b : Backend I)
      → SameRecall b (announce_on c net serializable text t b)
  unfolding announce_on
  announce_on-SameRecall text none b = SameRecall-refl b
  announce_on-SameRecall text (some t) b =
      SameRecall-if b.available (announce-SameRecall text t b) (SameRecall-refl b)

  -- After `set_task`, whatever the network, the query is the new task, and the next recall makes a
  -- search if it is ready, whatever was memoized.
  pub recall-set_task :
      (search : Backend I → Searched I × ℕ × Backend I) (text : Str) (n : ℕ) (b : Backend I)
      → (recall_query (set_task c net serializable text b) ≡ some text)
        × SearchesAnew c net serializable search n (set_task c net serializable text b)
  unfolding set_task recall_query
  recall-set_task search text n b =
      let b' : Backend I = record b {
        task_text = some text;
        current_query = some text;
        query_source = task;
        cached_recall = none;
        cached_anchor = none;
        search_dirty = true;
      } in
      let same = announce_on-SameRecall text b.trace b' in
      let q : Option Str → Option Str =
        λ query. or_else query (announce_on c net serializable text b.trace b').task_text in
      (ap q same.current_query, recall_dirty c net serializable search n _ same.search_dirty)

module _ {I : Integration} (c : MemoryConfig I.Score) (net : Net)
    (serializable : List (AnnotationEvent I) → Bool)
    (search : Backend I → Searched I × ℕ × Backend I) where
  -- After an extraction attempt of an available backend that counted a call, whatever it came to,
  -- the next recall makes a search if it is ready, also where an empty answer is memoized.
  pub recall-extract_once :
      (perform : Step → Backend I → Outcome × Backend I) (step : Step) (n : ℕ) (b : Backend I)
      → b.available ≡ true
      → b.counts.extraction_calls < (perform step b).1.counts.extraction_calls
      → SearchesAnew c net serializable search n (extract_once c perform step b).1
  recall-extract_once perform step n b a h =
      recall_dirty c net serializable search n _ (search_dirty-extract_once c perform step b a h)
