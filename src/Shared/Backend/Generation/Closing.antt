-- ===== src/Shared/Backend/Generation/Closing.antt =====
-- How the posts of a generation end
-- (shared-bridge/src/shared_bridge/backend.py, `_post_generation`).
use mathlib.Core.Path.{subst}
use mathlib.Core.List.{map-append}
use memory_bridge.Base.{
  ℕ, suc, ◌≡◌, refl, ◌∙◌, sym, ap, Bool, true, false, List, [], ◌∷◌, ◌++◌, map, append_assoc,
  append-nil, Option, none, some, if◌then◌else◌, length, take, ◌⊎◌, inl, inr,
}
use memory_bridge.Shared.Chunk.{chunk_events}
use memory_bridge.Shared.Config.{MemoryConfig}
use memory_bridge.Shared.Integration.{Integration}
use memory_bridge.Shared.Annotate.{Net}
use memory_bridge.Shared.Backend.State.{
  Lane, memory, Step, AnnotationEvent, memory_generate_end, Change, GenerationEnd, OperationTrace,
  TraceState, Backend,
}
use memory_bridge.Shared.Backend.Trace.{stop_memory_lane, post_to}
use memory_bridge.Shared.Backend.Generation.{
  rejection, change_events, abandon_operation, post_chunks, post_end, settle_chunks, post_series,
  post_generation,
}

module _ {I : Integration} where
  abbrev pub on_memory : List (AnnotationEvent I) → Lane × List (AnnotationEvent I)
  on_memory events = (memory, events)

  -- The trace after the requests `sent`: nothing else of the memory lane has changed.
  abbrev pub Sent : TraceState I → List (List (AnnotationEvent I)) → Backend I → Type 0
  Sent t sent b =
      (t' : TraceState I) × (b.trace ≡ some t')
      × (t'.outbox ≡ t.outbox ++ map on_memory sent)
      × (t'.memory_lane_enabled ≡ t.memory_lane_enabled)
      × (t'.pending_inputs ≡ t.pending_inputs)

  -- The trace after the requests `sent`, with the memory lane's tracing stopped.
  abbrev pub Stopped : TraceState I → List (List (AnnotationEvent I)) → Backend I → Type 0
  Stopped t sent b =
      (t' : TraceState I) × (b.trace ≡ some t')
      × (t'.outbox ≡ t.outbox ++ map on_memory sent)
      × (t'.memory_lane_enabled ≡ false)
      × (t'.pending_inputs ≡ [])

  -- Every chunk and the end event were sent, or the first chunks, and the operation is disabled and
  -- the lane stopped.
  abbrev pub Closed :
      TraceState I
      → OperationTrace
      → List (List (AnnotationEvent I))
      → AnnotationEvent I
      → OperationTrace × Backend I
      → Type 0
  Closed t operation chunks event (token, b) =
      ((token ≡ operation) × Sent t (chunks ++ (event ∷ []) ∷ []) b)
      ⊎ ((token.disabled ≡ true) × ((n : ℕ) × Stopped t (take n chunks) b))

  Sent-if :
      (t : TraceState I) (sent : List (List (AnnotationEvent I))) (b d : Backend I) (x : Bool)
      → Sent t sent b
      → Sent t sent d
      → Sent t sent (if x then b else d)
  Sent-if t sent b d true p q = p
  Sent-if t sent b d false p q = q

  outbox_append :
      (outbox : List (Lane × List (AnnotationEvent I)))
      (first rest : List (List (AnnotationEvent I)))
      → (outbox ++ map on_memory first) ++ map on_memory rest
        ≡ outbox ++ map on_memory (first ++ rest)
  outbox_append outbox first rest =
      append_assoc outbox (map on_memory first) (map on_memory rest)
      ∙ ap (λ (l : List (Lane × List (AnnotationEvent I))). outbox ++ l)
          (sym (map-append on_memory first rest))

  Sent-trans :
      (t : TraceState I) (first rest : List (List (AnnotationEvent I))) (b d : Backend I)
      → (s : Sent t first b) → Sent s.0 rest d
      → Sent t (first ++ rest) d
  Sent-trans t first rest b d (t1, e1, o1, l1, p1) (t2, e2, o2, l2, p2) = (
    t2,
    e2,
    o2
        ∙ ap (λ (l : List (Lane × List (AnnotationEvent I))). l ++ map on_memory rest) o1
        ∙ outbox_append t.outbox first rest,
    l2 ∙ l1,
    p2 ∙ p1,
  )

  Stopped-trans :
      (t : TraceState I) (first rest : List (List (AnnotationEvent I))) (b d : Backend I)
      → (s : Sent t first b) → Stopped s.0 rest d
      → Stopped t (first ++ rest) d
  Stopped-trans t first rest b d (t1, e1, o1, l1, p1) (t2, e2, o2, l2, p2) = (
    t2,
    e2,
    o2
        ∙ ap (λ (l : List (Lane × List (AnnotationEvent I))). l ++ map on_memory rest) o1
        ∙ outbox_append t.outbox first rest,
    l2,
    p2,
  )

  Stopped-stop_memory_lane :
      (t : TraceState I) (sent : List (List (AnnotationEvent I))) (b : Backend I)
      → Sent t sent b
      → Stopped t sent (stop_memory_lane b)
  unfolding stop_memory_lane
  Stopped-stop_memory_lane t sent b (t1, e1, o1, l1, p1) =
      (record t1 { memory_lane_enabled = false; pending_inputs = [] }, rw e1 refl, o1, refl, refl)

module _ {I : Integration} (c : MemoryConfig I.Score) (net : Net)
    (serializable : List (AnnotationEvent I) → Bool) (size_of : AnnotationEvent I → ℕ) where
  post_to-Sent :
      (events : List (AnnotationEvent I)) (t : TraceState I) (b : Backend I)
      → Sent t (events ∷ []) (post_to c net serializable memory events t b).1
  unfolding post_to
  post_to-Sent events t b =
      Sent-if t (events ∷ []) _ _ _ (_, refl, refl, refl, refl) (_, refl, refl, refl, refl)

  -- All chunks were sent, or only the first ones, the last of them rejected.
  abbrev Chunked : TraceState I → List (List (AnnotationEvent I)) → Option ℕ × Backend I → Type 0
  Chunked t chunks (none, b) = Sent t chunks b
  Chunked t chunks (some code, b) = (n : ℕ) × Sent t (take n chunks) b

  Chunked-elim :
      (t : TraceState I) (chunk : List (AnnotationEvent I))
      (chunks : List (List (AnnotationEvent I))) (b : Backend I) (o : Option ℕ)
      (rest : Option ℕ × Backend I)
      → (s : Sent t (chunk ∷ []) b) → Chunked s.0 chunks rest
      → Chunked t (chunk ∷ chunks) (elim o [ some code ↦ (some code, b) | none ↦ rest ])
  Chunked-elim t chunk chunks b (some code) rest s h = (1, s)
  Chunked-elim t chunk chunks b none (none, d) s h = Sent-trans t (chunk ∷ []) chunks b d s h
  Chunked-elim t chunk chunks b none (some code, d) s (n, h) =
      (suc n, Sent-trans t (chunk ∷ []) (take n chunks) b d s h)

  post_chunks-Chunked :
      (chunks : List (List (AnnotationEvent I))) (t : TraceState I) (b : Backend I)
      → b.trace ≡ some t
      → Chunked t chunks (post_chunks c net serializable size_of chunks (some t) b)
  unfolding post_chunks
  post_chunks-Chunked [] t b e = (t, e, sym (append-nil t.outbox), refl, refl)
  post_chunks-Chunked (chunk ∷ chunks) t b e =
      let posted = post_to c net serializable memory chunk t b in
      let s = post_to-Sent chunk t b in
      Chunked-elim t chunk chunks posted.1 (rejection posted.0) _ s (
        subst
          (λ (o : Option (TraceState I)).
            Chunked s.0 chunks (post_chunks c net serializable size_of chunks o posted.1))
          (sym s.1) (post_chunks-Chunked chunks s.0 posted.1 s.1))

  post_end-Sent :
      (event : AnnotationEvent I) (t : TraceState I) (b : Backend I)
      → b.trace ≡ some t
      → Sent t ((event ∷ []) ∷ []) (post_end c net serializable size_of event b.trace b)
  unfolding post_end
  post_end-Sent event t b e =
      subst
        (λ (o : Option (TraceState I)).
          Sent t ((event ∷ []) ∷ []) (post_end c net serializable size_of event o b))
        (sym e) (post_to-Sent (event ∷ []) t b)

  settle_chunks-Closed :
      (operation : OperationTrace) (step : Step) (event : AnnotationEvent I) (t : TraceState I)
      (chunks : List (List (AnnotationEvent I))) (r : Option ℕ × Backend I)
      → Chunked t chunks r
      → Closed t operation chunks event
          (settle_chunks c net serializable size_of operation step event r)
  unfolding settle_chunks abandon_operation
  settle_chunks-Closed operation step event t chunks (none, b) h = inl (
    refl,
    Sent-trans t chunks ((event ∷ []) ∷ []) b (post_end c net serializable size_of event b.trace b)
        h (post_end-Sent event h.0 b h.1),
  )
  settle_chunks-Closed operation step event t chunks (some code, b) (n, h) =
      inr (refl, (n, Stopped-stop_memory_lane t (take n chunks) b h))

  -- On a traced episode, the end of a generation sends every chunk of its change events in order and
  -- the end event last, and nothing else; or it sends a first part of the chunks and no end event,
  -- and then the operation is disabled and the memory lane's tracing stopped, with no input pending.
  pub post_generation-Closed :
      (operation : OperationTrace) (step : Step) (changes : List (Change I))
      (report : GenerationEnd I) (t : TraceState I) (b : Backend I)
      → b.trace ≡ some t
      → let events = change_events t.trace_session_id operation 0 (length changes) changes in
        let event =
          memory_generate_end t.trace_session_id operation.operation_id report operation.cursor in
        Closed t operation
          (chunk_events size_of events)
          event
          (post_generation c net serializable size_of operation step changes report b)
  unfolding post_generation post_series
  post_generation-Closed operation step changes report t b e =
      let events = change_events t.trace_session_id operation 0 (length changes) changes in
      let event =
        memory_generate_end t.trace_session_id operation.operation_id report operation.cursor in
      subst
        (λ (o : Option (TraceState I)).
          Closed t operation (chunk_events size_of events) event
            (post_series c net serializable size_of operation step changes report o b))
        (sym e)
        (settle_chunks-Closed operation step event t (chunk_events size_of events) _
          (post_chunks-Chunked (chunk_events size_of events) t b e))
