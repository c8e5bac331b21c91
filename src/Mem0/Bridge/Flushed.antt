-- ===== src/Mem0/Bridge/Flushed.antt =====
-- What an extraction tick of the mem0 integration does to the store and the pending messages
-- (integration/mem0/src/mem0_bridge/backend.py, `_perform_extraction`).
use mathlib.Core.Path.{subst}
use memory_bridge.Base.{
  ℕ, ◌+◌, ◌≡◌, refl, ◌∙◌, sym, ap, Bool, true, false, List, [], Option, none, some, Str, is_empty,
  if◌then◌else◌, length, arith,
}
use memory_bridge.Shared.Config.{MemoryConfig}
use memory_bridge.Shared.Annotate.{Net}
use memory_bridge.Shared.Backend.State.{
  Counts, Step, Outcome, returned, raised, AnnotationEvent, Audit, Backend,
}
use memory_bridge.Shared.Backend.Generation.{Generation, Attribution}
use memory_bridge.Shared.Backend.Generation.Lifecycle.{generation_begin}
use memory_bridge.Shared.Backend.Generation.Frame.{
  generation_begin-SameWork, generation_finish-SameWork, generation_finish_exception-SameWork,
}
use memory_bridge.Mem0.Client.{Result, ok, err, Receipt}
use memory_bridge.Mem0.Client.Calls.{AddCall}
use memory_bridge.Mem0.Hits.{Mem0, Native, mem0}
use memory_bridge.Mem0.Bridge.{
  count_call, set_store, flush, clear_inputs, add_call, batch_items, close_add, tick, perform_on,
  perform_extraction,
}

module _ {S : Type 0} (M : Mem0 S) (c : MemoryConfig M.Score) (net : Net)
    (serializable : List (AnnotationEvent (mem0 M)) → Bool) (size_of : AnnotationEvent (mem0 M) → ℕ)
    {Snapshot : Type 0} (snapshot : Backend (mem0 M) → Option Snapshot)
    (attribute : Generation Snapshot
      → Option (List Receipt)
      → Option Snapshot
      → Backend (mem0 M)
      → Option (Attribution (mem0 M)))
    (end_context : Step → Option (List Receipt) → Audit → Str) where
  -- How a tick ends, by how its add ended: the messages are pending no more, with no failure in a row,
  -- or they are kept, with the failures in a row as they were.
  abbrev pub Ended : Backend (mem0 M) → Result (List Receipt) → Outcome × Backend (mem0 M) → Type 0
  Ended b (ok rs) (o, b') = (o ≡ returned) × (b'.native.pending ≡ []) × (b'.consecutive_errors ≡ 0)
  Ended b (err e) (o, b') =
      (o ≡ raised (M.exn_of e))
      × (b'.native.pending ≡ b.native.pending)
      × (b'.consecutive_errors ≡ b.consecutive_errors)

  flush_fields :
      (step : Step) (n : ℕ) (rs : List Receipt) (b : Backend (mem0 M))
      → ((flush M step n rs b).native.pending ≡ [])
        × ((flush M step n rs b).consecutive_errors ≡ 0)
        × ((flush M step n rs b).native.store ≡ b.native.store)
        × ((flush M step n rs b).counts.extraction_calls ≡ b.counts.extraction_calls)
  unfolding flush clear_inputs
  flush_fields step n rs b = ground arith

  close_add-Ended :
      (g : Option (Generation Snapshot)) (step : Step) (n : ℕ) (r : Result (List Receipt))
      (b : Backend (mem0 M))
      → let ended =
          close_add M c net serializable size_of snapshot attribute end_context g step n r b in
        Ended b r ended
        × (ended.1.native.store ≡ b.native.store)
        × (ended.1.counts.extraction_calls ≡ b.counts.extraction_calls)
  unfolding close_add
  close_add-Ended g step n (err e) b =
      let w =
        generation_finish_exception-SameWork c net serializable size_of M.digest snapshot attribute
          end_context g step (M.exn_of e) b in
      (
        (refl, ap (λ (m : Native S). m.pending) w.native, w.consecutive_errors),
        ap (λ (m : Native S). m.store) w.native,
        ap (λ (n : Counts). n.extraction_calls) w.counts,
      )
  close_add-Ended g step n (ok rs) b =
      let flushed = flush M step n rs b in
      let w =
        generation_finish-SameWork c net serializable size_of M.digest snapshot attribute
          end_context g step rs [] flushed in
      let (pending, failures, store, calls) = flush_fields step n rs b in
      (
        (
          refl,
          ap (λ (m : Native S). m.pending) w.native ∙ pending,
          w.consecutive_errors ∙ failures,
        ),
        ap (λ (m : Native S). m.store) w.native ∙ store,
        ap (λ (n : Counts). n.extraction_calls) w.counts ∙ calls,
      )

  -- One counted add of all the pending messages.
  pub record IsFlush (b : Backend (mem0 M)) (s : S) (r : Outcome × Backend (mem0 M)) : Type 0 where
    pub call : AddCall
    pub batch : call.messages ≡ batch_items b.native.pending
    pub ended : Ended b (M.store.add call s).0 r
    pub store : r.1.native.store ≡ some (M.store.add call s).1
    pub calls : r.1.counts.extraction_calls ≡ b.counts.extraction_calls + 1

  Ended-from :
      (b d : Backend (mem0 M)) (r : Result (List Receipt)) (ended : Outcome × Backend (mem0 M))
      → d.native.pending ≡ b.native.pending
      → d.consecutive_errors ≡ b.consecutive_errors
      → Ended d r ended
      → Ended b r ended
  Ended-from b d (ok rs) ended p h e = e
  Ended-from b d (err x) ended p h (o, q, n) = (o, q ∙ p, n ∙ h)

  tick-IsFlush :
      (step : Step) (s : S) (b : Backend (mem0 M))
      → IsFlush b s (tick M c net serializable size_of snapshot attribute end_context step s b)
  unfolding tick add_call
  tick-IsFlush step s b =
      let begun =
        generation_begin c net serializable size_of M.digest snapshot step (count_call M b) in
      let w =
        generation_begin-SameWork c net serializable size_of M.digest snapshot step
          (count_call M b) in
      let call = add_call M begun.1 in
      let added = M.store.add call s in
      let (ended, store, calls) =
        close_add-Ended begun.0 step (length b.native.pending) added.0
          (set_store M added.1 begun.1) in
      record {
        call = call;
        batch = ap (λ (m : Native S). batch_items m.pending) w.native;
        ended =
            Ended-from b (set_store M added.1 begun.1) added.0 _
              (ap (λ (m : Native S). m.pending) w.native) w.consecutive_errors ended;
        store = store;
        calls = calls ∙ ap (λ (n : Counts). n.extraction_calls) w.counts;
      }

  perform_on-idle :
      (step : Step) (o : Option S) (b : Backend (mem0 M))
      → is_empty b.native.pending ≡ true
      → perform_on M c net serializable size_of snapshot attribute end_context step o b
        ≡ (returned, b)
  unfolding perform_on
  perform_on-idle step none b idle = refl
  perform_on-idle step (some s) b idle =
      let ticked = tick M c net serializable size_of snapshot attribute end_context step s b in
      ap (λ (t : Bool). if t then (returned, b) else ticked) idle

  pub perform_extraction-idle :
      (step : Step) (b : Backend (mem0 M))
      → is_empty b.native.pending ≡ true
      → perform_extraction M c net serializable size_of snapshot attribute end_context step b
        ≡ (returned, b)
  unfolding perform_extraction
  perform_extraction-idle step b idle = perform_on-idle step b.native.store b idle

  -- A tick with an open store and pending messages is one counted add of them all: where it succeeds,
  -- nothing is pending and the failures in a row are 0; where it fails, the call raises with the
  -- messages still pending and the failures in a row as they were.
  pub perform_extraction-IsFlush :
      (step : Step) (s : S) (b : Backend (mem0 M))
      → b.native.store ≡ some s
      → is_empty b.native.pending ≡ false
      → IsFlush b s
          (perform_extraction M c net serializable size_of snapshot attribute end_context step b)
  unfolding perform_extraction perform_on
  perform_extraction-IsFlush step s b e waiting =
      let performed = perform_on M c net serializable size_of snapshot attribute end_context step in
      let ticked = tick M c net serializable size_of snapshot attribute end_context step s b in
      subst (λ (o : Option S). IsFlush b s (performed o b)) (sym e)
        (subst (λ (x : Bool). IsFlush b s (if x then (returned, b) else ticked)) (sym waiting)
          (tick-IsFlush step s b))
