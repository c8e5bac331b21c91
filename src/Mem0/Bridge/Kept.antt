-- ===== src/Mem0/Bridge/Kept.antt =====
-- No recorded message is lost between the recording and the store
-- (integration/mem0/src/mem0_bridge/backend.py, with `record` and `maybe_extract` of
-- shared-bridge/src/shared_bridge/backend.py).
use mathlib.Core.Path.{subst}
use memory_bridge.Base.{
  ℕ, ◌≡◌, refl, ◌∙◌, sym, ap, Bool, true, false, List, [], ◌∷◌, ◌++◌, append-nil, append_assoc,
  Option, some, Str, if◌then◌else◌, is_empty, arith, Bool-cases, ◌⊎◌, inl, inr,
}
use memory_bridge.Shared.Config.{MemoryConfig}
use memory_bridge.Shared.Backend.State.{
  Step, at, Outcome, returned, Backend, AnnotationEvent, Audit,
}
use memory_bridge.Shared.Backend.Record.{Entry}
use memory_bridge.Mem0.Client.{Mem0Error, Result, ok, err, Receipt, Mem0Error}
use memory_bridge.Mem0.Client.Calls.{AddCall}
use memory_bridge.Mem0.Stores.{Store}
use memory_bridge.Mem0.Hits.{Mem0, Native, mem0}
use memory_bridge.Mem0.Bridge.{batch_items, perform_extraction}
use memory_bridge.Mem0.Bridge.Flushed.{Ended, perform_extraction-idle, perform_extraction-IsFlush}
use memory_bridge.Shared.Annotate.{Net}
use memory_bridge.Shared.Backend.Generation.{Generation, Attribution}
use memory_bridge.Shared.Backend.Extract.{
  maybe_extract, extract_once, settle_extraction, enter_bucket, extract_due, mark_if_counted,
  register_extraction_failure, trip_extract_breaker,
}
use memory_bridge.Base.Sublists.{Sub, Sub-refl, Sub-append, Sub-longer}
use memory_bridge.Mem0.Bridge.Heard.{heard, recording, recording-Records}

-- A store that holds messages: an add that succeeds has persisted its batch when it returns, and one
-- that fails has persisted it as a whole or not at all.
pub record IsDurable {S : Type 0} (store : Store S) (held : S → List (Str × Str)) : Type 0 where
  pub added :
      (batch : List (Str × Str)) (call : AddCall) (s : S)
      → call.messages ≡ batch_items batch
      → (rs : List Receipt) (s' : S) → store.add call s ≡ (ok rs, s')
      → held s' ≡ held s ++ batch
  pub failed :
      (batch : List (Str × Str)) (call : AddCall) (s : S)
      → call.messages ≡ batch_items batch
      → (e : Mem0Error) (s' : S) → store.add call s ≡ (err e, s')
      → (held s' ≡ held s) ⊎ (held s' ≡ held s ++ batch)

module _ {S : Type 0} (M : Mem0 S) (c : MemoryConfig M.Score) where
  module _ (net : Net) (serializable : List (AnnotationEvent (mem0 M)) → Bool)
      (size_of : AnnotationEvent (mem0 M) → ℕ) {Snapshot : Type 0}
      (snapshot : Backend (mem0 M) → Option Snapshot)
      (attribute : Generation Snapshot
        → Option (List Receipt)
        → Option Snapshot
        → Backend (mem0 M)
        → Option (Attribution (mem0 M)))
      (end_context : Step → Option (List Receipt) → Audit → Str) where
    -- What the agent does to the backend: it adds messages, and it asks for an extraction.
    pub data Act : Type 0 where
      say : List Entry → ℕ → Act
      ask : ℕ → Act

    abbrev pub performing : Step → Backend (mem0 M) → Outcome × Backend (mem0 M)
    performing = perform_extraction M c net serializable size_of snapshot attribute end_context

    abbrev pub act : Act → Backend (mem0 M) → Backend (mem0 M)
    act (say entries step) b = (recording M c entries step b).1
    act (ask step) b = (maybe_extract c performing step b).1

    abbrev pub run : List Act → Backend (mem0 M) → Backend (mem0 M)
    run [] b = b
    run (a ∷ acts) b = run acts (act a b)

    abbrev pub heard_in : Act → Backend (mem0 M) → List (Str × Str)
    heard_in (say entries step) b = heard M c b entries
    heard_in (ask step) b = []

    abbrev pub all_heard : List Act → Backend (mem0 M) → List (Str × Str)
    all_heard [] b = []
    all_heard (a ∷ acts) b = heard_in a b ++ all_heard acts (act a b)

    module _ (held : S → List (Str × Str)) where
      -- The messages heard are, in their order, among those of the store and the pending ones.
      abbrev pub Kept : List (Str × Str) → Backend (mem0 M) → Type 0
      Kept batch b = (s : S) × (b.native.store ≡ some s) × Sub batch (held s ++ b.native.pending)

      Kept-native :
          (batch : List (Str × Str)) (b b' : Backend (mem0 M))
          → b'.native ≡ b.native
          → Kept batch b
          → Kept batch b'
      Kept-native batch b b' e k =
          subst (λ (n : Native S). (s : S) × (n.store ≡ some s) × Sub batch (held s ++ n.pending))
            (sym e) k

      recording-Kept :
          (entries : List Entry) (step : ℕ) (b : Backend (mem0 M)) (batch : List (Str × Str))
          → Kept batch b
          → Kept (batch ++ heard M c b entries) (recording M c entries step b).1
      recording-Kept entries step b batch (s, e, sub) =
          let (_, (store, pending)) = recording-Records M c entries step b in
          (
            s,
            store ∙ e,
            subst (λ (l : List (Str × Str)). Sub (batch ++ heard M c b entries) l)
                (append_assoc (held s) b.native.pending (heard M c b entries)
                  ∙ ap (λ (l : List (Str × Str)). held s ++ l) (sym pending))
                (Sub-append batch _ _ _ sub (Sub-refl (heard M c b entries))),
          )

      Ended-Kept :
          IsDurable M.store held
          → (batch : List (Str × Str)) (b : Backend (mem0 M)) (s : S) (call : AddCall)
          → call.messages ≡ batch_items b.native.pending
          → Sub batch (held s ++ b.native.pending)
          → (x : Result (List Receipt) × S) → M.store.add call s ≡ x
          → (r : Outcome × Backend (mem0 M)) → r.1.native.store ≡ some x.1
          → Ended M c net serializable size_of snapshot attribute end_context b x.0 r
          → Kept batch r.1
      Ended-Kept durable batch b s call same sub (ok rs, s') e r store (o, pending, n) = (
        s',
        store,
        subst (Sub batch)
            (sym (durable.added b.native.pending call s same rs s' e)
              ∙ sym (append-nil (held s'))
              ∙ ap (λ (l : List (Str × Str)). held s' ++ l) (sym pending))
            sub,
      )
      Ended-Kept durable batch b s call same sub (err x, s') e r store (o, pending, n) = (
        s',
        store,
        subst (λ (l : List (Str × Str)). Sub batch (held s' ++ l)) (sym pending)
            (elim (durable.failed b.native.pending call s same x s' e) [
              | inl q ↦
                  subst (λ (l : List (Str × Str)). Sub batch (l ++ b.native.pending)) (sym q) sub
              | inr q ↦
                  subst (λ (l : List (Str × Str)). Sub batch (l ++ b.native.pending)) (sym q)
                    (Sub-longer batch (held s ++ b.native.pending) b.native.pending sub)
            ]),
      )

      performing-Kept :
          IsDurable M.store held
          → (step : Step) (b : Backend (mem0 M)) (batch : List (Str × Str)) → Kept batch b
          → Kept batch (performing step b).1
      performing-Kept durable step b batch (s, e, sub) =
          elim (Bool-cases (is_empty b.native.pending)) [
            | inl idle ↦
                subst (λ (r : Outcome × Backend (mem0 M)). Kept batch r.1)
                  (sym (
                    perform_extraction-idle M c net serializable size_of snapshot attribute
                      end_context step b idle))
                  (s, e, sub)
            | inr waiting ↦
                let f =
                  perform_extraction-IsFlush M c net serializable size_of snapshot attribute
                    end_context step s b e waiting in
                Ended-Kept durable batch b s f.call f.batch sub (M.store.add f.call s) refl _
                  f.store f.ended
          ]

      settle_extraction-native :
          (step : Step) (calls : ℕ) (r : Outcome × Backend (mem0 M))
          → (settle_extraction c step calls r).1.native ≡ r.1.native
      unfolding settle_extraction mark_if_counted register_extraction_failure trip_extract_breaker
      settle_extraction-native step calls r = ground arith

      maybe_extract-Kept :
          IsDurable M.store held
          → (step : ℕ) (b : Backend (mem0 M)) (batch : List (Str × Str)) → Kept batch b
          → Kept batch (maybe_extract c performing step b).1
      unfolding maybe_extract extract_once
      maybe_extract-Kept durable step b batch k = due (extract_due c step b)
        where
          entered : Backend (mem0 M)
          entered = enter_bucket c step b

          once :
              (t : Bool)
              → Kept batch
                  (if t
                    then settle_extraction c
                        (at step)
                        entered.counts.extraction_calls
                        (performing (at step) entered)
                    else (returned, entered)).1
          once true =
              Kept-native batch (performing (at step) entered).1
                (settle_extraction c (at step) entered.counts.extraction_calls
                  (performing (at step) entered)).1
                (settle_extraction-native (at step) entered.counts.extraction_calls
                  (performing (at step) entered))
                (performing-Kept durable (at step) entered batch k)
          once false = k

          due :
              (t : Bool)
              → Kept batch
                  (if t then extract_once c performing (at step) entered else (returned, b)).1
          due true = once entered.available
          due false = k

      act-Kept :
          IsDurable M.store held
          → (a : Act) (b : Backend (mem0 M)) (batch : List (Str × Str)) → Kept batch b
          → Kept (batch ++ heard_in a b) (act a b)
      act-Kept durable (say entries step) b batch k = recording-Kept entries step b batch k
      act-Kept durable (ask step) b batch k =
          subst (λ (l : List (Str × Str)). Kept l (maybe_extract c performing step b).1)
            (sym (append-nil batch)) (maybe_extract-Kept durable step b batch k)

      -- Over a durable store no message is lost: after any sequence of additions and extractions, those
      -- that failed among them, every message that was heard is in the store or pending, in the order
      -- in which it was heard.
      pub run-Kept :
          IsDurable M.store held
          → (acts : List Act) (b : Backend (mem0 M)) (batch : List (Str × Str)) → Kept batch b
          → Kept (batch ++ all_heard acts b) (run acts b)
      run-Kept durable [] b batch k =
          subst (λ (l : List (Str × Str)). Kept l b) (sym (append-nil batch)) k
      run-Kept durable (a ∷ acts) b batch k =
          subst (λ (l : List (Str × Str)). Kept l (run acts (act a b)))
            (append_assoc batch (heard_in a b) (all_heard acts (act a b)))
            (run-Kept durable acts (act a b) (batch ++ heard_in a b) (act-Kept durable a b batch k))
