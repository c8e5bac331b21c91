-- ===== src/Shared/Backend/Finalize/Dormant.antt =====
-- Recall, the ticks, recording and `finalize` itself after `finalize` (shared-bridge/src/shared_bridge/backend.py).
use memory_bridge.Base.{
  ◌/◌, ℕ, ◌≡◌, refl, ◌∙◌, ap, Bool, true, false, ◌&&◌, not, List, [], Option, Str, if◌then◌else◌,
  Bool-cases, inl, inr, arith,
}
use memory_bridge.Shared.Config.{MemoryConfig}
use memory_bridge.Shared.Integration.{Integration}
use memory_bridge.Shared.Annotate.{Net}
use memory_bridge.Shared.Backend.State.{
  at, Step, final, Exn, Outcome, returned, AnnotationEvent, Backend,
}
use memory_bridge.Shared.Backend.Recall.{
  Searched, nothing, recall_ready, search_anew, serve_cached, recall_context,
}
use memory_bridge.Shared.Backend.Extract.{enter_bucket, extract_once, extract_due, maybe_extract}
use memory_bridge.Shared.Backend.Extract.Frame.{settle-SameSchedule}
use memory_bridge.Shared.Backend.Rewrite.{
  rewrite_query, contain_rewrite, Structured, rewrite_due, maybe_rewrite,
}
use memory_bridge.Shared.Backend.Record.{Entry, Stored, record_all, record_messages}
use memory_bridge.Shared.Backend.Finalize.{
  Dumped, dumped, dump_raised, settle_dump, flush, dump, write_and_close, tear_down, finalize,
}

closed_pair : (a f : Bool) → f ≡ true → (a && not f) ≡ false
closed_pair a f h = ground arith

module _ {I : Integration} (c : MemoryConfig I.Score) where
  recall_off : (b : Backend I) → b.finalized ≡ true → recall_ready c b ≡ false
  unfolding recall_ready
  recall_off b h = ground arith

  extract_off : (step : ℕ) (b : Backend I) → b.finalized ≡ true → extract_due c step b ≡ false
  unfolding extract_due
  extract_off step b h = ground arith

  rewrite_off : (step : ℕ) (b : Backend I) → b.finalized ≡ true → rewrite_due c step b ≡ false
  unfolding rewrite_due
  rewrite_off step b h = ground arith

module _ {I : Integration} (c : MemoryConfig I.Score) (net : Net)
    (serializable : List (AnnotationEvent I) → Bool)
    (search : Backend I → Searched I × ℕ × Backend I)
    (perform : Step → Backend I → Outcome × Backend I)
    (call : Str → List (Str × Str) → Structured × ℕ) (normalize_role : Str → Str)
    (should_store : Str → Bool) (store_message : Str → Str → ℕ → Backend I → Stored × Backend I)
    (final_dump : Backend I → Dumped × Backend I)
    (write_memory_json : List Str → Backend I → Outcome)
    (close : Backend I → Outcome × Backend I) where
  -- Recall, both periodic ticks, recording and `finalize` do nothing and do not raise.
  pub record IsDormant (b : Backend I) : Type 0 where
    pub recall : (n : ℕ) → recall_context c net serializable search n b ≡ (nothing, b)
    pub extract : (step : ℕ) → maybe_extract c perform step b ≡ (returned, b)
    pub rewrite : (step : ℕ) → maybe_rewrite c call step b ≡ (returned, b)
    pub recording :
        (entries : List Entry) (step : ℕ)
        → record_messages c normalize_role should_store store_message entries step b ≡ (returned, b)
    pub finalizing : finalize c perform final_dump write_memory_json close b ≡ (returned, b)

  finalized-IsDormant : (b : Backend I) → b.finalized ≡ true → IsDormant b
  unfolding recall_context maybe_extract maybe_rewrite record_messages finalize
  finalized-IsDormant b h = record {
    recall = λ n.
        ap
          (λ (x : Bool).
            if x
            then (if b.search_dirty
                then search_anew c net serializable search n b
                else (serve_cached b, b))
            else (nothing, b))
          (recall_off c b h);
    extract = λ step.
        ap
          (λ (x : Bool).
            if x then extract_once c perform (at step) (enter_bucket c step b) else (returned, b))
          (extract_off c step b h);
    rewrite = λ step.
        ap
          (λ (x : Bool).
            if x
            then contain_rewrite c step (
                rewrite_query c call step
                  (record b { last_rewrite_bucket = step / c.rewrite_every_n_steps }))
            else (returned, b))
          (rewrite_off c step b h);
    recording = λ entries step.
        ap
          (λ (x : Bool).
            if x
            then record_all c normalize_role should_store store_message step entries b
            else (returned, b))
          (closed_pair b.available b.finalized h);
    finalizing =
        ap
          (λ (x : Bool).
            if x then (returned, b) else tear_down c perform final_dump write_memory_json close b)
          h;
  }

  -- The integration never reopens a finalized backend.
  pub record KeepsFinalized : Type 0 where
    pub by_perform : (s : Step) (b : Backend I) → (perform s b).1.finalized ≡ b.finalized
    pub by_dump : (b : Backend I) → (final_dump b).1.finalized ≡ b.finalized
    pub by_close : (b : Backend I) → (close b).1.finalized ≡ b.finalized

  flush-finalized :
      (b : Backend I)
      → KeepsFinalized
      → (flush c perform final_dump write_memory_json close b).1.finalized ≡ b.finalized
  unfolding flush extract_once
  flush-finalized b k =
      same_if b.available _ _
        (same_if b.available _ _
          ((settle-SameSchedule c final b.counts.extraction_calls (perform final b).0
              (perform final b).1).finalized
            ∙ k.by_perform final b)
          refl)
        refl
    where
      same_if :
          {A : Type 0} (t : Bool) (x y : A × Backend I)
          → x.1.finalized ≡ b.finalized
          → y.1.finalized ≡ b.finalized
          → (if t then x else y).1.finalized ≡ b.finalized
      same_if true x y p q = p
      same_if false x y p q = q

  settle_dump-finalized :
      (first : Option Exn) (d : Dumped) (b : Backend I)
      → (settle_dump first (d, b)).2.finalized ≡ b.finalized
  unfolding settle_dump
  settle_dump-finalized first (dumped memories) b = refl
  settle_dump-finalized first (dump_raised e) b = refl

  dump-finalized :
      (first : Option Exn) (b : Backend I)
      → KeepsFinalized
      → (dump c perform final_dump write_memory_json close first b).2.finalized ≡ b.finalized
  unfolding dump
  dump-finalized first b k = elim (Bool-cases b.available) [
    | inl e ↦
        ap
          (λ (x : Bool).
            (if x then settle_dump first (final_dump b) else ([], first, b)).2.finalized)
          e
        ∙ settle_dump-finalized first (final_dump b).0 (final_dump b).1
        ∙ k.by_dump b
    | inr e ↦
        ap
          (λ (x : Bool).
            (if x then settle_dump first (final_dump b) else ([], first, b)).2.finalized)
          e
  ]

  tear_down-finalized :
      (b : Backend I)
      → KeepsFinalized
      → (tear_down c perform final_dump write_memory_json close b).1.finalized ≡ true
  unfolding tear_down write_and_close
  tear_down-finalized b k =
      let b0 : Backend I = record b { finalized = true } in
      let (first, b1) = flush c perform final_dump write_memory_json close b0 in
      let (memories, first', b2) = dump c perform final_dump write_memory_json close first b1 in
      k.by_close b2 ∙ dump-finalized first b1 k ∙ flush-finalized b0 k

  -- After `finalize` recall injects nothing, and neither it nor a periodic tick, a recording or a second
  -- `finalize` changes anything or raises, `strict` or not. The integration must never clear the
  -- flag.
  pub finalize-IsDormant :
      (b : Backend I)
      → KeepsFinalized
      → IsDormant (finalize c perform final_dump write_memory_json close b).1
  unfolding finalize
  finalize-IsDormant b k = finalized-IsDormant _ (elim (Bool-cases b.finalized) [
    | inl e ↦
        ap
          (λ (x : Bool).
            (if x
              then (returned, b)
              else tear_down c perform final_dump write_memory_json close b).1.finalized)
          e
        ∙ e
    | inr e ↦
        ap
          (λ (x : Bool).
            (if x
              then (returned, b)
              else tear_down c perform final_dump write_memory_json close b).1.finalized)
          e
        ∙ tear_down-finalized b k
  ])
