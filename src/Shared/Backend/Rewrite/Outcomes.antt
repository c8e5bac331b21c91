-- ===== src/Shared/Backend/Rewrite/Outcomes.antt =====
-- What a rewrite tick does to the recall query and to the recall cache
-- (shared-bridge/src/shared_bridge/backend.py, `maybe_rewrite` and `_rewrite_query`).
use mathlib.Core.Path.{subst, sym}
use memory_bridge.Base.{
  ℕ, ◌+◌, ◌/◌, ◌≡◌, refl, ◌∙◌, ap, Bool, true, List, some, Str, if◌then◌else◌, arith,
}
use memory_bridge.Shared.Config.{MemoryConfig}
use memory_bridge.Shared.Integration.{Integration}
use memory_bridge.Shared.Backend.State.{returned, Backend}
use memory_bridge.Shared.Backend.Rewrite.{
  Structured, value, no_value, call_raised, adopt_query, register_rewrite_failure, rewrite_failure,
  rewrite_due, contain_rewrite, settle_call, rewrite_call, rewrite_query, maybe_rewrite,
}

module _ {I : Integration} where
  -- The query that recall uses, where it comes from, and the cache.
  pub record SameQuery (b b' : Backend I) : Type 0 where
    pub current_query : b'.current_query ≡ b.current_query
    pub query_source : b'.query_source ≡ b.query_source
    pub search_dirty : b'.search_dirty ≡ b.search_dirty

  SameQuery-trans : {a b d : Backend I} → SameQuery a b → SameQuery b d → SameQuery a d
  SameQuery-trans p q = record {
    current_query = q.current_query ∙ p.current_query;
    query_source = q.query_source ∙ p.query_source;
    search_dirty = q.search_dirty ∙ p.search_dirty;
  }

module _ {I : Integration} (c : MemoryConfig I.Score) where
  rewrite_failure-SameQuery :
      (step : ℕ) (message : Str) (b : Backend I) → SameQuery b (rewrite_failure c step message b)
  unfolding rewrite_failure register_rewrite_failure
  rewrite_failure-SameQuery step message b = ground arith

  -- What an answer of the side model does to the query and the cache.
  abbrev pub Rewritten : Structured → Backend I → Backend I → Type 0
  Rewritten (value query) b b' = (b'.current_query ≡ some query) × (b'.search_dirty ≡ true)
  Rewritten (no_value message) b b' = SameQuery b b'
  Rewritten (call_raised e) b b' = SameQuery b b'

  settle_call-Rewritten :
      (step : ℕ) (r : Structured) (b b' : Backend I)
      → SameQuery b b'
      → Rewritten r b (contain_rewrite c step (settle_call c step r b')).1
  unfolding contain_rewrite settle_call adopt_query
  settle_call-Rewritten step (value query) b b' k = (refl, refl)
  settle_call-Rewritten step (no_value message) b b' k =
      SameQuery-trans k (rewrite_failure-SameQuery step message b')
  settle_call-Rewritten step (call_raised e) b b' k =
      SameQuery-trans k (rewrite_failure-SameQuery step e.message b')

  -- A due rewrite tick follows the side model's answer: a rewritten query replaces the recall query
  -- and marks the cache dirty; where the call fails or raises, the query, its source and the flag
  -- stay, so that recall goes on as before.
  pub maybe_rewrite-Rewritten :
      (call : Str → List (Str × Str) → Structured × ℕ) (step : ℕ) (b : Backend I)
      → rewrite_due c step b ≡ true
      → b.rewrite_enabled ≡ true
      → Rewritten (rewrite_call c call b).0 b (maybe_rewrite c call step b).1
  unfolding maybe_rewrite rewrite_query
  maybe_rewrite-Rewritten call step b due on =
      let entered : Backend I = record b { last_rewrite_bucket = step / c.rewrite_every_n_steps } in
      let (result, seconds) = rewrite_call c call b in
      let called : Backend I = record entered {
        counts = record b.counts { rewrite_calls = b.counts.rewrite_calls + 1 };
        io_duration = b.io_duration + seconds;
      } in
      let kept : SameQuery b called = record {
        current_query = refl;
        query_source = refl;
        search_dirty = refl;
      } in
      let ticked =
        ap
          (λ (x : Bool).
            (if x
              then contain_rewrite c step (rewrite_query c call step entered)
              else (returned, b)).1)
          due in
      let asked =
        ap
          (λ (x : Bool).
            (contain_rewrite c step
              (if x then settle_call c step result called else (returned, entered))).1)
          on in
      subst (Rewritten result b) (sym (ticked ∙ asked))
        (settle_call-Rewritten step result b called kept)
