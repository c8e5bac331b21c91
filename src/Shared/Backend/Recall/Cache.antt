-- ===== src/Shared/Backend/Recall/Cache.antt =====
-- The dirty-flag search cache of `recall_context`.
use mathlib.Core.Path.{ap₂, subst}
use memory_bridge.Base.{
  some, ℕ, ◌≡◌, sym, ap, ◌∙◌, Bool, true, false, List, Option, none, some, if◌then◌else◌,
  Bool-cases, inl, inr,
}
use memory_bridge.Shared.Config.{MemoryConfig}
use memory_bridge.Shared.Integration.{Integration}
use memory_bridge.Shared.Annotate.{Net}
use memory_bridge.Shared.Backend.State.{Exn, OperationTrace, AnnotationEvent, Backend}
use memory_bridge.Shared.Backend.Trace.{recall_search}
use memory_bridge.Shared.Backend.Trace.Frame.{
  SameRecall, SameRecall-trans, recall_search-SameRecall,
}
use memory_bridge.Shared.Backend.Recall.{
  render_hits, rendering_raises, Searched, found, search_raised, Recalled, nothing, recall_raised,
  recall_ready, serve_cached, gate, recall_failed, settle_search, spend, search_anew,
  recall_context,
}
use memory_bridge.Shared.Backend.Recall.Frame.{
  SameReady, as_cached, IsCached, as-IsCached-serve_cached, SameReady-refl, SameReady-trans,
  SameReady-of, spend-SameRecall, ready-SameReady, deliver_hits-IsCached, recall_failed-SameRecall,
  gate-answer,
}

module _ {I : Integration} (c : MemoryConfig I.Score) (net : Net)
    (serializable : List (AnnotationEvent I) → Bool)
    (search : Backend I → Searched I × ℕ × Backend I) where
  -- The integration's search leaves to the base what recall reads.
  pub record KeepsRecall : Type 0 where
    pub same : (b : Backend I) → SameRecall b (search b).2

  -- The state that the search is settled in.
  searched : ℕ → Backend I → Backend I
  searched planned_step b =
      let (_, b') = recall_search c net serializable planned_step b in
      let (_, seconds, b'') = search b' in spend seconds b''

  searched-SameRecall :
      (planned_step : ℕ) (b : Backend I) → KeepsRecall → SameRecall b (searched planned_step b)
  unfolding searched
  searched-SameRecall planned_step b k =
      SameRecall-trans (recall_search-SameRecall c net serializable planned_step b) (
        SameRecall-trans (k.same (recall_search c net serializable planned_step b).1)
          (spend-SameRecall _ _))

  -- What holds of an answer and the backend after it.
  abbrev Settled : Backend I → Recalled I × Backend I → Type 0
  Settled b x = SameReady b x.1 × (x.1.search_dirty ≡ false → IsCached x)

  failed-Settled :
      (token : Option OperationTrace) (e : Exn) (b : Backend I)
      → b.search_dirty ≡ true
      → Settled b (recall_failed c net serializable token e b)
  failed-Settled token e b dirty =
      let s = recall_failed-SameRecall c net serializable token e b in
      (SameReady-of s, λ clean. cc (s.search_dirty, dirty, clean))

  render_hits-Settled :
      (token : Option OperationTrace) (raises : Option Exn) (hits : List I.Hit) (b : Backend I)
      → b.search_dirty ≡ true
      → Settled b (render_hits c net serializable token raises hits b)
  unfolding render_hits
  render_hits-Settled token none hits b dirty =
      let (p, q) = deliver_hits-IsCached c net serializable token hits b in (q, λ _. p)
  render_hits-Settled token (some e) hits b dirty = failed-Settled token e b dirty

  -- What a settled search leaves: the guards' fields, and a clean backend serves its answer.
  settle_search-IsCached :
      (token : Option OperationTrace) (reply : Searched I) (b : Backend I)
      → b.search_dirty ≡ true
      → SameReady b (settle_search c net serializable token reply b).1
        × ((settle_search c net serializable token reply b).1.search_dirty ≡ false
            → IsCached (settle_search c net serializable token reply b))
  unfolding settle_search
  settle_search-IsCached token (found hits) b dirty =
      render_hits-Settled token (rendering_raises I c b.session_id hits) hits b dirty
  settle_search-IsCached token (search_raised e) b dirty = failed-Settled token e b dirty

  search_anew-IsCached :
      (planned_step : ℕ) (b : Backend I)
      → KeepsRecall
      → b.search_dirty ≡ true
      → SameReady b (search_anew c net serializable search planned_step b).1
        × ((search_anew c net serializable search planned_step b).1.search_dirty ≡ false
            → IsCached (search_anew c net serializable search planned_step b))
  unfolding search_anew searched
  search_anew-IsCached planned_step b k dirty =
      let same = searched-SameRecall planned_step b k in
      let (p, q) =
        settle_search-IsCached (recall_search c net serializable planned_step b).0
          (search (recall_search c net serializable planned_step b).1).0 (searched planned_step b)
          (same.search_dirty ∙ dirty) in
      (SameReady-trans (SameReady-of same) p, q)

  by_flags : ℕ → Backend I → Bool → Bool → Recalled I × Backend I
  by_flags planned_step b ready dirty =
      if ready
      then (if dirty
          then search_anew c net serializable search planned_step b
          else (serve_cached b, b))
      else (nothing, b)

  recall_context_clean :
      (planned_step : ℕ) (b : Backend I)
      → recall_ready c b ≡ true
      → b.search_dirty ≡ false
      → recall_context c net serializable search planned_step b ≡ (serve_cached b, b)
  unfolding recall_context by_flags
  recall_context_clean planned_step b ready clean = ap₂ (by_flags planned_step b) ready clean

  recall_context_dirty :
      (planned_step : ℕ) (b : Backend I)
      → recall_ready c b ≡ true
      → b.search_dirty ≡ true
      → recall_context c net serializable search planned_step b
        ≡ search_anew c net serializable search planned_step b
  unfolding recall_context by_flags
  recall_context_dirty planned_step b ready dirty = ap₂ (by_flags planned_step b) ready dirty

  recall_context-Settled :
      (n : ℕ) (b : Backend I)
      → KeepsRecall
      → recall_ready c b ≡ true
      → Settled b (recall_context c net serializable search n b)
  recall_context-Settled n b k ready = elim (Bool-cases b.search_dirty) [
    | inl dirty ↦
        subst (Settled b) (sym (recall_context_dirty n b ready dirty))
          (search_anew-IsCached n b k dirty)
    | inr clean ↦
        subst (Settled b) (sym (recall_context_clean n b ready clean))
          (SameReady-refl b, λ _. as-IsCached-serve_cached b)
  ]

  -- Recalling again after a recall that left the flag clean runs no search: it returns the same
  -- answer, marked as cached, and leaves the backend as it is. Recall must be ready, and the
  -- integration's search must leave the fields of recall to the base.
  pub recall_context-again :
      (n m : ℕ) (b : Backend I)
      → KeepsRecall
      → recall_ready c b ≡ true
      → (recall_context c net serializable search n b).1.search_dirty ≡ false
      → recall_context c net serializable search m (recall_context c net serializable search n b).1
        ≡ (
          as_cached (recall_context c net serializable search n b).0,
          (recall_context c net serializable search n b).1,
        )
  recall_context-again n m b k ready clean =
      let (same, cached) = recall_context-Settled n b k ready in
      recall_context_clean m (recall_context c net serializable search n b).1
        (ready-SameReady c b _ same ∙ ready) clean
      ∙ ap (λ (r : Recalled I). (r, (recall_context c net serializable search n b).1))
          (cached clean)

  anew_failed :
      (n : ℕ) (b : Backend I) (e : Exn)
      → (search (recall_search c net serializable n b).1).0 ≡ search_raised e
      → search_anew c net serializable search n b
        ≡ recall_failed c net serializable (recall_search c net serializable n b).0 e (searched n b)
  unfolding search_anew settle_search searched
  anew_failed n b e raises =
      ap
        (λ (r : Searched I).
          settle_search c net serializable (recall_search c net serializable n b).0 r
            (searched n b))
        raises

  abbrev Failed : Backend I → Exn → Recalled I × Backend I → Type 0
  Failed b e x =
      (x.0 ≡ (if c.strict then recall_raised e else nothing))
      × (x.1.search_dirty ≡ true)
      × (x.1.cached_recall ≡ b.cached_recall)

  -- A search that raises is never cached. Where recall is ready and the flag is dirty, and the
  -- integration's search leaves the fields of recall to the base, recall returns nothing, or raises
  -- under `strict`, and the flag and the memoized answer stay.
  pub recall_context_failed :
      (n : ℕ) (b : Backend I) (e : Exn)
      → KeepsRecall
      → recall_ready c b ≡ true
      → b.search_dirty ≡ true
      → (search (recall_search c net serializable n b).1).0 ≡ search_raised e
      → ((recall_context c net serializable search n b).0
          ≡ (if c.strict then recall_raised e else nothing))
        × ((recall_context c net serializable search n b).1.search_dirty ≡ true)
        × ((recall_context c net serializable search n b).1.cached_recall ≡ b.cached_recall)
  unfolding recall_failed gate
  recall_context_failed n b e k ready dirty raises =
      subst (Failed b e) (sym (recall_context_dirty n b ready dirty ∙ anew_failed n b e raises))
        (gate-answer c.strict e _, same.search_dirty ∙ dirty, same.cached_recall)
    where
      same :
          SameRecall b
            (recall_failed c net serializable
              (recall_search c net serializable n b).0
              e
              (searched n b)).1
      same =
          SameRecall-trans (searched-SameRecall n b k)
            (recall_failed-SameRecall c net serializable _ e (searched n b))
