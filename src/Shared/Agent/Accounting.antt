-- ===== src/Shared/Agent/Accounting.antt =====
-- The recall counters follow the placed blocks (shared-bridge/src/shared_bridge/agent.py, `query`).
use mathlib.Core.Path.{sym, subst}
use memory_bridge.Base.{
  ℕ, ◌+◌, ◌≡◌, refl, ◌∙◌, ap, Bool, true, false, ◌&&◌, List, [], Option, none, some, if◌then◌else◌,
  ltb, arith,
}
use memory_bridge.Shared.Config.{MemoryConfig}
use memory_bridge.Shared.Integration.{Integration}
use memory_bridge.Shared.Annotate.{Net, PostResult}
use memory_bridge.Shared.Backend.State.{
  Lane, main, Outcome, returned, raised, Reason, OperationTrace, AnnotationEvent, TraceState,
  Counts, Backend,
}
use memory_bridge.Shared.Backend.Trace.{post_to}
use memory_bridge.Shared.Backend.Delivery.{
  Delivery, close_delivery, cursor_from, main_lane_cursor, post_delivery, place_delivery,
  deliver_cited, deliver_from, deliver_recall, note_recall, note_undelivered_recall,
}
use memory_bridge.Shared.Agent.{Agent, Placed, deliver_unless, probe, account_from, withdraw}

module _ {I : Integration} where
  counts_if :
      (x : Bool) (k : Counts) (b d : Backend I)
      → b.counts ≡ k
      → d.counts ≡ k
      → (if x then b else d).counts ≡ k
  counts_if true k b d p q = p
  counts_if false k b d p q = q

  counts_read :
      (x : Bool) (k : Counts) (p q : Option ℕ × Backend I)
      → p.1.counts ≡ k
      → q.1.counts ≡ k
      → (if x then p else q).1.counts ≡ k
  counts_read true k p q h g = h
  counts_read false k p q h g = g

  counts-close_delivery :
      (step : ℕ) (result : PostResult) (b : Backend I)
      → (close_delivery step result b).counts ≡ b.counts
  unfolding close_delivery
  counts-close_delivery step result b = counts_if result.ok _ _ _ refl refl

  -- The backend after the accounting of a block, by whether a call was attempted: one more
  -- injection, and one more cache hit for a cached block.
  abbrev pub Counted : Placed I → Bool → Backend I → Option (Backend I) → Type 0
  Counted p attempted b none = ⊥
  Counted p attempted b (some b') =
      (b'.counts.recall_injections ≡ b.counts.recall_injections + (if attempted then 1 else 0))
      × (b'.counts.recall_cache_hits
          ≡ b.counts.recall_cache_hits + (if attempted && p.cached then 1 else 0))

module _ {I : Integration} (c : MemoryConfig I.Score) (net : Net)
    (serializable : List (AnnotationEvent I) → Bool) where
  counts-post_to :
      (lane : Lane) (events : List (AnnotationEvent I)) (t : TraceState I) (b : Backend I)
      → (post_to c net serializable lane events t b).1.counts ≡ b.counts
  unfolding post_to
  counts-post_to lane events t b = counts_if _ _ _ _ refl refl

  counts-cursor_from :
      (t : Option (TraceState I)) (b : Backend I)
      → (cursor_from c net serializable t b).1.counts ≡ b.counts
  unfolding cursor_from
  counts-cursor_from none b = refl
  counts-cursor_from (some t) b =
      counts_read (t.session_open && t.delivery_enabled) _ _ _ (counts-post_to main [] t b) refl

  counts-main_lane_cursor :
      (b : Backend I) → (main_lane_cursor c net serializable b).1.counts ≡ b.counts
  unfolding main_lane_cursor
  counts-main_lane_cursor b = counts-cursor_from b.trace b

  counts-place_delivery :
      (d : Delivery I) (operation : OperationTrace) (i k : Option ℕ) (refs : Option (List I.Ref))
      (t : TraceState I) (b : Backend I)
      → (place_delivery c net serializable d operation i k refs t b).counts ≡ b.counts
  unfolding place_delivery post_delivery
  counts-place_delivery d operation (some i) (some k) (some refs) t b =
      counts-close_delivery d.step _ _ ∙ counts-post_to main _ t _
  counts-place_delivery d operation (some i) (some k) none t b = refl
  counts-place_delivery d operation (some i) none refs t b = refl
  counts-place_delivery d operation none k refs t b = refl

  counts-deliver_cited :
      (d : Delivery I) (operation : Option OperationTrace) (t : TraceState I) (b : Backend I)
      → (deliver_cited c net serializable d operation t b).counts ≡ b.counts
  unfolding deliver_cited
  counts-deliver_cited d none t b = refl
  counts-deliver_cited d (some operation) t b = counts-place_delivery d operation _ _ _ t b

  counts-deliver_from :
      (d : Delivery I) (t : Option (TraceState I)) (b : Backend I)
      → (deliver_from c net serializable d t b).counts ≡ b.counts
  unfolding deliver_from
  counts-deliver_from d none b = refl
  counts-deliver_from d (some t) b =
      counts_if (t.session_open && t.delivery_enabled) _ _ _ (counts-deliver_cited d _ _ _) refl

  counts-deliver_unless :
      (d : Delivery I) (reason : Option Reason) (b : Backend I)
      → (deliver_unless (deliver_recall c net serializable) d reason b).counts ≡ b.counts
  unfolding deliver_unless deliver_recall note_undelivered_recall
  counts-deliver_unless d none b = counts-deliver_from d b.trace b
  counts-deliver_unless d (some reason) b = refl

  counts-probe :
      (o : Outcome) (read : Option ℕ) (b : Backend I)
      → (probe c net serializable o read b).1.counts ≡ b.counts
  unfolding probe
  counts-probe returned read b = refl
  counts-probe (raised e) none b = refl
  counts-probe (raised e) (some read) b = counts-main_lane_cursor b

  account_from-Counted :
      (p : Placed I) (o : Outcome) (step : ℕ) (b : Backend I)
      → Counted p true b (account_from c net serializable p o step (some b))
  unfolding account_from note_recall
  account_from-Counted p o step b =
      let noted = note_recall p.recall p.cached step b in
      let k =
        counts-deliver_unless _ (probe c net serializable o p.read_cursor noted).0
          (probe c net serializable o p.read_cursor noted).1
        ∙ counts-probe o p.read_cursor noted in
      (ap (λ (n : Counts). n.recall_injections) k, ap (λ (n : Counts). n.recall_cache_hits) k)

  -- A placed block counts as one injection, and as a cache hit too if it is from the cache, exactly
  -- if a model call was attempted: whether the query returned or raised, and whatever becomes of
  -- the delivery.
  pub withdraw-Counted :
      (p : Placed I) (calls_before : ℕ) (o : Outcome) (b : Backend I) (a : Agent I)
      → a.mem ≡ some b
      → Counted p
          (ltb calls_before a.n_calls)
          b
          (withdraw c net serializable (some p) calls_before o a).mem
  unfolding withdraw
  withdraw-Counted p calls_before o b a h =
      subst
        (λ (m : Option (Backend I)). Counted p (ltb calls_before a.n_calls) b (
          if ltb calls_before a.n_calls
          then account_from c net serializable p o a.n_calls m
          else m))
        (sym h) (go (ltb calls_before a.n_calls))
    where
      go :
          (x : Bool)
          → Counted p x b
              (if x then account_from c net serializable p o a.n_calls (some b) else some b)
      go true = account_from-Counted p o a.n_calls b
      go false = (omega arith, omega arith)
