-- ===== src/Shared/Backend/Finalize/Contained.antt =====
-- Without `strict` the errors of the hooks are contained
-- (shared-bridge/src/shared_bridge/backend.py).
use memory_bridge.Base.{
  arith, ℕ, ◌≡◌, refl, ap, Bool, true, false, List, [], ◌∷◌, Option, none, some, Str, if◌then◌else◌,
}
use memory_bridge.Shared.Config.{MemoryConfig}
use memory_bridge.Shared.Integration.{Integration}
use memory_bridge.Shared.Annotate.{Net}
use memory_bridge.Shared.Recall.{Fill}
use memory_bridge.Shared.Recall.Raised.{rendering_raises}
use memory_bridge.Shared.Backend.State.{
  Step, at, Exn, Outcome, returned, raised, OperationTrace, AnnotationEvent, Backend,
}
use memory_bridge.Shared.Backend.Recall.{
  render_hits, Searched, found, search_raised, Recalled, nothing, injected, recall_raised,
  recall_ready, conclude, deliver_hits, gate, recall_failed, settle_search, search_anew,
  serve_cached, recall_context,
}
use memory_bridge.Shared.Backend.Extract.{extract_once, maybe_extract, settle_extraction}
use memory_bridge.Shared.Backend.Rewrite.{Structured, contain_rewrite, maybe_rewrite}
use memory_bridge.Shared.Backend.Record.{
  Entry, not_a_dict, dict, Stored, stored, store_raised, settle_store, record_message, record_entry,
  unless_raised, record_all, record_messages,
}
use memory_bridge.Shared.Backend.Finalize.{
  Dumped, raise_first, write_and_close, tear_down, finalize,
}

abbrev pub is_raised : {I : Integration} → Recalled I → Bool
is_raised nothing = false
is_raised (injected payload cached) = false
is_raised (recall_raised e) = true

module _ {I : Integration} where
  abbrev Quiet : Outcome × Backend I → Type 0
  Quiet r = r.0 ≡ returned

  Quiet-if : (x : Bool) (p q : Outcome × Backend I) → Quiet p → Quiet q → Quiet (if x then p else q)
  Quiet-if true p q h g = h
  Quiet-if false p q h g = g

  unless_raised-Quiet :
      (o : Outcome) (rest : Outcome × Backend I) (b : Backend I)
      → o ≡ returned
      → Quiet rest
      → Quiet (unless_raised o rest b)
  unfolding unless_raised
  unless_raised-Quiet returned rest b h g = g
  unless_raised-Quiet (raised e) rest b h g = h

  conclude_quiet :
      (token : Option OperationTrace) (hits : List I.Hit) (acc : Fill I) (b : Backend I)
      → is_raised (conclude token hits acc b).0 ≡ false
  unfolding conclude
  conclude_quiet token [] acc b = refl
  conclude_quiet token (hit ∷ hits) acc b = refl

  gate_quiet :
      (strict : Bool) (e : Exn) (b : Backend I)
      → strict ≡ false
      → is_raised (gate strict e b).0 ≡ false
  unfolding gate
  gate_quiet true e b h = h
  gate_quiet false e b h = refl

  serve_quiet : (b : Backend I) → is_raised (serve_cached b) ≡ false
  unfolding serve_cached
  serve_quiet b = ground arith

  raised_if :
      (x y : Bool) (p q r : Recalled I × Backend I)
      → is_raised p.0 ≡ false
      → is_raised q.0 ≡ false
      → is_raised r.0 ≡ false
      → is_raised (if x then (if y then p else q) else r).0 ≡ false
  raised_if true true p q r h g k = h
  raised_if true false p q r h g k = g
  raised_if false y p q r h g k = k

raise_first_quiet :
    (strict : Bool) (o : Option Exn) → strict ≡ false → raise_first strict o ≡ returned
unfolding raise_first
raise_first_quiet strict none h = refl
raise_first_quiet strict (some e) h = ap (λ (x : Bool). if x then raised e else returned) h

module _ {I : Integration} (c : MemoryConfig I.Score) where
  settle_extraction-Quiet :
      (step : Step) (n : ℕ) (o : Outcome) (b : Backend I)
      → c.strict ≡ false
      → Quiet (settle_extraction c step n (o, b))
  unfolding settle_extraction
  settle_extraction-Quiet step n returned b h = refl
  settle_extraction-Quiet step n (raised e) b h =
      ap (λ (x : Bool). if x then raised e else returned) h

  contain_rewrite-Quiet :
      (step : ℕ) (o : Outcome) (b : Backend I)
      → c.strict ≡ false
      → Quiet (contain_rewrite c step (o, b))
  unfolding contain_rewrite
  contain_rewrite-Quiet step returned b h = refl
  contain_rewrite-Quiet step (raised e) b h = ap (λ (x : Bool). if x then raised e else returned) h

module _ {I : Integration} (c : MemoryConfig I.Score) (normalize_role : Str → Str)
    (should_store : Str → Bool)
    (store_message : Str → Str → ℕ → Backend I → Stored × Backend I) where
  settle_store-Quiet :
      (step : ℕ) (role text : Str) (r : Stored) (b : Backend I)
      → c.strict ≡ false
      → Quiet (settle_store c normalize_role should_store store_message step role text (r, b))
  unfolding settle_store
  settle_store-Quiet step role text (stored id) b h = refl
  settle_store-Quiet step role text (store_raised e) b h =
      ap (λ (x : Bool). if x then raised e else returned) h

  record_entry-Quiet :
      (step : ℕ) (entry : Entry) (b : Backend I)
      → c.strict ≡ false
      → Quiet (record_entry c normalize_role should_store store_message step entry b)
  unfolding record_entry record_message
  record_entry-Quiet step not_a_dict b h = refl
  record_entry-Quiet step (dict m) b h =
      Quiet-if m.transient_recall _ _ refl
        (Quiet-if (should_store _) _ _ (settle_store-Quiet step _ _ _ _ h) refl)

  record_all-Quiet :
      (step : ℕ) (entries : List Entry) (b : Backend I)
      → c.strict ≡ false
      → Quiet (record_all c normalize_role should_store store_message step entries b)
  unfolding record_all
  record_all-Quiet step [] b h = refl
  record_all-Quiet step (entry ∷ entries) b h =
      let (o, b') = record_entry c normalize_role should_store store_message step entry b in
      unless_raised-Quiet o (record_all c normalize_role should_store store_message step entries b')
        b' (record_entry-Quiet step entry b h) (record_all-Quiet step entries b' h)

module _ {I : Integration} (c : MemoryConfig I.Score) (net : Net)
    (serializable : List (AnnotationEvent I) → Bool)
    (search : Backend I → Searched I × ℕ × Backend I) where
  render_hits_quiet :
      (token : Option OperationTrace) (raises : Option Exn) (hits : List I.Hit) (b : Backend I)
      → c.strict ≡ false
      → is_raised (render_hits c net serializable token raises hits b).0 ≡ false
  unfolding render_hits deliver_hits recall_failed
  render_hits_quiet token none hits b h = conclude_quiet token _ _ _
  render_hits_quiet token (some e) hits b h = gate_quiet c.strict e _ h

  settle_search_quiet :
      (token : Option OperationTrace) (r : Searched I) (b : Backend I)
      → c.strict ≡ false
      → is_raised (settle_search c net serializable token r b).0 ≡ false
  unfolding settle_search recall_failed
  settle_search_quiet token (found hits) b h =
      render_hits_quiet token (rendering_raises I c b.session_id hits) hits b h
  settle_search_quiet token (search_raised e) b h = gate_quiet c.strict e _ h

  search_anew_quiet :
      (n : ℕ) (b : Backend I)
      → c.strict ≡ false
      → is_raised (search_anew c net serializable search n b).0 ≡ false
  unfolding search_anew
  search_anew_quiet n b h = settle_search_quiet _ _ _ h

  recall_quiet :
      (n : ℕ) (b : Backend I)
      → c.strict ≡ false
      → is_raised (recall_context c net serializable search n b).0 ≡ false
  unfolding recall_context
  recall_quiet n b h =
      raised_if (recall_ready c b) b.search_dirty _ _ _ (search_anew_quiet n b h) (serve_quiet b)
        refl

module _ {I : Integration} (c : MemoryConfig I.Score) (net : Net)
    (serializable : List (AnnotationEvent I) → Bool)
    (search : Backend I → Searched I × ℕ × Backend I)
    (perform : Step → Backend I → Outcome × Backend I)
    (call : Str → List (Str × Str) → Structured × ℕ) (normalize_role : Str → Str)
    (should_store : Str → Bool) (store_message : Str → Str → ℕ → Backend I → Stored × Backend I)
    (final_dump : Backend I → Dumped × Backend I)
    (write_memory_json : List Str → Backend I → Outcome)
    (close : Backend I → Outcome × Backend I) where
  -- No operation raises.
  pub record IsContained (b : Backend I) : Type 0 where
    pub recall : (n : ℕ) → is_raised (recall_context c net serializable search n b).0 ≡ false
    pub extract : (step : ℕ) → (maybe_extract c perform step b).0 ≡ returned
    pub rewrite : (step : ℕ) → (maybe_rewrite c call step b).0 ≡ returned
    pub recording :
        (entries : List Entry) (step : ℕ)
        → (record_messages c normalize_role should_store store_message entries step b).0 ≡ returned
    pub finalizing : (finalize c perform final_dump write_memory_json close b).0 ≡ returned

  -- Without `strict`, recall, both periodic ticks, recording and `finalize` return in any state,
  -- whatever the search, the rendering hooks, the extraction, the rewriting call, the storing, the
  -- dump, the write of memory.json and the close raise.
  pub lenient-IsContained : (b : Backend I) → c.strict ≡ false → IsContained b
  unfolding maybe_extract extract_once maybe_rewrite record_messages finalize tear_down
      write_and_close
  lenient-IsContained b h = record {
    recall = λ n. recall_quiet c net serializable search n b h;
    extract = λ step.
        Quiet-if _ _ _ (Quiet-if b.available _ _ (settle_extraction-Quiet c (at step) _ _ _ h) refl)
          refl;
    rewrite = λ step. Quiet-if _ _ _ (contain_rewrite-Quiet c step _ _ h) refl;
    recording = λ entries step.
        Quiet-if _ _ _
          (record_all-Quiet c normalize_role should_store store_message step entries b h) refl;
    finalizing = Quiet-if b.finalized _ _ refl (raise_first_quiet c.strict _ h);
  }
