-- ===== src/Shared/Backend/Delivery/Once.antt =====
-- A fresh block is delivered once for its search
-- (shared-bridge/src/shared_bridge/backend.py, `deliver_recall`).
use memory_bridge.Base.{
  ℕ, ◌≡◌, refl, ◌∙◌, ap, Bool, true, false, ◌&&◌, ◌||◌, not, List, Option, none, some,
  if◌then◌else◌, Bool-cases, inl, inr, arith,
}
use memory_bridge.Shared.Config.{MemoryConfig}
use memory_bridge.Shared.Integration.{Integration}
use memory_bridge.Shared.Annotate.{Net, PostResult}
use memory_bridge.Shared.Backend.State.{main, OperationTrace, AnnotationEvent, TraceState, Backend}
use memory_bridge.Shared.Backend.Delivery.{
  Delivery, stop_delivery, close_delivery, cited, post_delivery, place_delivery, deliver_cited,
  deliver_from, deliver_recall,
}
use memory_bridge.Shared.Backend.Delivery.Posted.{requests_of, post_to-Posted}

module _ {I : Integration} where
  -- No search waits for its delivery.
  abbrev settled_of : Option (TraceState I) → Bool
  settled_of none = true
  settled_of (some t) =
      not (t.session_open && t.delivery_enabled)
      || elim t.pending_search [ none ↦ true | some token ↦ false ]

  close_delivery-settled :
      (step : ℕ) (result : PostResult) (b : Backend I) (t : TraceState I)
      → b.trace ≡ some t
      → t.pending_search ≡ none
      → settled_of (close_delivery step result b).trace ≡ true
  unfolding close_delivery stop_delivery
  close_delivery-settled step result b t h p = elim (Bool-cases result.ok) [
    | inl e ↦ rw e (rw h (ground arith))
    | inr e ↦ rw e (rw h (ground arith))
  ]

module _ {I : Integration} (c : MemoryConfig I.Score) (net : Net)
    (serializable : List (AnnotationEvent I) → Bool) where
  post_delivery-settled :
      (d : Delivery I) (operation : OperationTrace) (msg_index read : ℕ) (refs : List I.Ref)
      (t : TraceState I) (b : Backend I)
      → t.pending_search ≡ none
      → settled_of (post_delivery c net serializable d operation msg_index read refs t b).trace
        ≡ true
  unfolding post_delivery
  post_delivery-settled d operation msg_index read refs t b h =
      let (t', p, q, r, s) = post_to-Posted c net serializable main _ t _ in
      close_delivery-settled d.step _ _ t' p (q ∙ h)

  place_delivery-settled :
      (d : Delivery I) (operation : OperationTrace) (msg_index read : Option ℕ)
      (refs : Option (List I.Ref)) (t : TraceState I) (b : Backend I)
      → t.pending_search ≡ none
      → b.trace ≡ some t
      → settled_of (place_delivery c net serializable d operation msg_index read refs t b).trace
        ≡ true
  unfolding place_delivery
  place_delivery-settled d operation (some i) (some k) (some refs) t b h e =
      post_delivery-settled d operation i k refs t b h
  place_delivery-settled d operation (some i) (some k) none t b h e = rw e (ground arith)
  place_delivery-settled d operation (some i) none refs t b h e = rw e (ground arith)
  place_delivery-settled d operation none k refs t b h e = rw e (ground arith)

  deliver_cited-settled :
      (d : Delivery I) (operation : Option OperationTrace) (t : TraceState I) (b : Backend I)
      → t.pending_search ≡ none
      → b.trace ≡ some t
      → settled_of (deliver_cited c net serializable d operation t b).trace ≡ true
  unfolding deliver_cited
  deliver_cited-settled d none t b h e = rw e (ground arith)
  deliver_cited-settled d (some operation) t b h e =
      place_delivery-settled d operation d.msg_index d.read_cursor _ t b h e

  deliver_from-settled :
      (d : Delivery I) (t : Option (TraceState I)) (b : Backend I)
      → b.trace ≡ t
      → settled_of (deliver_from c net serializable d t b).trace ≡ true
  unfolding deliver_from
  deliver_from-settled d none b h = rw h refl
  deliver_from-settled d (some t) b h = elim (Bool-cases (t.session_open && t.delivery_enabled)) [
    | inl e ↦ rw e (deliver_cited-settled d _ _ _ refl refl)
    | inr e ↦ rw e (rw h (ground arith))
  ]

  -- A delivery of a fresh block, where no search waits for one, posts nothing.
  deliver_from-idle :
      (d : Delivery I) (t : Option (TraceState I)) (b : Backend I)
      → b.trace ≡ t
      → d.cached ≡ false
      → settled_of t ≡ true
      → requests_of (deliver_from c net serializable d t b).trace ≡ requests_of b.trace
  unfolding deliver_from cited deliver_cited
  deliver_from-idle d none b h f s = refl
  deliver_from-idle d (some t) b h f s = elim (Bool-cases (t.session_open && t.delivery_enabled)) [
    | inl e ↦
        let cleared : TraceState I = record t { pending_search = none } in
        let ready : Backend I = record b { trace = some cleared } in
        rw (e, h)
          (ap
              (λ (x : Bool).
                requests_of
                  (deliver_cited c net serializable d
                    (if x then b.cached_anchor else t.pending_search) cleared ready).trace)
              f
            ∙ idle t.pending_search cleared ready (ground arith))
    | inr e ↦ rw e refl
  ]
    where
      idle :
          (o : Option OperationTrace) (t : TraceState I) (b : Backend I)
          → (elim o [ none ↦ true | some token ↦ false ]) ≡ true
          → requests_of (deliver_cited c net serializable d o t b).trace ≡ requests_of b.trace
      idle none t b s = refl
      idle (some token) t b s = ground arith

  -- Between two searches one block at most is delivered afresh: after any delivery, another one
  -- that is not of a cached block gives the annotator no request.
  pub deliver_recall-once :
      (d e : Delivery I) (b : Backend I)
      → e.cached ≡ false
      → requests_of
          (deliver_recall c net serializable e (deliver_recall c net serializable d b)).trace
        ≡ requests_of (deliver_recall c net serializable d b).trace
  unfolding deliver_recall
  deliver_recall-once d e b f =
      deliver_from-idle e _ (deliver_from c net serializable d b.trace b) refl f
        (deliver_from-settled d b.trace b refl)
