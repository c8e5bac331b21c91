-- ===== src/Shared/Backend/Delivery/Refusals.antt =====
-- Delivery tracing stops at the first refusal
-- (shared-bridge/src/shared_bridge/backend.py, `main_lane_cursor` and `deliver_recall`).
use mathlib.Core.Path.{ap₂}
use memory_bridge.Base.{
  ℕ, ◌+◌, ◌≤◌, ◌≡◌, refl, ◌∙◌, ap, sym, Bool, true, ◌&&◌, List, [], ◌∷◌, Option, none, some,
  if◌then◌else◌, Bool-cases, inl, inr, arith,
}
use memory_bridge.Shared.Config.{MemoryConfig}
use memory_bridge.Shared.Integration.{Integration}
use memory_bridge.Shared.Annotate.{Net, PostResult}
use memory_bridge.Shared.Backend.State.{
  main, at, delivery, annotation, OperationTrace, AnnotationEvent, TraceState, Backend,
}
use memory_bridge.Shared.Backend.Trace.{post_to}
use memory_bridge.Shared.Backend.Delivery.{
  memory_delivery, delivery_no_cursor, Delivery, refusal, stop_delivery, close_delivery, cited,
  cursor_from, main_lane_cursor, post_delivery, place_delivery, deliver_cited, deliver_from,
  deliver_recall,
}
use memory_bridge.Shared.Backend.Delivery.Posted.{
  weigh, refusals, refusals-append, weigh_refusal, post_to-Posted,
}

module _ {I : Integration} where
  abbrev enabled_of : Option (TraceState I) → ℕ
  enabled_of none = 0
  enabled_of (some t) = if t.delivery_enabled then 1 else 0

  -- Refusals so far, and one more while deliveries are on.
  abbrev potential : Backend I → ℕ
  potential b = refusals b.events + enabled_of b.trace

  close_delivery-potential :
      (step : ℕ) (result : PostResult) (b : Backend I) (t : TraceState I)
      → b.trace ≡ some t
      → t.delivery_enabled ≡ true
      → potential (close_delivery step result b) ≤ refusals b.events + 1
  unfolding close_delivery stop_delivery weigh
  close_delivery-potential step result b t h p = elim (Bool-cases result.ok) [
    | inl e ↦ rw e (rw h (rw p (omega arith)))
    | inr e ↦ rw e (
        rw h (
          omega (
            arith,
            refusals-append b.events
                (annotation delivery (refusal result.status) (some (at step)) none result.status),
            weigh_refusal result.status,
          )))
  ]

module _ {I : Integration} (c : MemoryConfig I.Score) (net : Net)
    (serializable : List (AnnotationEvent I) → Bool) where
  post_delivery-potential :
      (d : Delivery I) (operation : OperationTrace) (msg_index read : ℕ) (refs : List I.Ref)
      (t : TraceState I) (b : Backend I)
      → t.delivery_enabled ≡ true
      → potential (post_delivery c net serializable d operation msg_index read refs t b)
        ≤ refusals b.events + 1
  unfolding post_delivery
  post_delivery-potential d operation msg_index read refs t b h =
      let event =
        memory_delivery t.trace_session_id b.next_id operation.operation_id d.step d.recall.content
          refs d.cached msg_index read in
      let numbered : Backend I = record b { next_id = b.next_id + 1 } in
      let posted = post_to c net serializable main (event ∷ []) t numbered in
      let (t', p, q, r, s) = post_to-Posted c net serializable main (event ∷ []) t numbered in
      omega (arith, close_delivery-potential d.step posted.0 posted.1 t' p (r ∙ h), s)

  place_delivery-potential :
      (d : Delivery I) (operation : OperationTrace) (msg_index read : Option ℕ)
      (refs : Option (List I.Ref)) (t : TraceState I) (b : Backend I)
      → t.delivery_enabled ≡ true
      → b.trace ≡ some t
      → potential (place_delivery c net serializable d operation msg_index read refs t b)
        ≤ refusals b.events + 1
  unfolding place_delivery weigh
  place_delivery-potential d operation (some i) (some k) (some refs) t b h e =
      post_delivery-potential d operation i k refs t b h
  place_delivery-potential d operation (some i) (some k) none t b h e = rw (e, h) (omega arith)
  place_delivery-potential d operation (some i) none refs t b h e =
      rw (e, h)
        (omega (
          arith,
          refusals-append b.events (
              annotation delivery delivery_no_cursor (some (at d.step))
                (some operation.operation_id) none),
        ))
  place_delivery-potential d operation none k refs t b h e =
      rw (e, h)
        (omega (
          arith,
          refusals-append b.events (
              annotation delivery delivery_no_cursor (some (at d.step))
                (some operation.operation_id) none),
        ))

  deliver_cited-potential :
      (d : Delivery I) (operation : Option OperationTrace) (t : TraceState I) (b : Backend I)
      → t.delivery_enabled ≡ true
      → b.trace ≡ some t
      → potential (deliver_cited c net serializable d operation t b) ≤ refusals b.events + 1
  unfolding deliver_cited
  deliver_cited-potential d none t b h e = rw (e, h) (omega arith)
  deliver_cited-potential d (some operation) t b h e =
      place_delivery-potential d operation d.msg_index d.read_cursor _ t b h e

  deliver_from-potential :
      (d : Delivery I) (t : Option (TraceState I)) (b : Backend I)
      → b.trace ≡ t
      → potential (deliver_from c net serializable d t b) ≤ potential b
  unfolding deliver_from
  deliver_from-potential d none b h = rw h (omega arith)
  deliver_from-potential d (some t) b h = elim (Bool-cases (t.session_open && t.delivery_enabled)) [
    | inl e ↦ on_guard t h e (ground arith)
    | inr e ↦ rw e (rw h (omega arith))
  ]
    where
      on_guard :
          (t : TraceState I)
          → b.trace ≡ some t
          → (t.session_open && t.delivery_enabled) ≡ true
          → t.delivery_enabled ≡ true
          → potential (deliver_from c net serializable d (some t) b) ≤ potential b
      on_guard t h e on =
          let cleared : TraceState I = record t { pending_search = none } in
          let counted : enabled_of b.trace ≡ 1 = rw h (rw on refl) in
          rw e (
            omega (
              arith,
              deliver_cited-potential d (cited d.cached t b) cleared
                  (record b { trace = some cleared }) on refl,
              counted,
            ))

  -- The rounds of an episode: the cursor is read, then the block is delivered.
  unfoldable pub deliver_all : List (Delivery I) → Backend I → Backend I
  deliver_all [] b = b
  deliver_all (d ∷ ds) b =
      let (read, b') = main_lane_cursor c net serializable b in
      deliver_all ds (deliver_recall c net serializable (record d { read_cursor = read }) b')

  cursor_from-potential :
      (t : Option (TraceState I)) (b : Backend I)
      → b.trace ≡ t
      → potential (cursor_from c net serializable t b).1 ≡ potential b
  unfolding cursor_from
  cursor_from-potential none b h = refl
  cursor_from-potential (some t) b h =
      let (t', p, q, r, s) = post_to-Posted c net serializable main [] t b in
      elim (Bool-cases (t.session_open && t.delivery_enabled)) [
        | inl e ↦ rw e (
            ap₂ ◌+◌ s
              (ap enabled_of p ∙ ap (λ (x : Bool). if x then 1 else 0) r ∙ sym (ap enabled_of h)))
        | inr e ↦ rw e refl
      ]

  deliver_all-potential :
      (ds : List (Delivery I)) (b : Backend I) → potential (deliver_all ds b) ≤ potential b
  unfolding deliver_all deliver_recall main_lane_cursor
  deliver_all-potential [] b = omega arith
  deliver_all-potential (d ∷ ds) b =
      let (read, b') = cursor_from c net serializable b.trace b in
      let d' : Delivery I = record d { read_cursor = read } in
      omega (
        arith,
        deliver_all-potential ds (deliver_from c net serializable d' b'.trace b'),
        deliver_from-potential d' b'.trace b' refl,
        cursor_from-potential b.trace b refl,
      )

  -- Whatever the network, an episode logs at most one refused delivery: the first one switches
  -- delivery tracing off for the rest.
  pub refusals-deliver_all :
      (ds : List (Delivery I)) (b : Backend I)
      → refusals b.events ≡ 0
      → refusals (deliver_all ds b).events ≤ 1
  refusals-deliver_all ds b fresh = omega (arith, deliver_all-potential ds b, enabled_le b.trace)
    where
      enabled_le : (t : Option (TraceState I)) → enabled_of t ≤ 1
      enabled_le none = omega arith
      enabled_le (some t) = ground arith
