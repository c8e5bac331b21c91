-- ===== src/Shared/Backend/Delivery/Posted.antt =====
-- The refused deliveries of an event log, and what a post leaves of a trace
-- (shared-bridge/src/shared_bridge/backend.py, `deliver_recall`).
use memory_bridge.Base.{
  ℕ, ◌+◌, ◌≡◌, refl, ◌∙◌, Bool, true, false, List, [], ◌∷◌, ◌++◌, Option, none, some, if◌then◌else◌,
  arith,
}
use memory_bridge.Shared.Config.{MemoryConfig}
use memory_bridge.Shared.Integration.{Integration}
use memory_bridge.Shared.Annotate.{Net}
use memory_bridge.Shared.Backend.State.{
  transport_disabled, transport, Lane, Reason, delivery_rejected, delivery_unconfirmed, annotation,
  LogEvent, AnnotationEvent, TraceState, Backend,
}
use memory_bridge.Shared.Backend.Trace.{post_to}
use memory_bridge.Shared.Backend.Delivery.{refusal}

-- 1 for the record of a refused delivery.
unfoldable pub refused_by : Reason → ℕ
refused_by delivery_rejected = 1
refused_by delivery_unconfirmed = 1
refused_by reason = 0

unfoldable pub weigh : LogEvent → ℕ
unfolding refused_by
weigh (annotation op reason step id status) = refused_by reason
weigh e = 0

-- The refused deliveries of an event log.
unfoldable pub refusals : List LogEvent → ℕ
unfolding weigh
refusals [] = 0
refusals (e ∷ es) = weigh e + refusals es

pub refusals-append :
    (es : List LogEvent) (e : LogEvent) → refusals (es ++ e ∷ []) ≡ refusals es + weigh e
unfolding refusals
refusals-append [] e = omega arith
refusals-append (x ∷ es) e = omega (arith, refusals-append es e)

pub weigh_refusal : (status : Option ℕ) → refused_by (refusal status) ≡ 1
unfolding refusal refused_by
weigh_refusal none = refl
weigh_refusal (some n) = ground arith

module _ {I : Integration} where
  -- The requests given to the annotator.
  abbrev pub requests_of : Option (TraceState I) → List (Lane × List (AnnotationEvent I))
  requests_of none = []
  requests_of (some t) = t.outbox

  -- A post leaves the delivery's fields of the trace, and refuses nothing.
  abbrev pub Posted : TraceState I → Backend I → Backend I → Type 0
  Posted t b b' =
      (t' : TraceState I) × (b'.trace ≡ some t')
      × (t'.pending_search ≡ t.pending_search)
      × (t'.delivery_enabled ≡ t.delivery_enabled)
      × (refusals b'.events ≡ refusals b.events)

  Posted-if :
      (t : TraceState I) (b d e : Backend I) (x : Bool)
      → Posted t b d
      → Posted t b e
      → Posted t b (if x then d else e)
  Posted-if t b d e true p q = p
  Posted-if t b d e false p q = q

module _ {I : Integration} (c : MemoryConfig I.Score) (net : Net)
    (serializable : List (AnnotationEvent I) → Bool) where
  pub post_to-Posted :
      (lane : Lane) (events : List (AnnotationEvent I)) (t : TraceState I) (b : Backend I)
      → Posted t b (post_to c net serializable lane events t b).1
  unfolding post_to weigh
  post_to-Posted lane events t b =
      Posted-if t b _ _ _
        (
          _,
          refl,
          refl,
          refl,
          refusals-append b.events (annotation transport transport_disabled none none none)
              ∙ omega arith,
        )
        (_, refl, refl, refl, refl)
