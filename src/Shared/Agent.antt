-- ===== src/Shared/Agent.antt =====
-- The agent's hooks, shared-bridge/src/shared_bridge/agent.py: `query`, `step` and `add_messages`.
-- The inherited `query` of the agent framework is an argument; a message has the identity of its
-- object, which `is` compares.
pub mod Transient
pub mod Accounting
use memory_bridge.Base.{
  ℕ, ◌+◌, Bool, true, false, ◌&&◌, ◌||◌, not, List, [], ◌∷◌, ◌++◌, Option, none, some, Str, codes,
  if◌then◌else◌, ltb, leb, ◌==◌, length,
}
use memory_bridge.Shared.Config.{MemoryConfig}
use memory_bridge.Shared.Integration.{Integration}
use memory_bridge.Shared.Annotate.{Net}
use memory_bridge.Shared.Recall.{Payload}
use memory_bridge.Shared.Backend.State.{
  Step, Exn, Outcome, returned, raised, Reason, delivery_no_call, delivery_probe_unreadable,
  AnnotationEvent, Backend,
}
use memory_bridge.Shared.Backend.Recall.{
  Searched, Recalled, nothing, injected, recall_raised, recall_context,
}
use memory_bridge.Shared.Backend.Delivery.{
  Delivery, main_lane_cursor, deliver_recall, note_recall, note_undelivered_recall,
  consume_annotation_duration,
}
use memory_bridge.Shared.Backend.Extract.{maybe_extract}
use memory_bridge.Shared.Backend.Rewrite.{Structured, maybe_rewrite}

pub record ChatMessage : Type 0 where
  pub object_id : ℕ
  pub role : Str
  pub content : Str
  pub transient_recall : Bool

pub record Agent (I : Integration) : Type 0 where
  pub messages : List ChatMessage
  pub n_calls : ℕ
  pub start_time : ℕ
  pub mem : Option (Backend I)
  pub next_object : ℕ

-- The block that `query` placed: the marker's object, its place, the cursor read before and the
-- payload.
pub record Placed (I : Integration) : Type 0 where
  pub marker : ℕ
  pub msg_index : ℕ
  pub read_cursor : Option ℕ
  pub recall : Payload I
  pub cached : Bool

-- `for i in range(len(self.messages) - 1, -1, -1)`: the last message that is the marker goes;
-- `none` where there is none.
unfoldable pub delete_last : ℕ → List ChatMessage → Option (List ChatMessage)
delete_last marker [] = none
delete_last marker (m ∷ ms) = elim (delete_last marker ms) [
  | some rest ↦ some (m ∷ rest)
  | none ↦ if m.object_id == marker then some ms else none
]

unfoldable pub remove_marker : ℕ → List ChatMessage → List ChatMessage
remove_marker marker ms = elim (delete_last marker ms) [ some rest ↦ rest | none ↦ ms ]

-- Why a delivery is withheld after the query failed, by the two cursor reads; `none` where it is not.
unfoldable pub withheld : ℕ → Option ℕ → Option Reason
withheld read none = some delivery_probe_unreadable
withheld read (some advanced) = if leb advanced read then some delivery_no_call else none

module _ {I : Integration} where
  consumed : Option (Backend I) → Agent I → Agent I
  consumed none a = a
  consumed (some b) a =
      let (seconds, b') = consume_annotation_duration b in
      record a { start_time = a.start_time + seconds; mem = some b' }

  -- `self._start_time += self._mem.consume_annotation_duration()`
  unfoldable pub exempt : Agent I → Agent I
  unfolding consumed
  exempt a = consumed a.mem a

  -- The direct append of the marker.
  unfoldable pub place_marker : Payload I → Bool → Option ℕ → Agent I → Placed I × Agent I
  place_marker payload cached read a = (
    record {
      marker = a.next_object;
      msg_index = length a.messages;
      read_cursor = read;
      recall = payload;
      cached = cached;
    },
    record a {
      messages =
          a.messages
          ++ (record {
            object_id = a.next_object;
            role = codes "user";
            content = payload.content;
            transient_recall = true;
          })
            ∷ [];
      next_object = a.next_object + 1;
    },
  )

  -- `if deliver`, or the record of the delivery that is withheld.
  unfoldable pub deliver_unless :
      (Delivery I → Backend I → Backend I) → Delivery I → Option Reason → Backend I → Backend I
  deliver_unless deliver d none b = deliver d b
  deliver_unless deliver d (some reason) b = note_undelivered_recall d.step reason b

module _ {I : Integration} (c : MemoryConfig I.Score) (net : Net)
    (serializable : List (AnnotationEvent I) → Bool) where
  -- The crash probe: a cursor read after a query that raised, where a cursor was read before.
  unfoldable pub probe : Outcome → Option ℕ → Backend I → Option Reason × Backend I
  probe returned read b = (none, b)
  probe (raised e) none b = (none, b)
  probe (raised e) (some read) b =
      let (advanced, b') = main_lane_cursor c net serializable b in (withheld read advanced, b')

  unfoldable pub account_from : Placed I → Outcome → ℕ → Option (Backend I) → Option (Backend I)
  account_from p outcome step none = none
  account_from p outcome step (some b) =
      let (reason, b') = probe outcome p.read_cursor (note_recall p.recall p.cached step b) in
      let handed : Delivery I = record {
        recall = p.recall;
        cached = p.cached;
        step = step;
        msg_index = some p.msg_index;
        read_cursor = p.read_cursor;
      } in
      some (deliver_unless (deliver_recall c net serializable) handed reason b')

  -- The `finally` of `query`: the marker goes, and a call that was attempted is accounted for.
  unfoldable pub withdraw : Option (Placed I) → ℕ → Outcome → Agent I → Agent I
  unfolding account_from
  withdraw none calls_before outcome a = a
  withdraw (some p) calls_before outcome a = record a {
    messages = remove_marker p.marker a.messages;
    mem = if ltb calls_before a.n_calls then account_from p outcome a.n_calls a.mem else a.mem;
  }

  module _ (search : Backend I → Searched I × ℕ × Backend I)
      (super_query : Agent I → Outcome × Agent I) where
    -- What `query` does around the inherited call.
    unfoldable pub query_around : Option (Placed I) → Agent I → Outcome × Agent I
    query_around placed a =
        let (outcome, a') = super_query (exempt a) in
        (outcome, exempt (withdraw placed a.n_calls outcome a'))

    query_recalled : Recalled I × Backend I → Agent I → Outcome × Agent I
    query_recalled (nothing, b) a = query_around none (record a { mem = some b })
    query_recalled (injected payload cached, b) a =
        let (read, b') = main_lane_cursor c net serializable b in
        let (placed, a') = place_marker payload cached read (record a { mem = some b' }) in
        query_around (some placed) a'
    query_recalled (recall_raised e, b) a = (raised e, record a { mem = some b })

    query_with : Option (Backend I) → Agent I → Outcome × Agent I
    unfolding query_recalled
    query_with none a = query_around none a
    query_with (some b) a =
        query_recalled (recall_context c net serializable search (a.n_calls + 1) b) a

    unfoldable pub query : Agent I → Outcome × Agent I
    unfolding query_with
    query a = query_with a.mem a

  module _ (perform : Step → Backend I → Outcome × Backend I)
      (call : Str → List (Str × Str) → Structured × ℕ)
      (super_step : Agent I → Outcome × Agent I) where
    tick_rewrite : ℕ → Outcome × Backend I → Outcome × Backend I
    tick_rewrite n (returned, b) = maybe_rewrite c call n b
    tick_rewrite n (raised e, b) = (raised e, b)

    ticks : Outcome → Option (Backend I) → Agent I → Outcome × Agent I
    unfolding tick_rewrite
    ticks (raised e) m a = (raised e, a)
    ticks returned none a = (returned, a)
    ticks returned (some b) a =
        let (outcome, b') = tick_rewrite a.n_calls (maybe_extract c perform a.n_calls b) in
        (outcome, record a { mem = some b' })

    -- The ticks fire only after a clean step.
    unfoldable pub step : Agent I → Outcome × Agent I
    unfolding ticks
    step a = let (outcome, a') = super_step a in ticks outcome a'.mem a'
