-- ===== src/Shared/Agent/Transient.antt =====
-- The recalled block never stays among the messages (shared-bridge/src/shared_bridge/agent.py,
-- `query`).
use mathlib.Core.Path.{sym, subst}
use memory_bridge.Base.{
  ℕ, ◌+◌, ◌≤◌, ◌≡◌, refl, ◌∙◌, ap, Bool, true, false, List, [], ◌∷◌, ◌++◌, append-nil, append_assoc,
  codes, Option, none, some, ◌==◌, All, arith,
}
use memory_bridge.Shared.Config.{MemoryConfig}
use memory_bridge.Shared.Integration.{Integration}
use memory_bridge.Shared.Annotate.{Net}
use memory_bridge.Shared.Recall.{Payload}
use memory_bridge.Shared.Backend.State.{Outcome, AnnotationEvent, Backend}
use memory_bridge.Shared.Backend.Recall.{Searched, Recalled, nothing, injected, recall_raised}
use memory_bridge.Shared.Agent.{
  ChatMessage, Agent, delete_last, remove_marker, consumed, exempt, place_marker, withdraw,
  query_around, query_recalled, query_with, query,
}

-- No message of the list is the marker.
abbrev IsAbsent : ℕ → List ChatMessage → Type 0
IsAbsent marker = All (λ m. (m.object_id == marker) ≡ false)

delete_last_absent :
    (marker : ℕ) (ms : List ChatMessage) → IsAbsent marker ms → delete_last marker ms ≡ none
unfolding delete_last
delete_last_absent marker [] h = refl
delete_last_absent marker (m ∷ ms) h = rw (delete_last_absent marker ms h.1, h.0) refl

delete_last-append :
    (xs : List ChatMessage) (m : ChatMessage) (ms : List ChatMessage)
    → IsAbsent m.object_id ms
    → delete_last m.object_id (xs ++ m ∷ ms) ≡ some (xs ++ ms)
unfolding delete_last
delete_last-append [] m ms h = rw (delete_last_absent m.object_id ms h) (ground arith)
delete_last-append (x ∷ xs) m ms h = rw (delete_last-append xs m ms h) refl

-- Removing the marker after other messages were appended leaves the messages as if it had never
-- been placed.
remove_marker-placed :
    (xs : List ChatMessage) (m : ChatMessage) (ms : List ChatMessage)
    → IsAbsent m.object_id ms
    → remove_marker m.object_id ((xs ++ m ∷ []) ++ ms) ≡ xs ++ ms
unfolding remove_marker
remove_marker-placed xs m ms h =
    ap (remove_marker m.object_id) (append_assoc xs (m ∷ []) ms)
    ∙ ap (λ (o : Option (List ChatMessage)). elim o [ some rest ↦ rest | none ↦ xs ++ m ∷ ms ])
        (delete_last-append xs m ms h)

-- New objects from `n` on that are no recalled blocks.
abbrev pub AreNew : ℕ → List ChatMessage → Type 0
AreNew n = All (λ m. (n ≤ m.object_id) × (m.transient_recall ≡ false))

new-IsAbsent : (n : ℕ) (new : List ChatMessage) → AreNew (n + 1) new → IsAbsent n new
new-IsAbsent n [] h = tt
new-IsAbsent n (m ∷ ms) h = (ground arith, new-IsAbsent n ms h.1)

later : (n : ℕ) (new : List ChatMessage) → AreNew (n + 1) new → AreNew n new
later n [] h = tt
later n (m ∷ ms) h = ((omega arith, h.0.1), later n ms h.1)

module _ {I : Integration} where
  -- The messages are those before and new ones, which are new objects and no recalled blocks.
  abbrev pub Appends : Agent I → Agent I → Type 0
  Appends a a' =
      (new : List ChatMessage) × (a'.messages ≡ a.messages ++ new) × AreNew a.next_object new

  exempt-messages :
      (a : Agent I) → ((exempt a).messages ≡ a.messages) × ((exempt a).next_object ≡ a.next_object)
  unfolding exempt consumed
  exempt-messages a = ground arith

module _ {I : Integration} (c : MemoryConfig I.Score) (net : Net)
    (serializable : List (AnnotationEvent I) → Bool)
    (search : Backend I → Searched I × ℕ × Backend I)
    (super_query : Agent I → Outcome × Agent I) where
  -- The inherited `query` appends messages, whether it returns or raises.
  abbrev pub AppendsOnly : Type 0
  AppendsOnly = (a : Agent I) → Appends a (super_query a).1

  around_unplaced :
      (a : Agent I)
      → AppendsOnly
      → Appends a (query_around c net serializable search super_query none a).1
  unfolding query_around withdraw
  around_unplaced a only =
      let (new, e, f) = only (exempt a) in
      let same = exempt-messages a in
      (
        new,
        (exempt-messages (super_query (exempt a)).1).0 ∙ e ∙ ap (λ ms. ms ++ new) same.0,
        subst (λ (n : ℕ). AreNew n new) same.1 f,
      )

  around_placed :
      (payload : Payload I) (cached : Bool) (read : Option ℕ) (a : Agent I)
      → AppendsOnly
      → Appends a
          (query_around c net serializable search super_query
            (some (place_marker payload cached read a).0)
            (place_marker payload cached read a).1).1
  unfolding query_around withdraw place_marker
  around_placed payload cached read a only =
      let placed = (place_marker payload cached read a).1 in
      let mark : ChatMessage = record {
        object_id = a.next_object;
        role = codes "user";
        content = payload.content;
        transient_recall = true;
      } in
      let (new, e, f) = only (exempt placed) in
      let same = exempt-messages placed in
      let fresh : AreNew (a.next_object + 1) new = subst (λ (n : ℕ). AreNew n new) same.1 f in
      (
        new,
        (exempt-messages _).0
            ∙ ap (remove_marker a.next_object) (e ∙ ap (λ ms. ms ++ new) same.0)
            ∙ remove_marker-placed a.messages mark new (new-IsAbsent a.next_object new fresh),
        later a.next_object new fresh,
      )

  recalled-Appends :
      (r : Recalled I) (b : Backend I) (a : Agent I)
      → AppendsOnly
      → Appends a (query_recalled c net serializable search super_query (r, b) a).1
  unfolding query_recalled
  recalled-Appends nothing b a only = around_unplaced (record a { mem = some b }) only
  recalled-Appends (injected payload cached) b a only = around_placed payload cached _ _ only
  recalled-Appends (recall_raised e) b a only = ([], sym (append-nil a.messages), tt)

  query_with-Appends :
      (m : Option (Backend I)) (a : Agent I)
      → AppendsOnly
      → Appends a (query_with c net serializable search super_query m a).1
  unfolding query_with
  query_with-Appends none a only = around_unplaced a only
  query_with-Appends (some b) a only = recalled-Appends _ _ a only

  -- The recalled block never persists: if the inherited `query` only appends
  -- new messages that are no recalled blocks, whether it returns or raises, then `query` with the
  -- recalled block does so too, whatever recall, the network and the backend do.
  pub query-Appends :
      (a : Agent I) → AppendsOnly → Appends a (query c net serializable search super_query a).1
  unfolding query
  query-Appends a only = query_with-Appends a.mem a only
