-- ===== src/Shared/Backend/Record.antt =====
-- Recording, shared-bridge/src/shared_bridge/backend.py: `record` and `_message_text`. A message is
-- read off the agent's dictionaries; `actions` is the JSON text of its parsed actions, where it has
-- any. The hooks `_normalize_role`, `_should_store` and `_store_message` are arguments, of which the
-- last may raise; `extra` is a dictionary or None.
pub mod Bounded
use memory_bridge.Base.{
  map, ℕ, ◌+◌, Bool, true, false, ◌&&◌, ◌||◌, not, List, [], ◌∷◌, ◌++◌, Option, none, some, Str,
  codes, if◌then◌else◌, ltb, length, is_empty, join, keep_if,
}
use memory_bridge.Shared.Config.{MemoryConfig}
use memory_bridge.Shared.Integration.{Integration}
use memory_bridge.Shared.Truncate.{truncate}
use memory_bridge.Shared.Backend.State.{
  at, Exn, Outcome, returned, raised, record_op, error, MessageId, native_id, counted, PendingInput,
  TraceState, Backend, log_event, count_backend_error,
}

-- One block of a content list: a text block, a block of another type, or no dictionary (its str).
pub data Block : Type 0 where
  text_block : Str → Block
  typed_block : Option Str → Block
  bare_block : Str → Block

pub data Content : Type 0 where
  no_content : Content
  plain : Str → Content
  blocks : List Block → Content
  other_content : Str → Content

pub record Message : Type 0 where
  pub content : Content
  pub actions : Option Str
  pub transient_recall : Bool
  pub role : Option Str

pub data Entry : Type 0 where
  not_a_dict : Entry
  dict : Message → Entry

unfoldable pub block_text : Block → Str
block_text (text_block text) = text
block_text (typed_block (some type)) = codes "[" ++ type ++ codes "]"
block_text (typed_block none) = codes "[unknown]"
block_text (bare_block text) = text

-- The parts of the content, before the actions.
unfoldable pub content_parts : Content → List Str
unfolding block_text
content_parts no_content = [] ∷ []
content_parts (plain text) = text ∷ []
content_parts (blocks []) = [] ∷ []
content_parts (blocks (block ∷ rest)) = map block_text (block ∷ rest)
content_parts (other_content text) = text ∷ []

unfoldable pub action_parts : Option Str → List Str
action_parts none = []
action_parts (some json) = (codes "Actions:" ++ 10 ∷ json) ∷ []

unfoldable pub message_text : Message → Str
unfolding content_parts action_parts
message_text m =
    join (10 ∷ [])
      (keep_if (λ part. not (is_empty part)) (content_parts m.content ++ action_parts m.actions))

-- `str(message.get("role") or "user")`
unfoldable pub role_of : Option Str → Str
role_of none = codes "user"
role_of (some []) = codes "user"
role_of (some (c ∷ role)) = c ∷ role

abbrev pub drop_first {ℓ} : {A : Type ℓ} → List A → List A
drop_first [] = []
drop_first (x ∷ xs) = xs

-- `_recent_messages.append`, on a deque of 6: the oldest entry goes.
unfoldable pub push_recent {ℓ} : {A : Type ℓ} → List A → A → List A
push_recent xs x = (if ltb (length xs) 6 then xs else drop_first xs) ++ x ∷ []

-- What `_store_message` comes to: the native id, if the integration has one, or an exception.
pub data Stored : Type 0 where
  stored : Option Str → Stored
  store_raised : Exn → Stored

unfoldable pub message_id_of : Option Str → ℕ → MessageId
message_id_of (some id) n = native_id id
message_id_of none n = counted n

module _ {I : Integration} where
  -- The pending generation input, while the memory lane is traced.
  unfoldable pub note_input : PendingInput → Option (TraceState I) → Option (TraceState I)
  note_input input none = none
  note_input input (some t) =
      if t.session_open && t.memory_lane_enabled
      then some (record t { pending_inputs = t.pending_inputs ++ input ∷ [] })
      else some t

  -- After a store that returned.
  unfoldable pub note_stored : ℕ → Str → Str → Option Str → Backend I → Backend I
  note_stored step role text id b =
      let n = b.counts.messages_recorded + 1 in
      let input : PendingInput = record {
        message_id = message_id_of id n;
        role = role;
        step = step;
        content = text;
      } in
      record b {
        counts = record b.counts { messages_recorded = n };
        recent_messages = push_recent b.recent_messages (role, text);
        trace = note_input input b.trace;
      }

  abbrev count_record_error : ℕ → Exn → Backend I → Backend I
  count_record_error step e b =
      log_event (error record_op (some (at step)) e.message) (count_backend_error b)

  -- An exception leaves the loop.
  unfoldable pub unless_raised : Outcome → Outcome × Backend I → Backend I → Outcome × Backend I
  unless_raised returned rest b = rest
  unless_raised (raised e) rest b = (raised e, b)

-- Whether the loop looks into an entry: a dictionary that is not a transient recall block.
unfoldable pub is_recordable : Entry → Bool
is_recordable not_a_dict = false
is_recordable (dict m) = not m.transient_recall

module _ {I : Integration} (c : MemoryConfig I.Score) (normalize_role : Str → Str)
    (should_store : Str → Bool)
    (store_message : Str → Str → ℕ → Backend I → Stored × Backend I) where
  -- The end of one message's `try`: what was stored is noted, an exception is counted.
  unfoldable pub settle_store : ℕ → Str → Str → Stored × Backend I → Outcome × Backend I
  settle_store step role text (stored id, b) = (returned, note_stored step role text id b)
  settle_store step role text (store_raised e, b) =
      (if c.strict then raised e else returned, count_record_error step e b)

  -- One message that is not skipped.
  unfoldable pub record_message : ℕ → Message → Backend I → Outcome × Backend I
  record_message step m b =
      let text = truncate (message_text m) c.max_message_chars in
      let role = normalize_role (role_of m.role) in
      if should_store text
      then settle_store step role text (store_message role text step b)
      else (returned, b)

  unfoldable pub record_entry : ℕ → Entry → Backend I → Outcome × Backend I
  record_entry step not_a_dict b = (returned, b)
  record_entry step (dict m) b =
      if m.transient_recall then (returned, b) else record_message step m b

  unfoldable pub record_all : ℕ → List Entry → Backend I → Outcome × Backend I
  record_all step [] b = (returned, b)
  record_all step (entry ∷ entries) b =
      let (outcome, b') = record_entry step entry b in
      unless_raised outcome (record_all step entries b') b'

  unfoldable pub record_messages : List Entry → ℕ → Backend I → Outcome × Backend I
  record_messages entries step b =
      if b.available && not b.finalized then record_all step entries b else (returned, b)
