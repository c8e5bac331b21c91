-- ===== src/Cure/Client/Escaped.antt =====
-- Where the exceptions of a call come from (integration/cure_memory/src/cure_memory/extractor.py,
-- `_call_chatgpt_api`).
use memory_bridge.Base.{
  strip, Bool, ◌≤◌, ℕ, zero, suc, ◌+◌, ◌≤◌, ltb, is_empty, strip, if◌then◌else◌, false, ◌≡◌, refl,
  true, [], ◌∷◌, Option, none, some, Str, arith,
}
use memory_bridge.Shared.Json.{
  Json, null, flag, text, number, array, object, no_items, item, Fields, join_parts,
}
use memory_bridge.Cure.Client.{
  http_status, missing_api_key, missing_base_url, Response, http_failure, transport, escaped, body,
  Called, answered, call_failed, call_raised, Client, settle_attempt, call_loop, nonempty_text,
  read_content, read_message, read_choices, read_reply, call_chatgpt_api,
}

module _ (respond : ℕ → Response) (client : Client) where
  -- What a call that raises has met.
  abbrev pub Escapes : {A : Type 0} → ℕ → Called A → Type 0
  Escapes last (answered a) = Unit
  Escapes last (call_failed e) = Unit
  Escapes last (call_raised name) = (k : ℕ) × (k ≤ last) × (respond k ≡ escaped name)

  settle_attempt-Escapes :
      (last k : ℕ) (rest : Called Fields) (r : Response)
      → respond k ≡ r
      → k ≤ last
      → Escapes last rest
      → Escapes last (settle_attempt r rest)
  unfolding settle_attempt
  settle_attempt-Escapes last k rest (body null) e le h = h
  settle_attempt-Escapes last k rest (body (flag b)) e le h = h
  settle_attempt-Escapes last k rest (body (text s)) e le h = h
  settle_attempt-Escapes last k rest (body (number s)) e le h = h
  settle_attempt-Escapes last k rest (body (array x)) e le h = h
  settle_attempt-Escapes last k rest (body (object d)) e le h = tt
  settle_attempt-Escapes last k rest (transport name) e le h = h
  settle_attempt-Escapes last k rest (escaped name) e le h = (k, le, e)
  settle_attempt-Escapes last k rest (http_failure code) e le h = go (ltb code 500)
    where
      go : (t : Bool) → Escapes last (if t then call_failed (http_status code) else rest)
      go true = tt
      go false = h

  call_loop-Escapes :
      (last attempt left : ℕ)
      → attempt + left ≤ last
      → Escapes last (call_loop respond attempt left)
  unfolding call_loop
  call_loop-Escapes last attempt zero le =
      settle_attempt-Escapes last attempt _ (respond attempt) refl (omega (arith, le)) tt
  call_loop-Escapes last attempt (suc left) le =
      settle_attempt-Escapes last attempt _ (respond attempt) refl (omega (arith, le))
        (call_loop-Escapes last (attempt + 1) left (omega (arith, le)))

  nonempty_text-Escapes : (last : ℕ) (s : Str) → Escapes last (nonempty_text s)
  nonempty_text-Escapes last [] = tt
  nonempty_text-Escapes last (c ∷ s) = tt

  read_content-Escapes : (last : ℕ) (o : Option Json) → Escapes last (read_content o)
  unfolding read_content
  read_content-Escapes last none = tt
  read_content-Escapes last (some null) = tt
  read_content-Escapes last (some (flag b)) = tt
  read_content-Escapes last (some (text s)) = nonempty_text-Escapes last (strip s)
  read_content-Escapes last (some (number s)) = tt
  read_content-Escapes last (some (array x)) = nonempty_text-Escapes last (strip (join_parts x))
  read_content-Escapes last (some (object d)) = tt

  read_message-Escapes : (last : ℕ) (o : Option Json) → Escapes last (read_message o)
  unfolding read_message
  read_message-Escapes last none = tt
  read_message-Escapes last (some null) = tt
  read_message-Escapes last (some (flag b)) = tt
  read_message-Escapes last (some (text s)) = tt
  read_message-Escapes last (some (number s)) = tt
  read_message-Escapes last (some (array x)) = tt
  read_message-Escapes last (some (object d)) = read_content-Escapes last _

  read_choices-Escapes : (last : ℕ) (o : Option Json) → Escapes last (read_choices o)
  unfolding read_choices
  read_choices-Escapes last none = tt
  read_choices-Escapes last (some null) = tt
  read_choices-Escapes last (some (flag b)) = tt
  read_choices-Escapes last (some (text s)) = tt
  read_choices-Escapes last (some (number s)) = tt
  read_choices-Escapes last (some (object d)) = tt
  read_choices-Escapes last (some (array no_items)) = tt
  read_choices-Escapes last (some (array (item null rest))) = tt
  read_choices-Escapes last (some (array (item (flag b) rest))) = tt
  read_choices-Escapes last (some (array (item (text s) rest))) = tt
  read_choices-Escapes last (some (array (item (number s) rest))) = tt
  read_choices-Escapes last (some (array (item (array x) rest))) = tt
  read_choices-Escapes last (some (array (item (object d) rest))) = read_message-Escapes last _

  pub call_chatgpt_api-Escapes : Escapes client.max_retries (call_chatgpt_api respond client)
  unfolding call_chatgpt_api
  call_chatgpt_api-Escapes = go (is_empty client.api_key) (is_empty client.base_url)
    where
      reply : Called Fields
      reply = call_loop respond 0 client.max_retries

      read :
          (c : Called Fields)
          → Escapes client.max_retries c
          → Escapes client.max_retries (read_reply c)
      read (answered d) h = read_choices-Escapes client.max_retries _
      read (call_failed e) h = tt
      read (call_raised name) h = h

      go :
          (no_key no_url : Bool)
          → Escapes client.max_retries (
              if no_key
              then call_failed missing_api_key
              else if no_url
              then call_failed missing_base_url
              else read_reply reply)
      go true no_url = tt
      go false true = tt
      go false false =
          read reply (call_loop-Escapes client.max_retries 0 client.max_retries (omega arith))
