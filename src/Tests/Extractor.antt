-- ===== src/Tests/Extractor.antt =====
-- A decision round and an extraction at concrete inputs.
use memory_bridge.Base.{
  ℕ, zero, suc, ◌≡◌, refl, true, false, List, [], ◌∷◌, Option, none, some, Str, codes, strip,
  str_eq,
}
use memory_bridge.Cure.Model.{SessionMessage, Memory}
use memory_bridge.Shared.Json.{
  text, array, object, item, no_items, field, no_fields, Fields, get, all_dicts,
}
use memory_bridge.Cure.Client.{
  Parsed, loaded, Decided, decided, decision_raised, escaped, decide_parsed, Response, body,
  http_failure, Client, decide_memory_updates, decide_from, call_chatgpt_api, call_loop,
  settle_attempt, read_choices, read_message, read_content, validate, any_present, all_valid,
  is_decision_value,
}
use memory_bridge.Cure.Client.Sound
use memory_bridge.Cure.Search.{contains_text}
use memory_bridge.Cure.Extractor.{Runtime}
use memory_bridge.Cure.Extractor.Admitted

-- One candidate, sure of itself, for every repository.
abbrev proposal : Fields
proposal = field (codes "key") (text (codes "style")) (
    field (codes "value") (text (codes "use tabs")) (
      field (codes "review_status") (text (codes "approved"))
        (field (codes "scope") (text (codes "user")) no_fields)))

abbrev decision : Fields
decision = field (codes "candidates") (array (item (object proposal) no_items)) no_fields

abbrev client : Client
client = record { api_key = codes "k"; base_url = codes "http://lane"; max_retries = 1 }

-- The first attempt meets an overloaded server.
abbrev reply : ℕ → Response
reply zero = http_failure 503
reply (suc k) = body (
    object (
      field (codes "choices")
        (array (
          item
            (object (
              field (codes "message")
                (object (field (codes "content") (text (codes "{}")) no_fields)) no_fields))
            no_items))
        no_fields))

abbrev parsed : Str → Parsed
parsed s = loaded (object decision)

abbrev runtime : Runtime
runtime = record {
  lower = λ s. s;
  is_sensitive = contains_text (codes "sk-");
  words = λ s. s ∷ [];
  str_of = λ x. codes "?";
  is_zero = λ s. false;
  int_of = λ x. none;
  clamp_confidence = λ x. codes "0.5";
  below_floor = λ s. true;
  source_text = λ m. m.content;
  error_text = λ e. codes "failed";
  metadata = codes "{}";
}

abbrev said : ℕ → Str → SessionMessage
said n content = record {
  id = some n;
  session_id = codes "s";
  user_id = codes "u";
  role = codes "user";
  content = content;
  created_at = 1;
  metadata = codes "{}";
}

abbrev conversation : List SessionMessage
conversation =
    said 1 (codes "I use tabs") ∷ said 2 (codes "my key is sk-1") ∷ said 3 (codes " ") ∷ []

abbrev decides : List SessionMessage → List Memory → Option Str → Decided
decides messages existing project_id = decided none decision

-- The second attempt is read: the round gives the decision.
decides_at_last : decide_memory_updates parsed (λ s. s) reply client ≡ decided none decision
unfolding decide_memory_updates decide_parsed decide_from call_chatgpt_api call_loop settle_attempt
    read_choices get str_eq read_message read_content strip validate any_present all_valid
    is_decision_value all_dicts
decides_at_last = refl

-- A response that breaks off leaves the round as an exception, without a second attempt.
breaks_off :
    decide_memory_updates parsed (λ s. s) (λ k. escaped (codes "IncompleteRead")) client
    ≡ decision_raised (codes "IncompleteRead")
unfolding decide_memory_updates decide_from call_chatgpt_api call_loop settle_attempt
breaks_off = refl
