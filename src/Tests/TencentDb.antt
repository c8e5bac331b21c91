-- ===== src/Tests/TencentDb.antt =====
-- The TencentDB client at concrete answers.
use memory_bridge.Base.{
  ℕ, zero, suc, ◌≤◌, ◌≡◌, refl, Bool, true, false, List, [], ◌∷◌, some, Str, codes, str_eq, arith,
  length, ◌⊎◌, All,
}
use memory_bridge.Shared.Json.{
  Json, flag, text, number, array, object, Items, no_items, item, Fields, no_fields, field,
  get_or_null,
}
use memory_bridge.TencentDb.Client.{
  add_chunk_messages, ok, Request, Answer, answered, unanswered, Python, Ids,
}
use memory_bridge.TencentDb.Client.Calls.{
  chunks_of, conversation_add, wait_l1_idle, is_idle, pipeline_status,
}
use memory_bridge.TencentDb.Client.Paged
use memory_bridge.TencentDb.Client.Paged.{Holds, drop}
use memory_bridge.TencentDb.Client.Chunks
use memory_bridge.TencentDb.Client.Chunks.{Told, confirmed}
use memory_bridge.TencentDb.Client.Idle
use memory_bridge.TencentDb.Utf16.{clamp_utf16_units, clamp_from}

abbrev first_char : Str → ℕ
first_char [] = 0
first_char (n ∷ s) = n

-- A numeral is the one character with the number as its code.
abbrev python : Python
python = record {
  is_zero = λ s. str_eq s (codes "0");
  int_of = first_char;
  is_int = λ s. true;
  numeral = λ n. n ∷ [];
}

abbrev ids : Ids
ids = record { team_id = codes "t"; agent_id = codes "a"; user_id = codes "u" }

abbrev envelope : Json → Json
envelope x = object (field (codes "code") (number (codes "0")) (field (codes "data") x no_fields))

abbrev rows_array : List Fields → Items
rows_array [] = no_items
rows_array (d ∷ rows) = item (object d) (rows_array rows)

abbrev memory : Str → Fields
memory id = field (codes "id") (text id) no_fields

abbrev stored : List Fields
stored = memory (codes "1") ∷ memory (codes "2") ∷ memory (codes "3") ∷ []

abbrev offset_of : Json → ℕ
offset_of (number s) = first_char s
offset_of x = 0

-- The whole rest from the offset of the query on.
abbrev serving : ℕ → Request → Answer
serving k r = answered 200 (
    envelope (
      object (
        field (codes "items")
          (array (rows_array (drop (offset_of (get_or_null (codes "offset") r.json)) stored)))
          (field (codes "total") (number (3 ∷ [])) no_fields))))

abbrev messages : List Json
messages = text (codes "one") ∷ text (codes "two") ∷ []

conversation_add-Told_example :
    Told python serving ids
      (codes "s")
      []
      0
      messages
      (confirmed python serving ids (codes "s") [] 0 (chunks_of 2 messages))
      (conversation_add python serving ids (codes "s") [] messages 0).0
    × All (λ (chunk : List Json). length chunk ≤ add_chunk_messages) (chunks_of 2 messages)
conversation_add-Told_example =
    Chunks.conversation_add-Told python serving ids (codes "s") [] messages 0

-- Idle from the second request on, after one that fails.
abbrev settling : ℕ → Request → Answer
settling zero r = unanswered (codes "timeout")
settling (suc k) r = answered 200 (
    envelope
      (object (field (codes "l1") (object (field (codes "idle") (flag true) no_fields)) no_fields)))

abbrev ticking : ℕ → ℕ
ticking k = k

wait_l1_idle-answers_example :
    (idle : Bool) × (n : ℕ) × (wait_l1_idle python settling ticking 5 6 0 ≡ some (idle, n))
    × ((idle ≡ false)
        ⊎ ((j : ℕ) × (status : Fields) × (0 ≤ j)
            × (n ≡ suc j)
            × ((pipeline_status python settling j).0 ≡ ok status)
            × (is_idle python status ≡ true)))
wait_l1_idle-answers_example =
    Idle.wait_l1_idle-answers python settling ticking 5 1 0 (omega arith) (omega arith)
      (λ j le slept. omega (arith, (slept j le (omega arith)).1))

clamp-astral : clamp_utf16_units (97 ∷ 128512 ∷ 98 ∷ []) 2 ≡ 97 ∷ []
unfolding clamp_utf16_units clamp_from
clamp-astral = refl
