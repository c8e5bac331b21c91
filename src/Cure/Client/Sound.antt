-- ===== src/Cure/Client/Sound.antt =====
-- What a decision round returns (integration/cure_memory/src/cure_memory/extractor.py,
-- `decide_memory_updates`).
use memory_bridge.Base.{
  ◌⊎◌, ◌≤◌, ℕ, suc, ◌≤◌, ◌⊎◌, ◌≡◌, true, List, Option, none, some, Str, length, All,
}
use memory_bridge.Shared.Json.{Json, null, array, Items, no_items, item, Fields, get}
use memory_bridge.Cure.Client.{
  ClientError, Response, escaped, Client, decision_keys, empty_decision, any_present, Parsed,
  load_raised, Decided, decided, decision_raised, decision_items,
}

-- The entries that a value holds, whatever they are.
abbrev pub count_items : Items → ℕ
count_items no_items = 0
count_items (item x items) = suc (count_items items)

abbrev pub entries : Option Json → ℕ
entries none = 0
entries (some null) = 0
entries (some (array items)) = count_items items
entries (some x) = 1

-- Every entry under a key is one that the application of the decision reads.
abbrev pub Lossless : Fields → List Str → Type 0
Lossless d = All (λ key. length (decision_items d key) ≡ entries (get key d))

-- A round fails, with its error set and an empty decision; or it gives a decision.
abbrev pub IsSound : Option ClientError × Fields → Type 0
IsSound (some e, d) = d ≡ empty_decision
IsSound (none, d) = (any_present decision_keys d ≡ true) × Lossless d decision_keys

module _ (parse : Str → Parsed) (unfence : Str → Str) (respond : ℕ → Response)
    (client : Client) where
  -- An exception has its source: one of the attempts that the retries allow, or `json.loads`.
  abbrev pub Raises : Str → Type 0
  Raises name =
      ((k : ℕ) × (k ≤ client.max_retries) × (respond k ≡ escaped name))
      ⊎ ((s : Str) × (parse s ≡ load_raised name))

  -- A round that returns is sound; one that raises has the exception from outside.
  abbrev pub IsRound : Decided → Type 0
  IsRound (decided e d) = IsSound (e, d)
  IsRound (decision_raised name) = Raises name
