-- ===== src/Shared/Json.antt =====
-- JSON values as `json.loads` gives them to shared-bridge/src/shared_bridge/side_model.py and
-- integration/cure_memory/src/cure_memory/extractor.py, and the reading of text parts. A number is
-- kept as its text.
use memory_bridge.Base.{
  ◌++◌, codes, Bool, true, false, List, [], ◌∷◌, Option, none, some, Str, str_eq, if◌then◌else◌,
  not, is_empty,
}

mutual
  pub data Json : Type 0 where
    null : Json
    flag : Bool → Json
    text : Str → Json
    number : Str → Json
    array : Items → Json
    object : Fields → Json

  pub data Items : Type 0 where
    no_items : Items
    item : Json → Items → Items

  pub data Fields : Type 0 where
    no_fields : Fields
    field : Str → Json → Fields → Fields

-- `d.get(key)`
unfoldable pub get : Str → Fields → Option Json
get key no_fields = none
get key (field k value d) = if str_eq key k then some value else get key d

-- `[item for item in items if isinstance(item, dict)]`
unfoldable pub dicts : Items → List Fields
dicts no_items = []
dicts (item (object d) items) = d ∷ dicts items
dicts (item x items) = dicts items

unfoldable pub all_dicts : Items → Bool
all_dicts no_items = true
all_dicts (item (object d) items) = all_dicts items
all_dicts (item x items) = false

-- `"".join(part["text"] …)`
unfoldable pub join_parts : Items → Str
join_parts no_items = []
join_parts (item (object part) items) =
    let rest = join_parts items in
    elim (get (codes "text") part) [ some (text s) ↦ s ++ rest | _ ↦ rest ]
join_parts (item x items) = join_parts items

-- `d.get(key)` where a missing key and a null count alike
unfoldable pub get_or_null : Str → Fields → Json
get_or_null key d = elim (get key d) [ some x ↦ x | none ↦ null ]

-- Python's `bool(x)`; `is_zero` tells whether the text of a number stands for 0.
unfoldable pub truth : (Str → Bool) → Json → Bool
truth is_zero null = false
truth is_zero (flag b) = b
truth is_zero (text s) = not (is_empty s)
truth is_zero (number s) = not (is_zero s)
truth is_zero (array no_items) = false
truth is_zero (array items) = true
truth is_zero (object no_fields) = false
truth is_zero (object d) = true
