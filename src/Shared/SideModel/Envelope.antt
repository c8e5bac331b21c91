-- ===== src/Shared/SideModel/Envelope.antt =====
-- What a rewritten query is (shared-bridge/src/shared_bridge/side_model.py, `RewrittenQuery`).
use memory_bridge.Base.{
  ◌≡◌, Bool, true, false, [], ◌∷◌, Option, none, some, Str, codes, strip, if◌then◌else◌, is_empty,
  Bool-cases, inl, inr,
}
use memory_bridge.Shared.Json.{
  Json, null, flag, text, number, array, object, no_items, item, Fields, get, join_parts,
}
use memory_bridge.Shared.SideModel.{
  content_not_json, SideError, empty_content, envelope_violation, truncated_length, missing_choices,
  Answer, status_error, transport_error, not_json, raises, answer, SideResult, value, error,
  is_query, check_query, only_query, model_validate, parse_content, read_answer, is_cut_off,
  read_choice, call_structured,
}

-- A value is one non-empty line within the bound.
abbrev pub IsEnveloped : SideResult → Type 0
IsEnveloped (value s) = is_query s ≡ true
IsEnveloped (error e) = Unit

check_query-IsEnveloped : (s : Str) → IsEnveloped (check_query s)
unfolding check_query
check_query-IsEnveloped s = elim (Bool-cases (is_query s)) [ inl e ↦ rw e e | inr e ↦ rw e tt ]

IsEnveloped-if :
    (x : Bool) (r : SideResult) (e : SideError)
    → IsEnveloped r
    → IsEnveloped (if x then r else error e)
IsEnveloped-if true r e h = h
IsEnveloped-if false r e h = tt

IsEnveloped-unless :
    (x : Bool) (r : SideResult) (e : SideError)
    → IsEnveloped r
    → IsEnveloped (if x then error e else r)
IsEnveloped-unless true r e h = tt
IsEnveloped-unless false r e h = h

model_validate-IsEnveloped : (x : Json) → IsEnveloped (model_validate x)
unfolding model_validate
model_validate-IsEnveloped null = tt
model_validate-IsEnveloped (flag b) = tt
model_validate-IsEnveloped (text s) = tt
model_validate-IsEnveloped (number s) = tt
model_validate-IsEnveloped (array items) = tt
model_validate-IsEnveloped (object d) = go (get (codes "query") d)
  where
    go :
        (o : Option Json)
        → let r : SideResult = elim o [
          | some (text s) ↦ if only_query d then check_query (strip s) else error envelope_violation
          | _ ↦ error envelope_violation
        ] in
          IsEnveloped r
    go none = tt
    go (some null) = tt
    go (some (flag b)) = tt
    go (some (text s)) = IsEnveloped-if (only_query d) _ _ (check_query-IsEnveloped (strip s))
    go (some (number s)) = tt
    go (some (array items)) = tt
    go (some (object d')) = tt

module _ (is_zero : Str → Bool) (parse : Str → Option Json) where
  parse_content-IsEnveloped : (s : Str) → IsEnveloped (parse_content parse s)
  unfolding parse_content
  parse_content-IsEnveloped s = IsEnveloped-unless (is_empty (strip s)) _ _ (go (parse s))
    where
      go :
          (o : Option Json)
          → let r : SideResult = elim o [
            | none ↦ error content_not_json
            | some x ↦ model_validate x
          ] in
            IsEnveloped r
      go none = tt
      go (some x) = model_validate-IsEnveloped x

  read_answer-IsEnveloped : (o : Option Json) → IsEnveloped (read_answer is_zero parse o)
  unfolding read_answer
  read_answer-IsEnveloped none = tt
  read_answer-IsEnveloped (some null) = tt
  read_answer-IsEnveloped (some (flag false)) = tt
  read_answer-IsEnveloped (some (flag true)) = tt
  read_answer-IsEnveloped (some (text [])) = tt
  read_answer-IsEnveloped (some (text (c ∷ s))) = tt
  read_answer-IsEnveloped (some (number s)) = IsEnveloped-unless (is_zero s) _ _ tt
  read_answer-IsEnveloped (some (array no_items)) = tt
  read_answer-IsEnveloped (some (array (item x items))) = tt
  read_answer-IsEnveloped (some (object message)) = go (get (codes "content") message)
    where
      go :
          (o : Option Json)
          → let r : SideResult = elim o [
            | some (text s) ↦ parse_content parse s
            | some (array parts) ↦ parse_content parse (join_parts parts)
            | _ ↦ error empty_content
          ] in
            IsEnveloped r
      go none = tt
      go (some null) = tt
      go (some (flag b)) = tt
      go (some (text s)) = parse_content-IsEnveloped s
      go (some (number s)) = tt
      go (some (array parts)) = parse_content-IsEnveloped (join_parts parts)
      go (some (object d)) = tt

  read_choice-IsEnveloped : (x : Json) → IsEnveloped (read_choice is_zero parse x)
  unfolding read_choice
  read_choice-IsEnveloped null = tt
  read_choice-IsEnveloped (flag b) = tt
  read_choice-IsEnveloped (text s) = tt
  read_choice-IsEnveloped (number s) = tt
  read_choice-IsEnveloped (array items) = tt
  read_choice-IsEnveloped (object body) = go (get (codes "choices") body)
    where
      chosen : Fields → SideResult
      chosen choice =
          if is_cut_off (get (codes "finish_reason") choice)
          then error truncated_length
          else read_answer is_zero parse (get (codes "message") choice)

      go :
          (o : Option Json)
          → let r : SideResult = elim o [
            | some (array (item (object choice) rest)) ↦ chosen choice
            | _ ↦ error missing_choices
          ] in
            IsEnveloped r
      go none = tt
      go (some null) = tt
      go (some (flag b)) = tt
      go (some (text s)) = tt
      go (some (number s)) = tt
      go (some (object d)) = tt
      go (some (array no_items)) = tt
      go (some (array (item null rest))) = tt
      go (some (array (item (flag b) rest))) = tt
      go (some (array (item (text s) rest))) = tt
      go (some (array (item (number s) rest))) = tt
      go (some (array (item (array xs) rest))) = tt
      go (some (array (item (object choice) rest))) =
          IsEnveloped-unless (is_cut_off (get (codes "finish_reason") choice)) _ _
            (read_answer-IsEnveloped (get (codes "message") choice))

  -- Whatever the endpoint answers, a side-model call gives an error, or one non-empty line of at most
  -- 300 characters.
  pub call_structured-IsEnveloped : (a : Answer) → IsEnveloped (call_structured is_zero parse a)
  unfolding call_structured
  call_structured-IsEnveloped (status_error code) = tt
  call_structured-IsEnveloped (transport_error name) = tt
  call_structured-IsEnveloped not_json = tt
  call_structured-IsEnveloped (raises name) = tt
  call_structured-IsEnveloped (answer body) = read_choice-IsEnveloped body
