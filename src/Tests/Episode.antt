-- ===== src/Tests/Episode.antt =====
-- Recording, delivery and teardown at concrete inputs.
use memory_bridge.Base.{
  ℕ, ◌≤◌, ◌≡◌, refl, Bool, true, false, List, [], ◌∷◌, none, some, Str, codes, arith, length,
}
use memory_bridge.Shared.Annotate.{Net, http_error, post, cursor}
use memory_bridge.Shared.Recall.{Payload}
use memory_bridge.Shared.Backend.State.{
  returned, Backend, Step, Outcome, raised, Exn, new_operation,
}
use memory_bridge.Shared.Backend.Recall.{Searched, search_raised}
use memory_bridge.Shared.Backend.Rewrite.{Structured, call_raised}
use memory_bridge.Shared.Backend.Trace.{memory_refs, post_to}
use memory_bridge.Shared.Backend.Delivery.{
  Delivery, cited, main_lane_cursor, post_delivery, place_delivery, deliver_from, deliver_recall,
  close_delivery, stop_delivery, refusal,
}
use memory_bridge.Shared.Backend.Delivery.Once
use memory_bridge.Shared.Backend.Delivery.Refusals
use memory_bridge.Shared.Backend.Delivery.Refusals.{deliver_all}
use memory_bridge.Shared.Backend.Delivery.Posted.{requests_of, refusals}
use memory_bridge.Shared.Backend.Record.{
  plain, Entry, dict, not_a_dict, Stored, stored, store_raised, record_messages,
}
use memory_bridge.Shared.Backend.Record.Bounded
use memory_bridge.Shared.Backend.Record.Bounded.{IsBounded}
use memory_bridge.Shared.Backend.Finalize.{Dumped, dump_raised, finalize}
use memory_bridge.Shared.Backend.Finalize.Dormant
use memory_bridge.Shared.Backend.Start.{start_backend, rewriting_off}
use memory_bridge.Shared.Backend.Start.Failed
use memory_bridge.Shared.Backend.Finalize.Contained
use memory_bridge.Tests.Fixture.{notes, config, accepting, any_events, started_backend, traced}

abbrev crash : Exn
crash = record { class_name = codes "RuntimeError"; message = codes "gone" }

-- A network that refuses every request.
abbrev refusing : Net
refusing = record { reply = λ k. http_error 409; clock = λ k. k }

abbrev block : Payload notes
block = record {
  content = codes "Notes\nmore";
  n_memories = 1;
  chars = 10;
  memories = [];
  origins = none ∷ [];
}

abbrev handed : Delivery notes
handed = record {
  recall = block;
  cached = false;
  step = 4;
  msg_index = some 2;
  read_cursor = some 7;
}

-- A backend whose last search waits for its delivery.
abbrev armed : Backend notes
armed = record started_backend {
  trace = some (record traced { pending_search = some (new_operation 9) });
}

delivery_program : Unit {0}
unfolding deliver_recall deliver_from cited place_delivery post_delivery post_to post memory_refs
    close_delivery stop_delivery refusal refusals deliver_all main_lane_cursor cursor
delivery_program = tt

one_request :
    length (requests_of (deliver_recall config accepting any_events handed armed).trace) ≡ 1
unfolding delivery_program
one_request = refl

one_refusal : refusals (deliver_recall config refusing any_events handed armed).events ≡ 1
unfolding delivery_program
one_refusal = refl

deliver_recall-once_example :
    requests_of
      (deliver_recall config accepting any_events handed
        (deliver_recall config accepting any_events handed armed)).trace
    ≡ requests_of (deliver_recall config accepting any_events handed armed).trace
deliver_recall-once_example =
    Once.deliver_recall-once config accepting any_events handed handed armed refl

refusals-deliver_all_example :
    refusals (deliver_all config refusing any_events (handed ∷ handed ∷ []) armed).events ≤ 1
unfolding refusals
refusals-deliver_all_example =
    Refusals.refusals-deliver_all config refusing any_events (handed ∷ handed ∷ []) armed refl

abbrev said : Str → Entry
said text = dict (record {
  content = plain text;
  actions = none;
  transient_recall = false;
  role = some (codes "assistant");
})

abbrev transient : Entry
transient = dict (record {
  content = plain (codes "Notes");
  actions = none;
  transient_recall = true;
  role = none;
})

abbrev conversation : List Entry
conversation = said (codes "a") ∷ transient ∷ not_a_dict ∷ said (codes "b") ∷ []

abbrev kept : Str → Str → ℕ → Backend notes → Stored × Backend notes
kept role text step b = (stored none, b)

abbrev lost : Str → Str → ℕ → Backend notes → Stored × Backend notes
lost role text step b = (store_raised crash, b)

abbrev same_role : Str → Str
same_role role = role

abbrev every : Str → Bool
every text = true

record_messages-IsBounded_example :
    IsBounded config same_role every kept
      (record_messages config same_role every kept conversation 3 started_backend).1.recent_messages
record_messages-IsBounded_example =
    Bounded.record_messages-IsBounded config same_role every kept conversation 3 started_backend
      (λ role text step b. refl) (omega arith, tt)

-- Hooks that all raise.
abbrev no_search : Backend notes → Searched notes × ℕ × Backend notes
no_search b = (search_raised crash, 1, b)

abbrev no_extraction : Step → Backend notes → Outcome × Backend notes
no_extraction step b = (raised crash, b)

abbrev no_call : Str → List (Str × Str) → Structured × ℕ
no_call task recent = (call_raised crash, 1)

abbrev no_dump : Backend notes → Dumped × Backend notes
no_dump b = (dump_raised crash, b)

abbrev no_write : List Str → Backend notes → Outcome
no_write memories b = raised crash

abbrev no_close : Backend notes → Outcome × Backend notes
no_close b = (raised crash, b)

finalize-IsDormant_example :
    Dormant.IsDormant config accepting any_events no_search no_extraction no_call same_role every
      lost no_dump no_write no_close
      (finalize config no_extraction no_dump no_write no_close started_backend).1
finalize-IsDormant_example =
    Dormant.finalize-IsDormant config accepting any_events no_search no_extraction no_call same_role
      every lost no_dump no_write no_close started_backend
      (record { by_perform = λ s b. refl; by_dump = λ b. refl; by_close = λ b. refl })

lenient-IsContained_example :
    Contained.IsContained config accepting any_events no_search no_extraction no_call same_role
      every lost no_dump no_write no_close started_backend
lenient-IsContained_example =
    Contained.lenient-IsContained config accepting any_events no_search no_extraction no_call
      same_role every lost no_dump no_write no_close started_backend refl

start_backend-IsIdle_example :
    ((start_backend config (λ x. x) no_close no_close true rewriting_off started_backend).0
      ≡ returned)
    × Failed.IsIdle config accepting any_events no_search no_extraction no_call same_role every lost
        (start_backend config (λ x. x) no_close no_close true rewriting_off started_backend).1
start_backend-IsIdle_example =
    Failed.start_backend-IsIdle config accepting any_events no_search no_extraction no_call
      same_role every lost (λ x. x) no_close no_close true rewriting_off crash started_backend
      (λ x. refl) refl
