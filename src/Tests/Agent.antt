-- ===== src/Tests/Agent.antt =====
-- The agent's query at concrete inputs.
use memory_bridge.Base.{true, ℕ, ◌+◌, refl, false, [], ◌∷◌, ◌++◌, some, codes, arith}
use memory_bridge.Shared.Backend.State.{Backend, Outcome, returned}
use memory_bridge.Shared.Backend.Recall.{Searched, found}
use memory_bridge.Shared.Agent.{withdraw, ChatMessage, Agent, Placed, query}
use memory_bridge.Shared.Agent.Transient
use memory_bridge.Shared.Agent.Accounting
use memory_bridge.Shared.Agent.Accounting.{Counted}
use memory_bridge.Shared.Agent.Transient.{Appends}
use memory_bridge.Tests.Fixture.{notes, config, hits, accepting, any_events, started_backend}

abbrev replying : Backend notes → Searched notes × ℕ × Backend notes
replying b = (found hits, 2, b)

abbrev task_message : ChatMessage
task_message = record {
  object_id = 0;
  role = codes "user";
  content = codes "fix the bug";
  transient_recall = false;
}

abbrev agent : Agent notes
agent = record {
  messages = task_message ∷ [];
  n_calls = 0;
  start_time = 0;
  mem = some started_backend;
  next_object = 1;
}

-- The inherited query: one call, one reply.
abbrev answered : Agent notes → Outcome × Agent notes
answered a = (
  returned,
  record a {
    messages =
        a.messages
        ++ (record {
          object_id = a.next_object;
          role = codes "assistant";
          content = codes "ls";
          transient_recall = false;
        })
          ∷ [];
    n_calls = a.n_calls + 1;
    next_object = a.next_object + 1;
  },
)

query-Appends_example : Appends agent (query config accepting any_events replying answered agent).1
query-Appends_example =
    Transient.query-Appends config accepting any_events replying answered agent
      (λ a. (_, refl, ((omega arith, refl), tt)))

abbrev placed : Placed notes
placed = record {
  marker = 1;
  msg_index = 1;
  read_cursor = some 7;
  recall = record {
    content = codes "Notes";
    n_memories = 1;
    chars = 5;
    memories = [];
    origins = [];
  };
  cached = true;
}

abbrev called : Agent notes
called = record agent { n_calls = 1 }

withdraw-Counted_example :
    Counted placed true started_backend
      (withdraw config accepting any_events (some placed) 0 returned called).mem
withdraw-Counted_example =
    Accounting.withdraw-Counted config accepting any_events placed 0 returned started_backend called
      refl
