-- ===== src/Trace/Events.antt =====
-- `InMemoryBackend`: the methods of EventStorage.
use orxtra.Prelude.{
  ℕ, String, Bool, true, false, Option, none, some, [], ◌∷◌, ◌++◌, nat_eq, string_eq,
}
use orxtra.Prelude.Json.{Json}
use orxtra.Prelude.Dict.{Dict, get, put}
use orxtra.Trace.Rows.{Uuid, Time, Event, payload}
use orxtra.Trace.Store.{Store}

abbrev pub new_event :
    (fresh : Uuid) (now : Time) (run_id : Option Uuid) (event_type : String) (body : Json)
    (task_id : Option Uuid) (principal_id : Uuid) (idempotency_key : Option String)
    → Event
new_event fresh now run_id event_type body task_id principal_id idempotency_key = record {
  id = fresh;
  run_id = run_id;
  task_id = task_id;
  principal_id = principal_id;
  event_type = event_type;
  body = payload body;
  idempotency_key = idempotency_key;
  created_at = now;
}

-- The id that the index holds for an optional key.
abbrev pub seen : Dict String Uuid → Option String → Option Uuid
seen index none = none
seen index (some key) = get index key

-- The index after an insertion.
abbrev pub remember : Dict String Uuid → Option String → Uuid → Dict String Uuid
remember index none id = index
remember index (some key) id = put index key id

unfoldable pub write_event :
    (fresh : Uuid) (now : Time) (run_id : Option Uuid) (event_type : String) (body : Json)
    (task_id : Option Uuid) (principal_id : Uuid) (idempotency_key : Option String)
    → Store
    → (Uuid × Bool) × Store
write_event fresh now run_id event_type body task_id principal_id idempotency_key s =
    elim (seen s.idempotency_index idempotency_key) [
      | some existing ↦ ((existing, false), s)
      | none ↦ (
        (fresh, true),
        record s {
          events =
              s.events
              ++ new_event fresh now run_id event_type body task_id principal_id idempotency_key
                ∷ [];
          idempotency_index = remember s.idempotency_index idempotency_key fresh;
        },
      )
    ]

unfoldable pub write_transcript_entry :
    (fresh : Uuid) (now : Time) (session_id run_id : Uuid) (turn : ℕ) (role content : String)
    (tool_calls tokens : Option Json)
    → Store
    → Store
write_transcript_entry fresh now session_id run_id turn role content tool_calls tokens s =
    record s {
      transcripts =
          s.transcripts
          ++ record {
            id = fresh;
            session_id = session_id;
            run_id = run_id;
            turn = turn;
            role = role;
            content = content;
            tool_calls = tool_calls;
            tokens = tokens;
            created_at = now;
          }
            ∷ [];
    }
