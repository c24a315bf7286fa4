-- ===== src/Samples/Reading.antt =====
-- Applications of the theorems on the readers of the trace backend
-- (trace/src/orxtra/trace/_memory_backend.py).
use orxtra.Prelude.{
  ◌≡◌, refl, ◌≤◌, ℕ, String, none, some, [], ◌∷◌, All, length, count, ◌⊎◌, inl, inr, arith,
}
use orxtra.Prelude.Json.{empty_object}
use orxtra.Prelude.Sorting.{IsSorted}
use orxtra.Trace.Rows.{Event, EventData, TaskAttempt, WorkStatus}
use orxtra.Trace.Store.{Store, empty_store}
use orxtra.Trace.Reader.History.{replay}
use orxtra.Trace.Reader.Replay.{IsWanted, has_id, Occurs, replay_lem}

abbrev event : ℕ → String → Event
event id event_type = record {
  id = id;
  run_id = some 7;
  task_id = none;
  principal_id = 1;
  event_type = event_type;
  body = EventData.payload empty_object;
  idempotency_key = none;
  created_at = id;
}

abbrev attempt : ℕ → ℕ → TaskAttempt
attempt id n = record {
  id = id;
  task_id = 5;
  attempt = n;
  status = WorkStatus.running;
  agent_output = none;
  structured_output = none;
  check_result = none;
  check_verdict = none;
  session_id = none;
  input_tokens = 0;
  output_tokens = 0;
  reasoning_tokens = 0;
  cache_read_tokens = 0;
  cache_write_tokens = 0;
  cost_usd = 0;
  duration_seconds = none;
}

abbrev logged : Store
logged = record empty_store {
  events = event 3 "b" ∷ event 1 "a" ∷ event 2 "a" ∷ [];
  task_attempts = (11, attempt 11 1) ∷ (12, attempt 12 2) ∷ [];
}

replay_lem_example :
    (length (replay none none (some 1) 5 logged) ≤ 5)
    × IsSorted (λ (x : Event). x.id) (replay none none (some 1) 5 logged)
    × All (IsWanted none none (some 1)) (replay none none (some 1) 5 logged)
    × All (λ (x : Event). Occurs x logged.events) (replay none none (some 1) 5 logged)
    × ((1 ≤ count (has_id 2) (replay none none (some 1) 5 logged))
        ⊎ ((length (replay none none (some 1) 5 logged) ≡ 5)
            × All (λ (x : Event). x.id ≤ 2) (replay none none (some 1) 5 logged)))
replay_lem_example =
    replay_lem none none (some 1) 5 logged (event 2 "a") (inr (inr (inl refl)))
      (record { typed = tt; owned = tt; later = omega arith })
