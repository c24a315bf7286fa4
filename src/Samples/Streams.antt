-- ===== src/Samples/Streams.antt =====
-- Applications of the theorems on budgets, sessions and streams (scheduler/src/orxtra/scheduler,
-- session/src/orxtra/session, agui/src/orxtra/agui and notification/src/orxtra/notification).

use orxtra.Prelude.{
  ◌≡◌, refl, ap, ℕ, zero, suc, ◌+◌, ◌*◌, ◌≤◌, String, List, Option, none, some, false, true, [],
  ◌∷◌, nat_eq, string_eq, arith, leb, ltb, count, if◌then◌else◌,
}
use orxtra.Prelude.Ids.{Uuid, Decimal}
use orxtra.Prelude.Json.{object, end}
use orxtra.Prelude.Dict.{get, has, values}
use orxtra.Session.Pricing.{Usage}
use orxtra.Session.Turns.{
  Event, result, step_finish, Entry, entry, Session, no_usage, add_usage, send,
}
use orxtra.Session.Turns.Accounting.{usage_of}
use orxtra.Session.Turns.Transcript.{IsTranscript}
use orxtra.Session.Turns.Conserved.{sends, take_turn_accounted}
use orxtra.Scheduler.Budget.{
  block_new, TaskBudget, Budgets, effective_budget, accumulate_cost, send_budget_events,
}
use orxtra.Scheduler.Budget.Crossing.{crossings, exhaustions, blocks}
use orxtra.Scheduler.Budget.Once.{IsStart, started, accumulated, delivered, accumulate_cost_once}
use orxtra.Agui.Events.{stream_delta, thinking, tool_executing, step_finish as step_end}
use orxtra.Agui.Translator.{Translator, new_translator}
use orxtra.Agui.Translator.Framing.{Phase, idle, read_all, IsAt}
use orxtra.Agui.Translator.Streams.{Input, from_transport, translate_all, translate_all-framed}
use orxtra.Notification.Backend.{Deliveries, new_delivery, create_delivery}
use orxtra.Notification.Stream.{fetch_live_delivery}
use orxtra.Notification.Live.{is_to, fetch_live_delivery_lem}

abbrev usage : Usage
usage = record {
  input_tokens = 1_000_000;
  output_tokens = 200_000;
  reasoning_tokens = 0;
  cache_read_tokens = 0;
  cache_write_tokens = 0;
}

abbrev task : TaskBudget
task = record {
  name = "build";
  agent = some "coder";
  category = none;
  budget = some 10_000_000_000;
}

abbrev start : Budgets
start = record {
  agents =
      (
        "coder",
        record {
          provider = some "anthropic";
          model = some "claude-opus-4-6";
          category = none;
          budget = none;
        },
      )
      ∷ [];
  categories = [];
  pricing = none;
  policy = block_new;
  task_costs = (1, 0) ∷ [];
  threshold_events = [];
  exhausted_events = [];
  budget_blocked = false;
  aborts = [];
  sent = [];
}

abbrev spent_all : Budgets
spent_all = send_budget_events 1 (accumulate_cost 1 task usage start).1

start-IsStart : IsStart 1 start
unfolding get
start-IsStart = record { at_zero = refl; quiet = refl }

accumulate_cost_once_example :
    (c : Decimal) × (get spent_all.task_costs 1 ≡ some c)
    × (crossings 1 spent_all ≡ (if leb (8 * 10_000_000_000) (10 * c) then 1 else 0))
    × (10_000_000_000 ≤ c → 1 ≤ exhaustions 1 spent_all)
    × (10_000_000_000 ≤ c → blocks spent_all.policy ≡ true → spent_all.budget_blocked ≡ true)
unfolding effective_budget
accumulate_cost_once_example =
    accumulate_cost_once (omega arith) start-IsStart
      (delivered (accumulated started 1 task usage (λ same. refl)) 1)

abbrev fresh : Session
fresh = record { session_id = none; totals = no_usage; turn_count = 0 }

abbrev parse_id : String → Option Uuid
parse_id text = some 4

abbrev used : Session
used = record { session_id = some "s"; totals = usage; turn_count = 1 }

abbrev written : List Entry
written = entry 4 used "user" "hello" [] none ∷ entry 4 used "assistant" "hi" [] (some usage) ∷ []

abbrev turn : List Event
turn = step_finish usage ∷ result "hi" (some "s") ∷ []

take_turn_accounted_example :
    (used.totals ≡ add_usage no_usage (usage_of turn))
    × (used.turn_count ≡ fresh.turn_count + 1)
    × IsTranscript parse_id "hello" true (usage_of turn) used written
unfolding send
take_turn_accounted_example =
    take_turn_accounted parse_id (sends "hello" turn) fresh used written refl

abbrev translator : Translator
translator = record {
  thread_id = "t";
  run_id = "r";
  thinking_visibility = "agents";
  text_message_open = false;
  current_message_id = none;
  thinking_open = false;
}

abbrev inputs : List Input
inputs =
    from_transport 1 (thinking "hm")
    ∷ from_transport 2 (stream_delta "Hello")
    ∷ from_transport 3 (tool_executing "x" "read")
    ∷ from_transport 4 (step_end "done")
    ∷ []

translate_all-framed_example :
    (q : Phase) × (read_all (some idle) (translate_all inputs translator).0 ≡ some q)
    × IsAt (translate_all inputs translator).1 q
unfolding new_translator
translate_all-framed_example = translate_all-framed "t" "r" "agents" translator inputs refl

-- An id shows as so many letters.
unary : Uuid → String
unary zero = ""
unary (suc n) = String.◌∷◌ "1" (unary n)

letters : String → ℕ
letters String.[] = 0
letters (String.◌∷◌ c s) = suc (letters s)

read_unary : String → Option Uuid
read_unary s = some (letters s)

letters-unary : (n : ℕ) → letters (unary n) ≡ n
unfolding letters unary
letters-unary zero = refl
letters-unary (suc n) = ap suc (letters-unary n)

read_unary-unary : (n : Uuid) → read_unary (unary n) ≡ some n
unfolding read_unary
read_unary-unary n = ap some (letters-unary n)

-- As many deliveries to principal 7 as the loop looks at.
abbrev backlog : ℕ → Deliveries
backlog zero = []
backlog (suc n) = (n, new_delivery n n 7 "run" (object end)) ∷ backlog n

fetch_live_delivery_lem_example :
    fetch_live_delivery unary read_unary
      (record { notification_id = some (unary 60); target_principal_id = some (unary 7) })
      []
      (create_delivery 60 60 7 "run" (object end) (backlog 50)).1
    ≡ (if ltb (count (is_to 7) (values (backlog 50))) 50
        then (some (new_delivery 60 60 7 "run" (object end)), unary 60 ∷ [])
        else (none, []))
unfolding has
fetch_live_delivery_lem_example =
    fetch_live_delivery_lem unary read_unary read_unary-unary (backlog 50) 60 60 7 "run"
      (object end) [] refl (omega arith) (omega arith) refl
