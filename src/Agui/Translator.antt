-- ===== src/Agui/Translator.antt =====
-- `AGUITranslator` (agui/src/orxtra/agui/_translator.py). The message id that a call mints is an
-- argument.
pub mod Framing
pub mod Streams
use mathlib.Core.Option
use orxtra.Prelude.{
  String, Bool, true, false, not, ◌&&◌, ◌||◌, Option, none, some, List, [], ◌∷◌, ◌++◌, ◌==◌,
  string_eq, is_none, if◌then◌else◌, Result, ok, err, value_error,
}
use orxtra.Prelude.Ids.{Uuid, Decimal}
use orxtra.Prelude.Dict.{Dict}
use orxtra.Agui.Events.{
  TransportEvent, stream_delta, thinking, step_start, step_finish, tool_executing, tool_use, result,
  error, other, OverseerEvent, run_started, budget_threshold_crossed, budget_exhausted, task_failed,
  task_escalated, inbox_answered, inbox_rejected, structural_advisory, health_degraded, Value, uuid,
  amount, str, float, flag, strs, Interrupt, BaseEvent, text_message_start, text_message_end,
  text_message_content, thinking_start, thinking_end, thinking_content, step_started, step_finished,
  tool_call_start, tool_call_end, tool_call_result, run_start, run_finished, run_error, custom,
}
use Prim.Native.String.{◌++◌ as join}

pub record Translator : Type 0 where
  pub thread_id : String
  pub run_id : String
  pub thinking_visibility : String
  pub text_message_open : Bool
  pub current_message_id : Option Uuid
  pub thinking_open : Bool

unfoldable pub new_translator : (thread_id run_id thinking_visibility : String) → Result Translator
new_translator thread_id run_id thinking_visibility =
    if thinking_visibility == "silent"
      || thinking_visibility == "overseer"
      || thinking_visibility == "agents"
    then ok (record {
      thread_id = thread_id;
      run_id = run_id;
      thinking_visibility = thinking_visibility;
      text_message_open = false;
      current_message_id = none;
      thinking_open = false;
    })
    else err value_error

-- A method returns its events and the translator that it leaves.
abbrev pub Output : Type 0
Output = List BaseEvent × Translator

-- The END event of the message that is open.
unfoldable pub close_message : Bool → Option Uuid → Translator → Output
close_message true (some i) t =
    (text_message_end i ∷ [], record t { text_message_open = false; current_message_id = none })
close_message true none t = ([], t)
close_message false o t = ([], t)

unfoldable pub close_text_message : Translator → Output
unfolding close_message
close_text_message t = close_message t.text_message_open t.current_message_id t

unfoldable pub close_thinking : Translator → Output
close_thinking t =
    if t.thinking_open then (thinking_end ∷ [], record t { thinking_open = false }) else ([], t)

-- Both, and then the events that the translator gives.
unfoldable pub closing : (next : Translator → List BaseEvent) → Translator → Output
unfolding close_text_message close_thinking
closing next t =
    let (a, t') = close_thinking t in
    let (b, t'') = close_text_message t' in (a ++ b ++ next t'', t'')

unfoldable pub open_message : (new_id : Uuid) (text : String) → Translator → Output
open_message new_id text t =
    if not t.text_message_open
    then (
      text_message_start new_id ∷ text_message_content (some new_id) text ∷ [],
      record t { text_message_open = true; current_message_id = some new_id },
    )
    else (text_message_content t.current_message_id text ∷ [], t)

unfoldable pub handle_stream_delta : (new_id : Uuid) (text : String) → Translator → Output
unfolding close_thinking open_message
handle_stream_delta new_id text t =
    let (a, t') = close_thinking t in let (b, t'') = open_message new_id text t' in (a ++ b, t'')

unfoldable pub think : (text : String) → Translator → Output
think text t =
    if not t.thinking_open
    then (thinking_start ∷ thinking_content text ∷ [], record t { thinking_open = true })
    else (thinking_content text ∷ [], t)

unfoldable pub handle_thinking : (is_overseer : Bool) (text : String) → Translator → Output
unfolding close_text_message think
handle_thinking is_overseer text t =
    if t.thinking_visibility == "silent" || (t.thinking_visibility == "overseer" && not is_overseer)
    then ([], t)
    else let (a, t') = close_text_message t in let (b, t'') = think text t' in (a ++ b, t'')

unfoldable pub translate_transport : (new_id : Uuid) → TransportEvent → Translator → Output
unfolding handle_stream_delta closing handle_thinking
translate_transport new_id (stream_delta s) t = handle_stream_delta new_id s t
translate_transport new_id (step_start session_id) t = closing (λ u. step_started session_id ∷ []) t
translate_transport new_id (step_finish reason) t = closing (λ u. step_finished reason ∷ []) t
translate_transport new_id (tool_executing tool_use_id tool_name) t =
    closing (λ u. tool_call_start tool_use_id tool_name u.current_message_id ∷ []) t
translate_transport new_id (tool_use tool_use_id output) t =
    (tool_call_end tool_use_id ∷ tool_call_result new_id tool_use_id output ∷ [], t)
translate_transport new_id result t = closing (λ u. run_finished u.thread_id u.run_id none ∷ []) t
translate_transport new_id (error name message) t =
    (run_error (join name (join ": " message)) ∷ [], t)
translate_transport new_id (thinking s) t = handle_thinking false s t
translate_transport new_id other t = ([], t)

unfoldable pub translate_overseer : OverseerEvent → Translator → Output
translate_overseer run_started t = (run_start t.thread_id t.run_id ∷ [], t)
translate_overseer (budget_threshold_crossed workflow_id budget_usd spent_usd threshold_pct) t = (
  custom "budget_threshold_crossed" (
        ("workflow_id", uuid workflow_id)
        ∷ ("budget_usd", amount budget_usd)
        ∷ ("spent_usd", amount spent_usd)
        ∷ ("threshold_pct", float threshold_pct)
        ∷ [])
      ∷ [],
  t,
)
translate_overseer (budget_exhausted workflow_id) t =
    (custom "budget_exhausted" (("workflow_id", uuid workflow_id) ∷ []) ∷ [], t)
translate_overseer (task_failed task_id task_name) t =
    (custom "task_failed" (("task_id", uuid task_id) ∷ ("task_name", str task_name) ∷ []) ∷ [], t)
translate_overseer (task_escalated task_id task_name from_child_task_id) t = (
  custom "task_escalated" (
        ("task_id", uuid task_id)
        ∷ ("task_name", str task_name)
        ∷ ("from_child_task_id", uuid from_child_task_id)
        ∷ [])
      ∷ [],
  t,
)
translate_overseer (inbox_answered item_id assumed_option actual_answer contradicts) t = (
  custom "inbox_answered" (
        ("item_id", uuid item_id)
        ∷ ("assumed_option", str assumed_option)
        ∷ ("actual_answer", str actual_answer)
        ∷ ("contradicts", flag contradicts)
        ∷ [])
      ∷ [],
  t,
)
translate_overseer (inbox_rejected item_id rejection_reason) t = (
  custom "inbox_rejected"
        (("item_id", uuid item_id) ∷ ("rejection_reason", str rejection_reason) ∷ [])
      ∷ [],
  t,
)
translate_overseer (structural_advisory task_id observation suggestion) t = (
  custom "structural_advisory" (
        ("task_id", uuid task_id)
        ∷ ("observation", str observation)
        ∷ ("suggestion", str suggestion)
        ∷ [])
      ∷ [],
  t,
)
translate_overseer (health_degraded event_type failure_rate threshold) t = (
  custom "health_degraded" (
        ("event_type", str event_type)
        ∷ ("failure_rate", float failure_rate)
        ∷ ("threshold", float threshold)
        ∷ [])
      ∷ [],
  t,
)

unfoldable pub translate_thinking_from_overseer : (text : String) → Translator → Output
unfolding handle_thinking
translate_thinking_from_overseer s t = handle_thinking true s t

-- The entries of a keyword argument that is given.
abbrev given : String → Option Value → Dict String Value
given key none = []
given key (some v) = (key, v) ∷ []

abbrev or_none {ℓ} : {A : Type ℓ} → List A → Option (List A)
or_none [] = none
or_none (x ∷ xs) = some (x ∷ xs)

unfoldable pub build_interrupt :
    (item_id question : String) (options : Option (List String))
    (assumed_option contradiction_impact : Option String) (tags : Option (List String))
    (deadline : Option String)
    → Translator
    → BaseEvent
build_interrupt item_id question options assumed_option contradiction_impact tags deadline t =
    run_finished t.thread_id t.run_id (
      some (record {
        item_id = item_id;
        message = question;
        choices = elim options [ none ↦ none | some choices ↦ or_none choices ];
        expires_at = deadline;
        metadata = or_none (
            given "assumed_option" (Option.map str assumed_option)
            ++ given "contradiction_impact" (Option.map str contradiction_impact)
            ++ given "tags" (Option.map strs tags)
            ++ given "deadline" (Option.map str deadline));
      }))
