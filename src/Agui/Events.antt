-- ===== src/Agui/Events.antt =====
-- The transport events (transport/src/orxtra/transport/_events.py) and the overseer events
-- (protocols/src/orxtra/protocols/_types/_events.py) that the AG-UI translator reads, and the AG-UI
-- events that it makes of them. Timestamps are left out, and a float is its literal.
use orxtra.Prelude.{String, Bool, Option, List}
use orxtra.Prelude.Ids.{Uuid, Decimal}
use orxtra.Prelude.Dict.{Dict}

pub data TransportEvent : Type 0 where
  stream_delta thinking : (text : String) → TransportEvent
  step_start : (session_id : String) → TransportEvent
  step_finish : (reason : String) → TransportEvent
  tool_executing : (tool_use_id tool_name : String) → TransportEvent
  tool_use : (tool_use_id output : String) → TransportEvent
  result : TransportEvent
  error : (name message : String) → TransportEvent
  other : TransportEvent

pub data OverseerEvent : Type 0 where
  run_started : OverseerEvent
  budget_threshold_crossed :
      (workflow_id : Uuid) (budget_usd spent_usd : Decimal) (threshold_pct : String) → OverseerEvent
  budget_exhausted : (workflow_id : Uuid) → OverseerEvent
  task_failed : (task_id : Uuid) (task_name : String) → OverseerEvent
  task_escalated : (task_id : Uuid) (task_name : String) (from_child_task_id : Uuid) → OverseerEvent
  inbox_answered :
      (item_id : Uuid) (assumed_option actual_answer : String) (contradicts : Bool) → OverseerEvent
  inbox_rejected : (item_id : Uuid) (rejection_reason : String) → OverseerEvent
  structural_advisory : (task_id : Uuid) (observation suggestion : String) → OverseerEvent
  health_degraded : (event_type failure_rate threshold : String) → OverseerEvent

-- What the value of a custom event holds.
pub data Value : Type 0 where
  uuid : Uuid → Value
  amount : Decimal → Value
  str float : String → Value
  flag : Bool → Value
  strs : List String → Value

pub record Interrupt : Type 0 where
  pub item_id : String
  pub message : String
  pub choices : Option (List String)
  pub expires_at : Option String
  pub metadata : Option (Dict String Value)

pub data BaseEvent : Type 0 where
  text_message_start text_message_end : (message_id : Uuid) → BaseEvent
  text_message_content : (message_id : Option Uuid) (delta : String) → BaseEvent
  thinking_start thinking_end : BaseEvent
  thinking_content : (delta : String) → BaseEvent
  step_started step_finished : (step_name : String) → BaseEvent
  tool_call_start :
      (tool_call_id tool_call_name : String) (parent_message_id : Option Uuid) → BaseEvent
  tool_call_end : (tool_call_id : String) → BaseEvent
  tool_call_result : (message_id : Uuid) (tool_call_id content : String) → BaseEvent
  run_start : (thread_id run_id : String) → BaseEvent
  run_finished : (thread_id run_id : String) (interrupt : Option Interrupt) → BaseEvent
  run_error : (message : String) → BaseEvent
  custom : (name : String) (value : Dict String Value) → BaseEvent
