-- ===== src/Trace/Ops.antt =====
-- One call of a method of `InMemoryBackend` that changes the state, and the state after it.
-- A call that raises leaves the state that its method left.
pub mod Finality
pub mod Replay
pub mod Audit
pub mod Log
pub mod Once
pub mod Retry
pub mod Settled
use orxtra.Prelude.{ℕ, String, Bool, Option, List, [], ◌∷◌}
use orxtra.Prelude.Json.{Json}
use orxtra.Trace.Transitions.{TaskStatus, RunStatus}
use orxtra.Trace.Rows.{Uuid, Time}
use orxtra.Trace.Store.{Store, Callback}
use orxtra.Trace.Tasks
use orxtra.Trace.Tasks.{Usage}
use orxtra.Trace.Events
use orxtra.Trace.Runs
use orxtra.Trace.Inbox
use orxtra.Trace.Overseer
use orxtra.Trace.Recovery

pub data Op : Type 0 where
  create_task :
      (fresh : Uuid) (now : Time) (run_id : Uuid) (parent : Option Uuid) (name task_type : String)
      (config : Option Json)
      → Op
  transition_task :
      (fresh : Uuid) (now : Time) (task_id : Uuid) (new_status : TaskStatus)
      (reason : Option String) (principal_id : Uuid)
      → Op
  create_task_attempt : (fresh task_id : Uuid) (attempt : ℕ) → Op
  complete_task_attempt :
      (attempt_id : Uuid) (agent_output : String) (structured_output check_result : Option Json)
      (check_verdict : Option String) (usage : Usage)
      → Op
  fail_task_attempt : (attempt_id : Uuid) (error : String) (usage : Usage) → Op
  create_iteration :
      (fresh : Uuid) (now : Time) (task_id : Uuid) (index : ℕ) (item_value : Json) → Op
  complete_iteration :
      (now : Time) (iteration_id : Uuid) (output : Option String) (structured_output : Option Json)
      (check_results : Option (List Json))
      → Op
  fail_iteration : (now : Time) (iteration_id : Uuid) (error : String) → Op
  write_event :
      (fresh : Uuid) (now : Time) (run_id : Option Uuid) (event_type : String) (body : Json)
      (task_id : Option Uuid) (principal_id : Uuid) (idempotency_key : Option String)
      → Op
  write_transcript_entry :
      (fresh : Uuid) (now : Time) (session_id run_id : Uuid) (turn : ℕ) (role content : String)
      (tool_calls tokens : Option Json)
      → Op
  create_run :
      (now : Time) (intent : String) (config : Json) (autonomy_level : String)
      (run_id created_by : Uuid)
      → Op
  transition_run :
      (fresh : Uuid) (finished now : Time) (run_id : Uuid) (new_status : RunStatus)
      (reason : Option String) (principal_id : Uuid)
      → Op
  write_coherence_summary : (run_id : Uuid) (summary : String) → Op
  subscribe_run_control : (run_id : Uuid) (callback : Callback) → Op
  unsubscribe_run_control : (run_id : Uuid) → Op
  write_decision :
      (fresh : Uuid) (now : Time) (run_id : Uuid) (decision_type choice : String)
      (rationale : Option String)
      → Op
  write_constraint :
      (fresh : Uuid) (now : Time) (run_id : Uuid) (text tier kind : String) (args : Option Json)
      → Op
  write_assumption :
      (fresh : Uuid) (now : Time) (run_id : Uuid) (text scope : String)
      (inbox_item_id : Option Uuid)
      → Op
  write_lesson :
      (fresh : Uuid) (now : Time) (run_id : Uuid) (text : String) (relevance_tags : List String)
      (permanent : Bool) (source_files : Option (List String))
      → Op
  update_workflow_status : (now : Time) (workflow_id : Uuid) (current_step health : String) → Op
  write_context_diff : (fresh attempt_id : Uuid) (pre_refinement refinement_diff : String) → Op
  create_inbox_item :
      (fresh : Uuid) (now : Time) (run_id : Uuid) (decision_type question : String)
      (options : List Json) (assumed_option work_proceeding contradiction_impact : Option String)
      (tags : Option (List String)) (deadline : Option Time) (answer_event : Option String)
      → Op
  answer_inbox_item : (now : Time) (item_id : Uuid) (answer : String) (resolved_by : Uuid) → Op
  skip_inbox_item : (item_id resolved_by : Uuid) → Op
  reject_inbox_item : (item_id : Uuid) (reason : String) (resolved_by : Uuid) → Op
  expire_inbox_item : (item_id resolved_by : Uuid) → Op
  expire_due_inbox_items : (now : Time) → Op
  write_notepad_entry :
      (fresh : Uuid) (now : Time) (run_id : Uuid) (task_name agent_name entry_type text : String)
      → Op
  acquire_run_lock : (run_id : Uuid) → Op
  release_run_lock : (run_id : Uuid) → Op
  update_heartbeat : (monotonic : Time) (run_id : Uuid) → Op
  reclaim_interrupted : (ids : ℕ → Uuid) (times : ℕ → Time) → Op
  clean_orphaned : (ids : ℕ → Uuid) (finished times : ℕ → Time) → Op
  write_knowledge_hash : (run_id : Uuid) (path file_hash : String) → Op

unfoldable pub step : Op → Store → Store
unfolding Tasks.create_task Tasks.transition_task Tasks.create_task_attempt
    Tasks.complete_task_attempt Tasks.fail_task_attempt Tasks.create_iteration
    Tasks.complete_iteration Tasks.fail_iteration Events.write_event Events.write_transcript_entry
    Runs.create_run Runs.transition_run Runs.write_coherence_summary Runs.subscribe_run_control
    Runs.unsubscribe_run_control Overseer.write_decision Overseer.write_constraint
    Overseer.write_assumption Overseer.write_lesson Overseer.update_workflow_status
    Overseer.write_context_diff Inbox.create_inbox_item Inbox.answer_inbox_item
    Inbox.skip_inbox_item Inbox.reject_inbox_item Inbox.expire_inbox_item
    Inbox.expire_due_inbox_items Overseer.write_notepad_entry Recovery.acquire_run_lock
    Recovery.release_run_lock Recovery.update_heartbeat Recovery.reclaim_interrupted
    Recovery.clean_orphaned Overseer.write_knowledge_hash
step (create_task a b c d e f g) s = (Tasks.create_task a b c d e f g s).1
step (transition_task a b c d e f) s = (Tasks.transition_task a b c d e f s).1
step (create_task_attempt a b c) s = (Tasks.create_task_attempt a b c s).1
step (complete_task_attempt a b c d e f) s = (Tasks.complete_task_attempt a b c d e f s).1
step (fail_task_attempt a b c) s = (Tasks.fail_task_attempt a b c s).1
step (create_iteration a b c d e) s = (Tasks.create_iteration a b c d e s).1
step (complete_iteration a b c d e) s = (Tasks.complete_iteration a b c d e s).1
step (fail_iteration a b c) s = (Tasks.fail_iteration a b c s).1
step (write_event a b c d e f g h) s = (Events.write_event a b c d e f g h s).1
step (write_transcript_entry a b c d e f g h i) s =
    Events.write_transcript_entry a b c d e f g h i s
step (create_run a b c d e f) s = (Runs.create_run a b c d e f s).1
step (transition_run a b c d e f g) s = (Runs.transition_run a b c d e f g s).1
step (write_coherence_summary a b) s = Runs.write_coherence_summary a b s
step (subscribe_run_control a b) s = (Runs.subscribe_run_control a b s).1
step (unsubscribe_run_control a) s = Runs.unsubscribe_run_control a s
step (write_decision a b c d e f) s = (Overseer.write_decision a b c d e f s).1
step (write_constraint a b c d e f g) s = (Overseer.write_constraint a b c d e f g s).1
step (write_assumption a b c d e f) s = (Overseer.write_assumption a b c d e f s).1
step (write_lesson a b c d e f g) s = (Overseer.write_lesson a b c d e f g s).1
step (update_workflow_status a b c d) s = Overseer.update_workflow_status a b c d s
step (write_context_diff a b c d) s = Overseer.write_context_diff a b c d s
step (create_inbox_item a b c d e f g h i j k l) s =
    (Inbox.create_inbox_item a b c d e f g h i j k l s).1
step (answer_inbox_item a b c d) s = (Inbox.answer_inbox_item a b c d s).1
step (skip_inbox_item a b) s = (Inbox.skip_inbox_item a b s).1
step (reject_inbox_item a b c) s = (Inbox.reject_inbox_item a b c s).1
step (expire_inbox_item a b) s = (Inbox.expire_inbox_item a b s).1
step (expire_due_inbox_items a) s = (Inbox.expire_due_inbox_items a s).1
step (write_notepad_entry a b c d e f g) s = Overseer.write_notepad_entry a b c d e f g s
step (acquire_run_lock a) s = (Recovery.acquire_run_lock a s).1
step (release_run_lock a) s = Recovery.release_run_lock a s
step (update_heartbeat a b) s = Recovery.update_heartbeat a b s
step (reclaim_interrupted a b) s = (Recovery.reclaim_interrupted a b s).1
step (clean_orphaned a b c) s = (Recovery.clean_orphaned a b c s).1
step (write_knowledge_hash a b c) s = Overseer.write_knowledge_hash a b c s

-- A sequence of calls.
unfoldable pub steps : List Op → Store → Store
steps [] s = s
steps (op ∷ ops) s = steps ops (step op s)
