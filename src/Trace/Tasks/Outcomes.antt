-- ===== src/Trace/Tasks/Outcomes.antt =====
-- The outcomes of `transition_task` (trace/src/orxtra/trace/_memory_backend.py).
use orxtra.Prelude.{◌≡◌, refl, Option, none, some, String, nat_eq, Result, ok, err, Error}
use orxtra.Prelude.Dict.{get}
use orxtra.Trace.Transitions.{TaskStatus, validate_task_transition}
use orxtra.Trace.Rows.{Uuid, Time, Task}
use orxtra.Trace.Store.{Store}
use orxtra.Trace.Tasks.{transition_task, apply_transition}

module _ (fresh : Uuid) (now : Time) (t : Uuid) (new : TaskStatus) (reason : Option String)
    (principal : Uuid) (s : Store) where
  pub data Outcome : Type 0 where
    raised : (e : Error) → transition_task fresh now t new reason principal s ≡ (err e, s) → Outcome
    moved :
        (task : Task)
        → get s.tasks t ≡ some task
        → validate_task_transition task.status new ≡ ok tt
        → transition_task fresh now t new reason principal s
          ≡ apply_transition fresh now task t new reason principal (ok tt) s
        → Outcome

  pub outcome : Outcome
  unfolding transition_task
  outcome = look (get s.tasks t) refl
    where
      judge :
          (task : Task) (v : Result (Unit {0}))
          → get s.tasks t ≡ some task
          → validate_task_transition task.status new ≡ v
          → Outcome
      judge task (ok _) found valid =
          moved task found valid (rw (found, transition_task) (rw valid))
      judge task (err e) found invalid = raised e (rw (found, transition_task) (rw invalid))

      look : (o : Option Task) → get s.tasks t ≡ o → Outcome
      look none absent = raised Error.value_error (rw (absent, transition_task))
      look (some task) found = judge task (validate_task_transition task.status new) found refl
