-- ===== src/Trace/Ops/Replay.antt =====
-- The status of a task as the event log tells it (trace/src/orxtra/trace/_memory_backend.py).
use orxtra.Prelude.{
  ℕ, ◌+◌, ◌≡◌, ◌∙◌, ap, refl, String, Bool, false, Option, none, some, List, [], ◌∷◌, ◌++◌, arith,
  ◌||◌, ◌==◌, nat_eq, string_eq, count, Bool-cases, inl, inr, if◌then◌else◌,
}
use orxtra.Prelude.Dict.{Dict, get, get-eq_has}
use orxtra.Prelude.Dict.Unique.{Unique}
use orxtra.Trace.Transitions.{TaskStatus, cancelled}
use orxtra.Trace.Rows.{Uuid, Time, Run, Task, Event, EventData, task_change}
use orxtra.Trace.Tasks.{task_event}
use orxtra.Trace.Recovery.{recovery_event, is_interrupted, is_orphaned, reclaim_loop, clean_loop}

abbrev pub mentions : Uuid → Event → Bool
mentions t ev = elim ev.task_id [ none ↦ false | some t' ↦ t' == t ]

-- The new status that a transition event records.
abbrev recorded : EventData → TaskStatus → TaskStatus
recorded (task_change task_id old_status new_status reason) st = new_status
recorded _ st = st

-- A transition sets the recorded status, a recovery cancels, any other event changes nothing.
unfoldable pub effect : Uuid → Event → TaskStatus → TaskStatus
effect t ev st =
    if mentions t ev
    then (if ev.event_type == "task_transition"
        then recorded ev.body st
        else if ev.event_type == "crash_recovery"
        then cancelled
        else st)
    else st

unfoldable pub replay : Uuid → TaskStatus → List Event → TaskStatus
replay t st [] = st
replay t st (ev ∷ evs) = replay t (effect t ev st) evs

pub replay-append :
    (t : Uuid) (st : TaskStatus) (xs ys : List Event)
    → replay t st (xs ++ ys) ≡ replay t (replay t st xs) ys
unfolding replay
replay-append t st [] ys = refl
replay-append t st (x ∷ xs) ys = replay-append t (effect t x st) xs ys

pub replay-snoc :
    (t : Uuid) (st : TaskStatus) (xs : List Event) (ev : Event)
    → replay t st (xs ++ ev ∷ []) ≡ effect t ev (replay t st xs)
unfolding replay
replay-snoc t st [] ev = refl
replay-snoc t st (x ∷ xs) ev = replay-snoc t (effect t x st) xs ev

-- A log that does not mention the task leaves its status.
pub replay_unmentioned :
    (t : Uuid) (st : TaskStatus) (xs : List Event) → count (mentions t) xs ≡ 0 → replay t st xs ≡ st
unfolding replay effect
replay_unmentioned t st [] h = refl
replay_unmentioned t st (x ∷ xs) h = ground (arith, replay_unmentioned t st xs)

-- What the sweep of the tasks does to the status of one.
abbrev pub swept_status : Option Task → TaskStatus → TaskStatus
swept_status none st = st
swept_status (some task) st = if is_interrupted task then cancelled else st

abbrev pub Keyed : Dict Uuid Task → Type 0
Keyed [] = Unit
Keyed ((id, task) ∷ tasks) = (task.id ≡ id) × Keyed tasks

-- What an event of the recovery does.
pub effect_recovery :
    (t fresh : Uuid) (now : Time) (run_id id : Uuid) (action : String) (st : TaskStatus)
    → effect t (recovery_event fresh now run_id (some id) action) st
      ≡ (if id == t then cancelled else st)
unfolding effect
effect_recovery t fresh now run_id id action st = elim (Bool-cases (id == t)) [
  | inl same ↦ rw same
  | inr differ ↦ rw differ
]

pub effect_taskless :
    (t : Uuid) (ev : Event) (st : TaskStatus) → ev.task_id ≡ none → effect t ev st ≡ st
unfolding effect
effect_taskless t ev st h = rw h

module _ (ids : ℕ → Uuid) (times : ℕ → Time) (t : Uuid) where
  pub replay_reclaim :
      (k : ℕ) (tasks : Dict Uuid Task) (st : TaskStatus)
      → Unique tasks
      → Keyed tasks
      → replay t st (reclaim_loop ids times k tasks).appended ≡ swept_status (get tasks t) st
  unfolding replay reclaim_loop get
  replay_reclaim k [] st u q = refl
  replay_reclaim k ((id, task) ∷ tasks) st u q = elim (Bool-cases (is_interrupted task)) [
    | inl hit ↦
        let rest = (reclaim_loop ids times (k + 1) tasks).appended in
        let st' : TaskStatus = if id == t then cancelled else st in
        let event =
          recovery_event (ids k) (times k) task.run_id (some task.id) "reclaim_interrupted" in
        let first : effect t event st ≡ st' =
          rw q.0 (effect_recovery t (ids k) (times k) task.run_id id "reclaim_interrupted" st) in
        rw hit (
          ap (λ x. replay t x rest) first
          ∙ replay_reclaim (k + 1) tasks st' u.1 q.1
          ∙ ground (arith, get-eq_has tasks id))
    | inr miss ↦ rw miss (ground (arith, get-eq_has tasks id, replay_reclaim k tasks st u.1 q.1))
  ]

-- The sweep of the runs mentions no task.
pub replay_clean :
    (ids : ℕ → Uuid) (finished times : ℕ → Time) (locks : Dict Uuid Bool) (k : ℕ)
    (runs : Dict Uuid Run) (t : Uuid) (st : TaskStatus)
    → replay t st (clean_loop ids finished times locks k runs).appended ≡ st
unfolding replay clean_loop
replay_clean ids finished times locks k [] t st = refl
replay_clean ids finished times locks k ((id, run) ∷ runs) t st =
    elim (Bool-cases (is_orphaned locks run)) [
      | inl hit ↦
          let rest = (clean_loop ids finished times locks (k + 1) runs).appended in
          let event = recovery_event (ids k) (times k) run.id none "clean_orphaned" in
          rw hit (
            ap (λ x. replay t x rest) (effect_taskless t event st refl)
            ∙ replay_clean ids finished times locks (k + 1) runs t st)
      | inr miss ↦ rw miss (replay_clean ids finished times locks k runs t st)
    ]

pub effect_transition :
    (t fresh : Uuid) (now : Time) (task : Task) (task_id : Uuid) (new : TaskStatus)
    (reason : Option String) (principal : Uuid) (st : TaskStatus)
    → effect t (task_event fresh now task task_id new reason principal) st
      ≡ (if task_id == t then new else st)
unfolding effect
effect_transition t fresh now task task_id new reason principal st = refl

-- An event of a type that the backend does not reserve has no effect on any task.
pub effect_foreign :
    (t : Uuid) (ev : Event) (st : TaskStatus)
    → (ev.event_type == "task_transition" || ev.event_type == "crash_recovery") ≡ false
    → effect t ev st ≡ st
unfolding effect
effect_foreign t ev st h = ground arith
