-- ===== src/Trace/Ops/Audit.antt =====
-- The invariant of the event log (trace/src/orxtra/trace/_memory_backend.py).
use mathlib.Core.Option
use orxtra.Trace.Recovery.{reclaim_loop}
use orxtra.Prelude.{
  sym, ℕ, ◌≡◌, refl, false, Option, none, some, [], ◌∷◌, ◌++◌, arith, ◌==◌, nat_eq, string_eq,
  count, ◌||◌, ◌∙◌, if◌then◌else◌,
}
use orxtra.Prelude.Dict.{Dict, get, has, put, map_values, get-put, get-map_values}
use orxtra.Prelude.Dict.Unique.{Unique, put-Unique, map_values-Unique}
use orxtra.Trace.Transitions.{TaskStatus}
use orxtra.Trace.Rows.{Uuid, Time, Task, Event}
use orxtra.Trace.Store.{Store}
use orxtra.Trace.Recovery.Loops.{reclaimed, reclaim_rows}
use orxtra.Trace.Ops.{Op, step}
use orxtra.Trace.Ops.Replay.{
  effect, swept_status, mentions, replay, replay-append, replay-snoc, replay_unmentioned, Keyed,
  replay_reclaim,
}

-- Each row has its own key, and the log replays to its status.
pub record IsAudited (s : Store) : Type 0 where
  pub unique : Unique s.tasks
  pub keyed : Keyed s.tasks
  pub told :
      (t : Uuid) (task : Task)
      → get s.tasks t ≡ some task
      → replay t TaskStatus.created s.events ≡ task.status

-- A new task's id is new, and no caller writes an event of the two types that the backend reserves.
abbrev pub Admissible : Op → Store → Type 0
Admissible (Op.create_task fresh now run_id parent name task_type config) s =
    (has s.tasks fresh ≡ false) × (count (mentions fresh) s.events ≡ 0)
Admissible (Op.write_event fresh now run_id event_type body task_id principal key) s =
    (event_type == "task_transition" || event_type == "crash_recovery") ≡ false
Admissible _ s = Unit

put-Keyed :
    (d : Dict Uuid Task) (k : Uuid) (task : Task) → Keyed d → task.id ≡ k → Keyed (put d k task)
unfolding put
put-Keyed [] k task h q = (q, tt)
put-Keyed ((id, old) ∷ d) k task h q = ground (arith, put-Keyed d k task)

get-Keyed :
    (d : Dict Uuid Task) (k : Uuid) (task : Task) → Keyed d → get d k ≡ some task → task.id ≡ k
unfolding get
get-Keyed [] k task h q = cc
get-Keyed ((id, old) ∷ d) k task h q = ground (arith, get-Keyed d k task)

reclaimed-Keyed : (d : Dict Uuid Task) → Keyed d → Keyed (map_values reclaimed d)
unfolding map_values
reclaimed-Keyed [] h = tt
reclaimed-Keyed ((id, old) ∷ d) h = ground (arith, reclaimed-Keyed d)

pub step-Unique : (op : Op) (s : Store) → IsAudited s → Unique (step op s).tasks
unfolding step
step-Unique (Op.create_task fresh now run_id parent name task_type config) s v =
    put-Unique s.tasks fresh _ v.unique
step-Unique (Op.transition_task fresh now task_id new reason principal) s v =
    grind (arith, put-Unique)
step-Unique (Op.reclaim_interrupted ids times) s v =
    rw (reclaim_rows ids times 0 s.tasks) (map_values-Unique reclaimed s.tasks v.unique)
step-Unique _ s v = ground arith

pub step-Keyed : (op : Op) (s : Store) → IsAudited s → Keyed (step op s).tasks
unfolding step
step-Keyed (Op.create_task fresh now run_id parent name task_type config) s v =
    put-Keyed s.tasks fresh _ v.keyed refl
step-Keyed (Op.transition_task fresh now task_id new reason principal) s v =
    grind (arith, put-Keyed, get-Keyed)
step-Keyed (Op.reclaim_interrupted ids times) s v =
    rw (reclaim_rows ids times 0 s.tasks) (reclaimed-Keyed s.tasks v.keyed)
step-Keyed _ s v = ground arith

module _ (s : Store) (v : IsAudited s) (t : Uuid) where
  -- One more event that leaves the statuses alone.
  pub told_after :
      (ev : Event) (task : Task)
      → ((st : TaskStatus) → effect t ev st ≡ st)
      → get s.tasks t ≡ some task
      → replay t TaskStatus.created (s.events ++ ev ∷ []) ≡ task.status
  told_after ev task idle h =
      replay-snoc t TaskStatus.created s.events ev ∙ idle _ ∙ v.told t task h

  pub told_create :
      (fresh : Uuid) (new task : Task)
      → new.status ≡ TaskStatus.created
      → count (mentions fresh) s.events ≡ 0
      → get (put s.tasks fresh new) t ≡ some task
      → replay t TaskStatus.created s.events ≡ task.status
  told_create fresh new task start unseen h = ground (
    arith,
    get-put s.tasks fresh t new,
    replay_unmentioned fresh TaskStatus.created s.events,
    v.told t task,
  )

  pub told_transition :
      (ev : Event) (task_id : Uuid) (new : TaskStatus) (old task : Task)
      → ((st : TaskStatus) → effect t ev st ≡ (if task_id == t then new else st))
      → get (put s.tasks task_id (record old { status = new })) t ≡ some task
      → replay t TaskStatus.created (s.events ++ ev ∷ []) ≡ task.status
  told_transition ev task_id new old task sets h = ground (
    arith,
    get-put s.tasks task_id t (record old { status = new }),
    replay-snoc t TaskStatus.created s.events ev,
    sets (replay t TaskStatus.created s.events),
    v.told t task,
  )

  pub told_reclaim :
      (ids : ℕ → Uuid) (times : ℕ → Time) (task : Task)
      → get (map_values reclaimed s.tasks) t ≡ some task
      → replay t TaskStatus.created (s.events ++ (reclaim_loop ids times 0 s.tasks).appended)
        ≡ task.status
  told_reclaim ids times task h =
      replay-append t TaskStatus.created s.events _
      ∙ replay_reclaim ids times t 0 s.tasks _ v.unique v.keyed
      ∙ found (get s.tasks t) refl (sym (get-map_values reclaimed s.tasks t) ∙ h)
    where
      found :
          (o : Option Task)
          → get s.tasks t ≡ o
          → Option.map reclaimed o ≡ some task
          → swept_status o (replay t TaskStatus.created s.events) ≡ task.status
      found none e q = cc
      found (some old) e q = ground (arith, v.told t old)
