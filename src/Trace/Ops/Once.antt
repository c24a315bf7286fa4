-- ===== src/Trace/Ops/Once.antt =====
-- Lemmas on the events with an idempotency key (trace/src/orxtra/trace/_memory_backend.py).
use mathlib.Core.List.{append-nil}
use orxtra.Prelude.{
  ℕ, ◌+◌, ◌≡◌, refl, ◌∙◌, ap, String, Bool, false, Option, none, some, List, [], ◌∷◌, ◌++◌, ◌==◌,
  nat_eq, string_eq, arith, if◌then◌else◌,
}
use orxtra.Prelude.Json.{Json}
use orxtra.Prelude.Dict.{Dict, get, get-put}
use orxtra.Trace.Transitions.{TaskStatus, RunStatus}
use orxtra.Trace.Rows.{Uuid, Time, Run, Task, Event}
use orxtra.Trace.Store.{Store}
use orxtra.Trace.Tasks
use orxtra.Trace.Runs
use orxtra.Trace.Tasks.{task_event}
use orxtra.Trace.Runs.{run_event}
use orxtra.Trace.Events.{write_event, new_event}
use orxtra.Trace.Recovery.{is_interrupted, is_orphaned, reclaim_loop, clean_loop}
use orxtra.Trace.Ops.{Op, step, steps}

abbrev pub has_key : String → Event → Bool
has_key k ev = elim ev.idempotency_key [ none ↦ false | some j ↦ j == k ]

-- The ids of the events that carry a key.
unfoldable pub ids_with : String → List Event → List Uuid
ids_with k [] = []
ids_with k (ev ∷ evs) = if has_key k ev then ev.id ∷ ids_with k evs else ids_with k evs

abbrev pub to_list {ℓ} : {A : Type ℓ} → Option A → List A
to_list none = []
to_list (some a) = a ∷ []

module _ (k : String) where
  ids_with-append : (xs ys : List Event) → ids_with k (xs ++ ys) ≡ ids_with k xs ++ ids_with k ys
  unfolding ids_with
  ids_with-append [] ys = refl
  ids_with-append (x ∷ xs) ys = ground (arith, ids_with-append xs ys)

  ids_with_keyless :
      (xs : List Event) (ev : Event)
      → ev.idempotency_key ≡ none
      → ids_with k (xs ++ ev ∷ []) ≡ ids_with k xs
  unfolding ids_with
  ids_with_keyless [] ev h = rw h
  ids_with_keyless (x ∷ xs) ev h = ground (arith, ids_with_keyless xs ev)

  ids_with_reclaim :
      (ids : ℕ → Uuid) (times : ℕ → Time) (n : ℕ) (tasks : Dict Uuid Task)
      → ids_with k (reclaim_loop ids times n tasks).appended ≡ []
  unfolding ids_with reclaim_loop
  ids_with_reclaim ids times n [] = refl
  ids_with_reclaim ids times n ((id, task) ∷ tasks) =
      ground (arith, ids_with_reclaim ids times (if is_interrupted task then n + 1 else n) tasks)

  ids_with_clean :
      (ids : ℕ → Uuid) (finished times : ℕ → Time) (locks : Dict Uuid Bool) (n : ℕ)
      (runs : Dict Uuid Run)
      → ids_with k (clean_loop ids finished times locks n runs).appended ≡ []
  unfolding ids_with clean_loop
  ids_with_clean ids finished times locks n [] = refl
  ids_with_clean ids finished times locks n ((id, run) ∷ runs) = ground (
    arith,
    ids_with_clean ids finished times locks (if is_orphaned locks run then n + 1 else n) runs,
  )

  -- The log holds the key exactly as the index does.
  abbrev pub IsIndexed : Store → Type 0
  IsIndexed s = ids_with k s.events ≡ to_list (get s.idempotency_index k)

  IsIndexed-task :
      (s : Store) (fresh : Uuid) (now : Time) (t : Uuid) (new : TaskStatus) (reason : Option String)
      (principal : Uuid)
      → IsIndexed s
      → Tasks.Outcomes.Outcome fresh now t new reason principal s
      → IsIndexed (Tasks.transition_task fresh now t new reason principal s).1
  IsIndexed-task s fresh now t new reason principal h (Tasks.Outcomes.raised e out) = rw out h
  IsIndexed-task s fresh now t new reason principal h (Tasks.Outcomes.moved task found valid out) =
      rw out (ids_with_keyless s.events (task_event fresh now task t new reason principal) refl ∙ h)

  IsIndexed-run :
      (s : Store) (fresh : Uuid) (finished now : Time) (r : Uuid) (new : RunStatus)
      (reason : Option String) (principal : Uuid)
      → IsIndexed s
      → Runs.Outcomes.Outcome fresh finished now r new reason principal s
      → IsIndexed (Runs.transition_run fresh finished now r new reason principal s).1
  IsIndexed-run s fresh finished now r new reason principal h (Runs.Outcomes.raised e out) =
      rw out h
  IsIndexed-run s fresh finished now r new reason principal h
        (Runs.Outcomes.moved run found valid out) =
      rw out (ids_with_keyless s.events (run_event fresh now run r new reason principal) refl ∙ h)

  IsIndexed-write :
      (s : Store) (fresh : Uuid) (now : Time) (run_id : Option Uuid) (event_type : String)
      (body : Json) (task_id : Option Uuid) (principal : Uuid) (key : Option String)
      → IsIndexed s
      → IsIndexed (write_event fresh now run_id event_type body task_id principal key s).1
  unfolding write_event ids_with
  IsIndexed-write s fresh now run_id event_type body task_id principal none h =
      ids_with_keyless s.events (new_event fresh now run_id event_type body task_id principal none)
        refl
      ∙ h
  IsIndexed-write s fresh now run_id event_type body task_id principal (some j) h = ground (
    arith,
    string_eq.beq_iff j k,
    get-put s.idempotency_index j k fresh,
    ids_with-append s.events
        (new_event fresh now run_id event_type body task_id principal (some j) ∷ []),
  )

  step-IsIndexed : (op : Op) (s : Store) → IsIndexed s → IsIndexed (step op s)
  unfolding step
  step-IsIndexed (Op.transition_task fresh now t new reason principal) s h =
      IsIndexed-task s fresh now t new reason principal h (Tasks.Outcomes.outcome _ _ _ _ _ _ s)
  step-IsIndexed (Op.transition_run fresh finished now r new reason principal) s h =
      IsIndexed-run s fresh finished now r new reason principal h
        (Runs.Outcomes.outcome _ _ _ _ _ _ _ s)
  step-IsIndexed (Op.write_event fresh now run_id event_type body task_id principal key) s h =
      IsIndexed-write s fresh now run_id event_type body task_id principal key h
  step-IsIndexed (Op.reclaim_interrupted ids times) s h =
      ids_with-append s.events _
      ∙ ap (λ x. ids_with k s.events ++ x) (ids_with_reclaim ids times 0 s.tasks)
      ∙ append-nil _
      ∙ h
  step-IsIndexed (Op.clean_orphaned ids finished times) s h =
      ids_with-append s.events _
      ∙ ap (λ x. ids_with k s.events ++ x) (ids_with_clean ids finished times s.run_locks 0 s.runs)
      ∙ append-nil _
      ∙ h
  step-IsIndexed _ s h = ground arith

  pub steps-IsIndexed : (ops : List Op) (s : Store) → IsIndexed s → IsIndexed (steps ops s)
  unfolding steps
  steps-IsIndexed [] s h = h
  steps-IsIndexed (op ∷ ops) s h = steps-IsIndexed ops (step op s) (step-IsIndexed op s h)
