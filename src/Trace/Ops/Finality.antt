-- ===== src/Trace/Ops/Finality.antt =====
-- Proofs on runs that have ended (trace/src/orxtra/trace/_memory_backend.py).
use mathlib.Core.Option
use orxtra.Prelude.{
  ◌≡◌, refl, true, false, Option, none, some, List, [], ◌∷◌, arith, contains, nat_eq, Bool-cases,
  inl, inr, ◌==◌, err, invalid_transition, ◌∙◌,
}
use orxtra.Prelude.Dict.{get, get-put, has-eq_get}
use orxtra.Trace.Runs.{new_run}
use orxtra.Trace.Transitions.{
  running, paused, RunStatus, run_terminal_states, run_status_eq, validate_run_transition,
}
use orxtra.Trace.Rows.{Uuid, Time, Run}
use orxtra.Trace.Store.{Store}
use orxtra.Trace.Recovery.{is_orphaned}
use orxtra.Trace.Recovery.Loops.{clean_kept}
use orxtra.Trace.Ops.{Op, step, steps}

abbrev pub HasEnded : Run → Type 0
HasEnded run = contains run_terminal_states run.status ≡ true

-- What is recorded about the end of a run.
abbrev pub ending : Run → RunStatus × Option Time
ending run = (run.status, run.finished_at)

refused :
    (run : Run) (new : RunStatus)
    → HasEnded run
    → validate_run_transition run.status new ≡ err invalid_transition
unfolding validate_run_transition
refused run new h = rw h

not_under_way :
    (st : RunStatus)
    → contains run_terminal_states st ≡ true
    → contains (running ∷ paused ∷ []) st ≡ false
not_under_way RunStatus.created h = cc
not_under_way running h = cc
not_under_way paused h = cc
not_under_way _ h = refl

not_orphaned : (s : Store) (run : Run) → HasEnded run → is_orphaned s.run_locks run ≡ false
not_orphaned s run e = rw (not_under_way run.status e)

step_final :
    (op : Op) (s : Store) (r : Uuid) (run : Run)
    → get s.runs r ≡ some run
    → HasEnded run
    → Option.map ending (get (step op s).runs r) ≡ some (ending run)
unfolding step
step_final (Op.create_run now intent config level r' by) s r run h e =
    ground
      (arith, get-put s.runs r' r (new_run now intent config level r' by), has-eq_get s.runs r run)
step_final (Op.transition_run fresh finished now r' new reason principal) s r run h e =
    elim (Bool-cases (r' == r)) [
      | inl same ↦ ground (arith, refused run new e)
      | inr other ↦ grind (arith, get-put)
    ]
step_final (Op.write_coherence_summary r' summary) s r run h e = grind (arith, get-put)
step_final (Op.clean_orphaned ids finished times) s r run h e =
    rw (clean_kept ids finished times s.run_locks 0 s.runs r run h (not_orphaned s run e))
step_final _ s r run h e = ground arith

ended_inversion :
    (run : Run) (found : Option Run)
    → Option.map ending found ≡ some (ending run)
    → (run' : Run) × (found ≡ some run')
      × (run'.status ≡ run.status)
      × (run'.finished_at ≡ run.finished_at)
ended_inversion run none h = cc
ended_inversion run (some run') h = (run', refl, ground arith, ground arith)

-- Once a run is completed, failed or aborted, no sequence of calls of the backend, raising calls and
-- crash recovery included, removes it or changes its status or its `finished_at`.
pub steps-keep_ended_runs :
    (ops : List Op) (s : Store) (r : Uuid) (run : Run)
    → get s.runs r ≡ some run
    → HasEnded run
    → (run' : Run) × (get (steps ops s).runs r ≡ some run')
      × (run'.status ≡ run.status)
      × (run'.finished_at ≡ run.finished_at)
unfolding steps
steps-keep_ended_runs [] s r run h e = (run, h, refl, refl)
steps-keep_ended_runs (op ∷ ops) s r run h e =
    let (mid, found, same, when) = ended_inversion run _ (step_final op s r run h e) in
    let still : HasEnded mid = rw same e in
    let (last, found', same', when') = steps-keep_ended_runs ops (step op s) r mid found still in
    (last, found', same' ∙ same, when' ∙ when)
