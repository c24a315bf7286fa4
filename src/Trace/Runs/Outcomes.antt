-- ===== src/Trace/Runs/Outcomes.antt =====
-- The outcomes of `transition_run` on runs (trace/src/orxtra/trace/_memory_backend.py).
use orxtra.Prelude.{◌≡◌, refl, Option, none, some, String, nat_eq, Result, ok, err, Error}
use orxtra.Prelude.Dict.{get}
use orxtra.Trace.Transitions.{RunStatus, validate_run_transition}
use orxtra.Trace.Rows.{Uuid, Time, Run}
use orxtra.Trace.Store.{Store}
use orxtra.Trace.Runs.{transition_run, apply_transition}

module _ (fresh : Uuid) (finished now : Time) (r : Uuid) (new : RunStatus) (reason : Option String)
    (principal : Uuid) (s : Store) where
  pub data Outcome : Type 0 where
    raised :
        (e : Error)
        → transition_run fresh finished now r new reason principal s ≡ (err e, s)
        → Outcome
    moved :
        (run : Run)
        → get s.runs r ≡ some run
        → validate_run_transition run.status new ≡ ok tt
        → transition_run fresh finished now r new reason principal s
          ≡ apply_transition fresh finished now run r new reason principal (ok tt) s
        → Outcome

  pub outcome : Outcome
  unfolding transition_run
  outcome = look (get s.runs r) refl
    where
      judge :
          (run : Run) (v : Result (Unit {0}))
          → get s.runs r ≡ some run
          → validate_run_transition run.status new ≡ v
          → Outcome
      judge run (ok _) found valid = moved run found valid (rw (found, transition_run) (rw valid))
      judge run (err e) found invalid = raised e (rw (found, transition_run) (rw invalid))

      look : (o : Option Run) → get s.runs r ≡ o → Outcome
      look none absent = raised Error.value_error (rw (absent, transition_run))
      look (some run) found = judge run (validate_run_transition run.status new) found refl
