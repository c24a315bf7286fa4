-- ===== src/Scheduler/Lifecycle/Constraints.antt =====
-- `_run_mechanical_constraints` (scheduler/src/orxtra/scheduler/_enforcement.py). The check of one
-- constraint is an argument.
use Prim.Native.String.{◌++◌ as join}
use orxtra.Prelude.{
  String, Bool, true, false, not, ◌&&◌, Option, none, some, List, [], ◌∷◌, ◌==◌, string_eq, nat_eq,
  if◌then◌else◌, Result, ok, err,
}
use orxtra.Prelude.Ids.{Uuid}
use orxtra.Trace.Transitions.{task_status_eq}
use orxtra.Scheduler.Lifecycle.{Scheduler, children_of, CheckResult}

pub data ConstraintKind : Type 0 where
  tests_pass lint_clean no_removed_exports no_changed_signatures : ConstraintKind
  no_new_dependencies no_new_files_outside : ConstraintKind

-- `ConstraintKind(kind_str)`
unfoldable pub constraint_kind : String → Option ConstraintKind
constraint_kind word =
    if word == "tests_pass"
    then some tests_pass
    else if word == "lint_clean"
    then some lint_clean
    else if word == "no_removed_exports"
    then some no_removed_exports
    else if word == "no_changed_signatures"
    then some no_changed_signatures
    else if word == "no_new_dependencies"
    then some no_new_dependencies
    else if word == "no_new_files_outside"
    then some no_new_files_outside
    else none

abbrev is_expensive : ConstraintKind → Bool
is_expensive tests_pass = true
is_expensive lint_clean = true
is_expensive _ = false

-- `bool(xs)`
abbrev pub is_nonempty {ℓ} : {A : Type ℓ} → List A → Bool
is_nonempty [] = false
is_nonempty (x ∷ xs) = true

abbrev pub Check : Type 0
Check = (kind : ConstraintKind) (task_id : Uuid) (text : String) → Result CheckResult

abbrev prepend : Result CheckResult → Result (List CheckResult) → Result (List CheckResult)
prepend (err raised) rest = err raised
prepend (ok r) (err raised) = err raised
prepend (ok r) (ok results) = ok (r ∷ results)

unfoldable pub run_constraint :
    (check : Check) (task_id : Uuid) (has_subtasks : Bool) (text kind_str : String)
    → Option ConstraintKind
    → (rest : Result (List CheckResult)) → Result (List CheckResult)
run_constraint check task_id has_subtasks text kind_str none rest =
    prepend (ok (record { passed = false; message = join "Unknown constraint kind: " kind_str }))
      rest
run_constraint check task_id has_subtasks text kind_str (some kind) rest =
    if is_expensive kind && not has_subtasks then rest else prepend (check kind task_id text) rest

unfoldable pub run_constraints :
    (check : Check) (task_id : Uuid) (has_subtasks : Bool)
    → List (String × String)
    → Result (List CheckResult)
unfolding run_constraint constraint_kind
run_constraints check task_id has_subtasks [] = ok []
run_constraints check task_id has_subtasks ((text, kind_str) ∷ constraints) =
    run_constraint check task_id has_subtasks text kind_str (constraint_kind kind_str)
      (run_constraints check task_id has_subtasks constraints)

unfoldable pub run_mechanical_constraints :
    (check : Check) (task_id : Uuid) → Scheduler → Result (List CheckResult)
unfolding run_constraints children_of
run_mechanical_constraints check task_id s =
    run_constraints check task_id (is_nonempty (children_of task_id s)) s.mechanical_constraints
