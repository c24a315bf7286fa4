-- ===== src/Trace/Transitions.antt =====
-- trace/src/orxtra/trace/_transitions.py: the transition tables and the two validators.
-- The source's states are strings. Here each state word of the tables is a constructor, and
-- `other` carries any string that is none of them.
pub mod Relation
use orxtra.Prelude.{
  ℕ, zero, suc, String, ◌≡◌, refl, subst, ◌↔◌, Bool, true, false, ◌&&◌, Option, none, some, List,
  [], ◌∷◌, arith, Eq, nat_eq, string_eq, ◌==◌, contains, if◌then◌else◌, Result, ok, err, Error,
  invalid_transition, nat_beq_iff,
}

pub data TaskStatus : Type 0 where
  created prechecking active suspended postchecking completed : TaskStatus
  precheck_failed postcheck_failed escalated cancelled : TaskStatus
  other : String → TaskStatus

pub data RunStatus : Type 0 where
  created running paused completed failed aborted : RunStatus
  other : String → RunStatus

abbrev task_tag : TaskStatus → ℕ
task_tag TaskStatus.created = 0
task_tag prechecking = 1
task_tag active = 2
task_tag suspended = 3
task_tag postchecking = 4
task_tag TaskStatus.completed = 5
task_tag precheck_failed = 6
task_tag postcheck_failed = 7
task_tag escalated = 8
task_tag cancelled = 9
task_tag (TaskStatus.other word) = 10

abbrev task_word : TaskStatus → String
task_word (TaskStatus.other word) = word
task_word _ = ""

abbrev run_tag : RunStatus → ℕ
run_tag RunStatus.created = 0
run_tag running = 1
run_tag paused = 2
run_tag RunStatus.completed = 3
run_tag failed = 4
run_tag aborted = 5
run_tag (RunStatus.other word) = 6

abbrev run_word : RunStatus → String
run_word (RunStatus.other word) = word
run_word _ = ""

-- Equality of the status strings.
abbrev pub task_status_beq : TaskStatus → TaskStatus → Bool
task_status_beq a b = task_tag a == task_tag b && task_word a == task_word b

abbrev pub run_status_beq : RunStatus → RunStatus → Bool
run_status_beq a b = run_tag a == run_tag b && run_word a == run_word b

-- A status is determined by its tag and word.
task_of : ℕ → String → TaskStatus
task_of zero w = TaskStatus.created
task_of (suc zero) w = prechecking
task_of (suc (suc zero)) w = active
task_of (suc (suc (suc zero))) w = suspended
task_of (suc (suc (suc (suc zero)))) w = postchecking
task_of (suc (suc (suc (suc (suc zero))))) w = TaskStatus.completed
task_of (suc (suc (suc (suc (suc (suc zero)))))) w = precheck_failed
task_of (suc (suc (suc (suc (suc (suc (suc zero))))))) w = postcheck_failed
task_of (suc (suc (suc (suc (suc (suc (suc (suc zero)))))))) w = escalated
task_of (suc (suc (suc (suc (suc (suc (suc (suc (suc zero))))))))) w = cancelled
task_of _ w = TaskStatus.other w

task_of_tag : (a : TaskStatus) → task_of (task_tag a) (task_word a) ≡ a
unfolding task_of
task_of_tag TaskStatus.created = refl
task_of_tag _ = refl

run_of : ℕ → String → RunStatus
run_of zero w = RunStatus.created
run_of (suc zero) w = running
run_of (suc (suc zero)) w = paused
run_of (suc (suc (suc zero))) w = RunStatus.completed
run_of (suc (suc (suc (suc zero)))) w = failed
run_of (suc (suc (suc (suc (suc zero))))) w = aborted
run_of _ w = RunStatus.other w

run_of_tag : (a : RunStatus) → run_of (run_tag a) (run_word a) ≡ a
unfolding run_of
run_of_tag RunStatus.created = refl
run_of_tag _ = refl

and_true : (a b : Bool) → (a && b) ≡ true → (a ≡ true) × (b ≡ true)
and_true a b h = ground arith

task_eq : (a b : TaskStatus) → task_status_beq a b ≡ true → a ≡ b
task_eq a b h =
    let (tags, words) = and_true (task_tag a == task_tag b) (task_word a == task_word b) h in
    cc (
      task_of_tag a,
      task_of_tag b,
      (nat_beq_iff (task_tag a) (task_tag b)).0 tags,
      (string_eq.beq_iff (task_word a) (task_word b)).0 words,
    )

run_eq : (a b : RunStatus) → run_status_beq a b ≡ true → a ≡ b
run_eq a b h =
    let (tags, words) = and_true (run_tag a == run_tag b) (run_word a == run_word b) h in
    cc (
      run_of_tag a,
      run_of_tag b,
      (nat_beq_iff (run_tag a) (run_tag b)).0 tags,
      (string_eq.beq_iff (run_word a) (run_word b)).0 words,
    )

task_refl : (a : TaskStatus) → task_status_beq a a ≡ true
task_refl (TaskStatus.other w) = (string_eq.beq_iff w w).1 refl
task_refl _ = refl

run_refl : (a : RunStatus) → run_status_beq a a ≡ true
run_refl (RunStatus.other w) = (string_eq.beq_iff w w).1 refl
run_refl _ = refl

pub task_status_beq_iff : (a b : TaskStatus) → (task_status_beq a b ≡ true) ↔ (a ≡ b)
task_status_beq_iff a b =
    (task_eq a b, λ e. subst (λ x. task_status_beq a x ≡ true) e (task_refl a))

pub run_status_beq_iff : (a b : RunStatus) → (run_status_beq a b ≡ true) ↔ (a ≡ b)
run_status_beq_iff a b = (run_eq a b, λ e. subst (λ x. run_status_beq a x ≡ true) e (run_refl a))

instance abbrev pub task_status_eq : Eq TaskStatus
task_status_eq = record { beq = task_status_beq; beq_iff = task_status_beq_iff }

instance abbrev pub run_status_eq : Eq RunStatus
run_status_eq = record { beq = run_status_beq; beq_iff = run_status_beq_iff }

-- `TASK_TRANSITIONS.get(old)`
abbrev pub task_transitions : TaskStatus → Option (List TaskStatus)
task_transitions TaskStatus.created = some (prechecking ∷ [])
task_transitions prechecking = some (active ∷ precheck_failed ∷ [])
task_transitions active = some (postchecking ∷ suspended ∷ TaskStatus.completed ∷ [])
task_transitions postchecking = some (TaskStatus.completed ∷ postcheck_failed ∷ [])
task_transitions postcheck_failed = some (active ∷ escalated ∷ [])
task_transitions suspended = some (active ∷ [])
task_transitions _ = none

abbrev pub task_terminal_states : List TaskStatus
task_terminal_states = TaskStatus.completed ∷ cancelled ∷ escalated ∷ precheck_failed ∷ []

-- `RUN_TRANSITIONS.get(old)`
abbrev pub run_transitions : RunStatus → Option (List RunStatus)
run_transitions RunStatus.created = some (running ∷ [])
run_transitions running = some (paused ∷ RunStatus.completed ∷ failed ∷ aborted ∷ [])
run_transitions paused = some (running ∷ aborted ∷ [])
run_transitions _ = none

abbrev pub run_terminal_states : List RunStatus
run_terminal_states = RunStatus.completed ∷ failed ∷ aborted ∷ []

-- The two last tests of a validator: an unknown state, and a target that is not allowed.
abbrev allow {ℓ} : {S : Type ℓ} ⦃e : Eq S⦄ → Option (List S) → S → Result (Unit {0})
allow none new = err invalid_transition
allow (some allowed) new = if contains allowed new then ok tt else err invalid_transition

unfoldable pub validate_task_transition : TaskStatus → TaskStatus → Result (Unit {0})
validate_task_transition old new =
    if new == cancelled
    then ok tt
    else if contains task_terminal_states old
    then err invalid_transition
    else allow (task_transitions old) new

unfoldable pub validate_run_transition : RunStatus → RunStatus → Result (Unit {0})
validate_run_transition old new =
    if contains run_terminal_states old
    then err invalid_transition
    else allow (run_transitions old) new
