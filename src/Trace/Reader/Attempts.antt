-- ===== src/Trace/Reader/Attempts.antt =====
-- Proofs on `read_latest_attempt` (trace/src/orxtra/trace/_memory_backend.py).
use orxtra.Prelude.{
  ℕ, ◌≤◌, ◌≡◌, refl, sym, ◌∙◌, inl, inr, Bool, true, false, Option, none, some, List, [], ◌∷◌,
  arith, ◌==◌, nat_eq, ltb, All, filter, find, find-filter, count, length, length-filter,
  if◌then◌else◌, Bool-cases, subst, ap,
}
use orxtra.Prelude.Dict.{values}
use orxtra.Trace.Rows.{Uuid, TaskAttempt}
use orxtra.Trace.Store.{Store}
use orxtra.Trace.Reader.{
  is_attempt_of, max_attempt, best_attempt, read_latest_attempt, read_task_attempt,
}

abbrev numbered : ℕ → TaskAttempt → Bool
numbered n a = a.attempt == n

-- `m` is a largest attempt of `best ∷ xs`, and the first of its number.
abbrev IsFirstMax : TaskAttempt → List TaskAttempt → TaskAttempt → Type 0
IsFirstMax best xs m =
    (best.attempt ≤ m.attempt)
    × All (λ (x : TaskAttempt). x.attempt ≤ m.attempt) xs
    × (find (numbered m.attempt) (best ∷ xs) ≡ some m)

first_larger :
    (best a m : TaskAttempt) (xs : List TaskAttempt)
    → ltb best.attempt a.attempt ≡ true
    → IsFirstMax a xs m
    → IsFirstMax best (a ∷ xs) m
first_larger best a m xs larger h = (ground arith, (h.0, h.1), ground (arith, h.0, h.2))

first_smaller :
    (best a m : TaskAttempt) (xs : List TaskAttempt)
    → ltb best.attempt a.attempt ≡ false
    → IsFirstMax best xs m
    → IsFirstMax best (a ∷ xs) m
first_smaller best a m xs smaller h = (h.0, (ground arith, h.1), ground (arith, h.0, h.2))

max_attempt-IsFirstMax :
    (best : TaskAttempt) (xs : List TaskAttempt) → IsFirstMax best xs (max_attempt best xs)
unfolding max_attempt
max_attempt-IsFirstMax best [] = (omega arith, tt, ground arith)
max_attempt-IsFirstMax best (a ∷ rest) = elim (Bool-cases (ltb best.attempt a.attempt)) [
  | inl larger ↦
      subst (λ c. IsFirstMax best (a ∷ rest) (max_attempt (if c then a else best) rest))
        (sym larger)
        (first_larger best a (max_attempt a rest) rest larger (max_attempt-IsFirstMax a rest))
  | inr smaller ↦
      subst (λ c. IsFirstMax best (a ∷ rest) (max_attempt (if c then a else best) rest))
        (sym smaller)
        (first_smaller best a (max_attempt best rest) rest smaller
          (max_attempt-IsFirstMax best rest))
]

-- The possible answers of `read_latest_attempt`: no attempt is of the task, or the answer's number is
-- the largest among the attempts of the task and `read_task_attempt` finds it under that number.
abbrev pub IsLatest : Uuid → Store → Option TaskAttempt → Type 0
IsLatest task_id s none = count (is_attempt_of task_id) (values s.task_attempts) ≡ 0
IsLatest task_id s (some a) =
    (read_task_attempt task_id a.attempt s ≡ some a)
    × All (λ (x : TaskAttempt). x.attempt ≤ a.attempt)
        (filter (is_attempt_of task_id) (values s.task_attempts))

IsLatest-of :
    (task_id : Uuid) (s : Store) (xs : List TaskAttempt)
    → filter (is_attempt_of task_id) (values s.task_attempts) ≡ xs
    → IsLatest task_id s (best_attempt xs)
unfolding best_attempt read_task_attempt
IsLatest-of task_id s [] same =
    (sym (length-filter (is_attempt_of task_id) (values s.task_attempts)) ∙ ap length same)
IsLatest-of task_id s (a ∷ rest) same =
    let m = max_attempt a rest in
    let best = max_attempt-IsFirstMax a rest in
    (
      find-filter (numbered m.attempt) (is_attempt_of task_id) (values s.task_attempts)
          ∙ ap (find (numbered m.attempt)) same
          ∙ best.2,
      subst (All (λ (x : TaskAttempt). x.attempt ≤ m.attempt)) (sym same) (best.0, best.1),
    )

-- `read_latest_attempt` returns nothing when the task has no attempt, and otherwise an attempt of the
-- task with the largest number, the one that `read_task_attempt` finds under that number.
read_latest_attempt_lem :
    (task_id : Uuid) (s : Store) → IsLatest task_id s (read_latest_attempt task_id s)
unfolding read_latest_attempt
read_latest_attempt_lem task_id s =
    IsLatest-of task_id s (filter (is_attempt_of task_id) (values s.task_attempts)) refl
