-- ===== src/Samples/Guards.antt =====
-- Applications of the theorems on write safety and file locks
-- (write-safety/src/orxtra/write_safety, scheduler/src/orxtra/scheduler/_locks.py).
use orxtra.Prelude.{
  ◌≡◌, ◌↔◌, ◌⊎◌, ◌+◌, ◌^◌, ◌≤◌, ◌<◌, ℕ, zero, suc, String, List, some, false, true, [], ◌∷◌, ok,
}
use orxtra.WriteSafety.Stale.{Read, check_write, record_reads, last_read, check_write_lem}
use orxtra.WriteSafety.Replay.{
  Attempt, returned, raised_os_error, is_retried, with_transient_retry, with_transient_retry_lem,
}
use orxtra.Scheduler.Locks.Separation.{
  Call, claiming, releasing, run_calls, Separate, run_calls-Separate,
}

abbrev same_path : String → String
same_path p = p

abbrev reads : List Read
reads =
    record { session_id = "a"; path = "f"; content_hash = "h2" }
    ∷ record { session_id = "a"; path = "f"; content_hash = "h1" }
    ∷ []

check_write_lem_example :
    (check_write same_path "a" "f" "h2" false (record_reads same_path reads) ≡ ok tt)
    ↔ (last_read same_path "a" "f" reads ≡ some "h2")
check_write_lem_example = check_write_lem same_path "a" "f" "h2" reads

-- Busy twice, then fine.
abbrev busy_twice : ℕ → Attempt String
busy_twice zero = raised_os_error 16
busy_twice (suc zero) = raised_os_error 16
busy_twice (suc (suc n)) = returned "done"

with_transient_retry_lem_example :
    (i : ℕ) × (i ≤ 3)
    × ((with_transient_retry busy_twice 3).outcome ≡ busy_twice i)
    × ((with_transient_retry busy_twice 3).calls ≡ i + 1)
    × ((with_transient_retry busy_twice 3).slept + 1 ≡ 2 ^ i)
    × ((j : ℕ) → j < i → is_retried (busy_twice j) ≡ true)
    × ((i ≡ 3) ⊎ (is_retried (busy_twice i) ≡ false))
with_transient_retry_lem_example = with_transient_retry_lem busy_twice 3

abbrev calls : List Call
calls =
    claiming 1 ("/src/a" ∷ [])
    ∷ claiming 2 ("/src/a/b" ∷ [])
    ∷ claiming 2 ("/src/c" ∷ [])
    ∷ releasing 1
    ∷ []

run_calls-Separate_example : Separate (run_calls calls [])
run_calls-Separate_example = run_calls-Separate calls
