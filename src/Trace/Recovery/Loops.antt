-- ===== src/Trace/Recovery/Loops.antt =====
-- Lemmas on the rows that the loops of crash recovery change
-- (trace/src/orxtra/trace/_memory_backend.py).
use mathlib.Core.Option
use orxtra.Prelude.{
  ℕ, ◌+◌, ◌≡◌, refl, Bool, true, false, none, some, [], ◌∷◌, arith, nat_eq, length, count,
  if◌then◌else◌,
}
use orxtra.Prelude.Dict.{Dict, get, values, map_values}
use orxtra.Trace.Transitions.{failed, cancelled}
use orxtra.Trace.Rows.{Uuid, Time, Run, Task}
use orxtra.Trace.Recovery.{is_interrupted, is_orphaned, reclaim_loop, clean_loop}

-- The row after the sweep.
abbrev pub reclaimed : Task → Task
reclaimed task = if is_interrupted task then record task { status = cancelled } else task

module _ (ids : ℕ → Uuid) (times : ℕ → Time) where
  pub reclaim_rows :
      (k : ℕ) (tasks : Dict Uuid Task)
      → (reclaim_loop ids times k tasks).rows ≡ map_values reclaimed tasks
  unfolding reclaim_loop map_values
  reclaim_rows k [] = refl
  reclaim_rows k ((id, task) ∷ tasks) =
      ground (arith, reclaim_rows (if is_interrupted task then k + 1 else k) tasks)

  pub reclaim_changed :
      (k : ℕ) (tasks : Dict Uuid Task)
      → (reclaim_loop ids times k tasks).changed ≡ length (reclaim_loop ids times k tasks).appended
  unfolding reclaim_loop
  reclaim_changed k [] = refl
  reclaim_changed k ((id, task) ∷ tasks) =
      ground (arith, reclaim_changed (if is_interrupted task then k + 1 else k) tasks)

module _ (ids : ℕ → Uuid) (finished times : ℕ → Time) (locks : Dict Uuid Bool) where
  -- A row that is not orphaned keeps its place and its value.
  pub clean_kept :
      (k : ℕ) (runs : Dict Uuid Run) (r : Uuid) (run : Run)
      → get runs r ≡ some run
      → is_orphaned locks run ≡ false
      → get (clean_loop ids finished times locks k runs).rows r ≡ some run
  unfolding clean_loop get
  clean_kept k [] r run h q = cc
  clean_kept k ((id, head) ∷ runs) r run h q =
      ground (arith, clean_kept (if is_orphaned locks head then k + 1 else k) runs r run)

  -- A row that is orphaned fails.
  pub clean_failed :
      (k : ℕ) (runs : Dict Uuid Run) (r : Uuid) (run : Run)
      → get runs r ≡ some run
      → is_orphaned locks run ≡ true
      → Option.map (λ (x : Run). x.status) (get (clean_loop ids finished times locks k runs).rows r)
        ≡ some failed
  unfolding clean_loop get
  clean_failed k [] r run h q = cc
  clean_failed k ((id, head) ∷ runs) r run h q =
      ground (arith, clean_failed (if is_orphaned locks head then k + 1 else k) runs r run)

  pub clean_absent :
      (k : ℕ) (runs : Dict Uuid Run) (r : Uuid)
      → get runs r ≡ none
      → get (clean_loop ids finished times locks k runs).rows r ≡ none
  unfolding clean_loop get
  clean_absent k [] r h = refl
  clean_absent k ((id, head) ∷ runs) r h =
      ground (arith, clean_absent (if is_orphaned locks head then k + 1 else k) runs r)

  pub clean_changed :
      (k : ℕ) (runs : Dict Uuid Run)
      → (clean_loop ids finished times locks k runs).changed
        ≡ count (is_orphaned locks) (values runs)
  unfolding clean_loop
  clean_changed k [] = refl
  clean_changed k ((id, run) ∷ runs) =
      ground (arith, clean_changed (if is_orphaned locks run then k + 1 else k) runs)

  pub clean_appended :
      (k : ℕ) (runs : Dict Uuid Run)
      → length (clean_loop ids finished times locks k runs).appended
        ≡ count (is_orphaned locks) (values runs)
  unfolding clean_loop
  clean_appended k [] = refl
  clean_appended k ((id, run) ∷ runs) =
      ground (arith, clean_appended (if is_orphaned locks run then k + 1 else k) runs)

  -- No row is orphaned after the sweep.
  pub clean_none_left :
      (k : ℕ) (runs : Dict Uuid Run)
      → count (is_orphaned locks) (values (clean_loop ids finished times locks k runs).rows) ≡ 0
  unfolding clean_loop
  clean_none_left k [] = refl
  clean_none_left k ((id, run) ∷ runs) =
      ground (arith, clean_none_left (if is_orphaned locks run then k + 1 else k) runs)

module _ (ids : ℕ → Uuid) (times : ℕ → Time) where
  pub reclaim_none_left :
      (k : ℕ) (tasks : Dict Uuid Task)
      → count is_interrupted (values (reclaim_loop ids times k tasks).rows) ≡ 0
  unfolding reclaim_loop
  reclaim_none_left k [] = refl
  reclaim_none_left k ((id, task) ∷ tasks) =
      ground (arith, reclaim_none_left (if is_interrupted task then k + 1 else k) tasks)

  -- With nothing to reclaim the loop builds the rows that it was given.
  pub reclaim_idle :
      (k : ℕ) (tasks : Dict Uuid Task)
      → count is_interrupted (values tasks) ≡ 0
      → reclaim_loop ids times k tasks ≡ record { rows = tasks; appended = []; changed = 0 }
  unfolding reclaim_loop
  reclaim_idle k [] h = refl
  reclaim_idle k ((id, task) ∷ tasks) h =
      ground (arith, reclaim_idle (if is_interrupted task then k + 1 else k) tasks)

pub clean_idle :
    (ids : ℕ → Uuid) (finished times : ℕ → Time) (locks : Dict Uuid Bool) (k : ℕ)
    (runs : Dict Uuid Run)
    → count (is_orphaned locks) (values runs) ≡ 0
    → clean_loop ids finished times locks k runs
      ≡ record { rows = runs; appended = []; changed = 0 }
unfolding clean_loop
clean_idle ids finished times locks k [] h = refl
clean_idle ids finished times locks k ((id, run) ∷ runs) h =
    ground
      (arith, clean_idle ids finished times locks (if is_orphaned locks run then k + 1 else k) runs)
