-- ===== src/Trace/Reader/History.antt =====
-- Reading the event log back (`query_events` and `replay` of
-- trace/src/orxtra/trace/_memory_backend.py).
use orxtra.Prelude.{
  ℕ, ◌+◌, String, Bool, false, not, ◌&&◌, Option, none, some, List, [], ◌∷◌, ◌==◌, nat_eq,
  string_eq, ltb, leb, filter, take, contains, matches_option, if◌then◌else◌,
}
use orxtra.Prelude.Sorting.{sort_by}
use orxtra.Trace.Rows.{Uuid, Time, Event}
use orxtra.Trace.Store.{Store}

abbrev in_run : Uuid → Option Uuid → Bool
in_run run_id none = false
in_run run_id (some r) = r == run_id

abbrev pub is_queried :
    (run_id : Uuid) (event_type : Option String) (since : Option Time) → Event → Bool
is_queried run_id event_type since ev =
    in_run run_id ev.run_id
    && matches_option (λ t. ev.event_type == t) event_type
    && matches_option (λ moment. not (ltb ev.created_at moment)) since

-- The loop of `query_events`, with `n` results so far: it stops when an appended event fills the
-- limit.
unfoldable pub query_loop : (p : Event → Bool) (limit n : ℕ) → List Event → List Event
query_loop p limit n [] = []
query_loop p limit n (ev ∷ evs) =
    let skipped = query_loop p limit n evs in
    let rest = query_loop p limit (n + 1) evs in
    if p ev then ev ∷ (if leb limit (n + 1) then [] else rest) else skipped

unfoldable pub query_events :
    (run_id : Uuid) (event_type : Option String) (since : Option Time) (limit : ℕ)
    → Store
    → List Event
unfolding query_loop
query_events run_id event_type since limit s =
    query_loop (is_queried run_id event_type since) limit 0 s.events

abbrev pub is_replayed :
    (event_types : Option (List String)) (principal_id since_id : Option Uuid) → Event → Bool
is_replayed event_types principal_id since_id ev =
    matches_option (λ types. contains types ev.event_type) event_types
    && matches_option (λ p. ev.principal_id == p) principal_id
    && matches_option (λ i. ltb i ev.id) since_id

unfoldable pub replay :
    (event_types : Option (List String)) (principal_id since_id : Option Uuid) (limit : ℕ)
    → Store
    → List Event
unfolding sort_by
replay event_types principal_id since_id limit s = take limit (
    sort_by (λ (ev : Event). ev.id)
      (filter (is_replayed event_types principal_id since_id) s.events))
