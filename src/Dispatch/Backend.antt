-- ===== src/Dispatch/Backend.antt =====
-- `InMemoryDispatchBackend` (dispatch/src/orxtra/dispatch/_memory_backend.py) and the records that it
-- stores (protocols/src/orxtra/protocols/_types/_dispatch.py).
use orxtra.Prelude.{
  ℕ, ◌+◌, String, Bool, not, ◌&&◌, Option, none, some, List, [], ◌∷◌, ◌++◌, map, ◌==◌, nat_eq,
  string_eq, leb, any, filter, find, take, count, contains, if◌then◌else◌, Result, ok, err,
  value_error, key_error,
}
use orxtra.Prelude.Ids.{Uuid, Time}
use orxtra.Prelude.Json.{Json}
use orxtra.Prelude.Dict.{Dict, get, put, pop, values}
use orxtra.Prelude.Sorting.{sort_by}

pub record FilterPredicate : Type 0 where
  pub event_types : Option (List String)
  pub sources : Option (List String)
  pub principal_id : Option Uuid
  pub data_predicates : Option Json

pub record Subscription : Type 0 where
  pub id : Uuid
  pub predicate : FilterPredicate
  pub enabled : Bool
  pub storage : String
  pub principal_id : Uuid
  pub created_at : Time

-- `accumulator_config`, with 0 for a key that is absent.
pub record AccumulatorConfig : Type 0 where
  pub threshold : ℕ
  pub flush_interval_s : ℕ

pub record SubscriptionAction : Type 0 where
  pub id : Uuid
  pub subscription_id : Uuid
  pub position : ℕ
  pub action : Json
  pub accumulator_config : Option AccumulatorConfig
  pub created_at : Time

pub record Source : Type 0 where
  pub id : Uuid
  pub slug : String
  pub name : String
  pub credential_id : Option Uuid
  pub config : Option Json
  pub created_by : Uuid
  pub created_at : Time

pub record AccumulatorEntry : Type 0 where
  pub id : Uuid
  pub subscription_action_id : Uuid
  pub event_id : Uuid
  pub created_at : Time

-- The columns of a polled event.
pub record Event : Type 0 where
  pub id : Uuid
  pub event_type : String
  pub principal_id : Option Uuid
  pub body : Option Json

pub record Backend : Type 0 where
  pub sources : Dict Uuid Source
  pub subscriptions : Dict Uuid Subscription
  pub actions : Dict Uuid SubscriptionAction
  pub accumulator : Dict Uuid AccumulatorEntry
  pub claimed : List Uuid
  pub cursors : Dict String Uuid
  pub completions : List (Uuid × Uuid)
  pub events : List Event

abbrev pub empty_backend : Backend
empty_backend = record {
  sources = [];
  subscriptions = [];
  actions = [];
  accumulator = [];
  claimed = [];
  cursors = [];
  completions = [];
  events = [];
}

unfoldable pub create_source : Source → Backend → Result Uuid × Backend
create_source source b =
    if any (λ existing. existing.slug == source.slug) (values b.sources)
    then (err value_error, b)
    else (ok source.id, record b { sources = put b.sources source.id source })

unfoldable pub get_source : Uuid → Backend → Option Source
get_source source_id b = get b.sources source_id

unfoldable pub get_source_by_slug : String → Backend → Option Source
get_source_by_slug slug b = find (λ source. source.slug == slug) (values b.sources)

unfoldable pub list_sources : Backend → List Source
list_sources b = values b.sources

unfoldable pub delete_source : Uuid → Backend → Backend
delete_source source_id b = record b { sources = pop b.sources source_id }

unfoldable pub create_subscription : Subscription → Backend → Uuid × Backend
create_subscription subscription b =
    (subscription.id, record b { subscriptions = put b.subscriptions subscription.id subscription })

unfoldable pub get_subscription : Uuid → Backend → Option Subscription
get_subscription sub_id b = get b.subscriptions sub_id

unfoldable pub list_subscriptions :
    (enabled_only : Bool) (principal_id : Option Uuid) → Backend → List Subscription
list_subscriptions enabled_only principal_id b =
    let subs = values b.subscriptions in
    let subs' = if enabled_only then filter (λ (s : Subscription). s.enabled) subs else subs in
    elim principal_id [
      | none ↦ subs'
      | some p ↦ filter (λ (s : Subscription). s.principal_id == p) subs'
    ]

unfoldable pub update_subscription :
    (sub_id : Uuid) (enabled : Bool) → Backend → Result (Unit {0}) × Backend
update_subscription sub_id enabled b = elim (get b.subscriptions sub_id) [
  | none ↦ (err key_error, b)
  | some existing ↦ (
    ok tt,
    record b { subscriptions = put b.subscriptions sub_id (record existing { enabled = enabled }) },
  )
]

unfoldable pub delete_subscription : Uuid → Backend → Backend
delete_subscription sub_id b = record b { subscriptions = pop b.subscriptions sub_id }

unfoldable pub create_action : SubscriptionAction → Backend → Uuid × Backend
create_action action b = (action.id, record b { actions = put b.actions action.id action })

unfoldable pub list_actions : (sub_id : Uuid) → Backend → List SubscriptionAction
unfolding sort_by
list_actions sub_id b =
    sort_by (λ (a : SubscriptionAction). a.position)
      (filter (λ (a : SubscriptionAction). a.subscription_id == sub_id) (values b.actions))

-- `for aid in to_remove: self._actions.pop(aid)`
unfoldable pub pop_all : List Uuid → Dict Uuid SubscriptionAction → Dict Uuid SubscriptionAction
pop_all [] actions = actions
pop_all (aid ∷ aids) actions = pop_all aids (pop actions aid)

unfoldable pub delete_actions : (sub_id : Uuid) → Backend → Backend
unfolding pop_all
delete_actions sub_id b =
    let doomed =
      filter (λ (e : Uuid × SubscriptionAction). e.1.subscription_id == sub_id) b.actions in
    record b { actions = pop_all (map (λ e. e.0) doomed) b.actions }

unfoldable pub buffer_event : AccumulatorEntry → Backend → Uuid × Backend
buffer_event entry b = (entry.id, record b { accumulator = put b.accumulator entry.id entry })

-- `self._claimed.add(e.id)` for each entry of the batch.
unfoldable pub claim_all : List AccumulatorEntry → List Uuid → List Uuid
claim_all [] claimed = claimed
claim_all (e ∷ es) claimed =
    claim_all es (if contains claimed e.id then claimed else e.id ∷ claimed)

abbrev pub is_claimable : Uuid → List Uuid → AccumulatorEntry → Bool
is_claimable action_id claimed e =
    e.subscription_action_id == action_id && not (contains claimed e.id)

-- The entries of the action that nobody has claimed, oldest first, up to the limit.
unfoldable pub claim_batch :
    (action_id : Uuid) (limit : ℕ) → Backend → List AccumulatorEntry × Backend
unfolding sort_by claim_all
claim_batch action_id limit b =
    let unclaimed = filter (is_claimable action_id b.claimed) (values b.accumulator) in
    let batch = take limit (sort_by (λ (e : AccumulatorEntry). e.created_at) unclaimed) in
    (batch, record b { claimed = claim_all batch b.claimed })

-- `set.discard`
unfoldable pub discard : Uuid → List Uuid → List Uuid
discard a xs = filter (λ x. not (x == a)) xs

unfoldable pub confirm_batch : (entry_ids : List Uuid) → Backend → Backend
unfolding discard
confirm_batch [] b = b
confirm_batch (eid ∷ eids) b =
    confirm_batch eids
      (record b { accumulator = pop b.accumulator eid; claimed = discard eid b.claimed })

unfoldable pub pending_count : (action_id : Uuid) → Backend → ℕ
pending_count action_id b =
    count (λ (e : AccumulatorEntry). e.subscription_action_id == action_id) (values b.accumulator)

unfoldable pub get_cursor_position : (cursor_name : String) → Backend → Option Uuid
get_cursor_position cursor_name b = get b.cursors cursor_name

unfoldable pub advance_cursor : (cursor_name : String) (event_id : Uuid) → Backend → Backend
advance_cursor cursor_name event_id b = record b { cursors = put b.cursors cursor_name event_id }

abbrev pub is_pair : Uuid → Uuid → Uuid × Uuid → Bool
is_pair event_id action_id p = p.0 == event_id && p.1 == action_id

unfoldable pub is_action_completed : (event_id action_id : Uuid) → Backend → Bool
is_action_completed event_id action_id b = any (is_pair event_id action_id) b.completions

-- Adding a pair that the set holds changes nothing.
unfoldable pub record_completion : (event_id action_id : Uuid) → Backend → Backend
record_completion event_id action_id b =
    if any (is_pair event_id action_id) b.completions
    then b
    else record b { completions = (event_id, action_id) ∷ b.completions }

-- The events behind the one that was found; `n` have been collected. The limit is tested after an
-- event is appended.
unfoldable pub collect : (limit n : ℕ) → List Event → List Event
collect limit n [] = []
collect limit n (ev ∷ evs) =
    let rest = collect limit (n + 1) evs in ev ∷ (if leb limit (n + 1) then [] else rest)

unfoldable pub poll_from : (since_id : Uuid) (limit : ℕ) → List Event → List Event
unfolding collect
poll_from since_id limit [] = []
poll_from since_id limit (ev ∷ evs) =
    if ev.id == since_id then collect limit 0 evs else poll_from since_id limit evs

unfoldable pub poll_events_since : (since_id : Option Uuid) (limit : ℕ) → Backend → List Event
unfolding poll_from
poll_events_since none limit b = take limit b.events
poll_events_since (some since_id) limit b = poll_from since_id limit b.events

unfoldable pub inject_event : Event → Backend → Backend
inject_event event b = record b { events = b.events ++ event ∷ [] }
