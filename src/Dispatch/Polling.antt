-- ===== src/Dispatch/Polling.antt =====
-- Proofs on `poll_events_since` (dispatch/src/orxtra/dispatch/_memory_backend.py).
use orxtra.Prelude.{
  ℕ, zero, suc, ◌+◌, ◌<◌, ◌≡◌, refl, false, none, some, List, [], ◌∷◌, ◌++◌, arith, ◌==◌, nat_eq,
  take, All,
}
use orxtra.Prelude.Ids.{Uuid}
use orxtra.Dispatch.Backend.{Event, Backend, collect, poll_from, poll_events_since}

collect-take :
    (limit k n : ℕ) (evs : List Event) → limit ≡ n + suc k → collect limit n evs ≡ take (suc k) evs
unfolding collect
collect-take limit k n [] h = refl
collect-take limit zero n (ev ∷ evs) h = ground arith
collect-take limit (suc k) n (ev ∷ evs) h =
    let rest : collect limit (n + 1) evs ≡ take (suc k) evs =
      collect-take limit k (n + 1) evs (omega arith) in
    ground arith

poll_from_skips :
    (since_id : Uuid) (k : ℕ) (seen : List Event) (ev : Event) (evs : List Event)
    → ev.id ≡ since_id
    → All (λ (e : Event). (e.id == since_id) ≡ false) seen
    → poll_from since_id (suc k) (seen ++ ev ∷ evs) ≡ take (suc k) evs
unfolding poll_from
poll_from_skips since_id k [] ev evs same a =
    ground (arith, collect-take (suc k) k 0 evs (omega arith))
poll_from_skips since_id k (e ∷ seen) ev evs same a =
    ground (arith, poll_from_skips since_id k seen ev evs same a.1)

-- With a positive limit and a cursor at an event whose id no earlier event has, polling returns the
-- first `limit` of the events behind that event, in their order; without a cursor it returns the
-- first `limit` of all events.
poll_events_since_lem :
    (limit : ℕ) (b : Backend) (seen : List Event) (ev : Event) (evs : List Event)
    → 0 < limit
    → b.events ≡ seen ++ ev ∷ evs
    → All (λ (e : Event). (e.id == ev.id) ≡ false) seen
    → (poll_events_since (some ev.id) limit b ≡ take limit evs)
      × (poll_events_since none limit b ≡ take limit (seen ++ ev ∷ evs))
unfolding poll_events_since
poll_events_since_lem zero b seen ev evs pos same a = absurd (omega arith)
poll_events_since_lem (suc k) b seen ev evs pos same a =
    (rw same (poll_from_skips ev.id k seen ev evs refl a), rw same)
