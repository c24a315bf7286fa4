-- ===== src/Dispatch/Worker/Once.antt =====
-- Proofs on the executions of `_poll_and_process`
-- (dispatch/src/orxtra/dispatch/_dispatch_worker.py).
use orxtra.Prelude.{
  ℕ, ◌+◌, ◌≤◌, ◌≡◌, true, false, none, List, [], ◌∷◌, arith, nat_eq, if◌then◌else◌, Bool-cases,
  subst, inl, inr,
}
use orxtra.Prelude.Ids.{Uuid}
use orxtra.Dispatch.Backend.{
  Event, Subscription, SubscriptionAction, is_pair, is_action_completed, advance_cursor,
  list_actions, list_subscriptions,
}
use orxtra.Dispatch.Worker.{
  Env, Worker, deliver, process_action, process_actions, process_subscriptions, process_event,
  process_events, poll_and_process, polled, matches,
}
use orxtra.Dispatch.Worker.Delivery.{
  runs, pair-eq, record_completion-eq, deliver_keeps, deliver_runs, completed-eq,
}

-- An action ran at most once for an event, and only if its completion is recorded.
abbrev pub AtMostOnce : Worker → Type 0
AtMostOnce w =
    (event_id action_id : Uuid)
    → runs event_id action_id w
      ≤ (if is_action_completed event_id action_id w.backend then 1 else 0)

-- A pair that is not completed has no run.
no_run :
    (w : Worker) (e a i j : Uuid)
    → AtMostOnce w
    → is_action_completed e a w.backend ≡ false
    → is_pair i j (e, a) ≡ true
    → runs i j w ≤ 0
no_run w e a i j h fresh same =
    let pair = pair-eq e a i j same in
    subst (λ x. runs x j w ≤ 0) pair.0
      (subst (λ y. runs e y w ≤ 0) pair.1
        (subst (λ c. runs e a w ≤ (if c then 1 else 0)) fresh (h e a)))

pub process_action-AtMostOnce :
    (env : Env) (sub : Subscription) (event : Event) (a : SubscriptionAction) (w : Worker)
    → AtMostOnce w
    → AtMostOnce (process_action env sub event a w)
unfolding process_action
process_action-AtMostOnce env sub event a w h i j =
    let after = deliver env sub event a a.accumulator_config w in
    let kept =
      completed-eq i j after.backend w.backend
        (deliver_keeps env sub event a a.accumulator_config w).0 in
    elim (Bool-cases (is_action_completed event.id a.id w.backend)) [
      | inl done ↦ rw done (h i j)
      | inr fresh ↦ rw fresh (
          rw (record_completion-eq event.id a.id i j after.backend) (
            rw kept (elim (Bool-cases (is_pair i j (event.id, a.id))) [
              | inl same ↦ ground (
                arith,
                deliver_runs env sub event a a.accumulator_config w i j,
                no_run w event.id a.id i j h fresh same,
              )
              | inr differ ↦
                  ground (arith, deliver_runs env sub event a a.accumulator_config w i j, h i j)
            ])))
    ]

pub process_actions-AtMostOnce :
    (env : Env) (sub : Subscription) (event : Event) (actions : List SubscriptionAction)
    (w : Worker)
    → AtMostOnce w
    → AtMostOnce (process_actions env sub event actions w)
unfolding process_actions
process_actions-AtMostOnce env sub event [] w h = h
process_actions-AtMostOnce env sub event (a ∷ actions) w h =
    process_actions-AtMostOnce env sub event actions (process_action env sub event a w)
      (process_action-AtMostOnce env sub event a w h)

process_subscriptions-AtMostOnce :
    (env : Env) (event : Event) (subs : List Subscription) (w : Worker)
    → AtMostOnce w
    → AtMostOnce (process_subscriptions env event subs w)
unfolding process_subscriptions
process_subscriptions-AtMostOnce env event [] w h = h
process_subscriptions-AtMostOnce env event (sub ∷ subs) w h =
    elim (Bool-cases (matches env event sub)) [
      | inl matched ↦
          rw (process_subscriptions, matched)
            (process_subscriptions-AtMostOnce env event subs
              (process_actions env sub event (list_actions sub.id w.backend) w)
              (process_actions-AtMostOnce env sub event (list_actions sub.id w.backend) w h))
      | inr differs ↦
          rw (process_subscriptions, differs) (process_subscriptions-AtMostOnce env event subs w h)
    ]

process_event-AtMostOnce :
    (env : Env) (subs : List Subscription) (event : Event) (w : Worker)
    → AtMostOnce w
    → AtMostOnce (process_event env subs event w)
unfolding process_event advance_cursor is_action_completed
process_event-AtMostOnce env subs event w h = process_subscriptions-AtMostOnce env event subs w h

process_events-AtMostOnce :
    (env : Env) (subs : List Subscription) (n : ℕ) (events : List Event) (w : Worker)
    → AtMostOnce w
    → AtMostOnce (process_events env subs n events w).1
unfolding process_events
process_events-AtMostOnce env subs n [] w h = h
process_events-AtMostOnce env subs n (event ∷ events) w h = elim (Bool-cases (env.is_stopped n)) [
  | inl stopped ↦ rw stopped h
  | inr running ↦ rw running (
      process_events-AtMostOnce env subs (n + 1) events (process_event env subs event w)
        (process_event-AtMostOnce env subs event w h))
]

-- If each action was executed immediately at most once for each event, and only where its completion
-- is recorded, then the same holds after a poll, whichever actions raise, wherever a stop request
-- interrupts the poll, and also where the cursor points behind events that were processed before.
pub poll_and_process-AtMostOnce :
    (env : Env) (w : Worker) → AtMostOnce w → AtMostOnce (poll_and_process env w).1
unfolding poll_and_process
poll_and_process-AtMostOnce env w h =
    process_events-AtMostOnce env (list_subscriptions true none w.backend) 0 (polled env w) w h
