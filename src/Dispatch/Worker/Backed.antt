-- ===== src/Dispatch/Worker/Backed.antt =====
-- What stands behind a completion that a poll records
-- (dispatch/src/orxtra/dispatch/_dispatch_worker.py).
use orxtra.Prelude.{
  ℕ, ◌+◌, ◌≤◌, ◌≡◌, refl, subst, true, ◌||◌, List, [], ◌∷◌, Bool-cases, inl, inr, arith, any,
}
use orxtra.Prelude.Ids.{Uuid}
use orxtra.Dispatch.Backend.{
  Backend, Event, Subscription, SubscriptionAction, is_pair, is_action_completed, list_actions,
  record_completion, advance_cursor,
}
use orxtra.Dispatch.Worker.{
  Env, Worker, deliver, process_action, process_actions, process_subscriptions, process_event,
  process_events, matches,
}
use orxtra.Dispatch.Worker.Delivery.{
  runs, pair-eq, record_completion-eq, deliver_keeps, deliver_ran, deliver_runs_more, completed-eq,
}
use orxtra.Dispatch.Worker.Buffered.{Kept, Sound, carried}
use orxtra.Dispatch.Worker.Gathered.{deliver-Kept}

-- Why the action counts as completed for the event, between two states of the worker.
pub data Cause (v w : Worker) (event_id action_id : Uuid) : Type 0 where
  before : is_action_completed event_id action_id v.backend ≡ true → Cause v w event_id action_id
  gathered : Kept event_id action_id w → Cause v w event_id action_id
  ran : 1 ≤ runs event_id action_id w → Cause v w event_id action_id

-- Every completion has its cause, and the accumulator is in order.
pub record Backed (env : Env) (v w : Worker) : Type 0 where
  pub sound : Sound env w.backend.accumulator w.buffered
  pub causes : (i j : Uuid) → is_action_completed i j w.backend ≡ true → Cause v w i j

record_completion-accumulator :
    (i j : Uuid) (b : Backend) → (record_completion i j b).accumulator ≡ b.accumulator
unfolding record_completion
record_completion-accumulator i j b = elim (Bool-cases (any (is_pair i j) b.completions)) [
  | inl already ↦ rw already refl
  | inr fresh ↦ rw fresh refl
]

module _ (env : Env) (fresh : (m n : ℕ) → env.uuid7 m ≡ env.uuid7 n → m ≡ n) (v : Worker) where
  process_action-Backed :
      (sub : Subscription) (event : Event) (a : SubscriptionAction) (w : Worker)
      → Backed env v w
      → Backed env v (process_action env sub event a w)
  unfolding process_action
  process_action-Backed sub event a w backed =
      let after = deliver env sub event a a.accumulator_config w in
      let last = record after { backend = record_completion event.id a.id after.backend } in
      let kept = deliver_keeps env sub event a a.accumulator_config w in
      let (sound, keeps, new) =
        deliver-Kept env fresh sub event a a.accumulator_config w backed.sound in
      let same = record_completion-accumulator event.id a.id after.backend in
      let carry : (i j : Uuid) → Kept i j after → Kept i j last =
        λ i j k. carried i j after last same refl k in
      elim (Bool-cases (is_action_completed event.id a.id w.backend)) [
        | inl done ↦ rw (process_action, done) backed
        | inr unfinished ↦
            rw (process_action, unfinished)
              (record {
                sound = rw same sound;
                causes = λ i j c.
                    let d : (is_pair i j (event.id, a.id) || is_action_completed i j w.backend)
                        ≡ true =
                      ground (
                        arith,
                        record_completion-eq event.id a.id i j after.backend,
                        completed-eq i j after.backend w.backend kept.0,
                      ) in
                    elim (Bool-cases (is_pair i j (event.id, a.id))) [
                      | inl paired ↦
                          let pair = pair-eq event.id a.id i j paired in
                          subst (λ x. Cause v last x j) pair.0
                            (subst (λ y. Cause v last event.id y) pair.1
                              (elim new [
                                | inl immediate ↦
                                    ran
                                      (deliver_ran env sub event a a.accumulator_config w immediate)
                                | inr k ↦ gathered (carry event.id a.id k)
                              ]))
                      | inr differ ↦ elim (backed.causes i j (ground arith)) [
                        | before h ↦ before h
                        | gathered k ↦ gathered (carry i j (keeps i j k))
                        | ran h ↦ ran (
                            omega (
                              arith,
                              h,
                              deliver_runs_more env sub event a a.accumulator_config w i j,
                            ))
                      ]
                    ];
              })
      ]

  process_actions-Backed :
      (sub : Subscription) (event : Event) (actions : List SubscriptionAction) (w : Worker)
      → Backed env v w
      → Backed env v (process_actions env sub event actions w)
  unfolding process_actions
  process_actions-Backed sub event [] w backed = backed
  process_actions-Backed sub event (a ∷ actions) w backed =
      process_actions-Backed sub event actions (process_action env sub event a w)
        (process_action-Backed sub event a w backed)

  process_subscriptions-Backed :
      (event : Event) (subs : List Subscription) (w : Worker)
      → Backed env v w
      → Backed env v (process_subscriptions env event subs w)
  unfolding process_subscriptions
  process_subscriptions-Backed event [] w backed = backed
  process_subscriptions-Backed event (sub ∷ subs) w backed =
      let actions = list_actions sub.id w.backend in
      elim (Bool-cases (matches env event sub)) [
        | inl matched ↦
            rw (process_subscriptions, matched)
              (process_subscriptions-Backed event subs (process_actions env sub event actions w)
                (process_actions-Backed sub event actions w backed))
        | inr differs ↦
            rw (process_subscriptions, differs) (process_subscriptions-Backed event subs w backed)
      ]

  process_event-Backed :
      (subs : List Subscription) (event : Event) (w : Worker)
      → Backed env v w
      → Backed env v (process_event env subs event w)
  unfolding process_event advance_cursor is_action_completed
  process_event-Backed subs event w backed =
      let b = process_subscriptions-Backed event subs w backed in
      record {
        sound = b.sound;
        causes = λ i j c. elim (b.causes i j c) [
          | before h ↦ before h
          | gathered k ↦
              gathered (carried i j (process_subscriptions env event subs w) _ refl refl k)
          | ran h ↦ ran h
        ];
      }

  pub process_events-Backed :
      (subs : List Subscription) (n : ℕ) (events : List Event) (w : Worker)
      → Backed env v w
      → Backed env v (process_events env subs n events w).1
  unfolding process_events
  process_events-Backed subs n [] w backed = backed
  process_events-Backed subs n (event ∷ events) w backed = elim (Bool-cases (env.is_stopped n)) [
    | inl stopped ↦ rw (process_events, stopped) backed
    | inr running ↦
        rw (process_events, running)
          (process_events-Backed subs (n + 1) events (process_event env subs event w)
            (process_event-Backed subs event w backed))
  ]
