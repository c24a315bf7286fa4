-- ===== src/Dispatch/Worker/Done.antt =====
-- Proofs on the completions of `_poll_and_process`
-- (dispatch/src/orxtra/dispatch/_dispatch_worker.py).
use orxtra.Prelude.{
  ℕ, ◌+◌, ◌≡◌, refl, ◌∙◌, subst, true, false, none, List, [], ◌∷◌, arith, nat_eq, Bool-cases, inl,
  inr, ◌⊎◌, All, All-map, length,
}
use orxtra.Dispatch.Backend.{
  Backend, Event, Subscription, SubscriptionAction, is_action_completed, list_actions,
  list_subscriptions, advance_cursor,
}
use orxtra.Dispatch.Worker.{
  Env, Worker, process_actions, process_subscriptions, process_event, process_events,
  poll_and_process, polled, matches,
}
use orxtra.Dispatch.Worker.Progress.{
  Extends, Extends-trans, AllCompleted, process_actions-Extends, process_actions_done,
  list_actions-eq, process_subscriptions-Extends,
}
use orxtra.Dispatch.Worker.Buffered.{Sound}
use orxtra.Dispatch.Worker.Backed.{Cause, before, Backed, process_events-Backed}

AllCompleted-Extends :
    (event : Event) (actions : List SubscriptionAction) (v w : Worker)
    → Extends v w
    → AllCompleted event actions v
    → AllCompleted event actions w
AllCompleted-Extends event actions v w h =
    All-map (λ (a : SubscriptionAction). is_action_completed event.id a.id v.backend ≡ true)
      (λ (a : SubscriptionAction). is_action_completed event.id a.id w.backend ≡ true) actions
      (λ a done. h.1 event.id a.id done)

-- Every action that `b` lists for a subscription that matches the event is completed in `w`.
abbrev Served : Env → List Subscription → Backend → Worker → Event → Type 0
Served env subs b w event =
    All
      (λ (sub : Subscription).
        (matches env event sub ≡ false)
        ⊎ All (λ (a : SubscriptionAction). is_action_completed event.id a.id w.backend ≡ true)
            (list_actions sub.id b))
      subs

Served-Extends :
    (env : Env) (subs : List Subscription) (b : Backend) (v w : Worker) (event : Event)
    → Extends v w
    → Served env subs b v event
    → Served env subs b w event
Served-Extends env [] b v w event h s = tt
Served-Extends env (sub ∷ subs) b v w event h s = (
  elim s.0 [
    | inl differs ↦ inl differs
    | inr done ↦ inr (AllCompleted-Extends event (list_actions sub.id b) v w h done)
  ],
  Served-Extends env subs b v w event h s.1,
)

subscriptions_matched :
    (env : Env) (event : Event) (sub : Subscription) (subs : List Subscription) (w : Worker)
    → matches env event sub ≡ true
    → process_subscriptions env event subs
        (process_actions env sub event (list_actions sub.id w.backend) w)
      ≡ process_subscriptions env event (sub ∷ subs) w
unfolding process_subscriptions
subscriptions_matched env event sub subs w matched = rw (process_subscriptions, matched) refl

subscriptions_skipped :
    (env : Env) (event : Event) (sub : Subscription) (subs : List Subscription) (w : Worker)
    → matches env event sub ≡ false
    → process_subscriptions env event subs w ≡ process_subscriptions env event (sub ∷ subs) w
unfolding process_subscriptions
subscriptions_skipped env event sub subs w differs = rw (process_subscriptions, differs) refl

process_subscriptions-Served :
    (env : Env) (event : Event) (subs : List Subscription) (b : Backend) (w : Worker)
    → w.backend.actions ≡ b.actions
    → Served env subs b (process_subscriptions env event subs w) event
process_subscriptions-Served env event [] b w same = tt
process_subscriptions-Served env event (sub ∷ subs) b w same =
    let actions = list_actions sub.id w.backend in
    let acted = process_actions env sub event actions w in
    let final = process_subscriptions env event subs acted in
    elim (Bool-cases (matches env event sub)) [
      | inl matched ↦
          subst (λ x. Served env (sub ∷ subs) b x event)
            (subscriptions_matched env event sub subs w matched)
            (
              inr (
                  subst (λ listed. AllCompleted event listed final)
                    (list_actions-eq sub.id w.backend b same)
                    (AllCompleted-Extends event actions acted final
                      (process_subscriptions-Extends env event subs acted)
                      (process_actions_done env sub event actions w))),
              process_subscriptions-Served env event subs b acted
                  ((process_actions-Extends env sub event actions w).0 ∙ same),
            )
      | inr differs ↦
          subst (λ x. Served env (sub ∷ subs) b x event)
            (subscriptions_skipped env event sub subs w differs)
            (inl differs, process_subscriptions-Served env event subs b w same)
    ]

process_event-Extends :
    (env : Env) (subs : List Subscription) (event : Event) (w : Worker)
    → Extends w (process_event env subs event w)
unfolding process_event advance_cursor is_action_completed
process_event-Extends env subs event w = process_subscriptions-Extends env event subs w

process_event-Served :
    (env : Env) (subs : List Subscription) (event : Event) (b : Backend) (w : Worker)
    → w.backend.actions ≡ b.actions
    → Served env subs b (process_event env subs event w) event
unfolding process_event advance_cursor is_action_completed
process_event-Served env subs event b w same = process_subscriptions-Served env event subs b w same

process_events-Extends :
    (env : Env) (subs : List Subscription) (n : ℕ) (events : List Event) (w : Worker)
    → Extends w (process_events env subs n events w).1
unfolding process_events
process_events-Extends env subs n [] w = (refl, λ i j h. h)
process_events-Extends env subs n (event ∷ events) w =
    let next = process_event env subs event w in
    elim (Bool-cases (env.is_stopped n)) [
      | inl stopped ↦ rw (process_events, stopped) (refl, λ i j h. h)
      | inr running ↦
          rw (process_events, running)
            (Extends-trans w next (process_events env subs (n + 1) events next).1
              (process_event-Extends env subs event w)
              (process_events-Extends env subs (n + 1) events next))
    ]

abbrev Answered : Env → List Subscription → Backend → ℕ → List Event → ℕ × Worker → Type 0
Answered env subs b n events result =
    (result.0 ≡ n + length events) × All (Served env subs b result.1) events

events_running :
    (env : Env) (subs : List Subscription) (n : ℕ) (event : Event) (events : List Event)
    (w : Worker)
    → env.is_stopped n ≡ false
    → process_events env subs (n + 1) events (process_event env subs event w)
      ≡ process_events env subs n (event ∷ events) w
unfolding process_events
events_running env subs n event events w running = rw (process_events, running) refl

process_events-Answered :
    (env : Env) (subs : List Subscription) (n : ℕ) (events : List Event) (b : Backend) (w : Worker)
    → ((m : ℕ) → env.is_stopped m ≡ false)
    → w.backend.actions ≡ b.actions
    → Answered env subs b n events (process_events env subs n events w)
unfolding process_events
process_events-Answered env subs n [] b w running same = (omega arith, tt)
process_events-Answered env subs n (event ∷ events) b w running same =
    let next = process_event env subs event w in
    let after = process_events env subs (n + 1) events next in
    let extends = process_event-Extends env subs event w in
    let rest = process_events-Answered env subs (n + 1) events b next running (extends.0 ∙ same) in
    subst (Answered env subs b n (event ∷ events))
      (events_running env subs n event events w (running n))
      (
        omega (arith, rest.0),
        (
          Served-Extends env subs b next after.1 event
              (process_events-Extends env subs (n + 1) events next)
              (process_event-Served env subs event b w same),
          rest.1,
        ),
      )

-- An action that has been served by a poll from the one state to the other: it is completed, and
-- something stands behind the completion.
abbrev pub IsServed : Worker → Worker → Event → SubscriptionAction → Type 0
IsServed v w event a =
    (is_action_completed event.id a.id w.backend ≡ true) × Cause v w event.id a.id

abbrev pub AllServed : Env → Worker → Worker → Event → Type 0
AllServed env v w event =
    All
      (λ (sub : Subscription).
        (matches env event sub ≡ false) ⊎ All (IsServed v w event) (list_actions sub.id v.backend))
      (list_subscriptions true none v.backend)

Served-AllServed :
    (env : Env) (subs : List Subscription) (v w : Worker) (event : Event)
    → Backed env v w
    → Served env subs v.backend w event
    → All
        (λ (sub : Subscription).
          (matches env event sub ≡ false)
          ⊎ All (IsServed v w event) (list_actions sub.id v.backend))
        subs
Served-AllServed env [] v w event backed s = tt
Served-AllServed env (sub ∷ subs) v w event backed s = (
  elim s.0 [
    | inl differs ↦ inl differs
    | inr done ↦ inr (
        All-map (λ (a : SubscriptionAction). is_action_completed event.id a.id w.backend ≡ true)
          (IsServed v w event) (list_actions sub.id v.backend)
          (λ a c. (c, backed.causes event.id a.id c)) done)
  ],
  Served-AllServed env subs v w event backed s.1,
)

-- A poll that no stop request interrupts processes all the events that it finds, and returns their
-- number. Afterwards each action that was listed for an enabled subscription that the event matches
-- has a recorded completion for that event, and the event has reached it: the completion was there
-- before the poll, or the action was executed for the event, or the event stands in the accumulator
-- for the action, or an execution was given that entry with its batch. The ids that the poll draws
-- differ from each other and from those in the accumulator, which holds each entry once.
pub poll_and_process-Served :
    (env : Env) (w : Worker)
    → ((m n : ℕ) → env.uuid7 m ≡ env.uuid7 n → m ≡ n)
    → Sound env w.backend.accumulator w.buffered
    → ((m : ℕ) → env.is_stopped m ≡ false)
    → ((poll_and_process env w).0 ≡ length (polled env w))
      × All (AllServed env w (poll_and_process env w).1) (polled env w)
unfolding poll_and_process
poll_and_process-Served env w fresh sound running =
    let subs = list_subscriptions true none w.backend in
    let answered = process_events-Answered env subs 0 (polled env w) w.backend w running refl in
    let after = (process_events env subs 0 (polled env w) w).1 in
    let backed =
      process_events-Backed env fresh w subs 0 (polled env w) w
        (record { sound = sound; causes = λ i j c. before c }) in
    (
      omega (arith, answered.0),
      All-map (Served env subs w.backend after) (AllServed env w after) (polled env w)
          (λ event s. Served-AllServed env subs w after event backed s) answered.1,
    )
