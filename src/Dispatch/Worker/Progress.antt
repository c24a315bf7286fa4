-- ===== src/Dispatch/Worker/Progress.antt =====
-- Lemmas on the completions that the loops of the worker record
-- (dispatch/src/orxtra/dispatch/_dispatch_worker.py).
use orxtra.Prelude.{
  ◌≡◌, refl, ◌∙◌, true, List, any, [], ◌∷◌, arith, nat_eq, Bool-cases, inl, inr, All,
}
use orxtra.Prelude.Ids.{Uuid}
use orxtra.Dispatch.Backend.{
  Backend, Event, Subscription, SubscriptionAction, is_pair, is_action_completed, record_completion,
  list_actions,
}
use orxtra.Dispatch.Worker.{
  Env, Worker, deliver, process_action, process_actions, process_subscriptions, matches,
}
use orxtra.Dispatch.Worker.Delivery.{record_completion-eq, deliver_keeps, completed-eq}

-- No action changed, and no completion went away.
abbrev pub Extends : Worker → Worker → Type 0
Extends v w =
    (w.backend.actions ≡ v.backend.actions)
    × ((i j : Uuid)
        → is_action_completed i j v.backend ≡ true
        → is_action_completed i j w.backend ≡ true)

pub Extends-trans : (u v w : Worker) → Extends u v → Extends v w → Extends u w
Extends-trans u v w h k = (k.0 ∙ h.0, λ i j done. k.1 i j (h.1 i j done))

record_keeps_actions : (e a : Uuid) (b : Backend) → (record_completion e a b).actions ≡ b.actions
unfolding record_completion
record_keeps_actions e a b = elim (Bool-cases (any (is_pair e a) b.completions)) [
  | inl h ↦ rw h refl
  | inr h ↦ rw h refl
]

process_action-Extends :
    (env : Env) (sub : Subscription) (event : Event) (a : SubscriptionAction) (w : Worker)
    → Extends w (process_action env sub event a w)
unfolding process_action
process_action-Extends env sub event a w =
    let after = deliver env sub event a a.accumulator_config w in
    let kept = deliver_keeps env sub event a a.accumulator_config w in
    elim (Bool-cases (is_action_completed event.id a.id w.backend)) [
      | inl done ↦ rw done (refl, λ i j h. h)
      | inr fresh ↦ rw fresh (
        record_keeps_actions event.id a.id after.backend ∙ kept.1,
        λ i j h.
            rw (record_completion-eq event.id a.id i j after.backend)
              (rw (completed-eq i j after.backend w.backend kept.0) (rw h (ground arith))),
      )
    ]

process_action_done :
    (env : Env) (sub : Subscription) (event : Event) (a : SubscriptionAction) (w : Worker)
    → is_action_completed event.id a.id (process_action env sub event a w).backend ≡ true
unfolding process_action
process_action_done env sub event a w =
    let after = deliver env sub event a a.accumulator_config w in
    elim (Bool-cases (is_action_completed event.id a.id w.backend)) [
      | inl done ↦ rw done done
      | inr fresh ↦
          rw fresh
            (rw (record_completion-eq event.id a.id event.id a.id after.backend) (ground arith))
    ]

pub process_actions-Extends :
    (env : Env) (sub : Subscription) (event : Event) (actions : List SubscriptionAction)
    (w : Worker)
    → Extends w (process_actions env sub event actions w)
unfolding process_actions
process_actions-Extends env sub event [] w = (refl, λ i j h. h)
process_actions-Extends env sub event (a ∷ actions) w =
    let next = process_action env sub event a w in
    Extends-trans w next (process_actions env sub event actions next)
      (process_action-Extends env sub event a w)
      (process_actions-Extends env sub event actions next)

abbrev pub AllCompleted : Event → List SubscriptionAction → Worker → Type 0
AllCompleted event actions w =
    All (λ (a : SubscriptionAction). is_action_completed event.id a.id w.backend ≡ true) actions

pub process_actions_done :
    (env : Env) (sub : Subscription) (event : Event) (actions : List SubscriptionAction)
    (w : Worker)
    → AllCompleted event actions (process_actions env sub event actions w)
unfolding process_actions
process_actions_done env sub event [] w = tt
process_actions_done env sub event (a ∷ actions) w =
    let next = process_action env sub event a w in
    (
      (process_actions-Extends env sub event actions next).1 event.id a.id
          (process_action_done env sub event a w),
      process_actions_done env sub event actions next,
    )

pub list_actions-eq :
    (sub_id : Uuid) (b c : Backend)
    → b.actions ≡ c.actions
    → list_actions sub_id b ≡ list_actions sub_id c
unfolding list_actions
list_actions-eq sub_id b c same = rw same refl

pub process_subscriptions-Extends :
    (env : Env) (event : Event) (subs : List Subscription) (w : Worker)
    → Extends w (process_subscriptions env event subs w)
unfolding process_subscriptions
process_subscriptions-Extends env event [] w = (refl, λ i j h. h)
process_subscriptions-Extends env event (sub ∷ subs) w =
    let acted = process_actions env sub event (list_actions sub.id w.backend) w in
    elim (Bool-cases (matches env event sub)) [
      | inl matched ↦
          rw (process_subscriptions, matched)
            (Extends-trans w acted (process_subscriptions env event subs acted)
              (process_actions-Extends env sub event (list_actions sub.id w.backend) w)
              (process_subscriptions-Extends env event subs acted))
      | inr differs ↦
          rw (process_subscriptions, differs) (process_subscriptions-Extends env event subs w)
    ]
