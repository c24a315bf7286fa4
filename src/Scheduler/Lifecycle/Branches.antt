-- ===== src/Scheduler/Lifecycle/Branches.antt =====
-- What is behind an outcome of a handler (scheduler/src/orxtra/scheduler/_lifecycle_handlers.py).
use orxtra.Prelude.{
  ◌≡◌, refl, sym, ◌∙◌, ap, ℕ, Bool, true, false, not, Option, none, some, List, [], ◌∷◌, nat_eq,
  string_eq, filter, contains, if◌then◌else◌, Result, ok, err, ◌⊎◌, inl, inr, arith,
}
use orxtra.Prelude.Ids.{Uuid}
use orxtra.Prelude.Dict.{get, get-put}
use orxtra.Trace.Transitions.{TaskStatus, task_status_eq}
use orxtra.Trace.Store.{Store}
use orxtra.Trace.Tasks.Outcomes.{raised, moved, outcome}
use orxtra.Scheduler.Lifecycle.{Scheduler, Handler, continue, children_of}
use orxtra.Scheduler.Lifecycle.Constraints.{is_nonempty}
use orxtra.Scheduler.Lifecycle.Handlers.{incomplete, is_complete, write_transition}
use orxtra.Scheduler.Lifecycle.Agreement.{IsTraced}

pub continue-eq-ok :
    {A B : Type 0} (m : Result A × Scheduler) (next : A → Handler B) (b : B) (u : Scheduler)
    → continue m next ≡ (ok b, u)
    → (a : A) × (m.0 ≡ ok a) × (next a m.1 ≡ (ok b, u))
continue-eq-ok (ok a, s) next b u h = (a, refl, h)
continue-eq-ok (err e, s) next b u h = let differ : err e ≡ ok b = ap (λ r. r.0) h in cc

pub choose-eq {ℓ} :
    {A : Type ℓ} (b : Bool) (x y z : A)
    → (if b then x else y) ≡ z
    → ((b ≡ true) × (x ≡ z)) ⊎ ((b ≡ false) × (y ≡ z))
choose-eq true x y z h = inl (refl, h)
choose-eq false x y z h = inr (refl, h)

filter_nil :
    (p : Uuid → Bool) (xs : List Uuid) (x : Uuid)
    → is_nonempty (filter p xs) ≡ false
    → contains xs x ≡ true
    → p x ≡ false
filter_nil p [] x h k = cc
filter_nil p (y ∷ ys) x h k = ground (arith, nat_eq.beq_iff y x, filter_nil p ys x)

is_complete_lem : (o : Option TaskStatus) → is_complete o ≡ true → o ≡ some TaskStatus.completed
is_complete_lem none h = cc
is_complete_lem (some state) h = ap some ((task_status_eq.beq_iff state TaskStatus.completed).0 h)

pub incomplete_lem :
    (i c : Uuid) (s : Scheduler)
    → is_nonempty (incomplete i s) ≡ false
    → contains (children_of i s) c ≡ true
    → get s.task_states c ≡ some TaskStatus.completed
unfolding incomplete
incomplete_lem i c s h k =
    let p = filter_nil (λ x. not (is_complete (get s.task_states x))) (children_of i s) c h k in
    is_complete_lem (get s.task_states c) (ground arith)

module _ (fresh now : ℕ → ℕ) where
  pub write-IsTraced :
      (k : ℕ) (i : Uuid) (new : TaskStatus) (s : Scheduler)
      → (write_transition fresh now k i new s).0 ≡ ok tt
      → IsTraced i new (write_transition fresh now k i new s).1
  unfolding write_transition
  write-IsTraced k i new s h =
      elim (outcome (fresh k) (now k) i new none s.run_principal_id s.trace) [
        | raised e eq ↦
            let c : err e ≡ ok tt = sym (ap (λ (r : Result (Unit {0}) × Store). r.0) eq) ∙ h in cc
        | moved task found valid eq ↦ (
          record task { status = new },
          ap (λ (r : Result (Unit {0}) × Store). get r.1.tasks i) eq
              ∙ get-put s.trace.tasks i i (record task { status = new })
              ∙ rw ((nat_eq.beq_iff i i).1 refl) refl,
          refl,
        )
      ]
