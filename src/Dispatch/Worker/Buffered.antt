-- ===== src/Dispatch/Worker/Buffered.antt =====
-- What becomes of a buffered event (dispatch/src/orxtra/dispatch/_dispatch_worker.py).
use orxtra.Prelude.{
  ℕ, ◌≤◌, ◌≡◌, refl, sym, ◌∙◌, ap, subst, Bool, true, false, ◌&&◌, none, some, List, [], ◌∷◌, map,
  ◌==◌, nat_eq, Bool-cases, inl, inr, any, All, All-map, contains, arith,
}
use orxtra.Prelude.Ids.{Uuid}
use orxtra.Prelude.Dict.{Dict, values, get, put, pop, get-pop, has-eq_get}
use orxtra.Prelude.Dict.Unique.{Unique, pop-Unique}
use orxtra.Dispatch.Backend.{AccumulatorEntry, Backend, confirm_batch, discard}
use orxtra.Dispatch.Worker.{Execution, Env, Worker}

abbrev pub is_of : (event_id action_id : Uuid) → AccumulatorEntry → Bool
is_of event_id action_id x = x.event_id == event_id && x.subscription_action_id == action_id

-- Whether an execution is given an entry of the event for the action.
abbrev pub is_given : (event_id action_id : Uuid) → Execution → Bool
is_given event_id action_id (Execution.immediate sub_action event owner) = false
is_given event_id action_id (Execution.flushed sub_action batch owner) =
    any (is_of event_id action_id) batch

-- The event is in the accumulator for the action, or an execution was given its entry.
pub data Kept (event_id action_id : Uuid) (w : Worker) : Type 0 where
  stored :
      (id : Uuid) (x : AccumulatorEntry)
      → get w.backend.accumulator id ≡ some x
      → is_of event_id action_id x ≡ true
      → Kept event_id action_id w
  given : any (is_given event_id action_id) w.executions ≡ true → Kept event_id action_id w

abbrev pub Keyed : Dict Uuid AccumulatorEntry → Type 0
Keyed [] = Unit
Keyed ((k, x) ∷ d) = (x.id ≡ k) × Keyed d

-- The accumulator holds each entry once, under its id, and none of the ids still to be drawn.
pub record Sound (env : Env) (d : Dict Uuid AccumulatorEntry) (buffered : ℕ) : Type 0 where
  pub unique : Unique d
  pub keyed : Keyed d
  pub unused : (n : ℕ) → buffered ≤ n → get d (env.uuid7 n) ≡ none

pub put-Keyed :
    (d : Dict Uuid AccumulatorEntry) (x : AccumulatorEntry) → Keyed d → Keyed (put d x.id x)
unfolding put
put-Keyed [] x h = (refl, tt)
put-Keyed ((j, y) ∷ d) x h = ground (arith, nat_eq.beq_iff j x.id, put-Keyed d x)

pop-Keyed : (d : Dict Uuid AccumulatorEntry) (k : Uuid) → Keyed d → Keyed (pop d k)
unfolding pop
pop-Keyed [] k h = tt
pop-Keyed ((j, y) ∷ d) k h = ground (arith, pop-Keyed d k)

pub values_stored :
    (d : Dict Uuid AccumulatorEntry)
    → Unique d
    → Keyed d
    → All (λ (x : AccumulatorEntry). get d x.id ≡ some x) (values d)
unfolding get
values_stored [] u h = tt
values_stored ((k, y) ∷ d) u h = (
  ground (arith, nat_eq.beq_iff k y.id),
  All-map (λ (x : AccumulatorEntry). get d x.id ≡ some x)
      (λ (x : AccumulatorEntry). get ((k, y) ∷ d) x.id ≡ some x) (values d)
      (λ x e. ground (arith, nat_eq.beq_iff k x.id, has-eq_get d x.id x e, u.0))
      (values_stored d u.1 h.1),
)

pub confirm_batch-get :
    (ids : List Uuid) (b : Backend) (k : Uuid)
    → contains ids k ≡ false
    → get (confirm_batch ids b).accumulator k ≡ get b.accumulator k
unfolding confirm_batch
confirm_batch-get [] b k h = refl
confirm_batch-get (i ∷ ids) b k h =
    let b' = record b { accumulator = pop b.accumulator i; claimed = discard i b.claimed } in
    confirm_batch-get ids b' k (ground arith) ∙ ground (arith, get-pop b.accumulator i k)

pub confirm_batch-Sound :
    (env : Env) (ids : List Uuid) (b : Backend) (n : ℕ)
    → Sound env b.accumulator n
    → Sound env (confirm_batch ids b).accumulator n
unfolding confirm_batch
confirm_batch-Sound env [] b n s = s
confirm_batch-Sound env (i ∷ ids) b n s =
    confirm_batch-Sound env ids
      (record b { accumulator = pop b.accumulator i; claimed = discard i b.claimed }) n
      (record {
        unique = pop-Unique b.accumulator i s.unique;
        keyed = pop-Keyed b.accumulator i s.keyed;
        unused = λ m le. ground (arith, get-pop b.accumulator i (env.uuid7 m), s.unused m le);
      })

pub batch_given :
    (d : Dict Uuid AccumulatorEntry) (es : List AccumulatorEntry) (i j k : Uuid)
    (x : AccumulatorEntry)
    → All (λ (y : AccumulatorEntry). get d y.id ≡ some y) es
    → get d k ≡ some x
    → is_of i j x ≡ true
    → contains (map (λ (y : AccumulatorEntry). y.id) es) k ≡ true
    → any (is_of i j) es ≡ true
batch_given d [] i j k x h e p c = cc
batch_given d (y ∷ es) i j k x h e p c = elim (Bool-cases (y.id == k)) [
  | inl same ↦
      let q : y.id ≡ k = (nat_eq.beq_iff y.id k).0 same in
      let r : some y ≡ some x = sym h.0 ∙ ap (get d) q ∙ e in
      let z : y ≡ x = cc in
      ground (arith, subst (λ (t : AccumulatorEntry). is_of i j t ≡ true) (sym z) p)
  | inr other ↦ ground (arith, batch_given d es i j k x h.1 e p)
]

-- Another state of the worker with the same entries and at least the same executions.
pub carried :
    (i j : Uuid) (v w : Worker)
    → w.backend.accumulator ≡ v.backend.accumulator
    → w.executions ≡ v.executions
    → Kept i j v
    → Kept i j w
carried i j v w a e (stored k x f p) = stored k x (ap (λ d. get d k) a ∙ f) p
carried i j v w a e (given h) = given (ap (any (is_given i j)) e ∙ h)
