-- ===== src/Dispatch/Worker/Gathered.antt =====
-- The delivery to an accumulator and its flushes
-- (dispatch/src/orxtra/dispatch/_dispatch_worker.py).
use orxtra.Prelude.{
  ℕ, ◌+◌, ◌≡◌, refl, ◌∙◌, true, ◌&&◌, Option, none, some, List, [], ◌∷◌, map, nat_eq, Bool-cases,
  ◌⊎◌, inl, inr, All, filter-All, All-take, contains, ltb, leb, is_none, arith,
}
use orxtra.Prelude.Ids.{Uuid}
use orxtra.Prelude.Sorting.{sort_by-All}
use orxtra.Prelude.Dict.{get, get-put}
use orxtra.Prelude.Dict.Unique.{put-Unique}
use orxtra.Dispatch.Backend.{
  AccumulatorConfig, AccumulatorEntry, Event, Subscription, SubscriptionAction, claim_batch,
  buffer_event, pending_count, is_claimable,
}
use orxtra.Dispatch.Worker.{
  Execution, Env, Worker, execute_batch, flush_action, buffer_or_flush, deliver, claim_limit,
}
use orxtra.Dispatch.Worker.Buffered.{
  Kept, stored, given, Sound, put-Keyed, values_stored, confirm_batch-get, confirm_batch-Sound,
  batch_given, carried,
}

module _ (env : Env) where
  execute_batch-Kept :
      (a : SubscriptionAction) (owner : Uuid) (es : List AccumulatorEntry) (w : Worker) (i j : Uuid)
      → All (λ (y : AccumulatorEntry). get w.backend.accumulator y.id ≡ some y) es
      → Kept i j w
      → Kept i j (execute_batch env a owner es w)
  unfolding execute_batch
  execute_batch-Kept a owner [] w i j h k = k
  execute_batch-Kept a owner (y ∷ es) w i j h (given g) =
      elim (Bool-cases (env.succeeds w.executions (Execution.flushed a (y ∷ es) owner))) [
        | inl fine ↦ rw (execute_batch, fine) (given (ground arith))
        | inr raised ↦ rw (execute_batch, raised) (given (ground arith))
      ]
  execute_batch-Kept a owner (y ∷ es) w i j h (stored k x f p) =
      let ids = map (λ (z : AccumulatorEntry). z.id) (y ∷ es) in
      elim (Bool-cases (env.succeeds w.executions (Execution.flushed a (y ∷ es) owner))) [
        | inr raised ↦ rw (execute_batch, raised) (stored k x f p)
        | inl fine ↦
            rw (execute_batch, fine)
              (elim (Bool-cases (contains ids k)) [
                | inl taken ↦
                    let g = batch_given w.backend.accumulator (y ∷ es) i j k x h f p taken in
                    given (ground arith)
                | inr left ↦ stored k x (confirm_batch-get ids w.backend k left ∙ f) p
              ])
      ]

  execute_batch-Sound :
      (a : SubscriptionAction) (owner : Uuid) (es : List AccumulatorEntry) (w : Worker)
      → Sound env w.backend.accumulator w.buffered
      → Sound env
          (execute_batch env a owner es w).backend.accumulator
          (execute_batch env a owner es w).buffered
  unfolding execute_batch
  execute_batch-Sound a owner [] w s = s
  execute_batch-Sound a owner (y ∷ es) w s =
      elim (Bool-cases (env.succeeds w.executions (Execution.flushed a (y ∷ es) owner))) [
        | inl fine ↦
            rw (execute_batch, fine)
              (confirm_batch-Sound env (map (λ (z : AccumulatorEntry). z.id) (y ∷ es)) w.backend
                w.buffered s)
        | inr raised ↦ rw (execute_batch, raised) s
      ]

  flush_action-Kept :
      (a : SubscriptionAction) (owner : Uuid) (w : Worker)
      → Sound env w.backend.accumulator w.buffered
      → Sound env
          (flush_action env a owner w).backend.accumulator
          (flush_action env a owner w).buffered
        × ((i j : Uuid) → Kept i j w → Kept i j (flush_action env a owner w))
  unfolding flush_action claim_batch
  flush_action-Kept a owner w s =
      let claim = claim_batch a.id claim_limit w.backend in
      let t : Worker = record w { backend = claim.1 } in
      let P : AccumulatorEntry → Type 0 = λ y. get w.backend.accumulator y.id ≡ some y in
      let q = is_claimable a.id w.backend.claimed in
      let all = values_stored w.backend.accumulator s.unique s.keyed in
      let taken : All P claim.0 =
        All-take P claim_limit _ (sort_by-All _ P _ (filter-All P q _ all)) in
      (
        execute_batch-Sound a owner claim.0 t s,
        λ i j k. execute_batch-Kept a owner claim.0 t i j taken (carried i j w t refl refl k),
      )

module _ (env : Env) (fresh : (m n : ℕ) → env.uuid7 m ≡ env.uuid7 n → m ≡ n) where
  buffer_or_flush-Kept :
      (a : SubscriptionAction) (config : AccumulatorConfig) (event_id owner : Uuid) (w : Worker)
      → Sound env w.backend.accumulator w.buffered
      → Sound env
          (buffer_or_flush env a config event_id owner w).backend.accumulator
          (buffer_or_flush env a config event_id owner w).buffered
        × ((i j : Uuid) → Kept i j w → Kept i j (buffer_or_flush env a config event_id owner w))
        × Kept event_id a.id (buffer_or_flush env a config event_id owner w)
  unfolding buffer_or_flush buffer_event
  buffer_or_flush-Kept a config event_id owner w s =
      let entry : AccumulatorEntry = record {
        id = env.uuid7 w.buffered;
        subscription_action_id = a.id;
        event_id = event_id;
        created_at = env.now w.buffered;
      } in
      let d = w.backend.accumulator in
      let t : Worker = record w {
        backend = (buffer_event entry w.backend).1;
        buffered = w.buffered + 1;
      } in
      let sound : Sound env t.backend.accumulator t.buffered = record {
        unique = put-Unique d entry.id entry s.unique;
        keyed = put-Keyed d entry s.keyed;
        unused = λ m le. ground (
          arith,
          get-put d entry.id (env.uuid7 m) entry,
          s.unused m (omega arith),
          nat_eq.beq_iff entry.id (env.uuid7 m),
          fresh w.buffered m,
        );
      } in
      let kept : (i j : Uuid) → Kept i j w → Kept i j t = λ i j k. elim k [
        | given g ↦ given g
        | stored id x f p ↦
            stored id x
              (ground (
                arith,
                get-put d entry.id id entry,
                s.unused w.buffered (omega arith),
                nat_eq.beq_iff entry.id id,
                f,
              ))
              p
      ] in
      let new : Kept event_id a.id t =
        stored entry.id entry
          (ground (arith, get-put d entry.id entry.id entry, nat_eq.beq_iff entry.id entry.id))
          (ground (arith, nat_eq.beq_iff event_id event_id, nat_eq.beq_iff a.id a.id)) in
      elim (Bool-cases
        (ltb 0 config.threshold && leb config.threshold (pending_count a.id t.backend))) [
          | inl full ↦
              let flushed = flush_action-Kept env a owner t sound in
              rw (buffer_or_flush, full)
                (flushed.0, (λ i j k. flushed.1 i j (kept i j k)), flushed.1 event_id a.id new)
          | inr room ↦ elim (Bool-cases (ltb 0 config.flush_interval_s)) [
            | inl later ↦
                let u = record t {
                  scheduled = (config.flush_interval_s, a, owner) ∷ w.scheduled;
                } in
                rw (buffer_or_flush, room, later)
                  (
                    sound,
                    (λ i j k. carried i j t u refl refl (kept i j k)),
                    carried event_id a.id t u refl refl new,
                  )
            | inr never ↦ rw (buffer_or_flush, room, never) (sound, kept, new)
          ]
        ]

  -- Delivery keeps what is kept, and keeps the event for an action with an accumulator.
  pub deliver-Kept :
      (sub : Subscription) (event : Event) (a : SubscriptionAction)
      (config : Option AccumulatorConfig) (w : Worker)
      → Sound env w.backend.accumulator w.buffered
      → Sound env
          (deliver env sub event a config w).backend.accumulator
          (deliver env sub event a config w).buffered
        × ((i j : Uuid) → Kept i j w → Kept i j (deliver env sub event a config w))
        × ((is_none config ≡ true) ⊎ Kept event.id a.id (deliver env sub event a config w))
  unfolding deliver
  deliver-Kept sub event a none w s = (
    s,
    (λ i j k. elim k [ stored id x f p ↦ stored id x f p | given g ↦ given (ground arith) ]),
    inl refl,
  )
  deliver-Kept sub event a (some config) w s =
      let (sound, kept, new) = buffer_or_flush-Kept a config event.id sub.principal_id w s in
      (sound, kept, inr new)
