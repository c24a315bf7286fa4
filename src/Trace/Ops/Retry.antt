-- ===== src/Trace/Ops/Retry.antt =====
-- Proofs on `write_event` with an idempotency key (trace/src/orxtra/trace/_memory_backend.py).
use orxtra.Prelude.{◌≡◌, refl, String, false, Option, none, some, List, [], ◌∷◌, string_eq, arith}
use orxtra.Prelude.Json.{Json}
use orxtra.Prelude.Dict.{get, get-put}
use orxtra.Trace.Rows.{Uuid, Time}
use orxtra.Trace.Store.{Store, empty_store}
use orxtra.Trace.Events.{write_event}
use orxtra.Trace.Ops.{Op, step, steps}
use orxtra.Trace.Ops.Once.{ids_with, to_list, steps-IsIndexed}

-- After any calls on an empty backend the log holds at most one event with a given key, and that
-- event's id is the one that the idempotency index gives for the key.
pub ids_with-eq-index :
    (ops : List Op) (k : String)
    → ids_with k (steps ops empty_store).events
      ≡ to_list (get (steps ops empty_store).idempotency_index k)
ids_with-eq-index ops k = steps-IsIndexed k ops empty_store (unfold ids_with get in refl)

step_remembers :
    (op : Op) (s : Store) (k : String) (id : Uuid)
    → get s.idempotency_index k ≡ some id
    → get (step op s).idempotency_index k ≡ some id
unfolding step
step_remembers (Op.write_event fresh now run_id event_type body task_id principal none) s k id h = h
step_remembers (Op.write_event fresh now run_id event_type body task_id principal (some j)) s k id
      h =
    ground (arith, string_eq.beq_iff j k, get-put s.idempotency_index j k fresh)
step_remembers _ s k id h = ground arith

steps_remember :
    (ops : List Op) (s : Store) (k : String) (id : Uuid)
    → get s.idempotency_index k ≡ some id
    → get (steps ops s).idempotency_index k ≡ some id
unfolding steps
steps_remember [] s k id h = h
steps_remember (op ∷ ops) s k id h =
    steps_remember ops (step op s) k id (step_remembers op s k id h)

module _ (fresh : Uuid) (now : Time) (run_id : Option Uuid) (event_type : String) (body : Json)
    (task_id : Option Uuid) (principal : Uuid) (k : String) (s : Store) where
  write_indexes :
      get
        (write_event fresh now run_id event_type body task_id principal
          (some k)
          s).1.idempotency_index
        k
      ≡ some (write_event fresh now run_id event_type body task_id principal (some k) s).0.0
  unfolding write_event
  write_indexes = ground (arith, string_eq.beq_iff k k, get-put s.idempotency_index k k fresh)

rewrite_known :
    (fresh : Uuid) (now : Time) (run_id : Option Uuid) (event_type : String) (body : Json)
    (task_id : Option Uuid) (principal : Uuid) (k : String) (s : Store) (id : Uuid)
    → get s.idempotency_index k ≡ some id
    → write_event fresh now run_id event_type body task_id principal (some k) s ≡ ((id, false), s)
unfolding write_event
rewrite_known fresh now run_id event_type body task_id principal k s id h = rw (h, write_event)

-- A second write with the key of an earlier one, whatever calls came between and whatever else it
-- passes, returns the id that the earlier write returned, inserts nothing and changes nothing.
pub write_event-retry :
    (fresh fresh' : Uuid) (now now' : Time) (run_id run_id' : Option Uuid)
    (event_type event_type' : String) (body body' : Json) (task_id task_id' : Option Uuid)
    (principal principal' : Uuid) (k : String) (ops : List Op) (s : Store)
    → write_event fresh' now' run_id' event_type' body' task_id' principal'
        (some k)
        (steps ops (write_event fresh now run_id event_type body task_id principal (some k) s).1)
      ≡ (
        ((write_event fresh now run_id event_type body task_id principal (some k) s).0.0, false),
        steps ops (write_event fresh now run_id event_type body task_id principal (some k) s).1,
      )
write_event-retry fresh fresh' now now' run_id run_id' event_type event_type' body body' task_id
      task_id' principal principal' k ops s =
    rewrite_known fresh' now' run_id' event_type' body' task_id' principal' k _ _ (
      steps_remember ops _ k _
        (write_indexes fresh now run_id event_type body task_id principal k s))
