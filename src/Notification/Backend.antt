-- ===== src/Notification/Backend.antt =====
-- `InMemoryNotificationBackend` (notification/src/orxtra/notification/_inmemory.py) and the
-- deliveries that it stores (protocols/src/orxtra/protocols/_types/_notification.py). Ids and times
-- are arguments.
use orxtra.Prelude.{
  ℕ, ◌+◌, String, Bool, true, not, ◌&&◌, Option, none, some, List, [], ◌∷◌, ◌==◌, nat_eq, leb,
  is_none, if◌then◌else◌, Result, ok, err, key_error,
}
use orxtra.Prelude.Ids.{Uuid, Time}
use orxtra.Prelude.Json.{Json}
use orxtra.Prelude.Dict.{Dict, get, put, values}
use orxtra.Prelude.Sorting.{sort_by}

pub record NotificationDelivery : Type 0 where
  pub id : Uuid
  pub target_principal_id : Uuid
  pub source_ref : String
  pub payload : Json
  pub created_at : Time
  pub acknowledged_at : Option Time

-- `_deliveries`
abbrev pub Deliveries : Type 0
Deliveries = Dict Uuid NotificationDelivery

-- The row that `create_delivery` writes.
abbrev pub new_delivery :
    (delivery_id : Uuid) (now : Time) (target_principal_id : Uuid) (source_ref : String)
    (payload : Json)
    → NotificationDelivery
new_delivery delivery_id now target_principal_id source_ref payload = record {
  id = delivery_id;
  target_principal_id = target_principal_id;
  source_ref = source_ref;
  payload = payload;
  created_at = now;
  acknowledged_at = none;
}

unfoldable pub create_delivery :
    (delivery_id : Uuid) (now : Time) (target_principal_id : Uuid) (source_ref : String)
    (payload : Json)
    → Deliveries
    → Uuid × Deliveries
create_delivery delivery_id now target_principal_id source_ref payload ds =
    let delivery = new_delivery delivery_id now target_principal_id source_ref payload in
    (delivery_id, put ds delivery_id delivery)

-- `cursor is not None and delivery.id <= cursor`
unfoldable pub is_behind : (cursor : Option Uuid) → NotificationDelivery → Bool
is_behind none d = not true
is_behind (some c) d = leb d.id c

-- The three tests of the loop that skip a delivery.
unfoldable pub is_listed :
    (principal_id : Uuid) (unacknowledged_only : Bool) (cursor : Option Uuid)
    → NotificationDelivery
    → Bool
unfolding is_behind
is_listed principal_id unacknowledged_only cursor d =
    d.target_principal_id == principal_id
    && not (unacknowledged_only && not (is_none d.acknowledged_at))
    && not (is_behind cursor d)

-- The loop, with the number of results so far: it stops once there are `limit`.
unfoldable pub collect :
    (p : NotificationDelivery → Bool) (limit found : ℕ)
    → List NotificationDelivery
    → List NotificationDelivery
collect p limit found [] = []
collect p limit found (d ∷ ds) =
    let next = collect p limit (if p d then found + 1 else found) ds in
    if p d then d ∷ (if leb limit (found + 1) then [] else next) else next

unfoldable pub list_for_principal :
    (principal_id : Uuid) (unacknowledged_only : Bool) (cursor : Option Uuid) (limit : ℕ)
    → Deliveries
    → List NotificationDelivery
unfolding collect is_listed
list_for_principal principal_id unacknowledged_only cursor limit ds =
    collect (is_listed principal_id unacknowledged_only cursor) limit 0
      (sort_by (λ (d : NotificationDelivery). d.created_at) (values ds))

unfoldable pub acknowledge_found :
    (now : Time) (delivery_id : Uuid)
    → Option NotificationDelivery
    → Deliveries
    → Result (Unit {0}) × Deliveries
acknowledge_found now delivery_id none ds = (err key_error, ds)
acknowledge_found now delivery_id (some existing) ds =
    if not (is_none existing.acknowledged_at)
    then (err key_error, ds)
    else (ok tt, put ds delivery_id (record existing { acknowledged_at = some now }))

unfoldable pub acknowledge :
    (now : Time) (delivery_id : Uuid) → Deliveries → Result (Unit {0}) × Deliveries
unfolding acknowledge_found
acknowledge now delivery_id ds = acknowledge_found now delivery_id (get ds delivery_id) ds
