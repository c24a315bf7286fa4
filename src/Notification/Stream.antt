-- ===== src/Notification/Stream.antt =====
-- The notification stream (notification/src/orxtra/notification/_stream.py). `str(uuid)` and
-- `UUID(text)` are the arguments `show` and `parse`. A delivery stands for its SSE message, and the
-- wake-ups of the live loop are a list, each with the deliveries stored at that moment.
use orxtra.Prelude.{
  String, Bool, true, false, Option, none, some, List, [], ◌∷◌, ◌++◌, map, ◌==◌, string_eq, find,
  contains, is_none, if◌then◌else◌,
}
use orxtra.Prelude.Ids.{Uuid}
use orxtra.Notification.Backend.{NotificationDelivery, Deliveries, list_for_principal}

-- The payload of a NOTIFY.
pub record Notice : Type 0 where
  pub notification_id : Option String
  pub target_principal_id : Option String

pub data Message : Type 0 where
  delivered : NotificationDelivery → Message
  heartbeat : Message

-- What ends a wait: a notice in the queue, or the timeout.
pub data Wake : Type 0 where
  notified : Notice → Deliveries → Wake
  timed_out : Wake

module _ (show : Uuid → String) (parse : String → Option Uuid) where
  -- The message and the seen ids that the loop over the listed deliveries leaves.
  unfoldable pub sent_of :
      (seen : List String) → Option NotificationDelivery → Option NotificationDelivery × List String
  sent_of seen none = (none, seen)
  sent_of seen (some d) = (some d, show d.id ∷ seen)

  unfoldable pub look_up :
      (delivery_id : String) (seen : List String) (ds : Deliveries)
      → Option Uuid
      → Option NotificationDelivery × List String
  unfolding sent_of list_for_principal
  look_up delivery_id seen ds none = (none, seen)
  look_up delivery_id seen ds (some target) =
      sent_of seen
        (find (λ d. show d.id == delivery_id) (list_for_principal target false none 50 ds))

  unfoldable pub target_of : Option String → Option Uuid
  target_of none = none
  target_of (some target) = parse target

  unfoldable pub fetch_id :
      (target : Option String) (seen : List String) (ds : Deliveries)
      → Option String
      → Option NotificationDelivery × List String
  unfolding look_up target_of
  fetch_id target seen ds none = (none, seen)
  fetch_id target seen ds (some delivery_id) =
      if contains seen delivery_id
      then (none, seen)
      else if is_none (parse delivery_id)
      then (none, seen)
      else look_up delivery_id seen ds (target_of target)

  unfoldable pub fetch_live_delivery :
      (notice : Notice) (seen : List String) (ds : Deliveries)
      → Option NotificationDelivery × List String
  unfolding fetch_id
  fetch_live_delivery notice seen ds =
      fetch_id notice.target_principal_id seen ds notice.notification_id

  -- `_on_notify`: only a notice to the principal gets into the queue.
  unfoldable pub is_enqueued : (principal_id : Uuid) → Option String → Bool
  is_enqueued principal_id none = false
  is_enqueued principal_id (some target) = target == show principal_id

  unfoldable pub message_of : Option NotificationDelivery → List Message
  message_of none = []
  message_of (some d) = delivered d ∷ []

  unfoldable pub live : (principal_id : Uuid) (seen : List String) → List Wake → List Message
  unfolding fetch_live_delivery is_enqueued message_of
  live principal_id seen [] = []
  live principal_id seen (timed_out ∷ wakes) = heartbeat ∷ live principal_id seen wakes
  live principal_id seen (notified notice ds ∷ wakes) =
      let ignored = live principal_id seen wakes in
      let found = fetch_live_delivery notice seen ds in
      let rest = live principal_id found.1 wakes in
      if is_enqueued principal_id notice.target_principal_id
      then message_of found.0 ++ rest
      else ignored

  -- Replay, and then the live loop.
  unfoldable pub notification_sse_generator :
      (principal_id : Uuid) (last_event_id : Option String) (ds : Deliveries)
      → List Wake
      → List Message
  unfolding live target_of list_for_principal
  notification_sse_generator principal_id last_event_id ds wakes =
      let replayed = list_for_principal principal_id true (target_of last_event_id) 50 ds in
      map delivered replayed
      ++ live principal_id (map (λ (d : NotificationDelivery). show d.id) replayed) wakes
