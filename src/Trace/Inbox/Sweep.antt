-- ===== src/Trace/Inbox/Sweep.antt =====
-- Proofs on `expire_due_inbox_items` (trace/src/orxtra/trace/_memory_backend.py).
use mathlib.Core.Option
use orxtra.Prelude.{
  ◌≡◌, ◌≢◌, refl, sym, ◌∙◌, ap, subst, ◌+◌, ◌≤◌, ◌<◌, true, false, Option, none, some, [], ◌∷◌,
  arith, nat_eq, ltb, count, Bool-cases, inl, inr,
}
use orxtra.Prelude.Dict.{Dict, get, values, map_values, get-map_values}
use orxtra.Trace.Rows.{
  Uuid, Time, InboxItem, InboxStatus, pending, answered, skipped, rejected, expired,
}
use orxtra.Trace.Store.{Store, inmemory_system_principal_id}
use orxtra.Trace.Inbox.{is_pending, is_due, expire_if_due, sweep, expire_due_inbox_items}

pub sweep_items :
    (now : Time) (items : Dict Uuid InboxItem)
    → (sweep now items).0 ≡ map_values (expire_if_due now) items
unfolding sweep map_values
sweep_items now [] = refl
sweep_items now ((id, item) ∷ items) = ground (arith, sweep_items now items)

sweep_none_left :
    (now : Time) (items : Dict Uuid InboxItem)
    → sweep now (sweep now items).0 ≡ ((sweep now items).0, 0)
unfolding sweep
sweep_none_left now [] = refl
sweep_none_left now ((id, item) ∷ items) = ground (arith, sweep_none_left now items)

-- What a sweep at `now` makes of an item.
pub data Expiry (now : Time) (item : InboxItem) : InboxItem → Type 0 where
  expires :
      (deadline : Time)
      → item.status ≡ pending
      → item.deadline ≡ some deadline
      → deadline < now
      → Expiry now item
          (record item { status = expired; resolved_by = some inmemory_system_principal_id })
  settled : item.status ≢ pending → Expiry now item item
  open_ended : item.deadline ≡ none → Expiry now item item
  in_time :
      (deadline : Time) → item.deadline ≡ some deadline → now ≤ deadline → Expiry now item item

expired_item :
    (now t : Time) (item : InboxItem)
    → item.status ≡ pending
    → item.deadline ≡ some t
    → ltb t now ≡ true
    → expire_if_due now item
      ≡ record item { status = expired; resolved_by = some inmemory_system_principal_id }
expired_item now t item e f early = rw (e, f, early) refl

kept_item :
    (now : Time) (item : InboxItem) → is_due now item ≡ false → expire_if_due now item ≡ item
kept_item now item h = rw h refl

Expiry-of :
    (now : Time) (item : InboxItem) (status : InboxStatus) (deadline : Option Time)
    → item.status ≡ status
    → item.deadline ≡ deadline
    → Expiry now item (expire_if_due now item)
Expiry-of now item pending (some t) e f = elim (Bool-cases (ltb t now)) [
  | inl early ↦
      subst (Expiry now item) (sym (expired_item now t item e f early))
        (expires t e f (ground arith))
  | inr later ↦
      subst (Expiry now item) (sym (kept_item now item (rw (e, f, later) refl)))
        (in_time t f (ground arith))
]
Expiry-of now item pending none e f =
    subst (Expiry now item) (sym (kept_item now item (rw (e, f) refl))) (open_ended f)
Expiry-of now item answered d e f =
    subst (Expiry now item) (sym (kept_item now item (rw e refl))) (settled (λ p. cc))
Expiry-of now item skipped d e f =
    subst (Expiry now item) (sym (kept_item now item (rw e refl))) (settled (λ p. cc))
Expiry-of now item rejected d e f =
    subst (Expiry now item) (sym (kept_item now item (rw e refl))) (settled (λ p. cc))
Expiry-of now item expired d e f =
    subst (Expiry now item) (sym (kept_item now item (rw e refl))) (settled (λ p. cc))

sweep-pending :
    (now : Time) (items : Dict Uuid InboxItem)
    → count is_pending (values items)
      ≡ (sweep now items).1 + count is_pending (values (sweep now items).0)
unfolding sweep
sweep-pending now [] = refl
sweep-pending now ((id, item) ∷ items) = ground (arith, sweep-pending now items)

-- After a sweep each item is what its status and its deadline make of it: it is expired by the
-- backend where it was pending and its deadline lies before `now`, and unchanged otherwise. The
-- number of pending items falls by the number that the sweep returns, and a second sweep at the same
-- time returns 0 and changes nothing.
pub expire_due_inbox_items_lem :
    (now : Time) (s : Store) (i : Uuid) (item : InboxItem)
    → get s.inbox_items i ≡ some item
    → ((swept : InboxItem) × (get (expire_due_inbox_items now s).1.inbox_items i ≡ some swept)
        × Expiry now item swept)
      × (count is_pending (values s.inbox_items)
          ≡ (expire_due_inbox_items now s).0
            + count is_pending (values (expire_due_inbox_items now s).1.inbox_items))
      × (expire_due_inbox_items now (expire_due_inbox_items now s).1
          ≡ (0, (expire_due_inbox_items now s).1))
unfolding expire_due_inbox_items
expire_due_inbox_items_lem now s i item found = (
  (
    expire_if_due now item,
    ap (λ d. get d i) (sweep_items now s.inbox_items)
        ∙ get-map_values (expire_if_due now) s.inbox_items i
        ∙ ap (Option.map (expire_if_due now)) found,
    Expiry-of now item item.status item.deadline refl refl,
  ),
  sweep-pending now s.inbox_items,
  rw (sweep_none_left now s.inbox_items),
)
