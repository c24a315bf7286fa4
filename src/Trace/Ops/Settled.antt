-- ===== src/Trace/Ops/Settled.antt =====
-- Proofs on the items of the inbox under sequences of calls
-- (trace/src/orxtra/trace/_memory_backend.py).
use mathlib.Core.Option
use orxtra.Prelude.{◌≡◌, false, some, List, [], ◌∷◌, arith, nat_eq}
use orxtra.Prelude.Dict.{get, has, get-put, has-eq_get, get-map_values}
use orxtra.Trace.Rows.{Uuid, InboxItem}
use orxtra.Trace.Store.{Store}
use orxtra.Trace.Inbox.{is_pending, new_inbox_item, expire_if_due}
use orxtra.Trace.Inbox.Sweep.{sweep_items}
use orxtra.Trace.Ops.{Op, step, steps}

-- A new item's id is new.
abbrev pub NewItem : Op → Store → Type 0
NewItem (Op.create_inbox_item fresh now a b c d e f g h i j) s = has s.inbox_items fresh ≡ false
NewItem _ s = Unit

abbrev pub AllNewItems : List Op → Store → Type 0
AllNewItems [] s = Unit
AllNewItems (op ∷ ops) s = NewItem op s × AllNewItems ops (step op s)

step_settled :
    (op : Op) (s : Store) (i : Uuid) (item : InboxItem)
    → NewItem op s
    → get s.inbox_items i ≡ some item
    → is_pending item ≡ false
    → get (step op s).inbox_items i ≡ some item
unfolding step
step_settled (Op.create_inbox_item fresh now a b c d e f g h j k) s i item fresh_id found done =
    ground (
      arith,
      has-eq_get s.inbox_items i item,
      get-put s.inbox_items fresh i (new_inbox_item fresh now a b c d e f g h j k),
    )
step_settled (Op.answer_inbox_item now j answer by) s i item a found done = grind (arith, get-put)
step_settled (Op.skip_inbox_item j by) s i item a found done = grind (arith, get-put)
step_settled (Op.reject_inbox_item j reason by) s i item a found done = grind (arith, get-put)
step_settled (Op.expire_inbox_item j by) s i item a found done = grind (arith, get-put)
step_settled (Op.expire_due_inbox_items now) s i item a found done =
    rw (sweep_items now s.inbox_items)
      (rw (get-map_values (expire_if_due now) s.inbox_items i) (rw (found, Option.map) (rw done)))
step_settled _ s i item a found done = ground arith

-- An inbox item that is answered, skipped, rejected or expired is never changed or removed again by
-- any calls of the backend, as long as each new item is given an id that no item has.
pub steps-keep_settled_items :
    (ops : List Op) (s : Store) (i : Uuid) (item : InboxItem)
    → AllNewItems ops s
    → get s.inbox_items i ≡ some item
    → is_pending item ≡ false
    → get (steps ops s).inbox_items i ≡ some item
unfolding steps
steps-keep_settled_items [] s i item a found done = found
steps-keep_settled_items (op ∷ ops) s i item a found done =
    steps-keep_settled_items ops (step op s) i item a.1 (step_settled op s i item a.0 found done)
      done
