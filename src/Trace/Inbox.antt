-- ===== src/Trace/Inbox.antt =====
-- `InMemoryBackend`: the methods of InboxStorage. Two strings for a status meet only in tests
-- against the five words that the backend itself writes.
pub mod Sweep
use orxtra.Prelude.{
  ℕ, ◌+◌, String, Bool, true, false, ◌&&◌, Option, none, some, List, [], ◌∷◌, nat_eq, ltb,
  if◌then◌else◌, Result, ok, err, invalid_transition,
}
use orxtra.Prelude.Json.{Json}
use orxtra.Prelude.Dict.{Dict, get, put, map_values, values}
use orxtra.Trace.Rows.{
  Uuid, Time, InboxItem, InboxStatus, pending, answered, skipped, rejected, expired,
}
use orxtra.Trace.Store.{Store, Method, inmemory_system_principal_id}

abbrev or_nil {ℓ} : {A : Type ℓ} → Option (List A) → List A
or_nil none = []
or_nil (some xs) = xs

abbrev pub new_inbox_item :
    (fresh : Uuid) (now : Time) (run_id : Uuid) (decision_type question : String)
    (options : List Json) (assumed_option work_proceeding contradiction_impact : Option String)
    (tags : Option (List String)) (deadline : Option Time) (answer_event : Option String)
    → InboxItem
new_inbox_item fresh now run_id decision_type question options assumed_option work_proceeding
      contradiction_impact tags deadline answer_event =
    record {
      id = fresh;
      run_id = run_id;
      status = pending;
      decision_type = decision_type;
      question = question;
      options = options;
      assumed_option = assumed_option;
      work_proceeding = work_proceeding;
      contradiction_impact = contradiction_impact;
      tags = or_nil tags;
      deadline = deadline;
      answer = none;
      answer_event = answer_event;
      rejection_reason = none;
      answered_at = none;
      resolved_by = none;
      created_at = now;
    }

unfoldable pub create_inbox_item :
    (fresh : Uuid) (now : Time) (run_id : Uuid) (decision_type question : String)
    (options : List Json) (assumed_option work_proceeding contradiction_impact : Option String)
    (tags : Option (List String)) (deadline : Option Time) (answer_event : Option String)
    → Store
    → Uuid × Store
create_inbox_item fresh now run_id decision_type question options assumed_option work_proceeding
      contradiction_impact tags deadline answer_event s =
    (
      fresh,
      record s {
        inbox_items = put s.inbox_items fresh (
            new_inbox_item fresh now run_id decision_type question options assumed_option
              work_proceeding contradiction_impact tags deadline answer_event);
      },
    )

abbrev pub is_pending : InboxItem → Bool
is_pending item = elim item.status [ pending ↦ true | _ ↦ false ]

unfoldable pub answer_inbox_item :
    (now : Time) (item_id : Uuid) (answer : String) (resolved_by : Uuid) → Method (Unit {0})
answer_inbox_item now item_id answer resolved_by s = elim (get s.inbox_items item_id) [
  | none ↦ (err invalid_transition, s)
  | some item ↦
      if is_pending item
      then (
        ok tt,
        record s {
          inbox_items = put s.inbox_items item_id (record item {
            status = answered;
            answer = some answer;
            answered_at = some now;
            resolved_by = some resolved_by;
          });
        },
      )
      else (err invalid_transition, s)
]

unfoldable pub skip_inbox_item : (item_id : Uuid) (resolved_by : Uuid) → Method (Unit {0})
skip_inbox_item item_id resolved_by s = elim (get s.inbox_items item_id) [
  | none ↦ (err invalid_transition, s)
  | some item ↦
      if is_pending item
      then (
        ok tt,
        record s {
          inbox_items =
              put s.inbox_items item_id
                (record item { status = skipped; resolved_by = some resolved_by });
        },
      )
      else (err invalid_transition, s)
]

unfoldable pub reject_inbox_item :
    (item_id : Uuid) (reason : String) (resolved_by : Uuid) → Method (Unit {0})
reject_inbox_item item_id reason resolved_by s = elim (get s.inbox_items item_id) [
  | none ↦ (err invalid_transition, s)
  | some item ↦
      if is_pending item
      then (
        ok tt,
        record s {
          inbox_items = put s.inbox_items item_id (record item {
            status = rejected;
            rejection_reason = some reason;
            resolved_by = some resolved_by;
          });
        },
      )
      else (err invalid_transition, s)
]

unfoldable pub expire_inbox_item : (item_id : Uuid) (resolved_by : Uuid) → Method (Unit {0})
expire_inbox_item item_id resolved_by s = elim (get s.inbox_items item_id) [
  | none ↦ (err invalid_transition, s)
  | some item ↦
      if is_pending item
      then (
        ok tt,
        record s {
          inbox_items =
              put s.inbox_items item_id
                (record item { status = expired; resolved_by = some resolved_by });
        },
      )
      else (err invalid_transition, s)
]

-- The three tests of the sweep.
abbrev pub is_due : Time → InboxItem → Bool
is_due now item = is_pending item && elim item.deadline [ none ↦ false | some t ↦ ltb t now ]

abbrev pub expire_if_due : Time → InboxItem → InboxItem
expire_if_due now item =
    if is_due now item
    then record item { status = expired; resolved_by = some inmemory_system_principal_id }
    else item

-- The loop over `values()`: the items after it and the number of those that it expired.
unfoldable pub sweep : Time → Dict Uuid InboxItem → Dict Uuid InboxItem × ℕ
sweep now [] = ([], 0)
sweep now ((id, item) ∷ items) =
    let (rest, n) = sweep now items in
    ((id, expire_if_due now item) ∷ rest, if is_due now item then n + 1 else n)

unfoldable pub expire_due_inbox_items : (now : Time) → Store → ℕ × Store
unfolding sweep
expire_due_inbox_items now s =
    let (items, n) = sweep now s.inbox_items in (n, record s { inbox_items = items })
