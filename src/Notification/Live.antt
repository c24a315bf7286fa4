-- ===== src/Notification/Live.antt =====
-- Which live deliveries reach the stream (notification/src/orxtra/notification/_stream.py).
use mathlib.Core.Option.{some-injective}
use orxtra.Prelude.{
  ◌≡◌, ◌≢◌, refl, sym, ◌∙◌, ap, ℕ, ◌+◌, ◌≤◌, ◌<◌, String, Bool, true, false, Option, none, some,
  List, [], ◌∷◌, ◌++◌, ◌==◌, nat_eq, string_eq, ltb, find, count, contains, All, All-map,
  if◌then◌else◌, Bool-cases, inl, inr, arith,
}
use orxtra.Prelude.Ids.{Uuid, Time}
use orxtra.Prelude.Json.{Json}
use orxtra.Prelude.Dict.{has, put, values}
use orxtra.Prelude.Sorting.{sort_by, sort_by-append, count-sort_by, sort_by-All}
use orxtra.Notification.Backend.{
  NotificationDelivery, Deliveries, new_delivery, create_delivery, is_behind, is_listed, collect,
  list_for_principal,
}
use orxtra.Notification.Stream.{sent_of, look_up, target_of, fetch_id, fetch_live_delivery}

values-put_new :
    (ds : Deliveries) (k : Uuid) (v : NotificationDelivery)
    → has ds k ≡ false
    → values (put ds k v) ≡ values ds ++ v ∷ []
unfolding has put
values-put_new [] k v h = refl
values-put_new ((i, w) ∷ ds) k v h = ground (arith, values-put_new ds k v)

module _ (p : NotificationDelivery → Bool) where
  collect-append :
      (limit found : ℕ) (xs : List NotificationDelivery) (d : NotificationDelivery)
      → p d ≡ true
      → found < limit
      → collect p limit found (xs ++ d ∷ [])
        ≡ collect p limit found xs ++ (if ltb (found + count p xs) limit then d ∷ [] else [])
  unfolding collect
  collect-append limit found [] d h lt = ground arith
  collect-append limit found (x ∷ xs) d h lt =
      ground (arith, collect-append limit found xs d h, collect-append limit (found + 1) xs d h)

  collect-All {κ} :
      (P : NotificationDelivery → Type κ) (limit found : ℕ) (xs : List NotificationDelivery)
      → All P xs
      → All P (collect p limit found xs)
  unfolding collect
  collect-All P limit found [] h = tt
  collect-All P limit found (x ∷ xs) h =
      ground (arith, collect-All P limit found xs h.1, collect-All P limit (found + 1) xs h.1)

find-append :
    (q : NotificationDelivery → Bool) (xs ys : List NotificationDelivery)
    → All (λ x. q x ≡ false) xs
    → find q (xs ++ ys) ≡ find q ys
find-append q [] ys h = refl
find-append q (x ∷ xs) ys h = ground (arith, find-append q xs ys h.1)

-- A delivery to the principal, whether or not it was acknowledged.
abbrev pub is_to : Uuid → NotificationDelivery → Bool
is_to target d = d.target_principal_id == target

is_listed_any :
    (target : Uuid) (d : NotificationDelivery) → is_listed target false none d ≡ is_to target d
unfolding is_listed is_behind
is_listed_any target d = ground arith

count-is_listed :
    (target : Uuid) (xs : List NotificationDelivery)
    → count (is_listed target false none) xs ≡ count (is_to target) xs
count-is_listed target [] = refl
count-is_listed target (x ∷ xs) = ground (arith, is_listed_any target x, count-is_listed target xs)

abbrev key : NotificationDelivery → Time
key d = d.created_at

module _ (show : Uuid → String) (parse : String → Option Uuid)
    (parse-show : (u : Uuid) → parse (show u) ≡ some u) where
  show_differs : (a b : Uuid) → a ≢ b → (show a == show b) ≡ false
  show_differs a b h = elim (Bool-cases (show a == show b)) [
    | inr differ ↦ differ
    | inl same ↦
        let e : show a ≡ show b = (string_eq.beq_iff (show a) (show b)).0 same in
        absurd (h (some-injective a b (sym (parse-show a) ∙ ap parse e ∙ parse-show b)))
  ]

  -- The list in which the loop looks for a delivery that was created last.
  list_behind :
      (ds : Deliveries) (d : NotificationDelivery)
      → has ds d.id ≡ false
      → All (λ x. x.created_at ≤ d.created_at) (values ds)
      → list_for_principal d.target_principal_id false none 50 (put ds d.id d)
        ≡ list_for_principal d.target_principal_id false none 50 ds
          ++ (if ltb (count (is_to d.target_principal_id) (values ds)) 50 then d ∷ [] else [])
  unfolding list_for_principal
  list_behind ds d fresh last =
      let p = is_listed d.target_principal_id false none in
      let sorted = sort_by key (values ds) in
      let counted : count p sorted ≡ count (is_to d.target_principal_id) (values ds) =
        count-sort_by key p (values ds) ∙ count-is_listed d.target_principal_id (values ds) in
      let moved : sort_by key (values (put ds d.id d)) ≡ sorted ++ d ∷ [] =
        ap (sort_by key) (values-put_new ds d.id d fresh) ∙ sort_by-append key (values ds) d last in
      let itself : p d ≡ true =
        is_listed_any d.target_principal_id d
        ∙ (nat_eq.beq_iff d.target_principal_id d.target_principal_id).1 refl in
      ap (collect p 50 0) moved
      ∙ collect-append p 50 0 sorted d itself (omega arith)
      ∙ rw counted (ground arith)

  others_differ :
      (i : Uuid) (xs : List NotificationDelivery)
      → All (λ x. x.id ≢ i) xs
      → All (λ x. (show x.id == show i) ≡ false) xs
  others_differ i xs h =
      All-map (λ x. x.id ≢ i) (λ x. (show x.id == show i) ≡ false) xs (λ x. show_differs x.id i) h

  at_the_end :
      (c : Bool) (seen : List String) (d : NotificationDelivery)
      → sent_of show parse seen (find (λ x. show x.id == show d.id) (if c then d ∷ [] else []))
        ≡ (if c then (some d, show d.id ∷ seen) else (none, seen))
  unfolding sent_of
  at_the_end true seen d = ground (arith, string_eq.beq_iff (show d.id) (show d.id))
  at_the_end false seen d = refl

  unsent :
      (target i : Uuid) (ds : Deliveries)
      → All (λ x. x.id ≢ i) (values ds)
      → All (λ x. (show x.id == show i) ≡ false) (list_for_principal target false none 50 ds)
  unfolding list_for_principal
  unsent target i ds h =
      collect-All (is_listed target false none) (λ x. (show x.id == show i) ≡ false) 50 0
        (sort_by key (values ds))
        (sort_by-All key (λ x. (show x.id == show i) ≡ false) (values ds)
          (others_differ i (values ds) h))

  fetch_behind :
      (ds : Deliveries) (d : NotificationDelivery) (seen : List String)
      → has ds d.id ≡ false
      → All (λ x. x.id ≢ d.id) (values ds)
      → All (λ x. x.created_at ≤ d.created_at) (values ds)
      → contains seen (show d.id) ≡ false
      → fetch_live_delivery show parse
          (record {
            notification_id = some (show d.id);
            target_principal_id = some (show d.target_principal_id);
          })
          seen
          (put ds d.id d)
        ≡ (if ltb (count (is_to d.target_principal_id) (values ds)) 50
            then (some d, show d.id ∷ seen)
            else (none, seen))
  unfolding fetch_live_delivery fetch_id target_of look_up
  fetch_behind ds d seen fresh new last unseen =
      let few = ltb (count (is_to d.target_principal_id) (values ds)) 50 in
      let old = list_for_principal d.target_principal_id false none 50 ds in
      let apart : All (λ x. (show x.id == show d.id) ≡ false) old =
        unsent d.target_principal_id d.id ds new in
      rw (unseen, parse-show d.id, parse-show d.target_principal_id, look_up)
        (rw (list_behind ds d fresh last) (
          rw (find-append (λ x. show x.id == show d.id) old (if few then d ∷ [] else []) apart)
            (at_the_end few seen d)))

  -- Where the NOTIFY of a delivery is handled right after the delivery was created, not before any
  -- stored one and under a new id that was not sent yet, the live loop finds the delivery exactly
  -- where fewer than fifty deliveries to its principal were stored before, acknowledged ones
  -- included; from the fiftieth on, it sends nothing and the delivery is lost to the stream.
  pub fetch_live_delivery_lem :
      (ds : Deliveries) (i : Uuid) (now : Time) (target : Uuid) (source_ref : String)
      (payload : Json) (seen : List String)
      → has ds i ≡ false
      → All (λ x. x.id ≢ i) (values ds)
      → All (λ x. x.created_at ≤ now) (values ds)
      → contains seen (show i) ≡ false
      → fetch_live_delivery show parse
          (record { notification_id = some (show i); target_principal_id = some (show target) })
          seen
          (create_delivery i now target source_ref payload ds).1
        ≡ (if ltb (count (is_to target) (values ds)) 50
            then (some (new_delivery i now target source_ref payload), show i ∷ seen)
            else (none, seen))
  unfolding create_delivery
  fetch_live_delivery_lem ds i now target source_ref payload seen fresh new last unseen =
      fetch_behind ds (new_delivery i now target source_ref payload) seen fresh new last unseen
