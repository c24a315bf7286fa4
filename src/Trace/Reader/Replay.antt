-- ===== src/Trace/Reader/Replay.antt =====
-- Proofs on `query_events` and `replay` (trace/src/orxtra/trace/_memory_backend.py).
use orxtra.Prelude.{
  ℕ, zero, suc, ◌+◌, ◌≤◌, ◌<◌, ◌≡◌, refl, sym, ap, subst, ◌∙◌, Bool, true, ◌&&◌, Option, none, some,
  String, List, [], ◌∷◌, ◌==◌, nat_eq, string_eq, arith, take, length, filter, count, contains,
  matches_option, ltb, All, All-filter, filter-All, All-take, All-map, length-take, take-all,
  count-filter, length-filter, Bool-cases, ◌⊎◌, inl, inr,
}
use orxtra.Prelude.Sorting.{
  sort_by, IsSorted, sort_by-IsSorted, sort_by-All, take-IsSorted, count-sort_by, length-sort_by,
}
use orxtra.Trace.Rows.{Uuid, Time, Event}
use orxtra.Trace.Store.{Store}
use orxtra.Trace.Reader.History.{is_queried, query_loop, query_events, is_replayed, replay}

query_loop-take :
    (p : Event → Bool) (limit k n : ℕ) (evs : List Event)
    → limit ≡ n + suc k
    → query_loop p limit n evs ≡ take (suc k) (filter p evs)
unfolding query_loop
query_loop-take p limit k n [] h = refl
query_loop-take p limit zero n (ev ∷ evs) h = ground (arith, query_loop-take p limit zero n evs h)
query_loop-take p limit (suc k) n (ev ∷ evs) h =
    let rest : query_loop p limit (n + 1) evs ≡ take (suc k) (filter p evs) =
      query_loop-take p limit k (n + 1) evs (omega arith) in
    ground (arith, query_loop-take p limit (suc k) n evs h)

-- With a positive limit, `query_events` returns the first `limit` events of the log, in its order,
-- that are of the run, of the type when one is given, and not older than `since` when that is given.
query_events_lem :
    (run_id : Uuid) (event_type : Option String) (since : Option Time) (limit : ℕ) (s : Store)
    → 1 ≤ limit
    → query_events run_id event_type since limit s
      ≡ take limit (filter (is_queried run_id event_type since) s.events)
unfolding query_events
query_events_lem run_id event_type since zero s pos = absurd (omega arith)
query_events_lem run_id event_type since (suc k) s pos =
    query_loop-take (is_queried run_id event_type since) (suc k) k 0 s.events (omega arith)

-- The filters of a replay, where they are given: the types, the principal, and the id behind which
-- the replay starts.
abbrev HasType : Option (List String) → Event → Type 0
HasType none ev = Unit
HasType (some types) ev = contains types ev.event_type ≡ true

abbrev HasPrincipal : Option Uuid → Event → Type 0
HasPrincipal none ev = Unit
HasPrincipal (some principal) ev = ev.principal_id ≡ principal

abbrev IsBehind : Option Uuid → Event → Type 0
IsBehind none ev = Unit
IsBehind (some i) ev = i < ev.id

pub record IsWanted (event_types : Option (List String)) (principal_id since_id : Option Uuid)
    (ev : Event) : Type 0 where
  pub typed : HasType event_types ev
  pub owned : HasPrincipal principal_id ev
  pub later : IsBehind since_id ev

abbrev pub has_id : Uuid → Event → Bool
has_id i ev = ev.id == i

-- The event stands in the list.
abbrev pub Occurs : Event → List Event → Type 0
Occurs ev [] = ⊥
Occurs ev (x ∷ xs) = (x ≡ ev) ⊎ Occurs ev xs

typed_lem :
    (o : Option (List String)) (ev : Event)
    → matches_option (λ types. contains types ev.event_type) o ≡ true
    → HasType o ev
typed_lem none ev h = tt
typed_lem (some types) ev h = h

owned_lem :
    (o : Option Uuid) (ev : Event)
    → matches_option (λ p. ev.principal_id == p) o ≡ true
    → HasPrincipal o ev
owned_lem none ev h = tt
owned_lem (some p) ev h = (nat_eq.beq_iff ev.principal_id p).0 h

later_lem :
    (o : Option Uuid) (ev : Event) → matches_option (λ i. ltb i ev.id) o ≡ true → IsBehind o ev
later_lem none ev h = tt
later_lem (some i) ev h = ground arith

typed_true :
    (o : Option (List String)) (ev : Event)
    → HasType o ev
    → matches_option (λ types. contains types ev.event_type) o ≡ true
typed_true none ev h = refl
typed_true (some types) ev h = h

owned_true :
    (o : Option Uuid) (ev : Event)
    → HasPrincipal o ev
    → matches_option (λ p. ev.principal_id == p) o ≡ true
owned_true none ev h = refl
owned_true (some p) ev h = (nat_eq.beq_iff ev.principal_id p).1 h

later_true :
    (o : Option Uuid) (ev : Event) → IsBehind o ev → matches_option (λ i. ltb i ev.id) o ≡ true
later_true none ev h = refl
later_true (some i) ev h = ground arith

module _ (event_types : Option (List String)) (principal_id since_id : Option Uuid) where
  replayed-IsWanted :
      (ev : Event)
      → is_replayed event_types principal_id since_id ev ≡ true
      → IsWanted event_types principal_id since_id ev
  replayed-IsWanted ev h = record {
    typed = typed_lem event_types ev (ground arith);
    owned = owned_lem principal_id ev (ground arith);
    later = later_lem since_id ev (ground arith);
  }

  wanted_replayed :
      (ev : Event)
      → IsWanted event_types principal_id since_id ev
      → is_replayed event_types principal_id since_id ev ≡ true
  wanted_replayed ev w =
      rw (typed_true event_types ev w.typed)
        (rw (owned_true principal_id ev w.owned) (later_true since_id ev w.later))

All-Occurs : (xs : List Event) → All (λ (ev : Event). Occurs ev xs) xs
All-Occurs [] = tt
All-Occurs (x ∷ xs) = (
  inl refl,
  All-map (λ (ev : Event). Occurs ev xs) (λ (ev : Event). Occurs ev (x ∷ xs)) xs (λ ev o. inr o)
      (All-Occurs xs),
)

Occurs-filter :
    (q : Event → Bool) (ev : Event) (xs : List Event)
    → Occurs ev xs
    → q ev ≡ true
    → 1 ≤ count (has_id ev.id) (filter q xs)
Occurs-filter q ev [] o h = absurd o
Occurs-filter q ev (x ∷ xs) (inl same) h =
    let p : x.id ≡ ev.id = ap (λ (y : Event). y.id) same in
    let k : q x ≡ true = ap q same ∙ h in ground (arith, nat_eq.beq_iff x.id ev.id)
Occurs-filter q ev (x ∷ xs) (inr rest) h = ground (arith, Occurs-filter q ev xs rest h)

least_le :
    (m i : ℕ) (xs : List Event)
    → All (λ (ev : Event). m ≤ ev.id) xs
    → 1 ≤ count (has_id i) xs
    → m ≤ i
least_le m i [] a h = absurd (omega arith)
least_le m i (x ∷ xs) a h = elim (Bool-cases (x.id == i)) [
  | inl same ↦ let p : x.id ≡ i = (nat_eq.beq_iff x.id i).0 same in omega (arith, a.0)
  | inr differ ↦ least_le m i xs a.1 (ground arith)
]

-- In a sorted list an element that `take` leaves out stands behind all those that it takes.
taken_or_behind :
    (n : ℕ) (i : Uuid) (xs : List Event)
    → IsSorted (λ (ev : Event). ev.id) xs
    → 1 ≤ count (has_id i) xs
    → (1 ≤ count (has_id i) (take n xs))
      ⊎ ((length (take n xs) ≡ n) × All (λ (ev : Event). ev.id ≤ i) (take n xs))
taken_or_behind n i [] s h = absurd (omega arith)
taken_or_behind zero i (x ∷ xs) s h = inr (refl, tt)
taken_or_behind (suc n) i (x ∷ xs) s h = elim (Bool-cases (x.id == i)) [
  | inl same ↦ inl (ground arith)
  | inr differ ↦
      let rest : 1 ≤ count (has_id i) xs = ground arith in
      elim (taken_or_behind n i xs s.1 rest) [
        | inl taken ↦ inl (ground arith)
        | inr (full, behind) ↦ inr (ap suc full, (least_le x.id i xs s.0 rest, behind))
      ]
]

pub replay_lem :
    (event_types : Option (List String)) (principal_id since_id : Option Uuid) (limit : ℕ)
    (s : Store) (ev : Event)
    → Occurs ev s.events
    → IsWanted event_types principal_id since_id ev
    → (length (replay event_types principal_id since_id limit s) ≤ limit)
      × IsSorted (λ (x : Event). x.id) (replay event_types principal_id since_id limit s)
      × All
          (IsWanted event_types principal_id since_id)
          (replay event_types principal_id since_id limit s)
      × All (λ (x : Event). Occurs x s.events) (replay event_types principal_id since_id limit s)
      × ((1 ≤ count (has_id ev.id) (replay event_types principal_id since_id limit s))
          ⊎ ((length (replay event_types principal_id since_id limit s) ≡ limit)
              × All
                  (λ (x : Event). x.id ≤ ev.id)
                  (replay event_types principal_id since_id limit s)))
unfolding replay
replay_lem event_types principal_id since_id limit s ev stands wanted =
    let key : Event → Uuid = λ x. x.id in
    let q = is_replayed event_types principal_id since_id in
    let passed = filter q s.events in
    let P : Event → Type 0 = IsWanted event_types principal_id since_id in
    let w = wanted_replayed event_types principal_id since_id ev wanted in
    (
      length-take limit (sort_by key passed),
      take-IsSorted key limit (sort_by key passed) (sort_by-IsSorted key passed),
      All-take P limit (sort_by key passed) (
          sort_by-All key P passed
            (All-filter P q s.events (replayed-IsWanted event_types principal_id since_id))),
      All-take (λ x. Occurs x s.events) limit (sort_by key passed)
          (sort_by-All key (λ x. Occurs x s.events) passed
            (filter-All (λ x. Occurs x s.events) q s.events (All-Occurs s.events))),
      taken_or_behind limit ev.id (sort_by key passed) (sort_by-IsSorted key passed) (
          subst (λ n. 1 ≤ n) (sym (count-sort_by key (has_id ev.id) passed))
            (Occurs-filter q ev s.events stands w)),
    )

-- When no more events than `limit` pass the filters, a replay returns each of them as often as the
-- log holds it, and nothing else.
replay_complete :
    (event_types : Option (List String)) (principal_id since_id : Option Uuid) (limit : ℕ)
    (s : Store) (p : Event → Bool)
    → count (is_replayed event_types principal_id since_id) s.events ≤ limit
    → count p (replay event_types principal_id since_id limit s)
      ≡ count (λ ev. is_replayed event_types principal_id since_id ev && p ev) s.events
unfolding replay
replay_complete event_types principal_id since_id limit s p room =
    let key : Event → Uuid = λ ev. ev.id in
    let q = is_replayed event_types principal_id since_id in
    let passed = filter q s.events in
    ap (count p) (
      take-all limit (sort_by key passed)
        (omega (arith, length-sort_by key passed, length-filter q s.events)))
    ∙ count-sort_by key p passed
    ∙ count-filter p q s.events
