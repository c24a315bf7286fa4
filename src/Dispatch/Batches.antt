-- ===== src/Dispatch/Batches.antt =====
-- Proofs on the claims of `InMemoryDispatchBackend`
-- (dispatch/src/orxtra/dispatch/_memory_backend.py).
use orxtra.Prelude.{
  ℕ, ◌≤◌, ◌≡◌, refl, sym, subst, Bool, true, false, not, List, [], ◌∷◌, ◌==◌, arith, nat_eq, length,
  filter, any, All, All-filter, All-take, All-map, length-take, contains, if◌then◌else◌, Bool-cases,
  inl, inr,
}
use orxtra.Prelude.Ids.{Uuid, Time}
use orxtra.Prelude.Dict.{values, pop}
use orxtra.Prelude.Sets.{contains-filter}
use orxtra.Prelude.Sorting.{sort_by, sort_by-All}
use orxtra.Dispatch.Backend.{
  AccumulatorEntry, Backend, buffer_event, claim_all, claim_batch, is_claimable, confirm_batch,
  discard,
}

claim_all_claims :
    (es : List AccumulatorEntry) (claimed : List Uuid) (i : Uuid)
    → contains claimed i ≡ true
    → contains (claim_all es claimed) i ≡ true
unfolding claim_all
claim_all_claims [] claimed i h = h
claim_all_claims (e ∷ es) claimed i h =
    claim_all_claims es (if contains claimed e.id then claimed else e.id ∷ claimed) i (ground arith)

claimed_of :
    (es : List AccumulatorEntry) (claimed : List Uuid) (i : Uuid)
    → any (λ (e : AccumulatorEntry). e.id == i) es ≡ true
    → contains (claim_all es claimed) i ≡ true
unfolding claim_all
claimed_of [] claimed i h = cc
claimed_of (e ∷ es) claimed i h =
    let next = if contains claimed e.id then claimed else e.id ∷ claimed in
    elim (Bool-cases (e.id == i)) [
      | inl same ↦
          let p : e.id ≡ i = (nat_eq.beq_iff e.id i).0 same in
          claim_all_claims es next i (ground arith)
      | inr differ ↦ claimed_of es next i (ground arith)
    ]

unclaimed_of :
    (action_id : Uuid) (claimed : List Uuid) (es : List AccumulatorEntry) (i : Uuid)
    → contains claimed i ≡ true
    → All (λ (e : AccumulatorEntry). is_claimable action_id claimed e ≡ true) es
    → any (λ (e : AccumulatorEntry). e.id == i) es ≡ false
unclaimed_of action_id claimed [] i c h = refl
unclaimed_of action_id claimed (e ∷ es) i c h = elim (Bool-cases (e.id == i)) [
  | inl same ↦
      let p : e.id ≡ i = (nat_eq.beq_iff e.id i).0 same in
      let q : contains claimed e.id ≡ true = subst (λ x. contains claimed x ≡ true) (sym p) c in
      absurd (ground arith)
  | inr differ ↦ ground (arith, unclaimed_of action_id claimed es i c h.1)
]

-- What `claim_batch` promises of the entries that it hands out.
abbrev pub IsBatch : Uuid → ℕ → Backend → List AccumulatorEntry → Type 0
IsBatch action_id limit b batch =
    (length batch ≤ limit)
    × All (λ (e : AccumulatorEntry). is_claimable action_id b.claimed e ≡ true) batch

claim_batch-IsBatch :
    (action_id : Uuid) (limit : ℕ) (b : Backend)
    → IsBatch action_id limit b (claim_batch action_id limit b).0
unfolding claim_batch
claim_batch-IsBatch action_id limit b =
    let unclaimed = filter (is_claimable action_id b.claimed) (values b.accumulator) in
    let P : AccumulatorEntry → Type 0 = λ e. is_claimable action_id b.claimed e ≡ true in
    let age : AccumulatorEntry → Time = λ e. e.created_at in
    (
      length-take limit (sort_by age unclaimed),
      All-take P limit (sort_by age unclaimed) (
          sort_by-All age P unclaimed
            (All-filter P (is_claimable action_id b.claimed) (values b.accumulator) (λ x h. h))),
    )

-- A call on the accumulator.
pub data Call : Type 0 where
  buffers : AccumulatorEntry → Call
  claims : (action_id : Uuid) (limit : ℕ) → Call
  confirms : (entry_ids : List Uuid) → Call

abbrev pub perform : Call → Backend → Backend
perform (buffers entry) b = (buffer_event entry b).1
perform (claims action_id limit) b = (claim_batch action_id limit b).1
perform (confirms entry_ids) b = confirm_batch entry_ids b

abbrev pub perform_all : List Call → Backend → Backend
perform_all [] b = b
perform_all (call ∷ calls) b = perform_all calls (perform call b)

-- The calls that confirm the entry.
abbrev pub confirms_entry : Uuid → Call → Bool
confirms_entry i (buffers entry) = false
confirms_entry i (claims action_id limit) = false
confirms_entry i (confirms entry_ids) = contains entry_ids i

confirm_batch_claimed :
    (eids : List Uuid) (b : Backend) (i : Uuid)
    → contains eids i ≡ false
    → contains b.claimed i ≡ true
    → contains (confirm_batch eids b).claimed i ≡ true
unfolding confirm_batch discard
confirm_batch_claimed [] b i h c = c
confirm_batch_claimed (eid ∷ eids) b i h c =
    confirm_batch_claimed eids
      (record b { accumulator = pop b.accumulator eid; claimed = discard eid b.claimed }) i
      (ground arith)
      (ground (
        arith,
        contains-filter (λ x. not (x == eid)) b.claimed i,
        nat_eq.beq_iff eid i,
        nat_eq.beq_iff i eid,
      ))

perform_claimed :
    (call : Call) (b : Backend) (i : Uuid)
    → confirms_entry i call ≡ false
    → contains b.claimed i ≡ true
    → contains (perform call b).claimed i ≡ true
unfolding buffer_event claim_batch
perform_claimed (buffers entry) b i h c = c
perform_claimed (claims action_id limit) b i h c =
    claim_all_claims (claim_batch action_id limit b).0 b.claimed i c
perform_claimed (confirms entry_ids) b i h c = confirm_batch_claimed entry_ids b i h c

perform_all_claimed :
    (calls : List Call) (b : Backend) (i : Uuid)
    → any (confirms_entry i) calls ≡ false
    → contains b.claimed i ≡ true
    → contains (perform_all calls b).claimed i ≡ true
perform_all_claimed [] b i h c = c
perform_all_claimed (call ∷ calls) b i h c =
    perform_all_claimed calls (perform call b) i (ground arith)
      (perform_claimed call b i (ground arith) c)

-- An entry that a claim has handed out is not handed out again, whatever entries are buffered,
-- claimed and confirmed afterwards and whatever the action and the limit of the later claim, as long
-- as nobody confirms the entry. A batch has at most `limit` entries, all of them of the action.
pub claim_batch-exclusive :
    (action_id other_id : Uuid) (limit other_limit : ℕ) (b : Backend) (i : Uuid) (calls : List Call)
    → any (λ (e : AccumulatorEntry). e.id == i) (claim_batch action_id limit b).0 ≡ true
    → any (confirms_entry i) calls ≡ false
    → (any
          (λ (e : AccumulatorEntry). e.id == i)
          (claim_batch other_id other_limit (perform_all calls (claim_batch action_id limit b).1)).0
        ≡ false)
      × (length (claim_batch action_id limit b).0 ≤ limit)
      × All
          (λ (e : AccumulatorEntry). e.subscription_action_id ≡ action_id)
          (claim_batch action_id limit b).0
unfolding claim_batch
claim_batch-exclusive action_id other_id limit other_limit b i calls handed unconfirmed =
    let first = claim_batch action_id limit b in
    let batch = claim_batch-IsBatch action_id limit b in
    let last = perform_all calls first.1 in
    let claimed : contains last.claimed i ≡ true =
      perform_all_claimed calls first.1 i unconfirmed (claimed_of first.0 b.claimed i handed) in
    (
      unclaimed_of other_id last.claimed (claim_batch other_id other_limit last).0 i claimed
          (claim_batch-IsBatch other_id other_limit last).1,
      batch.0,
      All-map (λ (e : AccumulatorEntry). is_claimable action_id b.claimed e ≡ true)
          (λ (e : AccumulatorEntry). e.subscription_action_id ≡ action_id) first.0
          (λ e h. (nat_eq.beq_iff e.subscription_action_id action_id).0 (ground arith)) batch.1,
    )
