-- ===== src/WriteSafety/Replay.antt =====
-- `with_transient_retry` (write-safety/src/orxtra/write_safety/_replay.py). The awaited function is
-- the argument `fn`, which may answer differently on each attempt; sleeps are counted in tenths of a
-- second.
use native.Mathlib.Nat.{mul_assoc, pow-succ'}
use orxtra.Prelude.{
  ℕ, zero, suc, ◌+◌, ◌*◌, ◌^◌, ◌≤◌, ◌<◌, ◌≡◌, refl, ◌⊎◌, inl, inr, Bool, true, false, List, [], ◌∷◌,
  nat_eq, contains, if◌then◌else◌, Bool-cases, arith, subst, ap, ◌∙◌,
}

-- What one call of the function does.
pub data Attempt {ℓ} (A : Type ℓ) : Type ℓ where
  returned : A → Attempt A
  raised_os_error : (errno : ℕ) → Attempt A
  raised : Attempt A

-- EIO, EBUSY, EAGAIN, ENOSPC and ENOLCK on Linux.
abbrev pub transient_errnos : List ℕ
transient_errnos = 5 ∷ 16 ∷ 11 ∷ 28 ∷ 37 ∷ []

unfoldable pub is_transient_error : (errno : ℕ) → Bool
is_transient_error errno = contains transient_errnos errno

-- What the caller sees, the calls made, and the time slept.
pub record Retried {ℓ} (A : Type ℓ) : Type ℓ where
  pub outcome : Attempt A
  pub calls : ℕ
  pub slept : ℕ

doubled :
    (slept' slept delay p q : ℕ)
    → q ≡ 2 * p
    → slept' + delay * 2 ≡ slept + delay + delay * 2 * p
    → slept' + delay ≡ slept + delay * q
doubled slept' slept delay p q double h = rw double (rw⁻¹ (mul_assoc delay 2 p) (omega arith))

module _ {ℓ} {A : Type ℓ} where
  unfoldable pub is_retried : Attempt A → Bool
  unfolding is_transient_error
  is_retried (returned a) = false
  is_retried (raised_os_error errno) = is_transient_error errno
  is_retried raised = false

  -- The loop, with `left` retries left before attempt number `attempt`.
  unfoldable pub retry_loop : (fn : ℕ → Attempt A) (left attempt delay slept : ℕ) → Retried A
  retry_loop fn zero attempt delay slept = record {
    outcome = fn attempt;
    calls = attempt + 1;
    slept = slept;
  }
  retry_loop fn (suc left) attempt delay slept =
      let again = retry_loop fn left (attempt + 1) (delay * 2) (slept + delay) in
      if is_retried (fn attempt)
      then again
      else record { outcome = fn attempt; calls = attempt + 1; slept = slept }

  unfoldable pub with_transient_retry : (fn : ℕ → Attempt A) (max_retries : ℕ) → Retried A
  unfolding retry_loop
  with_transient_retry fn max_retries = retry_loop fn max_retries 0 1 0

  -- The run made `i` retries, from attempt number `attempt` on, of at most `left`.
  abbrev pub Retries : (ℕ → Attempt A) → (left attempt delay slept i : ℕ) → Retried A → Type ℓ
  Retries fn left attempt delay slept i r =
      (i ≤ left)
      × (r.outcome ≡ fn (attempt + i))
      × (r.calls ≡ attempt + i + 1)
      × (r.slept + delay ≡ slept + delay * 2 ^ i)
      × ((j : ℕ) → j < i → is_retried (fn (attempt + j)) ≡ true)
      × ((i ≡ left) ⊎ (is_retried (fn (attempt + i)) ≡ false))

  stops :
      (fn : ℕ → Attempt A) (left attempt delay slept : ℕ)
      → (0 ≡ left) ⊎ (is_retried (fn attempt) ≡ false)
      → Retries fn left attempt delay slept 0
          (record { outcome = fn attempt; calls = attempt + 1; slept = slept })
  stops fn left attempt delay slept why = (
    omega arith,
    ap fn (omega arith),
    omega arith,
    omega arith,
    λ j h. absurd (omega arith),
    elim why [
      | inl none_left ↦ inl none_left
      | inr not_retried ↦ inr (subst (λ m. is_retried (fn m) ≡ false) (omega arith) not_retried)
    ],
  )

  retried_from :
      (fn : ℕ → Attempt A) (attempt i : ℕ)
      → is_retried (fn attempt) ≡ true
      → ((j : ℕ) → j < i → is_retried (fn (attempt + 1 + j)) ≡ true)
      → (j : ℕ) → j < suc i
      → is_retried (fn (attempt + j)) ≡ true
  retried_from fn attempt i first later zero h =
      subst (λ m. is_retried (fn m) ≡ true) (omega arith) first
  retried_from fn attempt i first later (suc j) h =
      subst (λ m. is_retried (fn m) ≡ true) (omega arith) (later j (omega arith))

  goes_on :
      (fn : ℕ → Attempt A) (left attempt delay slept i : ℕ) (r : Retried A)
      → is_retried (fn attempt) ≡ true
      → Retries fn left (attempt + 1) (delay * 2) (slept + delay) i r
      → Retries fn (suc left) attempt delay slept (suc i) r
  goes_on fn left attempt delay slept i r again h = (
    omega arith,
    h.1 ∙ ap fn (omega arith),
    omega arith,
    doubled r.slept slept delay (2 ^ i) (2 ^ suc i) (pow-succ' 2 i) h.3,
    retried_from fn attempt i again h.4,
    elim h.5 [
      | inl none_left ↦ inl (omega arith)
      | inr not_retried ↦ inr (subst (λ m. is_retried (fn m) ≡ false) (omega arith) not_retried)
    ],
  )

  retry_loop-Retries :
      (fn : ℕ → Attempt A) (left attempt delay slept : ℕ)
      → (i : ℕ) × Retries fn left attempt delay slept i (retry_loop fn left attempt delay slept)
  unfolding retry_loop
  retry_loop-Retries fn zero attempt delay slept = (0, stops fn 0 attempt delay slept (inl refl))
  retry_loop-Retries fn (suc left) attempt delay slept =
      let rest = retry_loop-Retries fn left (attempt + 1) (delay * 2) (slept + delay) in
      elim (Bool-cases (is_retried (fn attempt))) [
        | inl again ↦ (
          suc (rest.0),
          rw again (
              goes_on fn left attempt delay slept (rest.0)
                (retry_loop fn left (attempt + 1) (delay * 2) (slept + delay)) again (rest.1)),
        )
        | inr stop ↦ (0, rw stop (stops fn (suc left) attempt delay slept (inr stop)))
      ]

-- `with_transient_retry` makes some number `i` of retries, at most `max_retries`: each of the first
-- `i` calls raised a transient error, the caller sees what the last call did, that call raised no
-- transient error unless all retries were used up, and the time slept is 2 ^ i - 1 tenths of a second.
pub with_transient_retry_lem {ℓ} :
    {A : Type ℓ} (fn : ℕ → Attempt A) (max_retries : ℕ)
    → (i : ℕ) × (i ≤ max_retries)
      × ((with_transient_retry fn max_retries).outcome ≡ fn i)
      × ((with_transient_retry fn max_retries).calls ≡ i + 1)
      × ((with_transient_retry fn max_retries).slept + 1 ≡ 2 ^ i)
      × ((j : ℕ) → j < i → is_retried (fn j) ≡ true)
      × ((i ≡ max_retries) ⊎ (is_retried (fn i) ≡ false))
unfolding with_transient_retry
with_transient_retry_lem fn max_retries =
    let run = retry_loop-Retries fn max_retries 0 1 0 in
    let h = run.1 in
    (
      run.0,
      h.0,
      h.1 ∙ ap fn (omega arith),
      omega (arith, h.2),
      omega (arith, h.3),
      λ j below. subst (λ m. is_retried (fn m) ≡ true) (omega arith) (h.4 j below),
      elim h.5 [
        | inl none_left ↦ inl none_left
        | inr not_retried ↦ inr (subst (λ m. is_retried (fn m) ≡ false) (omega arith) not_retried)
      ],
    )
