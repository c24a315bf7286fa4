-- ===== src/Prelude/Sets.antt =====
-- Lists without repetition: Python's sets, with the order in which they are walked.
use mathlib.Core.List.{List, [], ◌∷◌, ◌++◌}
use mathlib.Core.Path.{◌≡◌, refl}
use mathlib.Core.Logic.{inl, inr}
use mathlib.Core.Bool.{Bool, true, false, ◌||◌, ◌&&◌}
use Prim.Native.Nat.{suc, ◌≤◌}
use native.Mathlib.Omega.{arith}
use orxtra.Prelude.Tests.{Eq, ◌==◌, if◌then◌else◌, Bool-cases}
use orxtra.Prelude.Lists.{length, filter, contains}

module _ {ℓ} {A : Type ℓ} ⦃e : Eq A⦄ where
  abbrev pub Distinct : List A → Type 0
  Distinct [] = Unit
  Distinct (x ∷ xs) = (contains xs x ≡ false) × Distinct xs

  -- `set(xs)`
  unfoldable pub to_set : List A → List A
  to_set [] = []
  to_set (x ∷ xs) = let rest = to_set xs in if contains rest x then rest else x ∷ rest

  pub to_set-Distinct : (xs : List A) → Distinct (to_set xs)
  unfolding to_set
  to_set-Distinct [] = tt
  to_set-Distinct (x ∷ xs) = ground (arith, to_set-Distinct xs)

  pub contains-to_set : (xs : List A) (a : A) → contains (to_set xs) a ≡ contains xs a
  unfolding to_set
  contains-to_set [] a = refl
  contains-to_set (x ∷ xs) a =
      ground (arith, e.beq_iff x a, contains-to_set xs a, contains-to_set xs x)

  pub contains-append :
      (xs ys : List A) (a : A) → contains (xs ++ ys) a ≡ (contains xs a || contains ys a)
  contains-append [] ys a = refl
  contains-append (x ∷ xs) ys a = ground (arith, contains-append xs ys a)

  pub contains-filter :
      (p : A → Bool) (xs : List A) (a : A) → contains (filter p xs) a ≡ (p a && contains xs a)
  contains-filter p [] a = ground arith
  contains-filter p (x ∷ xs) a = elim (Bool-cases (x == a)) [
    | inl same ↦ ground (arith, contains-filter p xs a, (e.beq_iff x a).0 same)
    | inr differ ↦ ground (arith, contains-filter p xs a)
  ]

  pub filter-Distinct : (p : A → Bool) (xs : List A) → Distinct xs → Distinct (filter p xs)
  filter-Distinct p [] d = tt
  filter-Distinct p (x ∷ xs) d = ground (arith, filter-Distinct p xs d.1, contains-filter p xs x)

  pub append-Distinct :
      (xs ys : List A)
      → Distinct xs
      → Distinct ys
      → ((a : A) → contains xs a ≡ true → contains ys a ≡ false)
      → Distinct (xs ++ ys)
  append-Distinct [] ys dx dy apart = dy
  append-Distinct (x ∷ xs) ys dx dy apart =
      let rest : Distinct (xs ++ ys) =
        append-Distinct xs ys dx.1 dy (λ a h. apart a (ground arith)) in
      ground (arith, contains-append xs ys x, apart x, e.beq_iff x x)

  -- The parts of a list without repetition have no element in common.
  pub Distinct-apart :
      (xs ys : List A) (a : A) → Distinct (xs ++ ys) → contains xs a ≡ true → contains ys a ≡ false
  Distinct-apart [] ys a d h = cc
  Distinct-apart (x ∷ xs) ys a d h =
      ground (arith, e.beq_iff x a, contains-append xs ys x, Distinct-apart xs ys a d.1)

  remove : A → List A → List A
  remove a [] = []
  remove a (x ∷ xs) = if x == a then xs else x ∷ remove a xs

  length-remove :
      (a : A) (xs : List A) → contains xs a ≡ true → length xs ≡ suc (length (remove a xs))
  unfolding remove
  length-remove a [] h = cc
  length-remove a (x ∷ xs) h = ground (arith, length-remove a xs)

  contains-remove :
      (a b : A) (xs : List A)
      → (a == b) ≡ false
      → contains xs b ≡ true
      → contains (remove a xs) b ≡ true
  unfolding remove
  contains-remove a b [] n h = cc
  contains-remove a b (x ∷ xs) n h =
      ground (arith, e.beq_iff x a, e.beq_iff x b, e.beq_iff a b, contains-remove a b xs)

  not_same :
      (x a : A) (xs : List A) → contains xs x ≡ false → contains xs a ≡ true → (x == a) ≡ false
  not_same x a xs h k = ground (arith, e.beq_iff x a)

  -- A list without repetition is no longer than a list that holds its elements.
  pub Distinct-length-le :
      (xs ys : List A)
      → Distinct xs
      → ((a : A) → contains xs a ≡ true → contains ys a ≡ true)
      → length xs ≤ length ys
  Distinct-length-le [] ys d sub = omega arith
  Distinct-length-le (x ∷ xs) ys d sub =
      let here : contains ys x ≡ true = sub x (ground (arith, e.beq_iff x x)) in
      let rest : length xs ≤ length (remove x ys) =
        Distinct-length-le xs (remove x ys) d.1
          (λ a h. contains-remove x a ys (not_same x a xs d.0 h) (sub a (ground arith))) in
      omega (arith, length-remove x ys here)

  -- Of equal lengths, they hold the same elements.
  pub Distinct-covers :
      (xs ys : List A) (b : A)
      → Distinct xs
      → ((a : A) → contains xs a ≡ true → contains ys a ≡ true)
      → length xs ≡ length ys
      → contains ys b ≡ true
      → contains xs b ≡ true
  Distinct-covers xs ys b d sub same h = elim (Bool-cases (contains xs b)) [
    | inl found ↦ found
    | inr absent ↦
        let longer : length (b ∷ xs) ≤ length ys =
          Distinct-length-le (b ∷ xs) ys (absent, d)
            (λ a k. ground (arith, e.beq_iff b a, sub a)) in
        absurd (omega arith)
  ]
