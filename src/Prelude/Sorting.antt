-- ===== src/Prelude/Sorting.antt =====
-- Python's stable `sorted(xs, key=key)`, for keys that are numbers.
use Prim.Native.Nat.{ℕ, ◌+◌, ◌≤◌, zero, suc}
use mathlib.Core.Path.{◌≡◌, refl, ap, ◌∙◌}
use mathlib.Core.Bool.{Bool}
use mathlib.Core.List.{List, [], ◌∷◌, ◌++◌}
use native.Mathlib.Omega.{arith}
use orxtra.Prelude.Tests.{leb, if◌then◌else◌}
use orxtra.Prelude.Lists.{length, count, All, take, All-take}

module _ {ℓ} {A : Type ℓ} (key : A → ℕ) where
  -- Before the first element with a key that is not smaller.
  unfoldable pub insert_by : A → List A → List A
  insert_by x [] = x ∷ []
  insert_by x (y ∷ ys) = if leb (key x) (key y) then x ∷ y ∷ ys else y ∷ insert_by x ys

  unfoldable pub sort_by : List A → List A
  unfolding insert_by
  sort_by [] = []
  sort_by (x ∷ xs) = insert_by x (sort_by xs)

  -- Each key is at most the next.
  abbrev pub IsSorted : List A → Type 0
  IsSorted [] = Unit
  IsSorted (x ∷ xs) = All (λ y. key x ≤ key y) xs × IsSorted xs

  insert-All :
      (n : ℕ) (x : A) (xs : List A)
      → n ≤ key x
      → All (λ y. n ≤ key y) xs
      → All (λ y. n ≤ key y) (insert_by x xs)
  unfolding insert_by
  insert-All n x [] h a = (h, tt)
  insert-All n x (y ∷ ys) h a = ground (arith, insert-All n x ys)

  All-weaken : (m n : ℕ) (xs : List A) → m ≤ n → All (λ y. n ≤ key y) xs → All (λ y. m ≤ key y) xs
  All-weaken m n [] h a = tt
  All-weaken m n (x ∷ xs) h a = (omega arith, All-weaken m n xs h a.1)

  insert-IsSorted : (x : A) (xs : List A) → IsSorted xs → IsSorted (insert_by x xs)
  unfolding insert_by
  insert-IsSorted x [] s = (tt, tt)
  insert-IsSorted x (y ∷ ys) s =
      ground (arith, insert-IsSorted x ys, All-weaken (key x) (key y) ys, insert-All (key y) x ys)

  pub sort_by-IsSorted : (xs : List A) → IsSorted (sort_by xs)
  unfolding sort_by
  sort_by-IsSorted [] = tt
  sort_by-IsSorted (x ∷ xs) = insert-IsSorted x (sort_by xs) (sort_by-IsSorted xs)

  insert_keeps {κ} :
      (P : A → Type κ) (x : A) (xs : List A) → P x → All P xs → All P (insert_by x xs)
  unfolding insert_by
  insert_keeps P x [] h a = (h, tt)
  insert_keeps P x (y ∷ ys) h a = ground (arith, insert_keeps P x ys)

  length-insert : (x : A) (xs : List A) → length (insert_by x xs) ≡ suc (length xs)
  unfolding insert_by
  length-insert x [] = refl
  length-insert x (y ∷ ys) = ground (arith, length-insert x ys)

  count-insert :
      (p : A → Bool) (x : A) (xs : List A)
      → count p (insert_by x xs) ≡ (if p x then 1 else 0) + count p xs
  unfolding insert_by
  count-insert p x [] = refl
  count-insert p x (y ∷ ys) = ground (arith, count-insert p x ys)

  -- Sorting keeps every element as often as it stands there.
  pub count-sort_by : (p : A → Bool) (xs : List A) → count p (sort_by xs) ≡ count p xs
  unfolding sort_by
  count-sort_by p [] = refl
  count-sort_by p (x ∷ xs) = omega (arith, count-insert p x (sort_by xs), count-sort_by p xs)

  pub sort_by-All {κ} : (P : A → Type κ) (xs : List A) → All P xs → All P (sort_by xs)
  unfolding sort_by
  sort_by-All P [] h = tt
  sort_by-All P (x ∷ xs) h = insert_keeps P x (sort_by xs) h.0 (sort_by-All P xs h.1)

  pub take-IsSorted : (n : ℕ) (xs : List A) → IsSorted xs → IsSorted (take n xs)
  take-IsSorted zero xs s = tt
  take-IsSorted (suc n) [] s = tt
  take-IsSorted (suc n) (x ∷ xs) s =
      (All-take (λ y. key x ≤ key y) n xs s.0, take-IsSorted n xs s.1)

  pub length-sort_by : (xs : List A) → length (sort_by xs) ≡ length xs
  unfolding sort_by
  length-sort_by [] = refl
  length-sort_by (x ∷ xs) = length-insert x (sort_by xs) ∙ ap suc (length-sort_by xs)

  insert_by-append :
      (x d : A) (ys : List A)
      → key x ≤ key d
      → insert_by x (ys ++ d ∷ []) ≡ insert_by x ys ++ d ∷ []
  unfolding insert_by
  insert_by-append x d [] h = ground arith
  insert_by-append x d (y ∷ ys) h = ground (arith, insert_by-append x d ys h)

  -- An element behind all others, with a key that none exceeds, stays there.
  pub sort_by-append :
      (xs : List A) (d : A)
      → All (λ x. key x ≤ key d) xs
      → sort_by (xs ++ d ∷ []) ≡ sort_by xs ++ d ∷ []
  unfolding sort_by insert_by
  sort_by-append [] d h = refl
  sort_by-append (x ∷ xs) d h =
      ap (insert_by x) (sort_by-append xs d h.1) ∙ insert_by-append x d (sort_by xs) h.0
