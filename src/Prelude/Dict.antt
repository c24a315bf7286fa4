-- ===== src/Prelude/Dict.antt =====
-- Python's `dict`: an association list in insertion order. Assignment to a present key keeps its
-- place, and a new key goes to the end, so that `values` is the order of iteration.
pub mod Unique
use Prim.Native.Nat.{ℕ, ◌+◌, ◌≤◌}
use mathlib.Core.Path.{◌≡◌, refl, ap, subst}
use mathlib.Core.Logic.{inl, inr}
use mathlib.Core.Bool.{Bool, true, false, not}
use mathlib.Core.List.{List, [], ◌∷◌, ◌++◌, map}
use mathlib.Core.Option
use mathlib.Core.Option.{Option, none, some}
use native.Mathlib.Omega.{arith}
use orxtra.Prelude.Tests.{is_none, Bool-cases, Eq, ◌==◌, if◌then◌else◌}
use orxtra.Prelude.Lists.{All, length, count}

abbrev pub Dict {ℓ κ} : Type ℓ → Type κ → Type (ℓ ⊔ κ)
Dict K V = List (K × V)

module _ {ℓ κ} {K : Type ℓ} {V : Type κ} where
  abbrev pub values : Dict K V → List V
  values d = map (λ e. e.1) d

  abbrev pub keys : Dict K V → List K
  keys d = map (λ e. e.0) d

  -- An in-place update of every value, as a loop over `values()` makes it.
  unfoldable pub map_values : (V → V) → Dict K V → Dict K V
  map_values f [] = []
  map_values f ((k, v) ∷ d) = (k, f v) ∷ map_values f d

module _ {ℓ κ} {K : Type ℓ} {V : Type κ} ⦃e : Eq K⦄ where
  -- d.get(k)
  unfoldable pub get : Dict K V → K → Option V
  get [] k = none
  get ((j, v) ∷ d) k = if j == k then some v else get d k

  -- k in d
  unfoldable pub has : Dict K V → K → Bool
  has [] k = false
  has ((j, v) ∷ d) k = if j == k then true else has d k

  -- d[k] = v
  unfoldable pub put : Dict K V → K → V → Dict K V
  put [] k v = (k, v) ∷ []
  put ((j, w) ∷ d) k v = if j == k then (j, v) ∷ d else (j, w) ∷ put d k v

  -- d.pop(k, None)
  unfoldable pub pop : Dict K V → K → Dict K V
  pop [] k = []
  pop ((j, w) ∷ d) k = let rest = pop d k in if j == k then rest else (j, w) ∷ rest

  pub get-put :
      (d : Dict K V) (k j : K) (v : V) → get (put d k v) j ≡ (if k == j then some v else get d j)
  unfolding get put
  get-put [] k j v = refl
  get-put ((i, w) ∷ d) k j v =
      ground (arith, e.beq_iff k j, e.beq_iff i k, e.beq_iff i j, get-put d k j v)

  pub get-pop : (d : Dict K V) (k j : K) → get (pop d k) j ≡ (if k == j then none else get d j)
  unfolding get pop
  get-pop [] k j = ground arith
  get-pop ((i, w) ∷ d) k j =
      ground (arith, e.beq_iff k j, e.beq_iff i k, e.beq_iff i j, get-pop d k j)

  pub get-map_values :
      (f : V → V) (d : Dict K V) (k : K) → get (map_values f d) k ≡ Option.map f (get d k)
  unfolding get map_values
  get-map_values f [] k = refl
  get-map_values f ((i, w) ∷ d) k = ground (arith, get-map_values f d k)

  pub All-put {μ} :
      (P : V → Type μ) (d : Dict K V) (k : K) (v : V)
      → All P (values d)
      → P v
      → All P (values (put d k v))
  unfolding put
  All-put P [] k v h p = (p, tt)
  All-put P ((i, w) ∷ d) k v h p = ground (arith, All-put P d k v h.1 p)

  pub All-get {μ} :
      (P : V → Type μ) (d : Dict K V) (k : K) (v : V) → All P (values d) → get d k ≡ some v → P v
  unfolding get
  All-get P [] k v h p = cc
  All-get P ((i, w) ∷ d) k v h p = elim (Bool-cases (i == k)) [
    | inl same ↦ let q : w ≡ v = cc in subst P q h.0
    | inr other ↦ All-get P d k v h.1 (rw other at p)
  ]

  pub has-eq_get : (d : Dict K V) (k : K) (v : V) → get d k ≡ some v → has d k ≡ true
  unfolding get has
  has-eq_get [] k v h = cc
  has-eq_get ((i, w) ∷ d) k v h = ground (arith, has-eq_get d k v)

  pub get-eq_has : (d : Dict K V) (k : K) → has d k ≡ false → get d k ≡ none
  unfolding get has
  get-eq_has [] k h = refl
  get-eq_has ((i, w) ∷ d) k h = ground (arith, get-eq_has d k)

  pub has-eq_not_none : (d : Dict K V) (k : K) → has d k ≡ not (is_none (get d k))
  unfolding get has
  has-eq_not_none [] k = refl
  has-eq_not_none ((i, w) ∷ d) k = ground (arith, has-eq_not_none d k)

pub ruleset dict_laws = (get-put, get-pop, get-map_values)
