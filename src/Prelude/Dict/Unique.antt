-- ===== src/Prelude/Dict/Unique.antt =====
-- Dicts that hold each key once.
use orxtra.Prelude.Tests.{Eq, ◌==◌, if◌then◌else◌}
use mathlib.Core.Path.{◌≡◌, refl}
use mathlib.Core.Bool.{true, false}
use mathlib.Core.List.{[], ◌∷◌}
use native.Mathlib.Omega.{arith}
use orxtra.Prelude.Dict.{Dict, has, put, pop, map_values}

module _ {ℓ κ} {K : Type ℓ} {V : Type κ} ⦃e : Eq K⦄ where
  abbrev pub Unique : Dict K V → Type 0
  Unique [] = Unit
  Unique ((k, v) ∷ d) = (has d k ≡ false) × Unique d

  pub has-put :
      (d : Dict K V) (k j : K) (v : V) → has (put d k v) j ≡ (if k == j then true else has d j)
  unfolding has put
  has-put [] k j v = refl
  has-put ((i, w) ∷ d) k j v =
      ground (arith, e.beq_iff k j, e.beq_iff i k, e.beq_iff i j, has-put d k j v)

  pub has-pop : (d : Dict K V) (k j : K) → has (pop d k) j ≡ (if k == j then false else has d j)
  unfolding has pop
  has-pop [] k j = ground arith
  has-pop ((i, w) ∷ d) k j =
      ground (arith, e.beq_iff k j, e.beq_iff i k, e.beq_iff i j, has-pop d k j)

  pub has-map_values : (f : V → V) (d : Dict K V) (k : K) → has (map_values f d) k ≡ has d k
  unfolding has map_values
  has-map_values f [] k = refl
  has-map_values f ((i, w) ∷ d) k = ground (arith, has-map_values f d k)

  pub put-Unique : (d : Dict K V) (k : K) (v : V) → Unique d → Unique (put d k v)
  unfolding put has
  put-Unique [] k v u = (refl, tt)
  put-Unique ((i, w) ∷ d) k v u =
      ground (arith, e.beq_iff i k, e.beq_iff k i, has-put d k i v, put-Unique d k v)

  pub pop-Unique : (d : Dict K V) (k : K) → Unique d → Unique (pop d k)
  unfolding pop
  pop-Unique [] k u = tt
  pop-Unique ((i, w) ∷ d) k u =
      ground (arith, e.beq_iff i k, e.beq_iff k i, has-pop d k i, pop-Unique d k)

  pub map_values-Unique : (f : V → V) (d : Dict K V) → Unique d → Unique (map_values f d)
  unfolding map_values
  map_values-Unique f [] u = tt
  map_values-Unique f ((i, w) ∷ d) u = ground (arith, has-map_values f d i, map_values-Unique f d)
