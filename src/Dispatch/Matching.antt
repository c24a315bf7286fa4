-- ===== src/Dispatch/Matching.antt =====
-- `match_subscription` (dispatch/src/orxtra/dispatch/_delivery.py). The resolver of source slugs is
-- injected into the source's function; here it is the argument `resolve`.
use orxtra.Prelude.{
  ◌≡◌, ◌↔◌, refl, String, Bool, true, false, not, Option, none, some, List, ◌==◌, nat_eq, string_eq,
  contains, if◌then◌else◌, arith, inl, inr, Bool-cases,
}
use orxtra.Prelude.Ids.{Uuid}
use orxtra.Dispatch.Backend.{FilterPredicate}

-- `principal_id == wanted` on an optional principal.
abbrev pub is_principal : Option Uuid → Uuid → Bool
is_principal none wanted = false
is_principal (some p) wanted = p == wanted

-- `principal_id is not None and principal_id in allowed`
abbrev pub is_among : Option Uuid → List Uuid → Bool
is_among none allowed = false
is_among (some p) allowed = contains allowed p

abbrev excluded_type : Option (List String) → String → Bool
excluded_type none event_type = false
excluded_type (some types) event_type = not (contains types event_type)

abbrev excluded_principal : Option Uuid → Option Uuid → Bool
excluded_principal none principal_id = false
excluded_principal (some wanted) principal_id = not (is_principal principal_id wanted)

abbrev allowed_source : Option (List String) → Option Uuid → (List String → List Uuid) → Bool
allowed_source none principal_id resolve = true
allowed_source (some slugs) principal_id resolve = is_among principal_id (resolve slugs)

unfoldable pub match_subscription :
    (event_type : String) (principal_id : Option Uuid) (predicate : FilterPredicate)
    (resolve : List String → List Uuid)
    → Bool
match_subscription event_type principal_id predicate resolve =
    if excluded_type predicate.event_types event_type
    then false
    else if excluded_principal predicate.principal_id principal_id
    then false
    else allowed_source predicate.sources principal_id resolve

-- One axis of a filter: what is asked for when the axis is set.
abbrev pub Axis {ℓ} : {A : Type ℓ} → Option A → (A → Type 0) → Type 0
Axis none P = Unit
Axis (some a) P = P a

abbrev pub IsAmong : Option Uuid → List Uuid → Type 0
IsAmong principal_id allowed = (p : Uuid) × (principal_id ≡ some p) × (contains allowed p ≡ true)

types_lem :
    (o : Option (List String)) (t : String)
    → (excluded_type o t ≡ false) ↔ Axis o (λ types. contains types t ≡ true)
types_lem none t = (λ _. tt, λ _. refl)
types_lem (some types) t = (λ h. ground arith, λ h. ground arith)

principal_lem :
    (o : Option Uuid) (principal_id : Option Uuid)
    → (excluded_principal o principal_id ≡ false) ↔ Axis o (λ wanted. principal_id ≡ some wanted)
principal_lem none p = (λ _. tt, λ _. refl)
principal_lem (some wanted) none = (λ h. cc, λ h. cc)
principal_lem (some wanted) (some p) = (λ h. ground arith, λ h. ground arith)

among_lem :
    (principal_id : Option Uuid) (allowed : List Uuid)
    → (is_among principal_id allowed ≡ true) ↔ IsAmong principal_id allowed
among_lem none allowed = (λ h. cc, λ h. cc h.1)
among_lem (some p) allowed = (λ h. (p, refl, h), λ h. ground (arith, h.1, h.2))

sources_lem :
    (o : Option (List String)) (principal_id : Option Uuid) (resolve : List String → List Uuid)
    → (allowed_source o principal_id resolve ≡ true)
      ↔ Axis o (λ slugs. IsAmong principal_id (resolve slugs))
sources_lem none p resolve = (λ _. tt, λ _. refl)
sources_lem (some slugs) p resolve = among_lem p (resolve slugs)

tests_lem :
    (t : String) (p : Option Uuid) (predicate : FilterPredicate) (resolve : List String → List Uuid)
    → (match_subscription t p predicate resolve ≡ true) ↔ (
        (excluded_type predicate.event_types t ≡ false)
        × (excluded_principal predicate.principal_id p ≡ false)
        × (allowed_source predicate.sources p resolve ≡ true))
unfolding match_subscription
tests_lem t p predicate resolve = elim (Bool-cases (excluded_type predicate.event_types t)) [
  | inl out ↦ rw out (λ h. absurd (cc h), λ h. cc h.0)
  | inr ok_type ↦ elim (Bool-cases (excluded_principal predicate.principal_id p)) [
    | inl out ↦ rw ok_type (rw out (λ h. absurd (cc h), λ h. cc h.1))
    | inr ok_principal ↦ rw ok_type (rw ok_principal (λ h. (refl, refl, h), λ h. h.2))
  ]
]

-- An event matches a subscription exactly when it passes each of the three axes that the filter
-- sets: its type is listed, its principal is the one named, and its principal is one of those that
-- the source slugs resolve to. An axis that is not set, and `data_predicates`, let it pass.
pub match_subscription_lem :
    (event_type : String) (principal_id : Option Uuid) (predicate : FilterPredicate)
    (resolve : List String → List Uuid)
    → (match_subscription event_type principal_id predicate resolve ≡ true) ↔ (
        Axis predicate.event_types (λ types. contains types event_type ≡ true)
        × Axis predicate.principal_id (λ wanted. principal_id ≡ some wanted)
        × Axis predicate.sources (λ slugs. IsAmong principal_id (resolve slugs)))
match_subscription_lem t p predicate resolve =
    let types = types_lem predicate.event_types t in
    let principal = principal_lem predicate.principal_id p in
    let sources = sources_lem predicate.sources p resolve in
    let tests = tests_lem t p predicate resolve in
    (
      λ h. (types.0 (tests.0 h).0, principal.0 (tests.0 h).1, sources.0 (tests.0 h).2),
      λ h. tests.1 (types.1 h.0, principal.1 h.1, sources.1 h.2),
    )
