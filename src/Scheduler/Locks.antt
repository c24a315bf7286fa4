-- ===== src/Scheduler/Locks.antt =====
-- `FileLockRegistry` (scheduler/src/orxtra/scheduler/_locks.py), with `os.sep` the slash.
pub mod Separation
use Prim.Native.String.{len, slice, ◌++◌ as join}
use text.Mathlib.Text.{starts_with}
use orxtra.Prelude.{
  ◌-◌, String, Bool, true, false, ◌||◌, Option, none, some, List, [], ◌∷◌, ◌==◌, string_eq, nat_eq,
  any, Result, ok, err, value_error, if◌then◌else◌,
}
use orxtra.Prelude.Ids.{Uuid}
use orxtra.Prelude.Dict.{Dict, put, pop}
use orxtra.Prelude.Sets.{to_set}

-- `a.endswith(os.sep)`
unfoldable pub ends_with_sep : String → Bool
ends_with_sep a = slice a (len a - 1) (len a) == "/"

unfoldable pub path_prefix : String → String
unfolding ends_with_sep
path_prefix a = if ends_with_sep a then a else join a "/"

unfoldable pub paths_overlap : String → String → Bool
unfolding path_prefix
paths_overlap a b =
    if a == b then true else (starts_with b (path_prefix a) || starts_with a (path_prefix b))

-- `_claims`: the set of paths of each workflow.
abbrev pub Claims : Type 0
Claims = Dict Uuid (List String)

-- The two inner loops of `check_conflict`.
abbrev pub overlaps : (paths claimed : List String) → Bool
overlaps paths claimed = any (λ new_path. any (λ p. paths_overlap new_path p) claimed) paths

unfoldable pub check_conflict : (paths : List String) → Claims → Option Uuid
check_conflict paths [] = none
check_conflict paths ((wf_id, claimed) ∷ claims) =
    if overlaps paths claimed then some wf_id else check_conflict paths claims

unfoldable pub claim :
    (workflow_id : Uuid) (paths : List String) → Claims → Result (Unit {0}) × Claims
unfolding check_conflict to_set
claim workflow_id paths claims = elim (check_conflict paths claims) [
  | some conflict ↦ (err value_error, claims)
  | none ↦ (ok tt, put claims workflow_id (to_set paths))
]

unfoldable pub release : (workflow_id : Uuid) → Claims → Claims
release workflow_id claims = pop claims workflow_id
