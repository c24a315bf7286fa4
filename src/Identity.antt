-- ===== src/Identity.antt =====
-- `InMemoryPrincipalStorage` (identity/src/orxtra/identity/_inmemory.py) and the principals that it
-- stores (protocols/src/orxtra/protocols/_types/_identity.py). Ids and times are arguments.
pub mod Minting
use orxtra.Prelude.{
  ℕ, ◌-◌, String, Bool, not, ◌&&◌, Option, none, some, List, [], ◌∷◌, map, ◌==◌, nat_eq, string_eq,
  ltb, filter, find, length, contains, if◌then◌else◌, Result, ok, err, key_error,
}
use orxtra.Prelude.Ids.{Uuid, Time}
use orxtra.Prelude.Dict.{Dict, get, put, pop, values}
use orxtra.Prelude.Sorting.{sort_by}

pub record Principal : Type 0 where
  pub id : Uuid
  pub kind : String
  pub external_ref : Uuid
  pub display_name : Option String
  pub created_at : Time

abbrev pub kind_run : String
kind_run = "run"

abbrev pub kind_source : String
kind_source = "source"

-- `_principals`
abbrev pub Principals : Type 0
Principals = Dict Uuid Principal

abbrev pub is_ref : (kind : String) (external_ref : Uuid) → Principal → Bool
is_ref kind external_ref p = p.kind == kind && p.external_ref == external_ref

unfoldable pub find_by_ref : (kind : String) (external_ref : Uuid) → Principals → Option Principal
find_by_ref kind external_ref ps = find (is_ref kind external_ref) (values ps)

-- A principal is written only where none was found.
unfoldable pub mint_unless :
    Option Principal → (minted : Principal) → Principals → Principal × Principals
mint_unless (some existing) minted ps = (existing, ps)
mint_unless none minted ps = (minted, put ps minted.id minted)

unfoldable pub mint_principal :
    (new_id : Uuid) (now : Time) (kind : String) (external_ref : Uuid)
    (display_name : Option String)
    → Principals
    → Principal × Principals
unfolding mint_unless find_by_ref
mint_principal new_id now kind external_ref display_name ps =
    mint_unless (find_by_ref kind external_ref ps)
      (record {
        id = new_id;
        kind = kind;
        external_ref = external_ref;
        display_name = display_name;
        created_at = now;
      })
      ps

unfoldable pub get_principal : Uuid → Principals → Option Principal
get_principal principal_id ps = get ps principal_id

unfoldable pub get_principal_by_ref :
    (kind : String) (external_ref : Uuid) → Principals → Option Principal
unfolding find_by_ref
get_principal_by_ref kind external_ref ps = find_by_ref kind external_ref ps

unfoldable pub list_principals : (kind : Option String) → Principals → List Principal
list_principals kind ps =
    let principals = sort_by (λ (p : Principal). p.created_at) (values ps) in
    elim kind [ none ↦ principals | some k ↦ filter (λ p. p.kind == k) principals ]

unfoldable pub rename_found :
    (principal_id : Uuid) (display_name : String)
    → Option Principal
    → Principals
    → Result (Unit {0}) × Principals
rename_found principal_id display_name none ps = (err key_error, ps)
rename_found principal_id display_name (some existing) ps =
    (ok tt, put ps principal_id (record existing { display_name = some display_name }))

unfoldable pub update_display_name :
    (principal_id : Uuid) (display_name : String) → Principals → Result (Unit {0}) × Principals
unfolding rename_found
update_display_name principal_id display_name ps =
    rename_found principal_id display_name (get ps principal_id) ps

unfoldable pub delete_principal : Uuid → Principals → Principals
delete_principal principal_id ps = pop ps principal_id

-- A run's principal that is old enough and whose run is gone.
abbrev pub is_orphan : (run_ids : List Uuid) (cutoff : Time) → Principal → Bool
is_orphan run_ids cutoff p =
    p.kind == kind_run && not (contains run_ids p.external_ref) && ltb p.created_at cutoff

-- The ids that the first loop collects, in the order of the dict.
unfoldable pub orphans : (run_ids : List Uuid) (cutoff : Time) → Principals → List Uuid
orphans run_ids cutoff [] = []
orphans run_ids cutoff ((pid, p) ∷ ps) =
    let rest = orphans run_ids cutoff ps in if is_orphan run_ids cutoff p then pid ∷ rest else rest

unfoldable pub delete_all : List Uuid → Principals → Principals
delete_all [] ps = ps
delete_all (pid ∷ pids) ps = delete_all pids (pop ps pid)

-- Without a provider of run ids nothing is swept.
unfoldable pub sweep_orphaned_run_principals :
    (run_ids_provider : Option (List Uuid)) (now older_than : Time) → Principals → ℕ × Principals
unfolding orphans delete_all
sweep_orphaned_run_principals none now older_than ps = (0, ps)
sweep_orphaned_run_principals (some run_ids) now older_than ps =
    let to_delete = orphans run_ids (now - older_than) ps in
    (length to_delete, delete_all to_delete ps)
