-- ===== src/Trace/Reader/Knowledge.antt =====
-- Reading decisions, constraints, assumptions and lessons back
-- (trace/src/orxtra/trace/_memory_backend.py).
use orxtra.Prelude.{
  ℕ, String, Bool, not, ◌&&◌, Option, List, map, reverse, ◌==◌, nat_eq, string_eq, any, filter,
  take, contains, matches_option,
}
use orxtra.Trace.Rows.{Uuid, Time, Decision, Constraint, Assumption, Lesson}
use orxtra.Trace.Store.{Store}

pub record DecisionView : Type 0 where
  pub id : Uuid
  pub decision_type : String
  pub choice : String
  pub rationale : Option String
  pub created_at : Time

pub record ConstraintView : Type 0 where
  pub id : Uuid
  pub text : String
  pub tier : String
  pub is_active : Bool
  pub created_at : Time

pub record AssumptionView : Type 0 where
  pub id : Uuid
  pub text : String
  pub status : String
  pub scope : String
  pub inbox_item_id : Option Uuid
  pub created_at : Time

pub record LessonView : Type 0 where
  pub id : Uuid
  pub text : String
  pub relevance_tags : List String
  pub permanent : Bool
  pub source_file : Option String
  pub created_at : Time

-- Inactive constraints are not left out.
unfoldable pub read_active_constraints : (run_id : Uuid) → Store → List Constraint
read_active_constraints run_id s = filter (λ (c : Constraint). c.run_id == run_id) s.constraints

abbrev decision_view : Decision → DecisionView
decision_view d = record {
  id = d.id;
  decision_type = d.decision_type;
  choice = d.choice;
  rationale = d.rationale;
  created_at = d.created_at;
}

-- The newest first, up to the limit.
unfoldable pub read_decisions : (run_id : Uuid) (limit : ℕ) → Store → List DecisionView
read_decisions run_id limit s =
    map decision_view
      (take limit (reverse (filter (λ (d : Decision). d.run_id == run_id) s.decisions)))

abbrev constraint_view : Constraint → ConstraintView
constraint_view c = record {
  id = c.id;
  text = c.text;
  tier = c.tier;
  is_active = c.is_active;
  created_at = c.created_at;
}

abbrev pub is_read_constraint : Uuid → (active_only : Bool) → Constraint → Bool
is_read_constraint run_id active_only c = c.run_id == run_id && not (active_only && not c.is_active)

unfoldable pub read_constraints : (run_id : Uuid) (active_only : Bool) → Store → List ConstraintView
read_constraints run_id active_only s =
    map constraint_view (filter (is_read_constraint run_id active_only) (reverse s.constraints))

abbrev assumption_view : Assumption → AssumptionView
assumption_view a = record {
  id = a.id;
  text = a.text;
  status = a.status;
  scope = a.scope;
  inbox_item_id = a.inbox_item_id;
  created_at = a.created_at;
}

unfoldable pub read_assumptions :
    (run_id : Uuid) (status : Option String) → Store → List AssumptionView
read_assumptions run_id status s = map assumption_view (
    filter (λ (a : Assumption). a.run_id == run_id && matches_option (λ t. a.status == t) status)
      (reverse s.assumptions))

abbrev lesson_view : Lesson → LessonView
lesson_view l = record {
  id = l.id;
  text = l.text;
  relevance_tags = l.relevance_tags;
  permanent = l.permanent;
  source_file = l.source_file;
  created_at = l.created_at;
}

-- `tag_set & set(lesson_tags)` is not empty.
abbrev pub shares_tag : List String → Lesson → Bool
shares_tag tags l = any (λ tag. contains tags tag) l.relevance_tags

unfoldable pub query_relevant_lessons : (tags : List String) → Store → List LessonView
query_relevant_lessons tags s = map lesson_view (filter (shares_tag tags) (reverse s.lessons))

abbrev pub is_queried_lesson : Option Uuid → Option (List String) → Bool → Lesson → Bool
is_queried_lesson run_id tags permanent_only l =
    matches_option (λ r. l.run_id == r) run_id
    && not (permanent_only && not l.permanent)
    && matches_option (λ wanted. shares_tag wanted l) tags

unfoldable pub query_lessons :
    (run_id : Option Uuid) (tags : Option (List String)) (permanent_only : Bool)
    → Store
    → List LessonView
query_lessons run_id tags permanent_only s =
    map lesson_view (filter (is_queried_lesson run_id tags permanent_only) (reverse s.lessons))
