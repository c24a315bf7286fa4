-- ===== src/Trace/Overseer.antt =====
-- `InMemoryBackend`: the methods of OverseerStorage, NotepadStorage and KnowledgeHashStorage.
use orxtra.Prelude.{String, Bool, true, Option, none, some, List, [], ◌∷◌, ◌++◌, nat_eq, string_eq}
use orxtra.Prelude.Json.{Json}
use orxtra.Prelude.Dict.{Dict, get, put}
use orxtra.Trace.Rows.{Uuid, Time}
use orxtra.Trace.Store.{Store}

unfoldable pub write_decision :
    (fresh : Uuid) (now : Time) (run_id : Uuid) (decision_type choice : String)
    (rationale : Option String)
    → Store
    → Uuid × Store
write_decision fresh now run_id decision_type choice rationale s = (
  fresh,
  record s {
    decisions =
        s.decisions
        ++ record {
          id = fresh;
          run_id = run_id;
          decision_type = decision_type;
          choice = choice;
          rationale = rationale;
          created_at = now;
        }
          ∷ [];
  },
)

unfoldable pub write_constraint :
    (fresh : Uuid) (now : Time) (run_id : Uuid) (text tier kind : String) (args : Option Json)
    → Store
    → Uuid × Store
write_constraint fresh now run_id text tier kind args s = (
  fresh,
  record s {
    constraints =
        s.constraints
        ++ record {
          id = fresh;
          run_id = run_id;
          text = text;
          tier = tier;
          kind = kind;
          args = args;
          is_active = true;
          created_at = now;
        }
          ∷ [];
  },
)

unfoldable pub write_assumption :
    (fresh : Uuid) (now : Time) (run_id : Uuid) (text scope : String) (inbox_item_id : Option Uuid)
    → Store
    → Uuid × Store
write_assumption fresh now run_id text scope inbox_item_id s = (
  fresh,
  record s {
    assumptions =
        s.assumptions
        ++ record {
          id = fresh;
          run_id = run_id;
          text = text;
          scope = scope;
          status = "active";
          inbox_item_id = inbox_item_id;
          created_at = now;
        }
          ∷ [];
  },
)

-- `source_files[0] if source_files else None`
abbrev first_source : Option (List String) → Option String
first_source none = none
first_source (some []) = none
first_source (some (f ∷ fs)) = some f

unfoldable pub write_lesson :
    (fresh : Uuid) (now : Time) (run_id : Uuid) (text : String) (relevance_tags : List String)
    (permanent : Bool) (source_files : Option (List String))
    → Store
    → Uuid × Store
write_lesson fresh now run_id text relevance_tags permanent source_files s = (
  fresh,
  record s {
    lessons =
        s.lessons
        ++ record {
          id = fresh;
          run_id = run_id;
          text = text;
          relevance_tags = relevance_tags;
          permanent = permanent;
          source_files = source_files;
          source_file = first_source source_files;
          created_at = now;
        }
          ∷ [];
  },
)

unfoldable pub update_workflow_status :
    (now : Time) (workflow_id : Uuid) (current_step health : String) → Store → Store
update_workflow_status now workflow_id current_step health s = record s {
  workflow_status = put s.workflow_status workflow_id (record {
    workflow_id = workflow_id;
    current_step = current_step;
    health = health;
    updated_at = now;
  });
}

unfoldable pub write_context_diff :
    (fresh : Uuid) (attempt_id : Uuid) (pre_refinement refinement_diff : String) → Store → Store
write_context_diff fresh attempt_id pre_refinement refinement_diff s = record s {
  context_diffs =
      s.context_diffs
      ++ record {
        id = fresh;
        attempt_id = attempt_id;
        pre_refinement = pre_refinement;
        refinement_diff = refinement_diff;
      }
        ∷ [];
}

unfoldable pub write_notepad_entry :
    (fresh : Uuid) (now : Time) (run_id : Uuid) (task_name agent_name entry_type text : String)
    → Store
    → Store
write_notepad_entry fresh now run_id task_name agent_name entry_type text s = record s {
  notepad_entries =
      s.notepad_entries
      ++ record {
        id = fresh;
        run_id = run_id;
        task_name = task_name;
        agent_name = agent_name;
        entry_type = entry_type;
        text = text;
        created_at = now;
      }
        ∷ [];
}

-- `dict.get(run_id, {})`
abbrev hashes_of : Option (Dict String String) → Dict String String
hashes_of none = []
hashes_of (some d) = d

unfoldable pub write_knowledge_hash : (run_id : Uuid) (path file_hash : String) → Store → Store
write_knowledge_hash run_id path file_hash s = record s {
  knowledge_hashes =
      put s.knowledge_hashes run_id
        (put (hashes_of (get s.knowledge_hashes run_id)) path file_hash);
}

unfoldable pub read_knowledge_hashes : (run_id : Uuid) → Store → Dict String String
read_knowledge_hashes run_id s = hashes_of (get s.knowledge_hashes run_id)
