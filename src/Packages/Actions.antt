-- ===== src/Packages/Actions.antt =====
-- internal/decisionpackage/build.go, `buildProposedActions` and `packageStatus`.
pub mod Built
pub mod Modes
pub mod Blocks
pub mod Review
use pfas_load_control.Base.{
  ℕ, ◌+◌, Bool, true, false, not, ◌&&◌, ◌||◌, Option, none, some, List, [], ◌∷◌, ◌++◌, map, any,
  String, str_eq, Text, codes, message, is_empty, text_eq, length, if◌then◌else◌,
}
use pfas_load_control.Numeral.{show}
use pfas_load_control.Placement.Model.{Status, ready}
use pfas_load_control.Policy.Model.{tier_prohibited, Requirement}
use pfas_load_control.ActionCenter.Model.{ProposedAction}
use pfas_load_control.ActionCenter.Execute.{is_ready}
use pfas_load_control.Packages.Model.{
  Decision, PlacementRecord, ResponseTask, ResponseRun, Snapshot,
}

-- The code of the response task for a requirement; empty where there is none.
unfoldable pub response_code_for_requirement : Text → Text
response_code_for_requirement id =
    if text_eq id (codes "MI-PFAS-WRD-NOTIFICATION")
    then codes "NOTIFY_EGLE"
    else if text_eq id (codes "MI-PFAS-ELEVATED-RATE")
    then codes "ENFORCE_RATE_CAP"
    else if text_eq id (codes "MI-PFAS-SOURCE-EFFLUENT-30D")
    then codes "SOURCE_EFFLUENT_SAMPLE"
    else if text_eq id (codes "MI-PFAS-LAND-APPLICATION-PROHIBITED")
    then codes "BLOCK_LAND_APPLICATION"
    else if text_eq id (codes "MI-PFAS-ALTERNATIVE-MANAGEMENT")
    then codes "ARRANGE_ALTERNATIVE_MANAGEMENT"
    else []

-- `responseTasks[code]`, a map in which a later task replaces an earlier one.
unfoldable pub task_with : Text → List ResponseTask → Option ResponseTask
task_with code [] = none
task_with code (t ∷ ts) = elim (task_with code ts) [
  | some later ↦ some later
  | none ↦ if text_eq t.code code then some t else none
]

unfoldable pub task_for : List ResponseTask → Requirement → Option ResponseTask
unfolding response_code_for_requirement task_with
task_for tasks r =
    let code = response_code_for_requirement r.id in
    if is_empty code then none else task_with code tasks

-- A proposal before `add` gives it its position.
abbrev pub regulatory : Text → String → Requirement → ProposedAction
regulatory code state r = record {
  position = 0;
  code = code;
  category = "REGULATORY";
  state = state;
  title = r.title;
  detail = r.detail;
  timing = r.timing;
  source_id = codes r.rule_id;
  executable = false;
}

unfoldable pub requirement_action : List ResponseTask → Requirement → ProposedAction
unfolding task_for
requirement_action tasks r = elim (task_for tasks r) [
  | none ↦ regulatory (codes "POLICY_" ++ r.id) "REQUIRED" r
  | some task ↦ regulatory task.code task.state r
]

-- The codes of the tasks that stand for a requirement.
unfoldable pub consumed : List ResponseTask → List Requirement → List Text
unfolding task_for
consumed tasks [] = []
consumed tasks (r ∷ rs) =
    let rest = consumed tasks rs in
    elim (task_for tasks r) [ none ↦ rest | some task ↦ task.code ∷ rest ]

abbrev pub task_action : Text → ResponseTask → ProposedAction
task_action run task = record {
  position = 0;
  code = task.code;
  category = task.category;
  state = task.state;
  title = task.title;
  detail = task.detail;
  timing = task.timing;
  source_id = run;
  executable = false;
}

unfoldable pub task_actions : Text → List Text → List ResponseTask → List ProposedAction
task_actions run used [] = []
task_actions run used (t ∷ ts) =
    let rest = task_actions run used ts in
    if any (text_eq t.code) used then rest else task_action run t ∷ rest

abbrev pub review_action : PlacementRecord → ProposedAction
review_action p = record {
  position = 0;
  code = codes "REVIEW_DRAFT_ALLOCATION";
  category = "PLACEMENT";
  state = "DRAFT";
  title = message "Review the proposed field allocation";
  detail =
      message "Review the allocation of "
      ++ p.plan.allocated_dry_tons
      ++ message " dry tons across "
      ++ show (length p.plan.allocations)
      ++ message
          " eligible field(s) against the approved Residuals Management Program before scheduling.";
  timing = message "Before scheduling";
  source_id = p.id;
  executable = false;
}

abbrev pub resolve_action : PlacementRecord → ProposedAction
resolve_action p = record {
  position = 0;
  code = codes "RESOLVE_PLACEMENT_GAPS";
  category = "EVIDENCE";
  state = "REQUIRED";
  title = message "Resolve the placement evidence gaps";
  detail =
      message
        "No operational allocation should be used until every blocking field and capacity gap in this package is resolved.";
  timing = message "Before scheduling";
  source_id = p.id;
  executable = false;
}

unfoldable pub plan_actions : Option PlacementRecord → List ProposedAction
plan_actions none = []
plan_actions (some p) = (if is_ready p.plan.status then review_action p else resolve_action p) ∷ []

abbrev pub block_action : Decision → ProposedAction
block_action d = record {
  position = 0;
  code = codes "BLOCK_LAND_APPLICATION";
  category = "CONTROL";
  state = "ENFORCED";
  title = message "Keep this batch out of land application";
  detail =
      message "The deterministic control plane blocks land-application allocation for this batch.";
  timing = message "Effective immediately";
  source_id = d.id;
  executable = false;
}

unfoldable pub block_actions : Decision → List ProposedAction
block_actions d = if str_eq d.tier tier_prohibited then block_action d ∷ [] else []

abbrev pub tasks_of : Option ResponseRun → List ResponseTask
tasks_of none = []
tasks_of (some run) = run.tasks

unfoldable pub response_actions : List Requirement → Option ResponseRun → List ProposedAction
unfolding consumed task_actions
response_actions requirements none = []
response_actions requirements (some run) =
    task_actions run.id (consumed run.tasks requirements) run.tasks

-- What is handed to `add`, in this order.
unfoldable pub candidates : Snapshot → List ProposedAction
unfolding requirement_action response_actions plan_actions block_actions
candidates s =
    map (requirement_action (tasks_of s.response)) s.decision.requirements
    ++ (response_actions s.decision.requirements s.response
        ++ (plan_actions s.placement ++ block_actions s.decision))

abbrev pub has_code : Text → ProposedAction → Bool
has_code code a = text_eq a.code code

-- `add`; `seen` holds the codes of the actions.
unfoldable pub add_action : List ProposedAction → ProposedAction → List ProposedAction
add_action actions a =
    if any (has_code a.code) actions
    then actions
    else actions ++ (record a { position = length actions + 1; executable = false }) ∷ []

unfoldable pub add_all : List ProposedAction → List ProposedAction → List ProposedAction
unfolding add_action
add_all actions [] = actions
add_all actions (a ∷ rest) = add_all (add_action actions a) rest

unfoldable pub build_proposed_actions : Snapshot → List ProposedAction
unfolding candidates add_all
build_proposed_actions s = add_all [] (candidates s)

abbrev pub is_none_left : {A : Type 0} → List A → Bool
is_none_left [] = true
is_none_left (x ∷ xs) = false

abbrev pub plan_holds : Option PlacementRecord → Bool
plan_holds none = false
plan_holds (some p) = not (is_ready p.plan.status)

abbrev pub response_holds : Option ResponseRun → Bool
response_holds none = false
response_holds (some run) = not (str_eq run.status "READY")

unfoldable pub package_status : Snapshot → String
package_status s =
    if not (is_none_left s.gaps)
    then "REVIEW_REQUIRED"
    else if plan_holds s.placement
    then "REVIEW_REQUIRED"
    else if response_holds s.response
    then "REVIEW_REQUIRED"
    else "READY"
