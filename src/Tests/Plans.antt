-- ===== src/Tests/Plans.antt =====
-- A plan of one book that is stored and approved, and a decision on its source.
use kavita_ingest.Prelude.{
  ℕ, ◌≡◌, ◌≢◌, ◌↔◌, refl, true, false, Option, none, some, List, [], ◌∷◌, ◌++◌, ◌&&◌, ◌||◌, ◌==◌,
  nat_Eq, any, codes_eq, select, arith, All,
}
use kavita_ingest.Filesystem.State.{Bytes}
use kavita_ingest.Json.{Json, boolean, number, text, array, object, field, empty, item, nil}
use kavita_ingest.Effect.{done, error, exception, type_error}
use kavita_ingest.Plans.Rows.{StoredPlan, approved, PlanTables, commit, is_invalidated}
use kavita_ingest.Plans.Store.{Tools, find_plan}
use kavita_ingest.Plans.Immutable.{none_left}
use kavita_ingest.Plans.Import.{Surroundings}
use kavita_ingest.Plans.Operations.{
  Operation, importing, approving, perform_each, Persists, perform_each-Persists, Advances-same,
}
use kavita_ingest.Plans.Operations.{perform}
use kavita_ingest.Plans.Import.{
  import_bytes, import_plan, insert_plan, derive_indexes, derive_item, derive_precondition,
  destination_from_item, insert_index, insert_precondition, supersede_prior, new_plan_row,
}
use kavita_ingest.Plans.Store.{approve, get_plan, verify_plan, approve_rows, supersede}
use kavita_ingest.Plans.Document.{
  validate_plan_payload, valid_document, valid_policy, valid_item, valid_permission,
  has_current_policy, planning_policy_version,
}
use kavita_ingest.Plans.Step.{◌>>=◌}
use kavita_ingest.Json.{get, has, field_at, elements, json_equal, items_equal, fields_equal}
use kavita_ingest.Decisions.{
  DecisionType, Source, Entry, DecisionRecord, DecisionTables, add_decision, latest_decision,
  decision_history, rests_on_other,
}
use kavita_ingest.Decisions.Recorded.{add_decision_lem}
use kavita_ingest.Decisions.Isbn.{valid_isbn, sum_13}
use kavita_ingest.Decisions.Errors.{valid_isbn-single_error}
use kavita_ingest.RunGroups.{RunGroupDecisionType, add}
use kavita_ingest.Engine.Prepare.{Reading}
use kavita_ingest.Engine.Prepare.Modes.{IsPublishable, publication_modes-IsPublishable}
use kavita_ingest.Plans.Document.{plan_items}
use kavita_ingest.Tests.Groups.{chosen}
use kavita_ingest.Engine.Eligible.{
  has_current_schema, Current, eligible_plan, standing, content, refuse_first, require_policy,
  has_stale_decision, has_stale_run, decision_head, run_head, greatest,
}
use kavita_ingest.Engine.Eligible.Sound.{IsEligible, eligible_plan_iff}
use kavita_ingest.Engine.Eligible.Decided.{eligible_plan-add_decision, eligible_plan-add}

abbrev policy : Json
policy = object (
    field "permissions"
      (object (field "directory_mode" (text "0755") (field "file_mode" (text "0644") empty)))
      (field "version" (number 2) empty))

abbrev planned_book : Json
planned_book = object (
    field "item_id" (text "i1") (
      field "kavita_projection" (object (field "destination" (text "A.epub") empty)) (
        field "planning_policy" policy (
          field "provenance"
            (object (
              field "decision_head_id" (number 1) (field "explicit_approval" (boolean true) empty)))
            (field "source"
              (object (field "sha256" (text "digest") (field "signature" (text "zip-epub") empty)))
              empty)))))

abbrev pub plan_document : Json
plan_document = object (
    field "items" (array (item planned_book nil))
      (field "planning_policy" policy (field "schema_version" (number 3) empty)))

-- The text of the document is taken for one byte.
abbrev loads_one : Bytes → Option Json
loads_one [] = none
loads_one (b ∷ rest) = some plan_document

abbrev pub tools : Tools
tools = record {
  codec = record { loads = loads_one; dumps = λ j. 7 ∷ [] };
  sha256 = λ bytes. "plan";
  str = λ j. "other";
  int = λ j. none;
}

abbrev surroundings : Surroundings
surroundings = record {
  tools = tools;
  posix = λ path. path;
  text_column = λ j. error (exception type_error "unsupported type");
  integer_column = λ j. error (exception type_error "unsupported type");
  is_decision = λ n. n == 1;
  is_run_group_decision = λ n. false;
  runs = [];
}

abbrev no_plans : PlanTables
no_plans = record {
  plans = [];
  index = [];
  preconditions = [];
  invalidations = [];
  supersessions = [];
}

abbrev operations : List Operation
operations = importing (7 ∷ []) "1" ∷ approving 1 "plan" "2" ∷ approving 1 "plan" "3" ∷ []

abbrev pub approved_plan : StoredPlan
approved_plan = record {
  id = 1;
  schema_version = 3;
  canonical_json = 7 ∷ [];
  byte_length = 1;
  sha256 = "plan";
  status = approved;
  created_at = "1";
  approved_at = some "2";
  approval_digest = some "plan";
}

abbrev pub plans_after : PlanTables
plans_after = record {
  plans = approved_plan ∷ [];
  index =
      record {
        plan_id = 1;
        item_id = "i1";
        source_fingerprint = "digest";
        destination_path = some "A.epub";
        blocked = false;
      }
      ∷ [];
  preconditions =
      record {
        plan_id = 1;
        item_id = "i1";
        source_fingerprint = "digest";
        decision_head_id = 1;
        run_group_key = none;
        run_group_decision_id = none;
      }
      ∷ [];
  invalidations = [];
  supersessions = [];
}

reached : perform_each surroundings operations (commit no_plans) ≡ commit plans_after
unfolding perform_each perform import_bytes import_plan insert_plan derive_indexes derive_item
    derive_precondition destination_from_item insert_index insert_precondition supersede_prior
    new_plan_row approve get_plan find_plan verify_plan approve_rows supersede validate_plan_payload
    valid_document valid_policy valid_item valid_permission has_current_policy
    planning_policy_version ◌>>=◌ get has field_at elements json_equal items_equal fields_equal
    codes_eq
reached = refl

perform_each-Persists_example :
    Persists (commit no_plans) (perform_each surroundings operations (commit no_plans))
perform_each-Persists_example =
    perform_each-Persists surroundings operations (commit no_plans) (none_left 0)
      (Advances-same no_plans (none_left 0))

abbrev a_book : Source
a_book = record { sha256 = "digest"; media_signature = "epub:2" }

abbrev entry : Entry
entry = record {
  evidence_hash = "evidence";
  candidate_key = some "open:1";
  candidate_data_hash = some "data";
  payload = object empty;
  batch_id = none;
}

abbrev first_decision : DecisionRecord
first_decision = record {
  id = 1;
  source_fingerprint = "digest";
  media_signature = "epub:2";
  decision_type = DecisionType.accepted;
  candidate_key = some "open:1";
  source_evidence_hash = "evidence";
  candidate_data_hash = some "data";
  payload = object empty;
  created_at = "0";
  supersedes_id = none;
  batch_id = none;
}

abbrev decided : DecisionTables
decided = record { decisions = first_decision ∷ []; plans = plans_after }

abbrev pub current : Current
current = record { tools = tools; decisions = first_decision ∷ []; run_decisions = [] }

is_accepted :
    eligible_plan current 1 "4" plans_after ≡ (done (approved_plan, plan_document), plans_after)
unfolding eligible_plan standing content refuse_first require_policy has_stale_decision
    has_stale_run decision_head run_head greatest select get_plan find_plan verify_plan
    validate_plan_payload valid_document valid_policy valid_item valid_permission has_current_policy
    planning_policy_version ◌>>=◌ get has field_at elements json_equal items_equal fields_equal
    codes_eq
is_accepted = refl

eligible_plan_iff_example :
    (eligible_plan current 1 "4" plans_after ≡ (done (approved_plan, plan_document), plans_after))
    ↔ (IsEligible current plans_after 1 approved_plan plan_document × (plans_after ≡ plans_after))
eligible_plan_iff_example =
    eligible_plan_iff current 1 "4" plans_after approved_plan plan_document plans_after

add_decision_lem_example :
    let result = add_decision a_book DecisionType.rejected entry "3" decided in
    (latest_decision a_book result.1.decisions ≡ some result.0)
    × (decision_history a_book result.1.decisions
        ≡ decision_history a_book decided.decisions ++ result.0 ∷ [])
    × ((plan : ℕ)
        → is_invalidated plan result.1.plans.invalidations ≡ (
            is_invalidated plan decided.plans.invalidations
            || any
                (λ p. rests_on_other "digest" result.0.id p && p.plan_id == plan)
                decided.plans.preconditions))
add_decision_lem_example = add_decision_lem a_book DecisionType.rejected entry "3" decided

eligible_plan-add_decision_example :
    eligible_plan current 1 "4"
      (add_decision a_book DecisionType.rejected entry "3" decided).1.plans
    ≢ (done (approved_plan, plan_document), plans_after)
unfolding add_decision
eligible_plan-add_decision_example =
    eligible_plan-add_decision current 1 "3" "4" plans_after approved_plan plan_document a_book
      DecisionType.rejected entry decided refl

eligible_plan-add_example :
    eligible_plan current 4 "10"
      (add "comic:saga" "comic_vine" RunGroupDecisionType.manual
        (some "18")
        "{}"
        "9"
        chosen).1.plans
    ≢ (done (approved_plan, plan_document), plans_after)
unfolding add
eligible_plan-add_example =
    eligible_plan-add current 4 "9" "10" plans_after approved_plan plan_document "comic:saga"
      "comic_vine" RunGroupDecisionType.manual (some "18") "{}" chosen refl

-- 978-0-306-40615-7
abbrev isbn_front : List ℕ
isbn_front = 57 ∷ 55 ∷ 56 ∷ 48 ∷ 51 ∷ []

abbrev isbn_back : List ℕ
isbn_back = 54 ∷ 52 ∷ 48 ∷ 54 ∷ 49 ∷ 53 ∷ 55 ∷ []

valid_isbn-single_error_example : valid_isbn (isbn_front ++ 49 ∷ isbn_back) ≢ some true
unfolding valid_isbn sum_13
valid_isbn-single_error_example =
    valid_isbn-single_error isbn_front isbn_back 48 49 refl (omega arith)

abbrev reading : Reading
reading = record { str = λ j. "other"; int_8 = λ s. none; path = λ s. s ∷ [] }

is_eligible : IsEligible current plans_after 1 approved_plan plan_document
is_eligible =
    ((eligible_plan_iff current 1 "4" plans_after approved_plan plan_document plans_after).0
      is_accepted).0

publication_modes-IsPublishable_example : All (IsPublishable reading) (plan_items plan_document)
unfolding has_current_schema get field_at
publication_modes-IsPublishable_example =
    publication_modes-IsPublishable reading current plans_after 1 approved_plan plan_document
      is_eligible refl
