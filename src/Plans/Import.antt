-- ===== src/Plans/Import.antt =====
-- `PlanStore.import_bytes` and `PlanStore.policy_version` of src/kavita_ingest/plan_store.py.
use kavita_ingest.Prelude.{
  ℕ, suc, ◌*◌, String, Bool, true, false, ◌&&◌, Option, none, some, List, [], ◌∷◌, ◌++◌, ◌==◌,
  string_Eq, nat_Eq, ltb, any, length, if◌then◌else◌,
}
use kavita_ingest.Filesystem.State.{Bytes}
use kavita_ingest.Journal.Rows.{ApplyRun}
use kavita_ingest.Json.{Json, null, text, number, is_null, get, has, is_object, as_text, truthy}
use kavita_ingest.Effect.{
  Result, done, error, Kind, exception, value_error, type_error, overflow_error, key_error,
  database_error,
}
use kavita_ingest.Plans.Rows.{
  PlanStatus, StoredPlan, IndexRow, Precondition, PlanTables, Connection, commit, roll_back,
  leave_open,
}
use kavita_ingest.Plans.Step.{Step, lift, pure, change, ◌>>=◌, ◌>>◌}
use kavita_ingest.Plans.Document.{
  validate_plan_payload, plan_items, schema_version, planning_policy_version,
}
use kavita_ingest.Plans.Store.{Tools, str_of, int_of, get_plan, replaces, supersede}

-- What the import is given beside: `PurePosixPath(…).as_posix()`, what sqlite3 stores in a column of
-- texts or integers for a value that is neither, and the tables that rows refer to.
pub record Surroundings : Type 0 where
  pub tools : Tools
  pub posix : String → String
  pub text_column : Json → Result (Option String)
  pub integer_column : Json → Result (Option ℕ)
  pub is_decision : ℕ → Bool
  pub is_run_group_decision : ℕ → Bool
  pub runs : List ApplyRun

-- j[name], where j is an object
abbrev field_of : String → Json → Result Json
field_of name j = if has name j then done (get name j) else error (exception key_error name)

abbrev destination_text : Surroundings → Result Json → Result (Option String)
destination_text s (error e) = error e
destination_text s (done j) = elim (as_text j) [
  | none ↦ error (exception type_error "argument should be a str or an os.PathLike object")
  | some path ↦ done (some (s.posix path))
]

-- `destination_from_item`, as the text that is stored
unfoldable pub destination_from_item : Surroundings → Json → Result (Option String)
destination_from_item s j =
    if is_object (get "kavita_projection" j)
    then destination_text s (field_of "destination" (get "kavita_projection" j))
    else done none

abbrev stored_text : Surroundings → Json → Result (Option String)
stored_text s null = done none
stored_text s (text t) = done (some t)
stored_text s j = s.text_column j

abbrev small : ℕ → Result ℕ
small n =
    if ltb n (2147483648 * 4294967296)
    then done n
    else error (exception overflow_error "Python int too large to convert to SQLite INTEGER")

abbrev some_small : Result ℕ → Result (Option ℕ)
some_small (error e) = error e
some_small (done n) = done (some n)

abbrev stored_integer : Surroundings → Json → Result (Option ℕ)
stored_integer s null = done none
stored_integer s (number n) = some_small (small n)
stored_integer s j = s.integer_column j

abbrev integer : Option ℕ → Result ℕ
integer none = error (exception value_error "invalid literal for int() with base 10")
integer (some n) = small n

abbrev is_row : IndexRow → IndexRow → Bool
is_row row other = other.plan_id == row.plan_id && other.item_id == row.item_id

-- INSERT INTO plan_items_index; its key is the plan and the item.
unfoldable pub insert_index : IndexRow → Step (Unit {0})
insert_index row tables =
    if any (is_row row) tables.index
    then (error (exception database_error "UNIQUE constraint failed"), tables)
    else (done tt, record tables { index = tables.index ++ row ∷ [] })

abbrev refers : (ℕ → Bool) → Option ℕ → Bool
refers known none = true
refers known (some n) = known n

-- INSERT INTO plan_preconditions, with its foreign keys
unfoldable pub insert_precondition : Surroundings → Precondition → Step (Unit {0})
insert_precondition s row tables =
    if s.is_decision row.decision_head_id
      && refers s.is_run_group_decision row.run_group_decision_id
    then (done tt, record tables { preconditions = tables.preconditions ++ row ∷ [] })
    else (error (exception database_error "FOREIGN KEY constraint failed"), tables)

unfoldable pub derive_precondition : Surroundings → ℕ → Json → String → Json → Step (Unit {0})
derive_precondition s plan_id j fingerprint head = if is_null head then pure tt else (do
  decision_head ← lift (integer (int_of (s.tools) head))
  key ← lift (stored_text s (get "run_group_key" (get "provenance" j)))
  decision ← lift (stored_integer s (get "run_group_decision_id" (get "provenance" j)))
  insert_precondition s record {
    plan_id = plan_id;
    item_id = str_of (s.tools) (get "item_id" j);
    source_fingerprint = fingerprint;
    decision_head_id = decision_head;
    run_group_key = key;
    run_group_decision_id = decision;
  })

unfoldable pub derive_item : Surroundings → ℕ → Json → Step (Unit {0})
derive_item s plan_id j = do
  destination ← lift (destination_from_item s j)
  hash ← lift (field_of "sha256" (get "source" j))
  insert_index record {
    plan_id = plan_id;
    item_id = str_of (s.tools) (get "item_id" j);
    source_fingerprint = str_of (s.tools) hash;
    destination_path = destination;
    blocked = truthy (get "blocked" j);
  }
  derive_precondition s plan_id j (str_of (s.tools) hash)
      (get "decision_head_id" (get "provenance" j))

-- `_derive_indexes`
unfoldable pub derive_indexes : Surroundings → ℕ → List Json → Step (Unit {0})
derive_indexes s plan_id [] = pure tt
derive_indexes s plan_id (j ∷ rest) = derive_item s plan_id j >> derive_indexes s plan_id rest

abbrev created_at_of : Surroundings → Json → String → String
created_at_of s j now = if truthy j then str_of (s.tools) j else now

unfoldable pub new_plan_row : Surroundings → Json → Bytes → String → PlanTables → StoredPlan
new_plan_row s document payload now tables = record {
  id = suc (length tables.plans);
  schema_version = schema_version document;
  canonical_json = payload;
  byte_length = length payload;
  sha256 = s.tools.sha256 payload;
  status = PlanStatus.draft;
  created_at = created_at_of s (get "created_at" document) now;
  approved_at = none;
  approval_digest = none;
}

-- INSERT INTO plans; the digest is unique.
unfoldable pub insert_plan : StoredPlan → Step (Unit {0})
insert_plan plan tables =
    if any (λ other. other.sha256 == plan.sha256) tables.plans
    then (error (exception database_error "UNIQUE constraint failed: plans.sha256"), tables)
    else (done tt, record tables { plans = tables.plans ++ plan ∷ [] })

-- `_supersede_prior_unapplied_plans`
unfoldable pub supersede_prior : Surroundings → ℕ → String → PlanTables → PlanTables
supersede_prior s plan_id now tables = record tables {
  supersessions =
      supersede (replaces s.runs plan_id tables.index) plan_id now tables.index
        tables.supersessions;
}

unfoldable pub import_plan : Surroundings → StoredPlan → Json → String → Step (Unit {0})
import_plan s plan document now = do
  insert_plan plan
  derive_indexes s plan.id (plan_items document)
  change (supersede_prior s plan.id now)

abbrev is_integrity_error : Kind → Bool
is_integrity_error database_error = true
is_integrity_error _ = false

-- An integrity error takes back all that was written since the last commit. Any other exception leaves
-- what was written in the transaction, which stays open.
abbrev pub import_result :
    Surroundings → ℕ → Connection → Result (Unit {0}) × PlanTables → Result StoredPlan × Connection
import_result s plan_id c (done u, tables) = (get_plan (s.tools) plan_id tables, commit tables)
import_result s plan_id c (error e, tables) =
    if is_integrity_error e.kind
    then (
      error (exception value_error "plan already exists or failed integrity constraints"),
      roll_back c,
    )
    else (error e, leave_open tables c)

abbrev pub import_document :
    Surroundings → Bytes → String → Connection → Result Json → Result StoredPlan × Connection
import_document s payload now c (error e) = (error e, c)
import_document s payload now c (done document) =
    let plan = new_plan_row s document payload now c.working in
    import_result s plan.id c (import_plan s plan document now c.working)

unfoldable pub import_bytes :
    Surroundings → Bytes → String → Connection → Result StoredPlan × Connection
import_bytes s payload now c =
    import_document s payload now c (validate_plan_payload s.tools.codec payload)

abbrev version_of : Tools → Result StoredPlan → Result (Option ℕ)
version_of tools (error e) = error e
version_of tools (done plan) = elim (validate_plan_payload tools.codec plan.canonical_json) [
  | done document ↦ done (planning_policy_version document)
  | error e ↦ error e
]

unfoldable pub policy_version : Tools → ℕ → PlanTables → Result (Option ℕ)
policy_version tools plan_id tables = version_of tools (get_plan tools plan_id tables)
