-- ===== src/Plans/Store.antt =====
-- `PlanStore` of src/kavita_ingest/plan_store.py, but for `export`. A function that only
-- reads takes the tables as its connection sees them; one that writes takes the connection.
use kavita_ingest.Prelude.{
  ℕ, String, Bool, true, false, not, ◌&&◌, ◌||◌, Option, none, some, List, [], ◌∷◌, ◌++◌, ◌==◌,
  string_Eq, nat_Eq, any, length, if◌then◌else◌,
}
use kavita_ingest.Filesystem.State.{Bytes}
use kavita_ingest.Journal.Rows.{ApplyRun}
use kavita_ingest.Json.{Json, get, as_text, as_int, truthy}
use kavita_ingest.Effect.{Result, done, error, exception, value_error, key_error, runtime_error}
use kavita_ingest.Plans.Rows.{
  PlanStatus, draft, approved, StoredPlan, IndexRow, Supersession, PlanTables, Connection, commit,
  is_invalidated, invalidate,
}
use kavita_ingest.Plans.Document.{Codec, validate_plan_payload, plan_items, has_current_policy}

-- What the store is given beside `json`: the hash of a payload, and Python's `str` and `int` of
-- values that are neither texts nor integers.
pub record Tools : Type 0 where
  pub codec : Codec
  pub sha256 : Bytes → String
  pub str : Json → String
  pub int : Json → Option ℕ

abbrev pub str_of : Tools → Json → String
str_of tools j = elim (as_text j) [ none ↦ tools.str j | some s ↦ s ]

abbrev pub int_of : Tools → Json → Option ℕ
int_of tools j = elim (as_int j) [ none ↦ tools.int j | some n ↦ some n ]

unfoldable pub find_plan : ℕ → List StoredPlan → Option StoredPlan
find_plan plan_id [] = none
find_plan plan_id (plan ∷ rest) =
    let later = find_plan plan_id rest in if plan.id == plan_id then some plan else later

abbrev pub legacy_message : String
legacy_message =
    "This plan was created with an older planning-policy version and does not contain publication-permission policy. Regenerate the plan with the current version before applying."

abbrev pub validated : StoredPlan → Result Json → Result StoredPlan
validated plan (done document) = done plan
validated plan (error e) = error e

-- `_verify`
unfoldable pub verify_plan : Tools → StoredPlan → Result StoredPlan
verify_plan tools plan =
    if not (length plan.canonical_json == plan.byte_length)
    then error (exception runtime_error "stored plan byte length is corrupt")
    else if not (tools.sha256 plan.canonical_json == plan.sha256)
    then error (exception runtime_error "stored plan digest is corrupt")
    else validated plan (validate_plan_payload tools.codec plan.canonical_json)

abbrev pub verified : Tools → Option StoredPlan → Result StoredPlan
verified tools none = error (exception key_error "plan does not exist")
verified tools (some plan) = verify_plan tools plan

unfoldable pub get_plan : Tools → ℕ → PlanTables → Result StoredPlan
get_plan tools plan_id tables = verified tools (find_plan plan_id tables.plans)

-- `_mark_incompatible`
abbrev pub mark_incompatible : ℕ → String → String → PlanTables → PlanTables
mark_incompatible plan_id reason now tables = record tables {
  invalidations = invalidate plan_id reason now tables.invalidations;
}

abbrev pub is_superseded : ℕ → List Supersession → Bool
is_superseded plan_id rows = any (λ row. row.old_plan_id == plan_id) rows

abbrev pub is_draft : PlanStatus → Bool
is_draft draft = true
is_draft approved = false

-- UPDATE plans SET status='approved', approved_at=?, approval_digest=? WHERE id=? AND status='draft'
unfoldable pub approve_rows : ℕ → String → String → List StoredPlan → List StoredPlan
approve_rows plan_id digest now [] = []
approve_rows plan_id digest now (plan ∷ rest) =
    (if plan.id == plan_id && is_draft plan.status
      then record plan { status = approved; approved_at = some now; approval_digest = some digest }
      else plan)
    ∷ approve_rows plan_id digest now rest

abbrev pub blocks : Json → Bool
blocks document =
    truthy (get "conflicts" document)
    || any (λ item. truthy (get "blocked" item)) (plan_items document)

abbrev pub approve_document :
    Tools
    → ℕ
    → String
    → String
    → StoredPlan
    → Connection
    → Result Json
    → Result StoredPlan × Connection
approve_document tools plan_id digest now plan c (error e) = (error e, c)
approve_document tools plan_id digest now plan c (done document) =
    if not (has_current_policy document)
    then (
      error (exception value_error legacy_message),
      commit (mark_incompatible plan_id legacy_message now c.working),
    )
    else if blocks document
    then (error (exception value_error "plans with unresolved conflicts cannot be approved"), c)
    else if not (is_draft plan.status)
    then (error (exception value_error "only a draft plan can be approved"), c)
    else let after = record (c.working) {
      plans = approve_rows plan_id digest now c.working.plans;
    } in
      (get_plan tools plan_id after, commit after)

abbrev pub approve_plan :
    Tools → ℕ → String → String → Connection → Result StoredPlan → Result StoredPlan × Connection
approve_plan tools plan_id digest now c (error e) = (error e, c)
approve_plan tools plan_id digest now c (done plan) =
    if not (digest == plan.sha256)
    then (
      error (
          exception value_error
            "approval digest does not match the exact authoritative plan bytes"),
      c,
    )
    else if is_invalidated plan_id c.working.invalidations
    then (error (exception value_error "invalidated plan cannot be approved"), c)
    else if is_superseded plan_id c.working.supersessions
    then (error (exception value_error "superseded plan cannot be approved"), c)
    else approve_document tools plan_id digest now plan c
        (validate_plan_payload tools.codec plan.canonical_json)

unfoldable pub approve : Tools → ℕ → String → String → Connection → Result StoredPlan × Connection
approve tools plan_id digest now c =
    approve_plan tools plan_id digest now c (get_plan tools plan_id c.working)

-- `_supersede_prior_unapplied_plans`: SELECT DISTINCT over the pairs of index rows with one source.
abbrev shares_source : ℕ → List IndexRow → IndexRow → Bool
shares_source plan_id index old =
    any (λ new. new.plan_id == plan_id && new.source_fingerprint == old.source_fingerprint) index

abbrev is_applied : List ApplyRun → ℕ → Bool
is_applied runs plan_id = any (λ run. run.plan_id == plan_id) runs

abbrev pub replaces : List ApplyRun → ℕ → List IndexRow → IndexRow → Bool
replaces runs plan_id index old =
    not (old.plan_id == plan_id)
    && (shares_source plan_id index old && not (is_applied runs old.plan_id))

unfoldable pub supersede :
    (IndexRow → Bool) → ℕ → String → List IndexRow → List Supersession → List Supersession
supersede test plan_id now [] rows = rows
supersede test plan_id now (old ∷ rest) rows = supersede test plan_id now rest (
    if test old && not (is_superseded old.plan_id rows)
    then rows
      ++ record { old_plan_id = old.plan_id; new_plan_id = plan_id; superseded_at = now } ∷ []
    else rows)
