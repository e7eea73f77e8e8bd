-- ===== src/Engine/Eligible.antt =====
-- `_eligible_plan`, `_require_current_apply_schema` and `abandon` of
-- src/kavita_ingest/apply_engine.py: whether a stored plan may be applied. A query sees the tables of
-- one connection.
pub mod Sound
pub mod Decided
use kavita_ingest.Prelude.{
  ℕ, suc, String, Bool, true, false, not, ◌&&◌, ◌||◌, Option, none, some, List, [], ◌∷◌, ◌==◌,
  string_Eq, nat_Eq, ltb, any, select, if◌then◌else◌,
}
use kavita_ingest.Json.{Json, get, truthy, as_number}
use kavita_ingest.Effect.{
  Result, done, error, Exception, Kind, exception, apply_refused, key_error, runtime_error,
  value_error,
}
use kavita_ingest.Plans.Rows.{
  PlanStatus, draft, approved, StoredPlan, Precondition, PlanTables, is_invalidated,
}
use kavita_ingest.Plans.Step.{Step, lift, pure, ◌>>=◌, ◌>>◌}
use kavita_ingest.Plans.Document.{
  validate_plan_payload, plan_items, has_current_policy, supported_versions, number_in,
}
use kavita_ingest.Plans.Store.{Tools, get_plan, mark_incompatible, is_superseded, legacy_message}
use kavita_ingest.Decisions.{DecisionRecord}
use kavita_ingest.RunGroups.{RunGroupDecision, is_for}

-- What the engine reads beside the plans.
pub record Current : Type 0 where
  pub tools : Tools
  pub decisions : List DecisionRecord
  pub run_decisions : List RunGroupDecision

-- SELECT max(id)
abbrev larger : ℕ → Option ℕ → ℕ
larger n none = n
larger n (some m) = if ltb n m then m else n

unfoldable pub greatest : {A : Type 0} → (A → ℕ) → List A → Option ℕ
greatest f [] = none
greatest f (x ∷ xs) = some (larger (f x) (greatest f xs))

unfoldable pub decision_head : String → List DecisionRecord → Option ℕ
decision_head fingerprint decisions =
    greatest (λ d. d.id) (select (λ d. d.source_fingerprint == fingerprint) decisions)

unfoldable pub run_head : String → List RunGroupDecision → Option ℕ
run_head key decisions = greatest (λ d. d.id) (select (is_for key "comic_vine") decisions)

-- n <> head, which selects nothing where the head is NULL
abbrev pub differs : ℕ → Option ℕ → Bool
differs n none = false
differs n (some head) = not (n == head)

-- n IS head
abbrev pub is_same : Option ℕ → Option ℕ → Bool
is_same none none = true
is_same none (some head) = false
is_same (some n) none = false
is_same (some n) (some head) = n == head

abbrev pub run_is_stale : Option String → Option ℕ → List RunGroupDecision → Bool
run_is_stale none decision decisions = false
run_is_stale (some key) decision decisions = not (is_same decision (run_head key decisions))

unfoldable pub has_stale_decision : ℕ → List DecisionRecord → List Precondition → Bool
has_stale_decision plan_id decisions ps =
    any
      (λ p.
        p.plan_id == plan_id
        && differs p.decision_head_id (decision_head p.source_fingerprint decisions))
      ps

unfoldable pub has_stale_run : ℕ → List RunGroupDecision → List Precondition → Bool
has_stale_run plan_id decisions ps =
    any
      (λ p. p.plan_id == plan_id && run_is_stale p.run_group_key p.run_group_decision_id decisions)
      ps

abbrev pub is_approved : PlanStatus → Bool
is_approved draft = false
is_approved approved = true

abbrev pub is_digest : Option String → String → Bool
is_digest none digest = false
is_digest (some d) digest = d == digest

-- The refusals of one plan, each with the condition under which it is raised, in their order.
abbrev pub Refusals : Type 0
Refusals = List (Bool × String)

unfoldable pub refuse_first : Refusals → Result (Unit {0})
refuse_first [] = done tt
refuse_first ((b, message) ∷ rest) =
    let later = refuse_first rest in if b then error (exception apply_refused message) else later

unfoldable pub standing : Current → StoredPlan → ℕ → PlanTables → Refusals
standing c plan plan_id tables =
    (
      not (is_approved plan.status && is_digest plan.approval_digest plan.sha256),
      "plan is not explicitly approved for its exact digest",
    )
    ∷ (
      not (number_in supported_versions (some plan.schema_version)),
      "unsupported plan schema version",
    )
    ∷ (is_invalidated plan_id tables.invalidations, "plan is invalidated")
    ∷ (is_superseded plan_id tables.supersessions, "plan is superseded")
    ∷ (
      has_stale_decision plan_id c.decisions tables.preconditions,
      "plan identity precondition is stale",
    )
    ∷ (
      has_stale_run plan_id c.run_decisions tables.preconditions,
      "plan run-group precondition is stale",
    )
    ∷ []

abbrev pub is_blocked_item : Json → Bool
is_blocked_item j = truthy (get "blocked" j) || truthy (get "conflicts" j)

abbrev pub is_empty : List Json → Bool
is_empty [] = true
is_empty (j ∷ rest) = false

unfoldable pub content : Json → Refusals
content document =
    (truthy (get "conflicts" document), "plan has unresolved plan-level conflicts")
    ∷ (any is_blocked_item (plan_items document), "plan contains blocked or conflicting actions")
    ∷ (is_empty (plan_items document), "plan has no actionable items")
    ∷ []

abbrev pub is_refusable : Kind → Bool
is_refusable key_error = true
is_refusable runtime_error = true
is_refusable value_error = true
is_refusable _ = false

abbrev pub refused : {A : Type 0} → Result A → Result A
refused (done a) = done a
refused (error e) = error (if is_refusable e.kind then exception apply_refused e.message else e)

-- A plan of an older policy is invalidated as it is refused.
unfoldable pub require_policy : ℕ → String → Json → Step (Unit {0})
require_policy plan_id now document tables =
    if has_current_policy document then (done tt, tables) else (
      error (exception apply_refused legacy_message),
      mark_incompatible plan_id legacy_message now tables,
    )

unfoldable pub eligible_plan : Current → ℕ → String → Step (StoredPlan × Json)
eligible_plan c plan_id now tables =
    (do
      plan ← lift (refused (get_plan (c.tools) plan_id tables))
      lift (refuse_first (standing c plan plan_id tables))
      document ← lift (validate_plan_payload c.tools.codec plan.canonical_json)
      require_policy plan_id now document
      lift (refuse_first (content document))
      pure (plan, document))
      tables

-- `_require_current_apply_schema`, true where nothing is raised
unfoldable pub has_current_schema : Json → Bool
has_current_schema document = number_in (3 ∷ []) (as_number (get "schema_version" document))
