-- ===== src/RunGroups.antt =====
-- `RunGroupRepository` and `constrain_to_selected_run` of src/kavita_ingest/run_groups.py: an
-- append-only table of decisions, and the plans that a new decision invalidates. An id is the number
-- of the row; a snapshot is the text that is stored.
pub mod History
use kavita_ingest.Plans.Rows.{Precondition, PlanTables, invalidate_where}
use kavita_ingest.Prelude.{
  ℕ, suc, ◌+◌, String, Bool, true, false, not, ◌&&◌, ◌||◌, Option, none, some, List, [], ◌∷◌, ◌++◌,
  ◌==◌, string_Eq, nat_Eq, any, length, select, last_of, if◌then◌else◌,
}

pub data RunGroupDecisionType : Type 0 where
  selected manual cleared : RunGroupDecisionType

pub record RunGroupDecision : Type 0 where
  pub id : ℕ
  pub group_key : String
  pub provider : String
  pub decision_type : RunGroupDecisionType
  pub provider_run_id : Option String
  pub run_snapshot : String
  pub created_at : String
  pub supersedes_id : Option ℕ

-- decision.active
abbrev pub is_active : RunGroupDecisionType → Bool
is_active RunGroupDecisionType.cleared = false
is_active _ = true

pub record Tables : Type 0 where
  pub decisions : List RunGroupDecision
  pub plans : PlanTables

abbrev pub is_for : String → String → RunGroupDecision → Bool
is_for group_key provider d = d.group_key == group_key && d.provider == provider

-- ORDER BY id
unfoldable pub history : String → String → List RunGroupDecision → List RunGroupDecision
history group_key provider decisions = select (is_for group_key provider) decisions

-- ORDER BY id DESC LIMIT 1
abbrev pub latest : String → String → Tables → Option RunGroupDecision
latest group_key provider tables = last_of (history group_key provider tables.decisions)

abbrev id_of : Option RunGroupDecision → Option ℕ
id_of none = none
id_of (some d) = some d.id

abbrev is_id : Option ℕ → ℕ → Bool
is_id none n = false
is_id (some m) n = m == n

abbrev is_key : Option String → String → Bool
is_key none key = false
is_key (some k) key = k == key

-- run_group_key=? AND run_group_decision_id IS NOT ?
abbrev pub is_stale : String → ℕ → Precondition → Bool
is_stale group_key decision_id p =
    is_key p.run_group_key group_key && not (is_id p.run_group_decision_id decision_id)

abbrev pub new_decision :
    String
    → String
    → RunGroupDecisionType
    → Option String
    → String
    → String
    → Tables
    → RunGroupDecision
new_decision group_key provider type provider_run_id snapshot now tables = record {
  id = suc (length tables.decisions);
  group_key = group_key;
  provider = provider;
  decision_type = type;
  provider_run_id = provider_run_id;
  run_snapshot = snapshot;
  created_at = now;
  supersedes_id = id_of (latest group_key provider tables);
}

-- `_add`
unfoldable pub add :
    String
    → String
    → RunGroupDecisionType
    → Option String
    → String
    → String
    → Tables
    → RunGroupDecision × Tables
add group_key provider type provider_run_id snapshot now tables =
    let d = new_decision group_key provider type provider_run_id snapshot now tables in
    (
      d,
      record tables {
        decisions = tables.decisions ++ d ∷ [];
        plans = record (tables.plans) {
          invalidations =
              invalidate_where (is_stale group_key d.id)
                "comic run-group decision changed after plan creation" now
                tables.plans.preconditions tables.plans.invalidations;
        };
      },
    )

-- `none` is the ValueError. `strip` is that of Python's texts.
unfoldable pub choose :
    (String → String)
    → String
    → String
    → String
    → String
    → Bool
    → String
    → Tables
    → Option (RunGroupDecision × Tables)
choose strip group_key provider provider_run_id snapshot by_hand now tables =
    if strip provider_run_id == ""
    then none
    else some (
        add group_key provider
          (if by_hand then RunGroupDecisionType.manual else RunGroupDecisionType.selected)
          (some provider_run_id) snapshot now tables)

abbrev cleared_after :
    String → String → String → Tables → Option RunGroupDecision → Option (RunGroupDecision × Tables)
cleared_after group_key provider now tables none = none
cleared_after group_key provider now tables (some d) =
    some (add group_key provider RunGroupDecisionType.cleared none "{}" now tables)

unfoldable pub clear : String → String → String → Tables → Option (RunGroupDecision × Tables)
clear group_key provider now tables =
    cleared_after group_key provider now tables (latest group_key provider tables)

-- `constrain_to_selected_run`, over the candidates' run ids.
abbrev has_run : Option String → Option String → Bool
has_run none run = false
has_run (some r) none = false
has_run (some r) (some run) = r == run

unfoldable pub keep_run : Option String → List (Option String) → List (Option String)
keep_run run [] = []
keep_run run (candidate ∷ rest) =
    let others = keep_run run rest in if has_run candidate run then candidate ∷ others else others

abbrev constrained :
    List (Option String) → RunGroupDecisionType → Option String → List (Option String)
constrained scores RunGroupDecisionType.cleared run = scores
constrained scores _ none = scores
constrained scores _ (some run) = keep_run (some run) scores

unfoldable pub constrain_to_selected_run :
    List (Option String) → Option RunGroupDecision → List (Option String)
constrain_to_selected_run scores none = scores
constrain_to_selected_run scores (some d) = constrained scores d.decision_type d.provider_run_id
