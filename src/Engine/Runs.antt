-- ===== src/Engine/Runs.antt =====
-- The loops over the items of a run, and what becomes of the run: `_apply_locked`,
-- `_recover_locked`, `_finalize`, `_summary` of src/kavita_ingest/apply_engine.py,
-- from the prepared items on. The publication report and the progress hook are left out.
use kavita_ingest.Prelude.{
  ℕ, ◌+◌, String, Bool, true, false, not, Option, none, some, List, [], ◌∷◌, ◌==◌, string_Eq,
  nat_Eq, lookup, insert, all, any, if◌then◌else◌,
}
use kavita_ingest.Journal.States.{RunState, ItemState, one_of, state_eq, state_Eq}
use kavita_ingest.Journal.Rows.{ApplyRun, ApplyItem, Seed, Detail}
use kavita_ingest.Journal.Repository.{items, latest_for_plan, transition, set_run_state}
use kavita_ingest.Effect.{
  M, apply_refused, key_error, pure, catch, refuse_if, from_option, ◌>>=◌, ◌>>◌,
}
use kavita_ingest.Engine.Item.{PreparedItem, Externals}
use kavita_ingest.Engine.Execute.{execute_item, no_fields}
use kavita_ingest.Engine.Failures.{mark}
use kavita_ingest.Engine.Recover.{recover_item, recovery_preflight}

-- `ApplySummary`
pub record Summary : Type 0 where
  pub run_id : String
  pub plan_id : ℕ
  pub status : RunState
  pub counts : List (ItemState × ℕ)

abbrev or_zero : Option ℕ → ℕ
or_zero none = 0
or_zero (some n) = n

unfoldable pub count_states : List ApplyItem → List (ItemState × ℕ) → List (ItemState × ℕ)
count_states [] counts = counts
count_states (item ∷ rest) counts =
    count_states rest (insert item.state (or_zero (lookup item.state counts) + 1) counts)

unfoldable pub summary : ApplyRun → M Summary
summary run = do
  rows ← items run.id
  pure (record {
    run_id = run.id;
    plan_id = run.plan_id;
    status = run.status;
    counts = count_states rows [];
  })

abbrev pub needs_recovery : List ItemState
needs_recovery =
    ItemState.recovery_required ∷ ItemState.failed ∷ ItemState.committing ∷ ItemState.committed
    ∷ ItemState.cleanup_pending ∷ []

unfoldable pub final_state : List ApplyItem → RunState
final_state rows =
    if all (λ item. state_eq item.state ItemState.complete) rows
    then RunState.complete
    else if any (λ item. one_of needs_recovery item.state) rows
    then RunState.recovery_required
    else RunState.failed

unfoldable pub finalize : String → M Summary
finalize run_id = do
  rows ← items run_id
  run ← set_run_state run_id (final_state rows) none
  summary run

unfoldable pub apply_one : Externals → String → PreparedItem → M (Unit {0})
apply_one x run_id item =
    catch (execute_item x run_id item) (λ e. mark run_id item.item_id e e.kind)

unfoldable pub apply_each : Externals → String → List PreparedItem → M (Unit {0})
apply_each x run_id [] = pure tt
apply_each x run_id (item ∷ rest) = do apply_one x run_id item; apply_each x run_id rest

unfoldable pub preflighted : String → List PreparedItem → M (Unit {0})
preflighted run_id [] = pure tt
preflighted run_id (item ∷ rest) = do
  transition run_id item.item_id ItemState.preflight_ok Detail.nothing no_fields
  preflighted run_id rest

-- prepared[recorded.item_id]: of two items with one id the dictionary holds the later.
abbrev pub or_this : Option PreparedItem → Bool → PreparedItem → Option PreparedItem
or_this (some later) same item = some later
or_this none true item = some item
or_this none false item = none

unfoldable pub prepared_for : String → List PreparedItem → Option PreparedItem
prepared_for item_id [] = none
prepared_for item_id (item ∷ rest) =
    or_this (prepared_for item_id rest) (item.item_id == item_id) item

abbrev pub recover_prepared : Externals → ApplyItem → List PreparedItem → M (Unit {0})
recover_prepared x recorded prepared = do
  item ← from_option (prepared_for recorded.item_id prepared) key_error "item"
  recovery_preflight x recorded item
  recover_item x recorded item

unfoldable pub recover_one : Externals → String → List PreparedItem → ApplyItem → M (Unit {0})
recover_one x run_id prepared recorded =
    catch (recover_prepared x recorded prepared) (λ e. mark run_id recorded.item_id e e.kind)

unfoldable pub recover_each : Externals → String → List PreparedItem → List ApplyItem → M (Unit {0})
recover_each x run_id prepared [] = pure tt
recover_each x run_id prepared (recorded ∷ rest) = do
  recover_one x run_id prepared recorded
  recover_each x run_id prepared rest

abbrev pub is_complete : RunState → Bool
is_complete RunState.complete = true
is_complete _ = false

-- `_recover_locked` from the plan's run on
unfoldable pub recover_run : Externals → String → List PreparedItem → ApplyRun → M Summary
recover_run x digest prepared run = do
  refuse_if (not (run.plan_digest == digest)) apply_refused
      "apply run digest does not match the approved immutable plan"
  if is_complete run.status then summary run else (do
    rows ← items run.id
    refuse_if (any (λ item. state_eq item.state ItemState.stale) rows) apply_refused
        "apply run contains stale actions; create a new plan"
    set_run_state run.id RunState.running none
    now ← items run.id
    recover_each x run.id prepared now
    finalize run.id)

unfoldable pub recover_locked : Externals → ℕ → String → List PreparedItem → M Summary
recover_locked x plan_id digest prepared = do
  latest ← latest_for_plan plan_id
  run ← from_option latest apply_refused "plan has no apply run to recover"
  recover_run x digest prepared run

-- `status`
unfoldable pub status : ℕ → M (Option Summary)
status plan_id = do latest ← latest_for_plan plan_id; status_of latest
  where
    status_of : Option ApplyRun → M (Option Summary)
    status_of none = pure none
    status_of (some run) = do s ← summary run; pure (some s)

-- `_journal_seed`
unfoldable pub journal_seed : PreparedItem → Seed
journal_seed item = record {
  item_id = item.item_id;
  source_path = item.source;
  planned_source_hash = item.source_hash;
  destination_path = item.destination;
  lifecycle_policy = item.lifecycle_policy;
  archive_path = item.archive_path;
}
