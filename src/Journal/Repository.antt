-- ===== src/Journal/Repository.antt =====
-- `JournalRepository` of src/kavita_ingest/apply_journal.py, each method an action on the tables.
use kavita_ingest.Prelude.{
  ℕ, suc, String, Bool, true, false, not, ◌&&◌, ◌||◌, Option, none, some, List, [], ◌∷◌, ◌++◌, ◌==◌,
  string_Eq, nat_Eq, any, ltb, if◌then◌else◌,
}
use kavita_ingest.Journal.States.{RunState, ItemState, state_eq, state_Eq, may_become}
use kavita_ingest.Journal.Rows.{
  ApplyRun, ApplyItem, Db, Detail, Field, Seed, names, set_fields, item_event, run_event,
}
use kavita_ingest.Effect.{
  M, Result, done, error, exception, key_error, value_error, runtime_error, database_error,
  transaction, refuse_if, ◌>>=◌, ◌>>◌,
}

unfoldable pub find_item : String → String → List ApplyItem → Option ApplyItem
find_item run_id item_id [] = none
find_item run_id item_id (item ∷ rest) =
    if names run_id item_id item then some item else find_item run_id item_id rest

unfoldable pub find_run : String → List ApplyRun → Option ApplyRun
find_run run_id [] = none
find_run run_id (run ∷ rest) = if run.id == run_id then some run else find_run run_id rest

-- A statement that only reads.
abbrev pub found {ℓ} : {A : Type ℓ} → Option A → Db → Result (A × Db)
found none db = error (exception key_error "row does not exist")
found (some a) db = done (a, db)

unfoldable pub get_item : String → String → M ApplyItem
get_item run_id item_id = transaction (λ env t db. found (find_item run_id item_id db.items) db)

unfoldable pub get_run : String → M ApplyRun
get_run run_id = transaction (λ env t db. found (find_run run_id db.runs) db)

unfoldable pub rows_of : String → List ApplyItem → List ApplyItem
rows_of run_id [] = []
rows_of run_id (item ∷ rest) =
    let others = rows_of run_id rest in if item.run_id == run_id then item ∷ others else others

unfoldable pub items : String → M (List ApplyItem)
items run_id = transaction (λ env t db. done (rows_of run_id db.items, db))

-- ORDER BY started_at DESC LIMIT 1
unfoldable pub newest : ℕ → List ApplyRun → Option ApplyRun → Option ApplyRun
newest plan_id [] best = best
newest plan_id (run ∷ rest) best = newest plan_id rest (
    if run.plan_id == plan_id
    then elim best [
      | none ↦ some run
      | some b ↦ if ltb b.started_at run.started_at then some run else some b
    ]
    else best)

unfoldable pub latest_for_plan : ℕ → M (Option ApplyRun)
latest_for_plan plan_id = transaction (λ env t db. done (newest plan_id db.runs none, db))

-- The unique index `apply_runs_one_active_plan` of migrations/0004_apply_journal.sql.
abbrev pub is_active : RunState → Bool
is_active RunState.preflighting = true
is_active RunState.running = true
is_active RunState.recovery_required = true
is_active _ = false

abbrev active_for : ℕ → String → ApplyRun → Bool
active_for plan_id run_id run =
    run.plan_id == plan_id && not (run.id == run_id) && is_active run.status

abbrev duplicate_run : ℕ → String → Db → Bool
duplicate_run plan_id run_id db =
    any (λ run. run.id == run_id) db.runs || any (active_for plan_id run_id) db.runs

abbrev pub seeded : String → ℕ → Seed → ApplyItem
seeded run_id now s = record {
  run_id = run_id;
  item_id = s.item_id;
  state = ItemState.pending;
  source_path = s.source_path;
  planned_source_hash = s.planned_source_hash;
  staging_path = none;
  staged_hash = none;
  staged_size = none;
  verification = none;
  destination_path = s.destination_path;
  destination_hash = none;
  lifecycle_policy = s.lifecycle_policy;
  archive_path = s.archive_path;
  cleanup_path = none;
  updated_at = now;
  completed_at = none;
  error = none;
  recovery_detail = none;
}

-- The loop over `items`; a repeated item breaks the primary key, and the transaction with it.
unfoldable pub insert_items : String → ℕ → List Seed → Db → Result Db
insert_items run_id now [] db = done db
insert_items run_id now (s ∷ rest) db =
    let inserted = insert_items run_id now rest (record db {
      items = db.items ++ seeded run_id now s ∷ [];
      events =
          db.events ++ item_event run_id s.item_id none ItemState.pending now Detail.nothing ∷ [];
    }) in
    if any (names run_id s.item_id) db.items
    then error (exception database_error "UNIQUE constraint failed")
    else inserted

abbrev new_run : String → ℕ → ℕ → String → ApplyRun
new_run run_id now plan_id digest = record {
  id = run_id;
  plan_id = plan_id;
  plan_digest = digest;
  status = RunState.preflighting;
  started_at = now;
  updated_at = now;
  completed_at = none;
  error = none;
}

abbrev returning {ℓ} : {A : Type ℓ} → A → Result Db → Result (A × Db)
returning a (done db) = done (a, db)
returning a (error e) = error e

unfoldable pub insert_run : ℕ → String → List Seed → String → ℕ → Db → Result (String × Db)
insert_run plan_id digest seeds run_id now db =
    if duplicate_run plan_id run_id db
    then error (exception database_error "UNIQUE constraint failed")
    else returning run_id (
        insert_items run_id now seeds
          (record db { runs = db.runs ++ new_run run_id now plan_id digest ∷ [] }))

unfoldable pub create_run : ℕ → String → List Seed → M ApplyRun
create_run plan_id digest seeds = do
  run_id ← transaction (λ env t. insert_run plan_id digest seeds (env.random t) (env.now t))
  get_run run_id

-- SET state=?, updated_at=?, …, and completed_at with the last state
abbrev pub completed : ItemState → ℕ → ApplyItem → ApplyItem
completed ItemState.complete now item = record item { completed_at = some now }
completed _ now item = item

abbrev pub moved : ItemState → List Field → ℕ → ApplyItem → ApplyItem
moved to fields now item =
    completed to now (set_fields fields (record item { state = to; updated_at = now }))

abbrev pub selects : String → String → ItemState → ApplyItem → Bool
selects run_id item_id state item = names run_id item_id item && state_eq item.state state

unfoldable pub update_rows :
    (ApplyItem → Bool) → (ApplyItem → ApplyItem) → List ApplyItem → List ApplyItem
update_rows test f [] = []
update_rows test f (item ∷ rest) = (if test item then f item else item) ∷ update_rows test f rest

unfoldable pub row_count : (ApplyItem → Bool) → List ApplyItem → ℕ
row_count test [] = 0
row_count test (item ∷ rest) =
    let others = row_count test rest in if test item then suc others else others

unfoldable pub write_transition :
    String → String → ItemState → ItemState → Detail → List Field → ℕ → Db → Result (Unit {0} × Db)
write_transition run_id item_id from to detail fields now db =
    if row_count (selects run_id item_id from) db.items == 1
    then done (
      tt,
      record db {
        items = update_rows (selects run_id item_id from) (moved to fields now) db.items;
        events = db.events ++ item_event run_id item_id (some from) to now detail ∷ [];
      },
    )
    else error (exception runtime_error "journal item state changed concurrently")

unfoldable pub transition : String → String → ItemState → Detail → List Field → M ApplyItem
transition run_id item_id to detail fields = do
  current ← get_item run_id item_id
  refuse_if (not (may_become current.state to)) value_error "invalid journal transition"
  transaction (λ env t. write_transition run_id item_id current.state to detail fields (env.now t))
  get_item run_id item_id

abbrev stamp_of : RunState → ℕ → Option ℕ
stamp_of RunState.complete now = some now
stamp_of _ now = none

abbrev pub ran : RunState → Option String → ℕ → ApplyRun → ApplyRun
ran status message now run = record run {
  status = status;
  updated_at = now;
  completed_at = stamp_of status now;
  error = message;
}

unfoldable pub update_runs : String → (ApplyRun → ApplyRun) → List ApplyRun → List ApplyRun
update_runs run_id f [] = []
update_runs run_id f (run ∷ rest) =
    (if run.id == run_id then f run else run) ∷ update_runs run_id f rest

abbrev breaks_index : String → RunState → Db → Bool
breaks_index run_id status db = is_active status && elim (find_run run_id db.runs) [
  | none ↦ false
  | some run ↦ any (active_for run.plan_id run_id) db.runs
]

unfoldable pub write_run_state : String → RunState → Option String → ℕ → Db → Result (Unit {0} × Db)
write_run_state run_id status message now db =
    if breaks_index run_id status db
    then error (exception database_error "UNIQUE constraint failed")
    else done (
      tt,
      record db {
        runs = update_runs run_id (ran status message now) db.runs;
        events = db.events ++ run_event run_id status now (Detail.run_error message) ∷ [];
      },
    )

unfoldable pub set_run_state : String → RunState → Option String → M ApplyRun
set_run_state run_id status message = do
  transaction (λ env t. write_run_state run_id status message (env.now t))
  get_run run_id

abbrev pub noted : String → ℕ → ApplyItem → ApplyItem
noted message now item = record item {
  updated_at = now;
  error = some message;
  recovery_detail = some message;
}

unfoldable pub write_error : String → String → ItemState → String → ℕ → Db → Result (Unit {0} × Db)
write_error run_id item_id state message now db = done (
  tt,
  record db {
    items = update_rows (names run_id item_id) (noted message now) db.items;
    events =
        db.events ++ item_event run_id item_id (some state) state now (Detail.noted message) ∷ [];
  },
)

unfoldable pub note_error : String → String → String → M ApplyItem
note_error run_id item_id message = do
  current ← get_item run_id item_id
  transaction (λ env t. write_error run_id item_id current.state message (env.now t))
  get_item run_id item_id
