-- ===== src/Journal/Rows.antt =====
-- The rows of the journal's tables, and what an update writes to them
-- (src/kavita_ingest/apply_journal.py). A time stamp is a number that grows with the time: the
-- source's ISO text in UTC sorts in the same order.
use kavita_ingest.Prelude.{ℕ, String, Bool, ◌&&◌, Option, some, List, [], ◌∷◌, ◌==◌, string_Eq}
use kavita_ingest.Filesystem.State.{FilePath}
use kavita_ingest.Journal.States.{RunState, ItemState, Policy, state_Eq}

-- The evidence that a verified output carries: its hash, its size, and the checks that passed.
pub record Evidence : Type 0 where
  pub sha256 : String
  pub size : ℕ
  pub checks : List String

pub record ApplyRun : Type 0 where
  pub id : String
  pub plan_id : ℕ
  pub plan_digest : String
  pub status : RunState
  pub started_at : ℕ
  pub updated_at : ℕ
  pub completed_at : Option ℕ
  pub error : Option String

-- `verification` is the decoded `verification_json`; `none` is the empty dictionary.
pub record ApplyItem : Type 0 where
  pub run_id : String
  pub item_id : String
  pub state : ItemState
  pub source_path : FilePath
  pub planned_source_hash : String
  pub staging_path : Option FilePath
  pub staged_hash : Option String
  pub staged_size : Option ℕ
  pub verification : Option Evidence
  pub destination_path : FilePath
  pub destination_hash : Option String
  pub lifecycle_policy : Policy
  pub archive_path : Option FilePath
  pub cleanup_path : Option FilePath
  pub updated_at : ℕ
  pub completed_at : Option ℕ
  pub error : Option String
  pub recovery_detail : Option String

-- The dictionary of an event's details.
pub data Detail : Type 0 where
  nothing : Detail
  evidence : Evidence → Detail
  labelled : String → String → Detail
  noted : String → Detail
  run_error : Option String → Detail
  preflight_errors : List String → Detail

-- What an event says happened: a transition of an item, or a new status of the run.
pub data Event : Type 0 where
  item_event : String → String → Option ItemState → ItemState → ℕ → Detail → Event
  run_event : String → RunState → ℕ → Detail → Event

-- The columns that `transition` may be given beside the state.
pub data Field : Type 0 where
  staging_path : FilePath → Field
  staged_hash : String → Field
  staged_size : ℕ → Field
  verification : Evidence → Field
  destination_hash : String → Field
  cleanup_path : Option FilePath → Field
  recovery_detail : String → Field
  error : String → Field

abbrev pub set_field : Field → ApplyItem → ApplyItem
set_field (staging_path p) item = record item { staging_path = some p }
set_field (staged_hash h) item = record item { staged_hash = some h }
set_field (staged_size n) item = record item { staged_size = some n }
set_field (verification e) item = record item { verification = some e }
set_field (destination_hash h) item = record item { destination_hash = some h }
set_field (cleanup_path p) item = record item { cleanup_path = p }
set_field (recovery_detail s) item = record item { recovery_detail = some s }
set_field (error s) item = record item { error = some s }

abbrev pub set_fields : List Field → ApplyItem → ApplyItem
set_fields [] item = item
set_fields (f ∷ fs) item = set_fields fs (set_field f item)

-- The journal's tables, rows in the order of their ids.
pub record Db : Type 0 where
  pub runs : List ApplyRun
  pub items : List ApplyItem
  pub events : List Event

abbrev pub names : String → String → ApplyItem → Bool
names run_id item_id item = item.run_id == run_id && item.item_id == item_id

-- What `create_run` is told of each item.
pub record Seed : Type 0 where
  pub item_id : String
  pub source_path : FilePath
  pub planned_source_hash : String
  pub destination_path : FilePath
  pub lifecycle_policy : Policy
  pub archive_path : Option FilePath
