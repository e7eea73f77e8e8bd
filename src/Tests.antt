-- ===== src/Tests.antt =====
-- Concrete worlds, and the theorems applied to them.
mod Limits
mod Groups
mod Archives
mod Rollbacks
mod Sources
mod Plans
mod Requests
mod Refused
mod Numbers
mod Closing
mod Moves
use kavita_ingest.Prelude.{
  All, Any, ◌≡◌, ◌↔◌, String, refl, true, inr, none, some, [], ◌∷◌, nat_eq, if◌then◌else◌,
}
use kavita_ingest.Filesystem.State.{Files, Bytes, directory, file}
use kavita_ingest.Filesystem.Kept.{IsBounded, IsBounded-of, Kept}
use kavita_ingest.Journal.States.{
  one_of, RunState, may_become, allowed_transitions, ItemState, move_after_verify,
}
use kavita_ingest.Journal.Rows.{ApplyRun, ApplyItem, Db, Detail, item_event}
use kavita_ingest.Journal.Replay.{IsSound, replay}
use kavita_ingest.Effect.{Env, World, proceed, crash}
use kavita_ingest.Engine.Item.{PreparedItem, Verification, Staged, Externals}
use kavita_ingest.Engine.Runs.{apply_each, recover_each}
use kavita_ingest.Engine.Assurance.{
  IsConsistent, TouchableBy, TouchableIn, apply_each-no_clobber, apply_each-journal,
  recover_each-no_clobber, recover_each-journal,
}

abbrev digest : Bytes → String
digest [] = "empty"
digest (b ∷ bytes) = "digest"

-- Nothing fails.
abbrev pub calm : Env
calm = record { fault = λ t. proceed; random = λ t. "token"; now = λ t. t; sha256 = digest }

-- The process dies at the ninth effect.
abbrev pub fatal : Env
fatal = record {
  fault = λ t. if nat_eq t 8 then crash else proceed;
  random = λ t. "token";
  now = λ t. t;
  sha256 = digest;
}

abbrev passed : Verification
passed = record { valid = true; checks = "opened" ∷ []; errors = [] }

abbrev pub tools : Externals
tools = record {
  stage = λ item bytes. Staged.written bytes passed;
  verify = λ item original candidate. passed;
  package_version = λ name. "1.0";
  calibre = some "calibre 7.0";
  unrar = none;
}

abbrev pub book : PreparedItem
book = record {
  item_id = "i1";
  library_root = "library" ∷ [];
  writer_versions = [];
  source = "a.epub" ∷ "inbox" ∷ [];
  source_hash = "digest";
  source_size = 2;
  source_format = "epub";
  destination = "A.epub" ∷ "library" ∷ [];
  lifecycle_policy = move_after_verify;
  archive_path = none;
  staging_directory = "i1" ∷ "r1" ∷ ".kavita-ingest-staging" ∷ "library" ∷ [];
  published_file_mode = 420;
  created_directory_mode = 493;
}

abbrev pub start_files : Files
start_files = record {
  nodes =
      ([], directory 493)
      ∷ ("inbox" ∷ [], directory 493)
      ∷ ("library" ∷ [], directory 493)
      ∷ ("a.epub" ∷ "inbox" ∷ [], file 0)
      ∷ [];
  inodes = (0, record { bytes = 7 ∷ 9 ∷ []; mode = 420 }) ∷ [];
  next = 1;
}

abbrev pub row : ApplyItem
row = record {
  run_id = "r1";
  item_id = "i1";
  state = ItemState.preflight_ok;
  source_path = "a.epub" ∷ "inbox" ∷ [];
  planned_source_hash = "digest";
  staging_path = none;
  staged_hash = none;
  staged_size = none;
  verification = none;
  destination_path = "A.epub" ∷ "library" ∷ [];
  destination_hash = none;
  lifecycle_policy = move_after_verify;
  archive_path = none;
  cleanup_path = none;
  updated_at = 0;
  completed_at = none;
  error = none;
  recovery_detail = none;
}

abbrev pub run : ApplyRun
run = record {
  id = "r1";
  plan_id = 4;
  plan_digest = "plan";
  status = RunState.running;
  started_at = 0;
  updated_at = 0;
  completed_at = none;
  error = none;
}

abbrev pub start_db : Db
start_db = record {
  runs = run ∷ [];
  items = row ∷ [];
  events =
      item_event "r1" "i1" none ItemState.pending 0 Detail.nothing
      ∷ item_event "r1" "i1" (some ItemState.pending) ItemState.preflight_ok 0 Detail.nothing
      ∷ [];
}

abbrev pub start : World
start = record { files = start_files; db = start_db; tick = 0 }

pub start-IsBounded : IsBounded start_files
start-IsBounded = IsBounded-of start_files refl

start-IsConsistent : IsConsistent start_db
unfolding replay may_become allowed_transitions
start-IsConsistent = record { valid = (refl, (inr refl, tt)); replayed = (refl, tt) }

apply_each-no_clobber_example :
    Kept start_files
      (TouchableBy (book ∷ []))
      (apply_each tools "r1" (book ∷ []) fatal start).1.files
apply_each-no_clobber_example =
    apply_each-no_clobber fatal tools "r1" (book ∷ []) start start-IsBounded

apply_each-journal_example : IsSound start_db (apply_each tools "r1" (book ∷ []) calm start).1.db
apply_each-journal_example =
    apply_each-journal calm tools "r1" (book ∷ []) start start-IsBounded start-IsConsistent

recover_each-no_clobber_example :
    Kept start_files
      (TouchableIn (book ∷ []) (row ∷ []))
      (recover_each tools "r1" (book ∷ []) (row ∷ []) fatal start).1.files
recover_each-no_clobber_example =
    recover_each-no_clobber fatal tools "r1" (book ∷ []) start start-IsBounded (row ∷ [])

recover_each-journal_example :
    IsSound start_db (recover_each tools "r1" (book ∷ []) (row ∷ []) calm start).1.db
recover_each-journal_example =
    recover_each-journal calm tools "r1" (book ∷ []) start start-IsBounded (row ∷ [])
      start-IsConsistent
