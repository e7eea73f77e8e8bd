-- ===== src/Engine/Execute.antt =====
-- From staging to the end of the lifecycle: `_execute_item` of
-- src/kavita_ingest/apply_engine.py and the methods that it calls. The hooks that inject faults and
-- show progress do nothing by default and are left out.
use kavita_ingest.Prelude.{
  ℕ, ◌%◌, String, Bool, true, false, not, Option, none, some, List, [], ◌∷◌, ◌==◌, nat_Eq,
  string_Eq, length,
}
use kavita_ingest.Filesystem.State.{FilePath, parent, Inode, exists, is_file, stat}
use kavita_ingest.Journal.States.{ItemState, Policy, preserve, archive_after_verify}
use kavita_ingest.Journal.Rows.{
  Evidence, Detail, Field, staging_path, staged_hash, staged_size, verification, destination_hash,
  cleanup_path,
}
use kavita_ingest.Journal.Repository.{transition}
use kavita_ingest.Effect.{
  Exception, M, os_error, value_error, stale_plan, apply_refused, key_error, destination_exists,
  is_os_error, pure, rethrow, look, catch, refuse_if, from_option, ◌>>=◌, ◌>>◌,
}
use kavita_ingest.Linux.{
  rmdir, replace, read, sha256_file, random_text, ensure_directory, set_file_mode,
  make_file_durable, commit, durable_unlink, copy_for_archive,
}
use kavita_ingest.Engine.Item.{
  PreparedItem, Verification, Staged, written, failed, Externals, staging_name,
}

unfoldable pub revalidate_source : PreparedItem → M (Unit {0})
revalidate_source item = do
  there ← look (is_file item.source)
  refuse_if (not there) stale_plan "planned source disappeared"
  digest ← sha256_file item.source
  refuse_if (not (digest == item.source_hash)) stale_plan "planned source fingerprint changed"

unfoldable pub require_valid : Verification → M (Unit {0})
require_valid v = refuse_if (not v.valid) value_error "verification failed"

-- What a writer does with the staged file: it is finished under another name and put in its place,
-- which replaces a file that is there. The writer's own temporary files are left out.
abbrev pub stage_result : FilePath → Staged → M Verification
stage_result staging (written bytes v) = do replace staging bytes 420; pure v
stage_result staging (failed none e) = rethrow e
stage_result staging (failed (some bytes) e) = do replace staging bytes 420; rethrow e

-- WriterDispatcher.stage and WriterDispatcher.verify
unfoldable pub stage : Externals → PreparedItem → FilePath → M Verification
stage x item staging = do bytes ← read item.source; stage_result staging (x.stage item bytes)

unfoldable pub verify : Externals → PreparedItem → FilePath → M Verification
verify x item candidate = do
  original ← read item.source
  bytes ← read candidate
  pure (x.verify item original bytes)

abbrev size_of : Option Inode → ℕ
size_of none = 0
size_of (some d) = length d.bytes

-- `_output_evidence`, without the archive's inventory and the page count, which nothing reads.
unfoldable pub output_evidence : FilePath → Verification → M Evidence
output_evidence p v = do
  digest ← sha256_file p
  size ← look (λ fs. size_of (stat p fs))
  pure (record { sha256 = digest; size = size; checks = v.checks })

abbrev mode_of : Option Inode → ℕ
mode_of none = 0
mode_of (some d) = d.mode % 512

unfoldable pub verify_committed : Externals → PreparedItem → Option Evidence → M (Unit {0})
verify_committed x item recorded = do
  there ← look (is_file item.destination)
  refuse_if (not there) os_error "committed destination is missing"
  evidence ← from_option recorded key_error "size"
  size ← look (λ fs. size_of (stat item.destination fs))
  refuse_if (not (size == evidence.size)) os_error
      "committed destination size differs from verified staging output"
  digest ← sha256_file item.destination
  refuse_if (not (digest == evidence.sha256)) os_error
      "committed destination hash differs from verified staging output"
  mode ← look (λ fs. mode_of (stat item.destination fs))
  refuse_if (not (mode == item.published_file_mode)) os_error
      "committed destination permissions differ from immutable plan"
  result ← verify x item item.destination
  require_valid result

-- except OSError: pass
abbrev pub ignore_os_error : Exception → Bool → M (Unit {0})
ignore_os_error e true = pure tt
ignore_os_error e false = rethrow e

unfoldable pub remove_empty_staging : FilePath → M (Unit {0})
remove_empty_staging p =
    catch (do rmdir p; rmdir (parent p)) (λ e. ignore_os_error e (is_os_error e.kind))

abbrev pub no_fields : List Field
no_fields = []

-- The archive of the source, where the lifecycle wants one, and its path.
abbrev pub archive_by : Policy → PreparedItem → M (Option FilePath)
archive_by archive_after_verify item = do
  archive ←
      from_option item.archive_path apply_refused "archive lifecycle has no immutable archive path"
  copy_for_archive item.source archive item.source_hash item.created_directory_mode
  digest ← sha256_file archive
  refuse_if (not (digest == item.source_hash)) os_error
      "committed archive does not match planned source"
  pure (some archive)
archive_by _ item = pure none

unfoldable pub archive_source : PreparedItem → M (Option FilePath)
archive_source item = archive_by item.lifecycle_policy item

unfoldable pub finish_preserved : String → PreparedItem → M (Unit {0})
finish_preserved run_id item = do
  transition run_id item.item_id ItemState.complete Detail.nothing no_fields
  remove_empty_staging item.staging_directory

unfoldable pub finish_cleanup : String → PreparedItem → M (Unit {0})
finish_cleanup run_id item = do
  transition run_id item.item_id ItemState.cleanup_pending Detail.nothing no_fields
  revalidate_source item
  archived ← archive_source item
  durable_unlink item.source
  transition run_id item.item_id ItemState.cleaned Detail.nothing (cleanup_path archived ∷ [])
  transition run_id item.item_id ItemState.complete Detail.nothing no_fields
  remove_empty_staging item.staging_directory

abbrev pub finish_by : Policy → String → PreparedItem → M (Unit {0})
finish_by preserve run_id item = finish_preserved run_id item
finish_by _ run_id item = finish_cleanup run_id item

unfoldable pub finish_lifecycle : String → PreparedItem → M (Unit {0})
finish_lifecycle run_id item = finish_by item.lifecycle_policy run_id item

unfoldable pub commit_verified :
    Externals → String → PreparedItem → FilePath → Option Evidence → M (Unit {0})
commit_verified x run_id item staging recorded = do
  revalidate_source item
  taken ← look (exists item.destination)
  refuse_if taken destination_exists "destination appeared before commit"
  ensure_directory item.library_root (parent item.destination) item.created_directory_mode
  transition run_id item.item_id ItemState.committing Detail.nothing no_fields
  commit staging item.destination
  verify_committed x item recorded
  evidence ← from_option recorded key_error "sha256"
  transition run_id item.item_id ItemState.committed Detail.nothing
      (destination_hash evidence.sha256 ∷ [])
  finish_lifecycle run_id item

abbrev evidence_fields : Evidence → List Field
evidence_fields e = staged_hash e.sha256 ∷ staged_size e.size ∷ verification e ∷ []

unfoldable pub verify_and_commit : Externals → String → PreparedItem → FilePath → M (Unit {0})
verify_and_commit x run_id item staging = do
  verified ← verify x item staging
  require_valid verified
  set_file_mode staging item.published_file_mode
  make_file_durable staging
  evidence ← output_evidence staging verified
  transition run_id item.item_id ItemState.verified (Detail.evidence evidence)
      (evidence_fields evidence)
  commit_verified x run_id item staging (some evidence)

unfoldable pub execute_item : Externals → String → PreparedItem → M (Unit {0})
execute_item x run_id item = do
  revalidate_source item
  ensure_directory item.library_root item.staging_directory item.created_directory_mode
  token ← random_text
  let staging = staging_name "output-" token item
  transition run_id item.item_id ItemState.staging Detail.nothing (staging_path staging ∷ [])
  result ← stage x item staging
  require_valid result
  transition run_id item.item_id ItemState.staged Detail.nothing no_fields
  verify_and_commit x run_id item staging
