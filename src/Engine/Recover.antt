-- ===== src/Engine/Recover.antt =====
-- `_recover_item` of src/kavita_ingest/apply_engine.py and the methods that it calls.
use kavita_ingest.Prelude.{
  ℕ, String, Bool, false, not, ◌&&◌, Option, none, some, List, [], ◌∷◌, ◌==◌, nat_Eq, string_Eq,
  or_else, if◌then◌else◌,
}
use kavita_ingest.Filesystem.State.{FilePath, exists, is_file, is_relative_to, inode_number, is_dir}
use kavita_ingest.Journal.States.{
  ItemState, Policy, one_of, state_eq, preserve, archive_after_verify, move_after_verify,
}
use kavita_ingest.Journal.Rows.{
  ApplyItem, Detail, Field, staging_path, cleanup_path, destination_hash,
}
use kavita_ingest.Journal.Repository.{get_item, transition}
use kavita_ingest.Effect.{
  M, apply_refused, recovery_required, pure, look, refuse_if, when, from_option, ◌>>=◌, ◌>>◌,
}
use kavita_ingest.Linux.{
  sha256_file, random_text, ensure_directory, commit, durable_unlink, copy_for_archive,
}
use kavita_ingest.Engine.Item.{PreparedItem, Externals, staging_name}
use kavita_ingest.Engine.Capabilities.{check_capabilities}
use kavita_ingest.Engine.Execute.{
  revalidate_source, require_valid, stage, verify_committed, no_fields, finish_lifecycle,
  commit_verified, verify_and_commit,
}
use kavita_ingest.Engine.Failures.{manual_recovery}

abbrev same_text : Option String → String → Bool
same_text none b = false
same_text (some a) b = b == a

-- path.is_file() and sha256_file(path) == expected, the hash taken only of a file
unfoldable pub file_matches : FilePath → Option String → M Bool
file_matches p expected = do
  there ← look (is_file p)
  if there then (do digest ← sha256_file p; pure (same_text expected digest)) else pure false

unfoldable pub required_staging : ApplyItem → M FilePath
required_staging recorded =
    from_option recorded.staging_path apply_refused "journal has no staging path"

abbrev same_inode : Option ℕ → Option ℕ → Bool
same_inode (some i) (some j) = i == j
same_inode _ _ = false

unfoldable pub remove_stage_at : ApplyItem → PreparedItem → FilePath → M (Unit {0})
remove_stage_at recorded item staging = do
  surviving ← look (exists staging)
  when surviving (do
    refuse_if (not (is_relative_to staging item.staging_directory)) recovery_required
        "recorded staging path escapes its action directory"
    matching ← file_matches staging recorded.staged_hash
    refuse_if (not matching) recovery_required
        "surviving published staging path is not the verified output"
    same ← look (λ fs. same_inode (inode_number staging fs) (inode_number item.destination fs))
    refuse_if (not same) recovery_required
        "surviving staging path is not the published destination inode"
    durable_unlink staging)

abbrev pub remove_stage_of : ApplyItem → PreparedItem → Option FilePath → M (Unit {0})
remove_stage_of recorded item none = pure tt
remove_stage_of recorded item (some staging) = remove_stage_at recorded item staging

unfoldable pub remove_surviving_stage : ApplyItem → PreparedItem → M (Unit {0})
remove_surviving_stage recorded item = remove_stage_of recorded item recorded.staging_path

abbrev archived_field : Option FilePath → List Field
archived_field none = no_fields
archived_field (some p) = cleanup_path (some p) ∷ []

unfoldable pub finish_cleaned : ApplyItem → PreparedItem → Option FilePath → M (Unit {0})
finish_cleaned recorded item archived = do
  transition recorded.run_id item.item_id ItemState.cleaned Detail.nothing (archived_field archived)
  transition recorded.run_id item.item_id ItemState.complete Detail.nothing no_fields
  pure tt

-- The source that is still there: archived unless the archive is valid, then removed.
unfoldable pub archive_and_remove : PreparedItem → FilePath → Bool → M (Unit {0})
archive_and_remove item archive archive_valid = do
  revalidate_source item
  when (not archive_valid)
      (copy_for_archive item.source archive item.source_hash item.created_directory_mode)
  durable_unlink item.source

unfoldable pub recover_archive : ApplyItem → PreparedItem → FilePath → M (Unit {0})
recover_archive recorded item archive = do
  archive_valid ← file_matches archive (some item.source_hash)
  archive_there ← look (exists archive)
  source_there ← look (exists item.source)
  if archive_there && not archive_valid
      then manual_recovery recorded "archive destination exists with wrong hash"
      else if source_there
      then (do
        archive_and_remove item archive archive_valid
        finish_cleaned recorded item (some archive))
      else if not archive_valid
      then manual_recovery recorded "both planned source and verified archive are missing"
      else finish_cleaned recorded item (some archive)

abbrev pub archive_cleanup_at : ApplyItem → PreparedItem → Option FilePath → M (Unit {0})
archive_cleanup_at recorded item none = manual_recovery recorded "archive path is missing from plan"
archive_cleanup_at recorded item (some archive) = recover_archive recorded item archive

unfoldable pub recover_archive_cleanup : ApplyItem → PreparedItem → M (Unit {0})
recover_archive_cleanup recorded item = archive_cleanup_at recorded item item.archive_path

unfoldable pub recover_move : ApplyItem → PreparedItem → M (Unit {0})
recover_move recorded item = do
  there ← look (exists item.source)
  when there (do revalidate_source item; durable_unlink item.source)
  finish_cleaned recorded item none

-- The lifecycle that a crash left at CLEANUP_PENDING.
abbrev pub resume_by : Policy → ApplyItem → PreparedItem → M (Unit {0})
resume_by move_after_verify recorded item = recover_move recorded item
resume_by archive_after_verify recorded item = recover_archive_cleanup recorded item
resume_by preserve recorded item =
    manual_recovery recorded "preserve lifecycle entered cleanup state"

unfoldable pub resume_cleanup : ApplyItem → PreparedItem → M (Unit {0})
resume_cleanup recorded item = resume_by item.lifecycle_policy recorded item

unfoldable pub resume_committed : ApplyItem → PreparedItem → M (Unit {0})
resume_committed recorded item = do
  matching ← file_matches item.source (some item.source_hash)
  if not matching
      then manual_recovery recorded
          "source is missing/changed before cleanup-pending was durably recorded"
      else finish_lifecycle recorded.run_id item

unfoldable pub recover_cleanup : ApplyItem → PreparedItem → M (Unit {0})
recover_cleanup recorded item = do
  matching ← file_matches item.destination (or_else recorded.destination_hash recorded.staged_hash)
  if not matching
      then manual_recovery recorded "committed destination is missing or changed"
      else (do
        remove_surviving_stage recorded item
        if state_eq recorded.state ItemState.committed
            then resume_committed recorded item
            else resume_cleanup recorded item)

-- The destination is there, and the commit had been attempted.
unfoldable pub recognize_commit : Externals → ApplyItem → PreparedItem → String → M (Unit {0})
recognize_commit x recorded item hash = do
  digest ← sha256_file item.destination
  if not (digest == hash)
      then manual_recovery recorded "destination differs from durably verified output"
      else (do
        revalidate_source item
        verify_committed x item recorded.verification
        transition recorded.run_id item.item_id ItemState.committed
            (Detail.labelled "recovered" "recognized crash-after-filesystem-commit")
            (destination_hash hash ∷ [])
        remove_surviving_stage recorded item
        finish_lifecycle recorded.run_id item)

unfoldable pub repeat_commit :
    Externals → ApplyItem → PreparedItem → FilePath → String → M (Unit {0})
repeat_commit x recorded item staging hash = do
  commit staging item.destination
  verify_committed x item recorded.verification
  transition recorded.run_id item.item_id ItemState.committed Detail.nothing
      (destination_hash hash ∷ [])
  finish_lifecycle recorded.run_id item

unfoldable pub publish_staged : Externals → ApplyItem → PreparedItem → String → M (Unit {0})
publish_staged x recorded item hash = do
  staging ← required_staging recorded
  matching ← file_matches staging (some hash)
  if not matching
      then manual_recovery recorded "verified staging output is missing or changed"
      else (do
        revalidate_source item
        if state_eq recorded.state ItemState.verified
            then commit_verified x recorded.run_id item staging recorded.verification
            else repeat_commit x recorded item staging hash)

unfoldable pub recover_published : Externals → ApplyItem → PreparedItem → String → M (Unit {0})
recover_published x recorded item hash = do
  there ← look (exists item.destination)
  if there
      then (if not (state_eq recorded.state ItemState.committing)
          then manual_recovery recorded
              "destination exists but journal does not prove commit was attempted"
          else recognize_commit x recorded item hash)
      else publish_staged x recorded item hash

-- Without its hash and its size the staged output is not trusted.
abbrev pub recover_with :
    Externals → ApplyItem → PreparedItem → Option String → Option ℕ → M (Unit {0})
recover_with x recorded item (some hash) (some size) = recover_published x recorded item hash
recover_with x recorded item (some hash) none =
    manual_recovery recorded "verified state lacks staged evidence"
recover_with x recorded item none size =
    manual_recovery recorded "verified state lacks staged evidence"

unfoldable pub recover_verified : Externals → ApplyItem → PreparedItem → M (Unit {0})
recover_verified x recorded item =
    recover_with x recorded item recorded.staged_hash recorded.staged_size

abbrev may_retry : List ItemState
may_retry = ItemState.failed ∷ ItemState.preflight_ok ∷ []

unfoldable pub execute_from_failed_or_preflight : Externals → String → PreparedItem → M (Unit {0})
execute_from_failed_or_preflight x run_id item = do
  current ← get_item run_id item.item_id
  refuse_if (not (one_of may_retry current.state)) apply_refused "cannot retry item"
  ensure_directory item.library_root item.staging_directory item.created_directory_mode
  token ← random_text
  let staging = staging_name "recovery-" token item
  transition run_id item.item_id ItemState.staging Detail.nothing (staging_path staging ∷ [])
  result ← stage x item staging
  require_valid result
  transition run_id item.item_id ItemState.staged Detail.nothing no_fields
  verify_and_commit x run_id item staging

unfoldable pub retry : Externals → ApplyItem → PreparedItem → M (Unit {0})
retry x recorded item = do
  there ← look (exists item.destination)
  if there
      then (do
        current ← get_item recorded.run_id item.item_id
        manual_recovery current "destination exists without a durable verified/committing state")
      else (do revalidate_source item; execute_from_failed_or_preflight x recorded.run_id item)

unfoldable pub recover_staged : Externals → ApplyItem → PreparedItem → M (Unit {0})
recover_staged x recorded item = do
  staging ← required_staging recorded
  there ← look (is_file staging)
  if not there
      then manual_recovery recorded "journalled staged output is missing"
      else verify_and_commit x recorded.run_id item staging

unfoldable pub recover_staging : Externals → ApplyItem → PreparedItem → M (Unit {0})
recover_staging x recorded item = do
  transition recorded.run_id item.item_id ItemState.failed
      (Detail.labelled "reason" "interrupted staging retained; retrying to a new file")
      (Field.error "interrupted during staging" ∷ [])
  retry x recorded item

unfoldable pub recover_state : Externals → ItemState → ApplyItem → PreparedItem → M (Unit {0})
recover_state x ItemState.complete recorded item = pure tt
recover_state x ItemState.stale recorded item = pure tt
recover_state x ItemState.recovery_required recorded item = pure tt
recover_state x ItemState.cleaned recorded item = do
  transition recorded.run_id item.item_id ItemState.complete Detail.nothing no_fields
  pure tt
recover_state x ItemState.committed recorded item = recover_cleanup recorded item
recover_state x ItemState.cleanup_pending recorded item = recover_cleanup recorded item
recover_state x ItemState.verified recorded item = recover_verified x recorded item
recover_state x ItemState.committing recorded item = recover_verified x recorded item
recover_state x ItemState.staged recorded item = recover_staged x recorded item
recover_state x ItemState.staging recorded item = recover_staging x recorded item
recover_state x _ recorded item = retry x recorded item

unfoldable pub recover_item : Externals → ApplyItem → PreparedItem → M (Unit {0})
recover_item x recorded item = recover_state x recorded.state recorded item

abbrev before_destination : List ItemState
before_destination =
    ItemState.pending ∷ ItemState.preflight_ok ∷ ItemState.staging ∷ ItemState.staged
    ∷ ItemState.failed ∷ []

unfoldable pub recovery_preflight : Externals → ApplyItem → PreparedItem → M (Unit {0})
recovery_preflight x recorded item = do
  check_capabilities x item
  root ← look (is_dir item.library_root)
  refuse_if (not root) apply_refused "destination root is unavailable"
  when (one_of (ItemState.verified ∷ before_destination) recorded.state) (revalidate_source item)
  there ← look (exists item.destination)
  refuse_if (one_of before_destination recorded.state && there) recovery_required
      "destination exists without a durable commit attempt"
