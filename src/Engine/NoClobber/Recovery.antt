-- ===== src/Engine/NoClobber/Recovery.antt =====
-- Recovering an item leaves alone what stood before, as executing one does; so do the handlers of
-- its failures.
use kavita_ingest.Prelude.{String, ◌≡◌, refl, Bool, Option, none, some, List, [], ◌∷◌, ℕ}
use kavita_ingest.Filesystem.State.{FilePath, Files}
use kavita_ingest.Filesystem.Kept.{Fresh}
use kavita_ingest.Journal.States.{
  ItemState, Policy, preserve, move_after_verify, archive_after_verify, staged, staging, verified,
  committing, committed, cleanup_pending, cleaned, stale,
}
use kavita_ingest.Journal.Keeping.{Journaling}
use kavita_ingest.Journal.Rows.{Db, ApplyItem}
use kavita_ingest.Effect.{
  Env, Exception, Kind, M, destination_exists, key_error, runtime_error, database_error, type_error,
  overflow_error, other_error, stale_plan,
}
use kavita_ingest.Effect.Keeps.{Keeps, Keeps-bind, Keeps-from_option, keeps_rules}
use kavita_ingest.Effect.Ensures.{Ensures-from_option, Keeps-bind-ensured}
use kavita_ingest.Linux.Kept.{KeptIn}
use kavita_ingest.Engine.Item.{PreparedItem, Externals}
use kavita_ingest.Engine.Capabilities.{check_requirement, check_requirements, check_capabilities}
use kavita_ingest.Engine.Failures.{manual_recovery, mark_collision, mark_stale, mark_failure, mark}
use kavita_ingest.Engine.Recover.{
  file_matches, required_staging, remove_stage_at, remove_stage_of, remove_surviving_stage,
  finish_cleaned, archive_and_remove, recover_archive, archive_cleanup_at, recover_archive_cleanup,
  recover_move, resume_by, resume_cleanup, resume_committed, recover_cleanup, recognize_commit,
  repeat_commit, publish_staged, recover_published, recover_with, recover_verified,
  execute_from_failed_or_preflight, retry, recover_staged, recover_staging, recover_state,
  recover_item, recovery_preflight,
}
use kavita_ingest.Engine.Touch.{Area}
use kavita_ingest.Engine.NoClobber.{
  file_calls, finish_lifecycle-Kept, commit_verified-Kept, verify_and_commit-Kept,
}

module _ {env : Env} {base : Files} {May : FilePath → Type 0} {D : Db → Type 0}
    (journal : Journaling D) where
  pub manual_recovery-Kept :
      (recorded : ApplyItem) (text : String)
      → Keeps env (KeptIn base May D) (manual_recovery recorded text)
  unfolding manual_recovery
  manual_recovery-Kept recorded text = search file_calls

  mark_collision-Kept : (r i m : String) → Keeps env (KeptIn base May D) (mark_collision r i m)
  unfolding mark_collision
  mark_collision-Kept r i m = search (file_calls, manual_recovery-Kept)

  mark_stale-Kept : (r i m : String) → Keeps env (KeptIn base May D) (mark_stale r i m)
  unfolding mark_stale
  mark_stale-Kept r i m = search (file_calls, manual_recovery-Kept)

  mark_failure-Kept :
      (r i : String) (e : Exception) → Keeps env (KeptIn base May D) (mark_failure r i e)
  unfolding mark_failure
  mark_failure-Kept r i e = search (file_calls, manual_recovery-Kept) depth 16

  -- Telling the journal of a failure changes no file.
  pub mark-Kept :
      (r i : String) (e : Exception) (k : Kind) → Keeps env (KeptIn base May D) (mark r i e k)
  unfolding mark
  mark-Kept r i e destination_exists = mark_collision-Kept r i e.message
  mark-Kept r i e stale_plan = mark_stale-Kept r i e.message
  mark-Kept r i e key_error = search keeps_rules
  mark-Kept r i e runtime_error = search keeps_rules
  mark-Kept r i e database_error = search keeps_rules
  mark-Kept r i e type_error = search keeps_rules
  mark-Kept r i e overflow_error = search keeps_rules
  mark-Kept r i e other_error = search keeps_rules
  mark-Kept r i e _ = mark_failure-Kept r i e

  check_requirement-Kept :
      (x : Externals) (k v : String) → Keeps env (KeptIn base May D) (check_requirement x k v)
  unfolding check_requirement
  check_requirement-Kept x k v = search keeps_rules

  check_requirements-Kept :
      (x : Externals) (l : List (String × String))
      → Keeps env (KeptIn base May D) (check_requirements x l)
  unfolding check_requirements
  check_requirements-Kept x [] = search keeps_rules
  check_requirements-Kept x ((k, v) ∷ rest) =
      Keeps-bind _ _ (check_requirement-Kept x k v) (λ _. check_requirements-Kept x rest)

  pub recovery_preflight-Kept :
      (x : Externals) (recorded : ApplyItem) (item : PreparedItem)
      → Keeps env (KeptIn base May D) (recovery_preflight x recorded item)
  unfolding recovery_preflight check_capabilities
  recovery_preflight-Kept x recorded item = search (file_calls, check_requirements-Kept) depth 16

  file_matches-Kept :
      (p : FilePath) (h : Option String) → Keeps env (KeptIn base May D) (file_matches p h)
  unfolding file_matches
  file_matches-Kept p h = search file_calls

ruleset recovery_calls = (file_calls, manual_recovery-Kept, file_matches-Kept)

-- The item's own paths may be touched, and the staged file that the journal names.
module _ (env : Env) (base : Files) (May : FilePath → Type 0) (D : Db → Type 0)
    (item : PreparedItem) (recorded : ApplyItem) (journal : Journaling D)
    (area : Area base May item) (source : Fresh base May item.source)
    (staged_path : (p : FilePath) → recorded.staging_path ≡ some p → Fresh base May p) where
  abbrev Mends : {A : Type 0} → M A → Type 0
  Mends m = Keeps env (KeptIn base May D) m

  remove_stage_at-Kept : (p : FilePath) → Fresh base May p → Mends (remove_stage_at recorded item p)
  unfolding remove_stage_at
  remove_stage_at-Kept p fresh = search recovery_calls depth 16

  remove_surviving_stage-Kept : Mends (remove_surviving_stage recorded item)
  unfolding remove_surviving_stage
  remove_surviving_stage-Kept = by_path recorded.staging_path refl
    where
      by_path :
          (o : Option FilePath)
          → recorded.staging_path ≡ o
          → Mends (remove_stage_of recorded item o)
      by_path none e = search keeps_rules
      by_path (some p) e = remove_stage_at-Kept p (staged_path p e)

  finish_cleaned-Kept : (a : Option FilePath) → Mends (finish_cleaned recorded item a)
  unfolding finish_cleaned
  finish_cleaned-Kept a = search recovery_calls

  archive_and_remove-Kept :
      (archive : FilePath) (valid : Bool) → Mends (archive_and_remove item archive valid)
  unfolding archive_and_remove
  archive_and_remove-Kept archive valid = search (recovery_calls, source)

  recover_archive-Kept : (archive : FilePath) → Mends (recover_archive recorded item archive)
  unfolding recover_archive
  recover_archive-Kept archive =
      search (recovery_calls, archive_and_remove-Kept, finish_cleaned-Kept) depth 16

  archive_cleanup_at-Kept : (a : Option FilePath) → Mends (archive_cleanup_at recorded item a)
  archive_cleanup_at-Kept none = search recovery_calls
  archive_cleanup_at-Kept (some archive) = recover_archive-Kept archive

  recover_move-Kept : Mends (recover_move recorded item)
  unfolding recover_move
  recover_move-Kept = search (recovery_calls, finish_cleaned-Kept, source) depth 16

  resume_by-Kept : (p : Policy) → Mends (resume_by p recorded item)
  unfolding recover_archive_cleanup
  resume_by-Kept preserve = search recovery_calls
  resume_by-Kept move_after_verify = recover_move-Kept
  resume_by-Kept archive_after_verify = archive_cleanup_at-Kept item.archive_path

  resume_committed-Kept : Mends (resume_committed recorded item)
  unfolding resume_committed
  resume_committed-Kept =
      search (recovery_calls, (finish_lifecycle-Kept env base May D item journal area source))

  recover_cleanup-Kept : Mends (recover_cleanup recorded item)
  unfolding recover_cleanup resume_cleanup
  recover_cleanup-Kept =
      search (recovery_calls, remove_surviving_stage-Kept, resume_committed-Kept, resume_by-Kept)
        depth 16

  recognize_commit-Kept :
      (x : Externals) (hash : String) → Mends (recognize_commit x recorded item hash)
  unfolding recognize_commit
  recognize_commit-Kept x hash =
      search
        (
          recovery_calls,
          remove_surviving_stage-Kept,
          (finish_lifecycle-Kept env base May D item journal area source),
        )
        depth 20

  repeat_commit-Kept :
      (x : Externals) (p : FilePath) (hash : String)
      → Fresh base May p
      → Mends (repeat_commit x recorded item p hash)
  unfolding repeat_commit
  repeat_commit-Kept x p hash fresh =
      search (recovery_calls, (finish_lifecycle-Kept env base May D item journal area source)) depth
        16

  -- The staged file that the journal names may be touched.
  publish_staged-Kept :
      (x : Externals) (hash : String) → Mends (publish_staged x recorded item hash)
  unfolding publish_staged required_staging
  publish_staged-Kept x hash =
      Keeps-bind-ensured _ _ (Keeps-from_option recorded.staging_path _ _)
        (Ensures-from_option recorded.staging_path _ _)
        λ p named.
          let fresh = staged_path p named in
          search
            (
              recovery_calls,
              (commit_verified-Kept env base May D item journal area source),
              repeat_commit-Kept,
              fresh,
            )
            depth 16

  recover_published-Kept :
      (x : Externals) (hash : String) → Mends (recover_published x recorded item hash)
  unfolding recover_published
  recover_published-Kept x hash =
      search (recovery_calls, recognize_commit-Kept, publish_staged-Kept) depth 16

  recover_with-Kept :
      (x : Externals) (h : Option String) (n : Option ℕ) → Mends (recover_with x recorded item h n)
  recover_with-Kept x (some h) (some n) = recover_published-Kept x h
  recover_with-Kept x (some h) none = search recovery_calls
  recover_with-Kept x none n = search recovery_calls

  execute_again-Kept :
      (x : Externals) (run_id : String) → Mends (execute_from_failed_or_preflight x run_id item)
  unfolding execute_from_failed_or_preflight
  execute_again-Kept x run_id =
      search
        (
          recovery_calls,
          (verify_and_commit-Kept env base May D item journal area source),
          area.named,
        )
        depth 20

  retry-Kept : (x : Externals) → Mends (retry x recorded item)
  unfolding retry
  retry-Kept x = search (recovery_calls, execute_again-Kept) depth 16

  recover_staged-Kept : (x : Externals) → Mends (recover_staged x recorded item)
  unfolding recover_staged required_staging
  recover_staged-Kept x =
      Keeps-bind-ensured _ _ (Keeps-from_option recorded.staging_path _ _)
        (Ensures-from_option recorded.staging_path _ _)
        λ p named.
          let fresh = staged_path p named in
          search
            (
              recovery_calls,
              (verify_and_commit-Kept env base May D item journal area source),
              fresh,
            )
            depth 16

  recover_staging-Kept : (x : Externals) → Mends (recover_staging x recorded item)
  unfolding recover_staging
  recover_staging-Kept x = search (recovery_calls, retry-Kept)

  recover_state-Kept : (x : Externals) (s : ItemState) → Mends (recover_state x s recorded item)
  unfolding recover_state recover_verified
  recover_state-Kept x ItemState.complete = search keeps_rules
  recover_state-Kept x stale = search keeps_rules
  recover_state-Kept x ItemState.recovery_required = search keeps_rules
  recover_state-Kept x cleaned = search recovery_calls
  recover_state-Kept x committed = recover_cleanup-Kept
  recover_state-Kept x cleanup_pending = recover_cleanup-Kept
  recover_state-Kept x verified = recover_with-Kept x recorded.staged_hash recorded.staged_size
  recover_state-Kept x committing = recover_with-Kept x recorded.staged_hash recorded.staged_size
  recover_state-Kept x staged = recover_staged-Kept x
  recover_state-Kept x staging = recover_staging-Kept x
  recover_state-Kept x _ = retry-Kept x

  pub recover_item-Kept : (x : Externals) → Mends (recover_item x recorded item)
  unfolding recover_item
  recover_item-Kept x = recover_state-Kept x recorded.state
