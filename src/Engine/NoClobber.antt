-- ===== src/Engine/NoClobber.antt =====
-- Nothing that stood before an item is executed or recovered is overwritten or removed, but for the
-- item's source and its staging area, whatever fails and wherever the process dies.
pub mod Recovery
pub mod Items
use kavita_ingest.Prelude.{
  ℕ, String, ◌≡◌, refl, Bool, true, false, not, Option, none, some, List, [], ◌∷◌, Option-cases,
  inl, inr,
}
use kavita_ingest.Filesystem.State.{FilePath, parent, Node, Files}
use kavita_ingest.Filesystem.Kept.{Kept, Kept-refl, Fresh}
use kavita_ingest.Journal.States.{
  ItemState, Policy, preserve, move_after_verify, archive_after_verify,
}
use kavita_ingest.Journal.Rows.{Db, ApplyItem, Evidence, Detail, Field}
use kavita_ingest.Journal.Repository.{get_item, find_item, transition, note_error, found}
use kavita_ingest.Effect.{Env, World, Exception, Kind, M, pure, ◌>>=◌}
use kavita_ingest.Effect.Keeps.{Keeps, Keeps-bind, Keeps-refuse_if, keeps_rules}
use kavita_ingest.Effect.Ensures.{Keeps-bind-ensured, Ensures-refuse_if}
use kavita_ingest.Journal.Keeping.{Writes, Journaling}
use kavita_ingest.Linux.Kept.{KeptIn}
use kavita_ingest.Linux.Methods.{
  kept_calls, ensure_directory-Kept, set_file_mode-Kept, make_file_durable-Kept, commit-Kept,
  durable_unlink-Kept,
}
use kavita_ingest.Linux.Archive.{copy_for_archive-Kept}
use kavita_ingest.Engine.Item.{
  PreparedItem, Verification, Staged, written, failed, Externals, staging_name,
}
use kavita_ingest.Engine.Execute.{
  revalidate_source, require_valid, stage_result, stage, verify, output_evidence, verify_committed,
  ignore_os_error, remove_empty_staging, archive_by, finish_by, archive_source, finish_preserved,
  finish_cleanup, finish_lifecycle, commit_verified, verify_and_commit, execute_item,
}
use kavita_ingest.Engine.Touch.{Area, transaction-Kept}

module _ {env : Env} {base : Files} {May : FilePath → Type 0} {D : Db → Type 0} where
  pub get_item-Kept : (r i : String) → Keeps env (KeptIn base May D) (get_item r i)
  unfolding get_item
  get_item-Kept r i = transaction-Kept _ λ t db d. reads db d (find_item r i db.items)
    where
      reads : (db : Db) → D db → (o : Option ApplyItem) → Writes D (found o db)
      reads db d none = tt
      reads db d (some item) = d

  pub transition-Kept :
      (journal : Journaling D) (r i : String) (to : ItemState) (d : Detail) (fs : List Field)
      → Keeps env (KeptIn base May D) (transition r i to d fs)
  unfolding transition
  transition-Kept journal r i to d fs = Keeps-bind _ _ (get_item-Kept r i) λ current.
      Keeps-bind-ensured _ _ (Keeps-refuse_if _ _ _) (Ensures-refuse_if _ _ _) λ u allowed.
        Keeps-bind _ _
          (transaction-Kept _ λ t db h.
            journal.moves r i current.state to d fs (env.now t) db (unrefused _ allowed) h)
          (λ v. get_item-Kept r i)
    where
      unrefused : (b : Bool) → not b ≡ false → b ≡ true
      unrefused true e = refl
      unrefused false e = cc

  pub note_error-Kept :
      (journal : Journaling D) (r i m : String) → Keeps env (KeptIn base May D) (note_error r i m)
  unfolding note_error
  note_error-Kept journal r i m = Keeps-bind _ _ (get_item-Kept r i) λ current.
      Keeps-bind _ _
        (transaction-Kept _ λ t db h. journal.notes r i current.state m (env.now t) db h)
        (λ v. get_item-Kept r i)

  pub revalidate_source-Kept :
      (item : PreparedItem) → Keeps env (KeptIn base May D) (revalidate_source item)
  unfolding revalidate_source
  revalidate_source-Kept item = search kept_calls

  pub require_valid-Kept : (v : Verification) → Keeps env (KeptIn base May D) (require_valid v)
  unfolding require_valid
  require_valid-Kept v = search kept_calls

  pub stage_result-Kept :
      (p : FilePath) (s : Staged)
      → Fresh base May p
      → Keeps env (KeptIn base May D) (stage_result p s)
  stage_result-Kept p (written bytes v) fresh = search kept_calls
  stage_result-Kept p (failed none e) fresh = search kept_calls
  stage_result-Kept p (failed (some bytes) e) fresh = search kept_calls

  pub stage-Kept :
      (x : Externals) (item : PreparedItem) (p : FilePath)
      → Fresh base May p
      → Keeps env (KeptIn base May D) (stage x item p)
  unfolding stage
  stage-Kept x item p fresh = search (kept_calls, stage_result-Kept)

  pub verify-Kept :
      (x : Externals) (item : PreparedItem) (p : FilePath)
      → Keeps env (KeptIn base May D) (verify x item p)
  unfolding verify
  verify-Kept x item p = search kept_calls

  pub output_evidence-Kept :
      (p : FilePath) (v : Verification) → Keeps env (KeptIn base May D) (output_evidence p v)
  unfolding output_evidence
  output_evidence-Kept p v = search kept_calls

  pub verify_committed-Kept :
      (x : Externals) (item : PreparedItem) (e : Option Evidence)
      → Keeps env (KeptIn base May D) (verify_committed x item e)
  unfolding verify_committed
  verify_committed-Kept x item e = search (kept_calls, verify-Kept, require_valid-Kept) depth 16

  pub ignore_os_error-Kept :
      (e : Exception) (b : Bool) → Keeps env (KeptIn base May D) (ignore_os_error e b)
  ignore_os_error-Kept e true = search keeps_rules
  ignore_os_error-Kept e false = search keeps_rules

pub ruleset file_calls = (
  kept_calls, get_item-Kept, transition-Kept, note_error-Kept, revalidate_source-Kept,
  require_valid-Kept, stage-Kept, verify-Kept, output_evidence-Kept, verify_committed-Kept,
  ignore_os_error-Kept, ensure_directory-Kept, set_file_mode-Kept, make_file_durable-Kept,
  commit-Kept, durable_unlink-Kept, copy_for_archive-Kept,
)

module _ (env : Env) (base : Files) (May : FilePath → Type 0) (D : Db → Type 0)
    (item : PreparedItem) (journal : Journaling D) (area : Area base May item) where
  abbrev pub Safe : {A : Type 0} → M A → Type 0
  Safe m = Keeps env (KeptIn base May D) m

  pub remove_empty_staging-Kept : Safe (remove_empty_staging item.staging_directory)
  unfolding remove_empty_staging
  remove_empty_staging-Kept = search (file_calls, area.directory, area.over)

  pub archive_source-Kept : Safe (archive_source item)
  unfolding archive_source
  archive_source-Kept = by_policy item.lifecycle_policy
    where
      by_policy : (p : Policy) → Safe (archive_by p item)
      by_policy preserve = search file_calls
      by_policy move_after_verify = search file_calls
      by_policy archive_after_verify = search file_calls

module _ (env : Env) (base : Files) (May : FilePath → Type 0) (D : Db → Type 0)
    (item : PreparedItem) (journal : Journaling D) (area : Area base May item)
    (source : Fresh base May item.source) where
  finish_preserved-Kept :
      (run_id : String) → Keeps env (KeptIn base May D) (finish_preserved run_id item)
  unfolding finish_preserved
  finish_preserved-Kept run_id =
      Keeps-bind _ _ (transition-Kept journal run_id item.item_id _ _ _)
        (λ _. remove_empty_staging-Kept env base May D item journal area)

  finish_cleanup-Kept :
      (run_id : String) → Keeps env (KeptIn base May D) (finish_cleanup run_id item)
  unfolding finish_cleanup
  finish_cleanup-Kept run_id =
      Keeps-bind _ _ (transition-Kept journal run_id item.item_id _ _ _) λ _.
        Keeps-bind _ _ (revalidate_source-Kept item) λ _.
          Keeps-bind _ _ (archive_source-Kept env base May D item journal area) λ archived.
            Keeps-bind _ _ (durable_unlink-Kept item.source source) λ _.
              Keeps-bind _ _ (transition-Kept journal run_id item.item_id _ _ _) λ _.
                Keeps-bind _ _ (transition-Kept journal run_id item.item_id _ _ _)
                  λ _. remove_empty_staging-Kept env base May D item journal area

  pub finish_lifecycle-Kept :
      (run_id : String) → Keeps env (KeptIn base May D) (finish_lifecycle run_id item)
  unfolding finish_lifecycle
  finish_lifecycle-Kept run_id = by_policy item.lifecycle_policy
    where
      by_policy : (p : Policy) → Keeps env (KeptIn base May D) (finish_by p run_id item)
      by_policy preserve = finish_preserved-Kept run_id
      by_policy move_after_verify = finish_cleanup-Kept run_id
      by_policy archive_after_verify = finish_cleanup-Kept run_id

  pub commit_verified-Kept :
      (x : Externals) (run_id : String) (staging : FilePath) (e : Option Evidence)
      → Fresh base May staging
      → Keeps env (KeptIn base May D) (commit_verified x run_id item staging e)
  unfolding commit_verified
  commit_verified-Kept x run_id staging e fresh =
      search (file_calls, finish_lifecycle-Kept) depth 20

  pub verify_and_commit-Kept :
      (x : Externals) (run_id : String) (staging : FilePath)
      → Fresh base May staging
      → Keeps env (KeptIn base May D) (verify_and_commit x run_id item staging)
  unfolding verify_and_commit
  verify_and_commit-Kept x run_id staging fresh = search (file_calls, commit_verified-Kept) depth 20

  pub execute_item-Kept :
      (x : Externals) (run_id : String) → Keeps env (KeptIn base May D) (execute_item x run_id item)
  unfolding execute_item
  execute_item-Kept x run_id = search (file_calls, verify_and_commit-Kept, area.named) depth 20
