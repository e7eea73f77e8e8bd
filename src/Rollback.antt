-- ===== src/Rollback.antt =====
-- What could be undone, and what recovery would do: `preview_rollback` and `_preview_item` of
-- src/kavita_ingest/rollback.py, `_inspect_item` and `_proposed_recovery` of
-- src/kavita_ingest/apply_engine.py. They read the files and the journal and write nothing.
pub mod Evidence
use kavita_ingest.Prelude.{
  ℕ, String, Bool, true, false, not, ◌&&◌, Option, none, some, List, [], ◌∷◌, ◌==◌, string_Eq,
  or_else, map, if◌then◌else◌,
}
use kavita_ingest.Filesystem.State.{FilePath, exists, is_file}
use kavita_ingest.Journal.States.{
  ItemState, Policy, preserve, move_after_verify, archive_after_verify, one_of, state_eq,
}
use kavita_ingest.Journal.Rows.{ApplyRun, ApplyItem}
use kavita_ingest.Journal.Repository.{latest_for_plan, items}
use kavita_ingest.Effect.{M, value_error, pure, look, refuse_if, from_option, ◌>>=◌, ◌>>◌}
use kavita_ingest.Linux.{sha256_file}
use kavita_ingest.Engine.Recover.{file_matches}

pub data Action : Type 0 where
  no_action manual refuse impossible : Action
  remove_unchanged_destination restore_archive_then_remove_destination : Action

pub record RollbackPreview : Type 0 where
  pub item_id : String
  pub reversible : Bool
  pub action : Action
  pub explanation : String

-- An empty text counts as none.
abbrev pub filled : Option String → Option String
filled none = none
filled (some text) = if text == "" then none else some text

-- item.destination_hash or item.staged_hash
abbrev pub expected_hash : ApplyItem → Option String
expected_hash item = or_else (filled item.destination_hash) (filled item.staged_hash)

abbrev pub refused : ApplyItem → Action → String → RollbackPreview
refused item action text = record {
  item_id = item.item_id;
  reversible = false;
  action = action;
  explanation = text;
}

abbrev pub offered : ApplyItem → Action → String → RollbackPreview
offered item action text = record {
  item_id = item.item_id;
  reversible = true;
  action = action;
  explanation = text;
}

unfoldable pub unproven : ApplyItem → M RollbackPreview
unproven item =
    pure (refused item manual "the available files do not prove a safe reversible rollback")

unfoldable pub preview_preserved : ApplyItem → Bool → M RollbackPreview
preview_preserved item source_valid =
    if source_valid
    then pure
        (offered item remove_unchanged_destination "the exact original source is still preserved")
    else unproven item

unfoldable pub preview_archived : ApplyItem → Bool → Option FilePath → M RollbackPreview
preview_archived item source_valid none = unproven item
preview_archived item source_valid (some archive) = do
  archive_valid ← file_matches archive (some item.planned_source_hash)
  there ← look (exists item.source_path)
  if source_valid
      then pure (
          offered item remove_unchanged_destination "the exact source and archive remain available")
      else if archive_valid && not there
      then pure (
          offered item restore_archive_then_remove_destination
            "the exact archived original can be restored without overwriting")
      else unproven item

unfoldable pub preview_moved : ApplyItem → M RollbackPreview
preview_moved item = do
  there ← look (exists item.source_path)
  if not there
      then pure (
          refused item impossible
            "the original was deleted after verification and no retained copy can reconstruct it")
      else unproven item

abbrev pub preview_by : Policy → ApplyItem → Bool → M RollbackPreview
preview_by preserve item source_valid = preview_preserved item source_valid
preview_by archive_after_verify item source_valid =
    preview_archived item source_valid item.archive_path
preview_by move_after_verify item source_valid = preview_moved item

abbrev pub published_states : List ItemState
published_states =
    ItemState.committed ∷ ItemState.cleanup_pending ∷ ItemState.cleaned ∷ ItemState.complete ∷ []

unfoldable pub preview_published : ApplyItem → Option String → M RollbackPreview
preview_published item none = pure (refused item manual "verified destination is missing")
preview_published item (some expected) = do
  there ← look (is_file item.destination_path)
  if not there then pure (refused item manual "verified destination is missing") else (do
    digest ← sha256_file item.destination_path
    if not (digest == expected)
        then pure (
            refused item refuse
              "destination changed after ingestion and must not be removed automatically")
        else (do
          source_valid ← file_matches item.source_path (some item.planned_source_hash)
          preview_by item.lifecycle_policy item source_valid))

unfoldable pub preview_item : ApplyItem → M RollbackPreview
preview_item item =
    if not (one_of published_states item.state)
    then pure (refused item no_action "item has not reached committed state")
    else preview_published item (expected_hash item)

unfoldable pub preview_items : List ApplyItem → M (List RollbackPreview)
preview_items [] = pure []
preview_items (item ∷ rest) = do
  first ← preview_item item
  others ← preview_items rest
  pure (first ∷ others)

-- `preview_rollback` under its lock, for the plan's digest.
unfoldable pub preview_rollback : ℕ → String → M (List RollbackPreview)
preview_rollback plan_id digest = do
  latest ← latest_for_plan plan_id
  run ← from_option latest value_error "plan has no apply run"
  refuse_if (not (run.plan_digest == digest)) value_error
      "apply run digest differs from immutable plan"
  rows ← items run.id
  preview_items rows

-- `_proposed_recovery`: what recovery would do, and whether a person has to.
pub data Proposal : Type 0 where
  nothing_to_do recognize_commit publish_retained resume_lifecycle retry_staging : Proposal
  intervene plan_invalidated : Proposal

abbrev pub is_true : Option Bool → Bool
is_true none = false
is_true (some b) = b

unfoldable pub proposed_recovery : ItemState → Bool → Option Bool → Proposal × Bool
proposed_recovery state destination_exists destination_matches =
    if state_eq state ItemState.complete
    then (nothing_to_do, false)
    else if state_eq state ItemState.committing
        && (destination_exists && is_true destination_matches)
    then (recognize_commit, false)
    else if one_of (ItemState.verified ∷ ItemState.committing ∷ []) state && not destination_exists
    then (publish_retained, false)
    else if one_of (ItemState.committed ∷ ItemState.cleanup_pending ∷ []) state
        && is_true destination_matches
    then (resume_lifecycle, false)
    else if one_of
        (ItemState.preflight_ok ∷ ItemState.staging ∷ ItemState.staged ∷ ItemState.failed ∷ [])
        state
    then (retry_staging, false)
    else (intervene, true)

-- `RecoveryInspection`
pub record RecoveryInspection : Type 0 where
  pub item_id : String
  pub state : ItemState
  pub source_exists : Bool
  pub source_matches : Option Bool
  pub staging_matches : Option Bool
  pub destination_exists : Bool
  pub destination_matches : Option Bool
  pub proposed_action : Proposal
  pub manual_intervention : Bool
  pub detail : Option String

-- sha256_file(path) == expected if path.is_file() and expected else None
unfoldable pub match_of : FilePath → Option String → M (Option Bool)
match_of p none = pure none
match_of p (some expected) = do
  there ← look (is_file p)
  if there then (do digest ← sha256_file p; pure (some (digest == expected))) else pure none

unfoldable pub match_staging : Option FilePath → Option String → M (Option Bool)
match_staging none expected = pure none
match_staging (some p) expected = match_of p (filled expected)

unfoldable pub inspect_item : ApplyItem → M RecoveryInspection
inspect_item item = do
  source ← match_of item.source_path (some item.planned_source_hash)
  staged ← match_staging item.staging_path item.staged_hash
  published ← match_of item.destination_path (expected_hash item)
  destination ← look (exists item.destination_path)
  original ← look (exists item.source_path)
  let proposal = proposed_recovery item.state destination published
  pure (record {
    item_id = item.item_id;
    state = item.state;
    source_exists = original;
    source_matches = source;
    staging_matches = staged;
    destination_exists = destination;
    destination_matches = published;
    proposed_action = proposal.0;
    manual_intervention = proposal.1;
    detail = or_else (filled item.recovery_detail) (filled item.error);
  })

unfoldable pub inspect_items : List ApplyItem → M (List RecoveryInspection)
inspect_items [] = pure []
inspect_items (item ∷ rest) = do
  first ← inspect_item item
  others ← inspect_items rest
  pure (first ∷ others)

abbrev invalidate : RecoveryInspection → RecoveryInspection
invalidate inspection = record inspection {
  proposed_action = plan_invalidated;
  manual_intervention = false;
}

abbrev unless_invalidated : Option String → List RecoveryInspection → List RecoveryInspection
unless_invalidated none inspections = inspections
unless_invalidated (some reason) inspections = map invalidate inspections

abbrev inspections_of : Option String → Option ApplyRun → M (List RecoveryInspection)
inspections_of invalidated none = pure []
inspections_of invalidated (some run) = do
  rows ← items run.id
  inspections ← inspect_items rows
  pure (unless_invalidated invalidated inspections)

-- `inspect_recovery`, for the reason that `plan_invalidations` holds for the plan, if any.
unfoldable pub inspect_recovery : ℕ → Option String → M (List RecoveryInspection)
inspect_recovery plan_id invalidated = do
  latest ← latest_for_plan plan_id
  inspections_of invalidated latest
