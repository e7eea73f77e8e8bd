-- ===== src/Engine/Failures.antt =====
-- What the journal is told when an item fails: `_manual_recovery`, `_mark_collision`, `_mark_stale`
-- and `_mark_failure` of src/kavita_ingest/apply_engine.py, and the `except` clauses that call them.
use Prim.Native.String.{◌++◌ as concat}
use kavita_ingest.Prelude.{String, List, [], ◌∷◌, if◌then◌else◌}
use kavita_ingest.Journal.States.{ItemState, one_of, state_eq}
use kavita_ingest.Journal.Rows.{ApplyItem, Detail, Field}
use kavita_ingest.Journal.Repository.{get_item, transition, note_error}
use kavita_ingest.Effect.{
  Exception, Kind, os_error, file_exists, destination_exists, not_a_directory, value_error,
  type_error, overflow_error, key_error, runtime_error, database_error, subprocess_error,
  other_error, apply_refused, stale_plan, recovery_required, plan_already_complete, M, pure,
  rethrow, ◌>>=◌, ◌>>◌,
}

abbrev explained : String → List Field
explained text = Field.recovery_detail text ∷ Field.error text ∷ []

unfoldable pub manual_recovery : ApplyItem → String → M (Unit {0})
manual_recovery recorded explanation =
    if state_eq recorded.state ItemState.recovery_required then pure tt else do
      transition recorded.run_id recorded.item_id ItemState.recovery_required
          (Detail.labelled "manual_intervention" explanation) (explained explanation)
      pure tt

unfoldable pub mark_collision : String → String → String → M (Unit {0})
mark_collision run_id item_id message = do
  current ← get_item run_id item_id
  if state_eq current.state ItemState.committing
      then (do
        transition run_id item_id ItemState.stale (Detail.labelled "destination_collision" message)
            (Field.error message ∷ [])
        pure tt)
      else manual_recovery current message

abbrev may_be_stale : List ItemState
may_be_stale =
    ItemState.preflight_ok ∷ ItemState.staging ∷ ItemState.staged ∷ ItemState.verified
    ∷ ItemState.committing ∷ []

unfoldable pub mark_stale : String → String → String → M (Unit {0})
mark_stale run_id item_id message = do
  current ← get_item run_id item_id
  if one_of may_be_stale current.state
      then (do
        transition run_id item_id ItemState.stale (Detail.labelled "stale_source" message)
            (Field.error message ∷ [])
        pure tt)
      else manual_recovery current message

-- type(error).__name__
unfoldable pub class_name : Kind → String
class_name os_error = "OSError"
class_name file_exists = "FileExistsError"
class_name destination_exists = "DestinationExists"
class_name not_a_directory = "NotADirectoryError"
class_name value_error = "ValueError"
class_name type_error = "TypeError"
class_name overflow_error = "OverflowError"
class_name key_error = "KeyError"
class_name runtime_error = "RuntimeError"
class_name database_error = "DatabaseError"
class_name subprocess_error = "SubprocessError"
class_name other_error = "Exception"
class_name apply_refused = "ApplyRefused"
class_name stale_plan = "StalePlan"
class_name recovery_required = "RecoveryRequired"
class_name plan_already_complete = "PlanAlreadyComplete"

abbrev may_fail : List ItemState
may_fail = ItemState.staging ∷ ItemState.staged ∷ []

abbrev needs_note : List ItemState
needs_note = ItemState.committing ∷ ItemState.committed ∷ ItemState.cleanup_pending ∷ []

abbrev unfinished : List ItemState
unfinished =
    ItemState.pending ∷ ItemState.preflight_ok ∷ ItemState.verified ∷ ItemState.committing
    ∷ ItemState.committed ∷ ItemState.cleanup_pending ∷ ItemState.cleaned ∷ []

unfoldable pub mark_failure : String → String → Exception → M (Unit {0})
mark_failure run_id item_id e = do
  current ← get_item run_id item_id
  let message = concat (class_name e.kind) (concat ": " e.message)
  if one_of may_fail current.state
      then (do
        transition run_id item_id ItemState.failed (Detail.labelled "error" message)
            (Field.error message ∷ [])
        pure tt)
      else if one_of unfinished current.state
      then (if one_of needs_note current.state
          then (do note_error run_id item_id message; pure tt)
          else manual_recovery current message)
      else pure tt

-- The `except` clauses of the loops over the items: OSError, ValueError, ApplyRefused and
-- SubprocessError with their subclasses are told to the journal; what they do not name goes on.
unfoldable pub mark : String → String → Exception → Kind → M (Unit {0})
mark run_id item_id e destination_exists = mark_collision run_id item_id e.message
mark run_id item_id e stale_plan = mark_stale run_id item_id e.message
mark run_id item_id e key_error = rethrow e
mark run_id item_id e runtime_error = rethrow e
mark run_id item_id e database_error = rethrow e
mark run_id item_id e type_error = rethrow e
mark run_id item_id e overflow_error = rethrow e
mark run_id item_id e other_error = rethrow e
mark run_id item_id e os_error = mark_failure run_id item_id e
mark run_id item_id e file_exists = mark_failure run_id item_id e
mark run_id item_id e not_a_directory = mark_failure run_id item_id e
mark run_id item_id e value_error = mark_failure run_id item_id e
mark run_id item_id e subprocess_error = mark_failure run_id item_id e
mark run_id item_id e apply_refused = mark_failure run_id item_id e
mark run_id item_id e recovery_required = mark_failure run_id item_id e
mark run_id item_id e plan_already_complete = mark_failure run_id item_id e
