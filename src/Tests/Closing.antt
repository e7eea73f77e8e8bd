-- ===== src/Tests/Closing.antt =====
-- A run that stopped behind its preflight, ended and closed by hand.
use kavita_ingest.Prelude.{◌≡◌, ◌≢◌, refl, ap, [], ◌∷◌}
use kavita_ingest.Journal.States.{RunState, ItemState}
use kavita_ingest.Effect.{World, ok, done}
use kavita_ingest.Engine.Runs.{Summary}
use kavita_ingest.Engine.Abandon.{abandon, abandon-IsClosed, IsClosed, eligible_plan-abandon}
use kavita_ingest.Engine.Eligible.{eligible_plan}
use kavita_ingest.Engine.Abandon.{abandonable, close_run}
use kavita_ingest.Effect.{pure, rethrow, transaction, refuse_if, from_option, ◌>>=◌}
use kavita_ingest.Journal.Repository.{
  latest_for_plan, newest, items, rows_of, set_run_state, write_run_state, update_runs, get_run,
  find_run,
}
use kavita_ingest.Engine.Runs.{summary, count_states, finalize, final_state}
use kavita_ingest.Engine.Outcome.{IsFinal, finalize-IsFinal}
use kavita_ingest.Plans.Store.{get_plan, find_plan, verify_plan}
use kavita_ingest.Plans.Document.{
  validate_plan_payload, valid_document, valid_policy, valid_item, valid_permission,
}
use kavita_ingest.Json.{get, has, field_at, elements, json_equal, items_equal, fields_equal}
use kavita_ingest.Prelude.{lookup, insert, codes_eq}
use kavita_ingest.Tests.{calm, run, start_db, start_files}
use kavita_ingest.Tests.Plans.{tools, plans_after, approved_plan, plan_document, current}

abbrev stopped : World
stopped = record {
  files = start_files;
  db = record start_db { runs = record run { plan_id = 1 } ∷ [] };
  tick = 0;
}

abbrev closed : Summary
closed = record {
  run_id = "r1";
  plan_id = 1;
  status = RunState.failed;
  counts = (ItemState.preflight_ok, 1) ∷ [];
}

abbrev behind : World
behind = (abandon tools 1 "unwanted" "abandoned" "5" plans_after calm stopped).0.1

is_closed :
    (abandon tools 1 "unwanted" "abandoned" "5" plans_after calm stopped).0 ≡ (ok closed, behind)
unfolding abandon abandonable close_run pure rethrow transaction refuse_if from_option ◌>>=◌
    latest_for_plan newest items rows_of set_run_state write_run_state update_runs get_run find_run
    summary count_states get_plan find_plan verify_plan validate_plan_payload valid_document
    valid_policy valid_item valid_permission get has field_at elements json_equal items_equal
    fields_equal lookup insert codes_eq
is_closed = refl

abandon-IsClosed_example :
    IsClosed tools 1 "unwanted" "abandoned" plans_after stopped.db closed behind
abandon-IsClosed_example =
    abandon-IsClosed tools 1 "unwanted" "abandoned" "5" plans_after calm stopped behind closed
      is_closed

abbrev ending : World
ending = (finalize "r1" calm stopped).1

is_ended : finalize "r1" calm stopped ≡ (ok closed, ending)
unfolding finalize final_state pure transaction ◌>>=◌ items rows_of set_run_state write_run_state
    update_runs get_run find_run summary count_states lookup insert
is_ended = refl

finalize-IsFinal_example : IsFinal "r1" stopped.db closed ending
finalize-IsFinal_example = finalize-IsFinal "r1" calm stopped ending closed is_ended

eligible_plan-abandon_example :
    eligible_plan current 1 "6"
      (abandon tools 1 "unwanted" "abandoned" "5" plans_after calm stopped).1
    ≢ (done (approved_plan, plan_document), plans_after)
eligible_plan-abandon_example =
    eligible_plan-abandon tools 1 "unwanted" "abandoned" "5" plans_after calm stopped closed current
      "6" approved_plan plan_document plans_after (ap (λ r. r.0) is_closed)
