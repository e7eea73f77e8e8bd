-- ===== src/Tests/Groups.antt =====
-- A plan that rests on a decision which a new one replaces.
use kavita_ingest.Prelude.{ℕ, ◌≡◌, ◌++◌, ◌&&◌, ◌||◌, ◌==◌, nat_Eq, any, none, some, [], ◌∷◌}
use kavita_ingest.Plans.Rows.{is_invalidated}
use kavita_ingest.RunGroups.{RunGroupDecisionType, Tables, latest, history, add, is_stale}
use kavita_ingest.RunGroups.History.{add_lem}

abbrev pub chosen : Tables
chosen = record {
  decisions =
      record {
        id = 1;
        group_key = "comic:saga";
        provider = "comic_vine";
        decision_type = RunGroupDecisionType.selected;
        provider_run_id = some "17";
        run_snapshot = "{}";
        created_at = "3";
        supersedes_id = none;
      }
      ∷ [];
  plans = record {
    plans = [];
    index = [];
    preconditions =
        record {
          plan_id = 4;
          item_id = "i1";
          source_fingerprint = "digest";
          decision_head_id = 1;
          run_group_key = some "comic:saga";
          run_group_decision_id = some 1;
        }
        ∷ [];
    invalidations = [];
    supersessions = [];
  };
}

add_lem_example :
    let result =
      add "comic:saga" "comic_vine" RunGroupDecisionType.manual (some "18") "{}" "9" chosen in
    (latest "comic:saga" "comic_vine" result.1 ≡ some result.0)
    × (history "comic:saga" "comic_vine" result.1.decisions
        ≡ history "comic:saga" "comic_vine" chosen.decisions ++ result.0 ∷ [])
    × ((plan : ℕ)
        → is_invalidated plan result.1.plans.invalidations ≡ (
            is_invalidated plan chosen.plans.invalidations
            || any
                (λ p. is_stale "comic:saga" result.0.id p && p.plan_id == plan)
                chosen.plans.preconditions))
add_lem_example =
    add_lem "comic:saga" "comic_vine" RunGroupDecisionType.manual (some "18") "{}" "9" chosen
