-- ===== src/Engine/Eligible/Decided.antt =====
-- Decisions and plans: behind a new decision no plan is applied that rests on an older one.
use kavita_ingest.Prelude.{
  ℕ, String, ◌≡◌, ◌≢◌, refl, ◌∙◌, Bool, true, false, ◌&&◌, ◌||◌, Option, ◌==◌, nat_Eq, any,
}
use kavita_ingest.Json.{Json}
use kavita_ingest.Effect.{done}
use kavita_ingest.Plans.Rows.{StoredPlan, PlanTables, is_invalidated}
use kavita_ingest.Decisions.{
  DecisionType, Source, Entry, DecisionTables, rests_on_other, add_decision,
}
use kavita_ingest.Decisions.Recorded.{add_decision_lem}
use kavita_ingest.RunGroups.{RunGroupDecisionType, Tables, is_stale, add}
use kavita_ingest.RunGroups.History.{add_lem}
use kavita_ingest.Engine.Eligible.{Current, eligible_plan}
use kavita_ingest.Engine.Eligible.Sound.{eligible_plan_iff}

invalidated_never :
    (c : Current) (plan_id : ℕ) (now : String) (tables after : PlanTables) (plan : StoredPlan)
    (document : Json)
    → is_invalidated plan_id tables.invalidations ≡ true
    → eligible_plan c plan_id now tables ≢ (done (plan, document), after)
invalidated_never c plan_id now tables after plan document invalid e =
    cc (invalid, ((eligible_plan_iff c plan_id now tables plan document after).0 e).0.valid)

or_true : (a b : Bool) → b ≡ true → (a || b) ≡ true
or_true true b e = refl
or_true false b e = e

module _ (c : Current) (plan_id : ℕ) (now later : String) (after : PlanTables) (plan : StoredPlan)
    (document : Json) where
  -- Behind a new decision on a source, a plan is not eligible that has a precondition on another
  -- decision on a source of the same bytes, whatever else is in the tables.
  pub eligible_plan-add_decision :
      (source : Source) (type : DecisionType) (entry : Entry) (tables : DecisionTables)
      → let result = add_decision source type entry now tables in
        any
            (λ p. rests_on_other source.sha256 result.0.id p && p.plan_id == plan_id)
            tables.plans.preconditions
          ≡ true
        → eligible_plan c plan_id later (add_decision source type entry now tables).1.plans
          ≢ (done (plan, document), after)
  eligible_plan-add_decision source type entry tables rests =
      invalidated_never c plan_id later (add_decision source type entry now tables).1.plans after
        plan document
        ((add_decision_lem source type entry now tables).2 plan_id ∙ or_true _ _ rests)

  -- Behind a new decision for a run group, a plan is not eligible that has a precondition on another
  -- decision for the group, whatever else is in the tables.
  pub eligible_plan-add :
      (group_key provider : String) (type : RunGroupDecisionType) (run : Option String)
      (snapshot : String) (tables : Tables)
      → let result = add group_key provider type run snapshot now tables in
        any
            (λ p. is_stale group_key result.0.id p && p.plan_id == plan_id)
            tables.plans.preconditions
          ≡ true
        → eligible_plan c plan_id later
            (add group_key provider type run snapshot now tables).1.plans
          ≢ (done (plan, document), after)
  eligible_plan-add group_key provider type run snapshot tables rests =
      invalidated_never c plan_id later
        (add group_key provider type run snapshot now tables).1.plans after plan document
        ((add_lem group_key provider type run snapshot now tables).2 plan_id ∙ or_true _ _ rests)
