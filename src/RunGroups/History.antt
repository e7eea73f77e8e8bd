-- ===== src/RunGroups/History.antt =====
-- What a new decision changes.
use kavita_ingest.Prelude.{
  ap, ◌∙◌, ℕ, String, ◌≡◌, refl, ◌&&◌, ◌||◌, Option, some, [], ◌∷◌, ◌++◌, ◌==◌, string_Eq, nat_Eq,
  any, select, last_of, select-append, last_of-append, eq_refl,
}
use kavita_ingest.Plans.Rows.{is_invalidated, is_invalidated-where}
use kavita_ingest.RunGroups.{
  RunGroupDecisionType, Tables, is_for, history, latest, is_stale, new_decision, add,
}

module _ (group_key provider : String) (type : RunGroupDecisionType) (run : Option String)
    (snapshot : String) (now : String) (tables : Tables) where
  -- A new decision is the latest of its group and provider and is appended to the history there;
  -- and a plan is invalidated behind it exactly if it was before, or if
  -- one of its preconditions rests on another decision for the group.
  pub add_lem :
      let result = add group_key provider type run snapshot now tables in
      (latest group_key provider result.1 ≡ some result.0)
      × (history group_key provider result.1.decisions
          ≡ history group_key provider tables.decisions ++ result.0 ∷ [])
      × ((plan : ℕ)
          → is_invalidated plan result.1.plans.invalidations ≡ (
              is_invalidated plan tables.plans.invalidations
              || any
                  (λ p. is_stale group_key result.0.id p && p.plan_id == plan)
                  tables.plans.preconditions))
  unfolding add history
  add_lem =
      let grown =
        select-append (is_for group_key provider) tables.decisions
          (new_decision group_key provider type run snapshot now tables)
          (rw (eq_refl group_key, eq_refl provider) refl) in
      (
        ap last_of grown ∙ last_of-append (select (is_for group_key provider) tables.decisions) _,
        grown,
        λ plan.
            is_invalidated-where (is_stale group_key _) _ now plan tables.plans.preconditions
              tables.plans.invalidations,
      )
