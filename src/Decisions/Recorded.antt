-- ===== src/Decisions/Recorded.antt =====
-- What a new decision on a source changes (src/kavita_ingest/decisions.py).
use kavita_ingest.Prelude.{
  ap, ◌∙◌, ℕ, String, ◌≡◌, refl, ◌&&◌, ◌||◌, some, [], ◌∷◌, ◌++◌, ◌==◌, string_Eq, nat_Eq, any,
  select, last_of, select-append, last_of-append, eq_refl,
}
use kavita_ingest.Plans.Rows.{is_invalidated, is_invalidated-where}
use kavita_ingest.Decisions.{
  DecisionType, Source, Entry, DecisionTables, is_of, decision_history, latest_decision, recorded,
  rests_on_other, add_decision,
}

module _ (source : Source) (type : DecisionType) (entry : Entry) (now : String)
    (tables : DecisionTables) where
  -- A new decision is the latest on its source and is appended to the history there; and behind it a
  -- plan is invalidated exactly if it was before, or if one of its preconditions rests on another
  -- decision on a source of the same bytes.
  pub add_decision_lem :
      let result = add_decision source type entry now tables in
      (latest_decision source result.1.decisions ≡ some result.0)
      × (decision_history source result.1.decisions
          ≡ decision_history source tables.decisions ++ result.0 ∷ [])
      × ((plan : ℕ)
          → is_invalidated plan result.1.plans.invalidations ≡ (
              is_invalidated plan tables.plans.invalidations
              || any
                  (λ p. rests_on_other source.sha256 result.0.id p && p.plan_id == plan)
                  tables.plans.preconditions))
  unfolding add_decision decision_history latest_decision
  add_decision_lem =
      let d = recorded source type entry now tables.decisions in
      let grown =
        select-append (is_of source) tables.decisions d
          (rw (eq_refl source.sha256, eq_refl source.media_signature) refl) in
      (
        ap last_of grown ∙ last_of-append (select (is_of source) tables.decisions) d,
        grown,
        λ plan.
            is_invalidated-where (rests_on_other source.sha256 d.id) _ now plan
              tables.plans.preconditions tables.plans.invalidations,
      )
