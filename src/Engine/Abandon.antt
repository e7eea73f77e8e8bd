-- ===== src/Engine/Abandon.antt =====
-- `abandon` of src/kavita_ingest/apply_engine.py: a run is closed by hand, from the checks in the
-- database on. The process lock and the migration that come first are left out. The journal is that of
-- the world; the tables of the plans are taken and returned.
use mathlib.Core.Path.{subst}
use kavita_ingest.Prelude.{
  ℕ, String, ◌≡◌, ◌≢◌, refl, sym, ap, ◌∙◌, ◌⊎◌, inl, inr, Bool, true, false, not, ◌||◌, none, some,
  List, [], ◌∷◌, ◌==◌, string_Eq, nat_Eq, nat_eq_iff, eq_iff, any, All, arith, if_cases,
}
use kavita_ingest.Json.{Json}
use kavita_ingest.Journal.States.{RunState, ItemState, one_of}
use kavita_ingest.Journal.Rows.{ApplyRun, ApplyItem, Db}
use kavita_ingest.Journal.Repository.{rows_of, newest, items, latest_for_plan, set_run_state}
use kavita_ingest.Journal.Ended.{
  Silent, Unchanged, IsEnded, items-Triple, latest_for_plan-Triple, set_run_state-Triple,
}
use kavita_ingest.Effect.{
  Env, World, Outcome, ok, raised, crashed, Kind, M, Result, done, error, apply_refused, pure,
  rethrow, transaction, refuse_if, from_option, ◌>>=◌, ◌>>◌,
}
use kavita_ingest.Effect.Triples.{
  Ends, Triple, Triple-bind, Triple-given, Triple-post, Triple-pure, Triple-refuse_if,
  Triple-from_option, Triple-transaction,
}
use kavita_ingest.Plans.Rows.{StoredPlan, PlanTables, is_invalidated, is_invalidated-invalidate}
use kavita_ingest.Plans.Store.{Tools, get_plan, mark_incompatible}
use kavita_ingest.Engine.Runs.{Summary, summary, is_complete}
use kavita_ingest.Engine.Outcome.{summary-Triple}
use kavita_ingest.Engine.Eligible.{Current, eligible_plan}
use kavita_ingest.Engine.Eligible.Sound.{eligible_plan_iff}

abbrev safe_states : List ItemState
safe_states =
    ItemState.pending ∷ ItemState.preflight_ok ∷ ItemState.failed ∷ ItemState.stale
    ∷ ItemState.complete ∷ []

abbrev lifted : {A : Type 0} → Result A → M A
lifted (done a) = pure a
lifted (error e) = rethrow e

-- The checks, and the commit of the invalidation.
unfoldable pub abandonable : Tools → ℕ → String → PlanTables → M ApplyRun
abandonable tools plan_id reason tables = do
  refuse_if (reason == "") apply_refused "an abandonment reason is required"
  plan ← lifted (get_plan tools plan_id tables)
  latest ← latest_for_plan plan_id
  run ← from_option latest apply_refused "plan has no apply run to abandon"
  refuse_if (not (run.plan_digest == plan.sha256)) apply_refused
      "apply run digest does not match the immutable plan"
  refuse_if (is_complete run.status) apply_refused
      "plan is already complete and cannot be abandoned"
  rows ← items run.id
  refuse_if (any (λ item. not (one_of safe_states item.state)) rows) apply_refused
      "run cannot be abandoned while filesystem reconciliation may still be required"
  transaction (λ env t db. done (tt, db))
  pure run

unfoldable pub close_run : String → ApplyRun → M Summary
close_run message run = do
  closed ← set_run_state run.id RunState.failed (some message)
  summary closed

abbrev closing :
    ℕ
    → String
    → String
    → PlanTables
    → Env
    → Outcome ApplyRun × World
    → (Outcome Summary × World) × PlanTables
closing plan_id message now tables env (ok run, w) =
    (close_run message run env w, mark_incompatible plan_id message now tables)
closing plan_id message now tables env (raised e, w) = ((raised e, w), tables)
closing plan_id message now tables env (crashed, w) = ((crashed, w), tables)

-- The reason is stripped; `message` is made from it.
unfoldable pub abandon :
    Tools
    → ℕ
    → String
    → String
    → String
    → PlanTables
    → Env
    → World
    → (Outcome Summary × World) × PlanTables
abandon tools plan_id reason message now tables env w =
    closing plan_id message now tables env (abandonable tools plan_id reason tables env w)

-- The states in which a run may be closed by hand: nothing was committed that is not complete.
pub data Settled : ItemState → Type 0 where
  not_started : Settled ItemState.pending
  checked : Settled ItemState.preflight_ok
  has_failed : Settled ItemState.failed
  is_stale : Settled ItemState.stale
  has_completed : Settled ItemState.complete

Settled_of : (s : ItemState) → one_of safe_states s ≡ true → Settled s
Settled_of ItemState.pending e = not_started
Settled_of ItemState.preflight_ok e = checked
Settled_of ItemState.staging e = cc
Settled_of ItemState.staged e = cc
Settled_of ItemState.verified e = cc
Settled_of ItemState.committing e = cc
Settled_of ItemState.committed e = cc
Settled_of ItemState.cleanup_pending e = cc
Settled_of ItemState.cleaned e = cc
Settled_of ItemState.complete e = has_completed
Settled_of ItemState.failed e = has_failed
Settled_of ItemState.stale e = is_stale
Settled_of ItemState.recovery_required e = cc

-- An item of another run, or a settled one.
abbrev pub AtRest : String → ApplyItem → Type 0
AtRest run_id item = (item.run_id ≢ run_id) ⊎ Settled item.state

AtRest-all :
    (run_id : String) (rows : List ApplyItem)
    → any (λ item. not (one_of safe_states item.state)) (rows_of run_id rows) ≡ false
    → All (AtRest run_id) rows
unfolding rows_of
AtRest-all run_id [] e = tt
AtRest-all run_id (row ∷ rows) e =
    if_cases
      (λ l.
        any (λ item. not (one_of safe_states item.state)) l ≡ false
        → AtRest run_id row × All (AtRest run_id) rows)
      (row.run_id == run_id) {x = row ∷ rows_of run_id rows} {y = rows_of run_id rows}
      (λ own h. (
        inr (Settled_of row.state (ground (arith, h))),
        AtRest-all run_id rows (ground (arith, h)),
      ))
      (λ other h.
        (inl (λ same. cc ((eq_iff row.run_id run_id).1 same, other)), AtRest-all run_id rows h))
      e

-- What is known of a run that may be closed.
pub record MayClose (tools : Tools) (plan_id : ℕ) (reason : String) (tables : PlanTables)
    (base : Db) (run : ApplyRun) : Type 0 where
  pub reasoned : reason ≢ ""
  pub plan : StoredPlan
  pub sound : get_plan tools plan_id tables ≡ done plan
  pub latest : newest plan_id base.runs none ≡ some run
  pub same_plan : run.plan_digest ≡ plan.sha256
  pub unfinished : run.status ≢ RunState.complete
  pub at_rest : All (AtRest run.id) base.items

-- A run that may be closed, and that the journal now holds as failed for the reason that was given;
-- the items are as before.
pub record IsClosed (tools : Tools) (plan_id : ℕ) (reason message : String) (tables : PlanTables)
    (base : Db) (s : Summary) (w : World) : Type 0 where
  pub run : ApplyRun
  pub may_close : MayClose tools plan_id reason tables base run
  pub closed : ApplyRun
  pub ended : IsEnded base run.id RunState.failed (some message) closed w
  pub reported : s.status ≡ RunState.failed

module _ (env : Env) (base : Db) where
  lifted-Triple :
      {A : Type 0} (r : Result A)
      → Triple env
          (Unchanged env base)
          (lifted r)
          (λ a w. Unchanged env base w × (r ≡ done a))
          Silent
  unfolding pure rethrow
  lifted-Triple (done a) = record { at = λ w e. (e, refl) }
  lifted-Triple (error e) = record { at = λ w e. tt }

  refuse-Triple :
      (b : Bool) (k : Kind) (m : String)
      → Triple env
          (Unchanged env base)
          (refuse_if b k m)
          (λ u w. Unchanged env base w × (b ≡ false))
          Silent
  refuse-Triple b k m = Triple-refuse_if b k m (λ w e h. (h, e)) (λ w h. tt)

  module _ (tools : Tools) (plan_id : ℕ) (reason : String) (tables : PlanTables) where
    abandonable-Triple :
        Triple env
          (Unchanged env base)
          (abandonable tools plan_id reason tables)
          (λ run w. Unchanged env base w × MayClose tools plan_id reason tables base run)
          Silent
    unfolding abandonable
    abandonable-Triple = Triple-bind _ _ (refuse-Triple _ _ _) λ u. Triple-given _ λ reasoned.
        Triple-bind _ _ (lifted-Triple (get_plan tools plan_id tables)) λ plan.
          Triple-given _ λ sound. Triple-bind _ _ (latest_for_plan-Triple env base plan_id) λ found.
            Triple-given _ λ latest.
              Triple-bind _ _ (Triple-from_option found _ _ (λ w h. tt))
                λ run. Triple-given _ λ is. checked_run plan sound run (sym latest ∙ is) reasoned
      where
        not_false : (b : Bool) → not b ≡ false → b ≡ true
        not_false true e = refl
        not_false false e = cc

        apart : (reason == "") ≡ false → reason ≢ ""
        apart e same = cc ((eq_iff reason "").1 same, e)

        unfinished : (state : RunState) → is_complete state ≡ false → state ≢ RunState.complete
        unfinished state e same = never (sym (ap is_complete same) ∙ e)
          where
            never : true ≡ false → ⊥
            never e = cc

        checked_run :
            (plan : StoredPlan)
            → get_plan tools plan_id tables ≡ done plan
            → (run : ApplyRun) → newest plan_id base.runs none ≡ some run
            → (reason == "") ≡ false
            → Triple env
                (Unchanged env base)
                (do
                  refuse_if
                      (not (run.plan_digest == plan.sha256))
                      apply_refused
                      "apply run digest does not match the immutable plan"
                  refuse_if
                      (is_complete run.status)
                      apply_refused
                      "plan is already complete and cannot be abandoned"
                  rows ← items run.id
                  refuse_if
                      (any (λ item. not (one_of safe_states item.state)) rows)
                      apply_refused
                      "run cannot be abandoned while filesystem reconciliation may still be required"
                  transaction (λ env t db. done (tt, db))
                  pure run)
                (λ run w. Unchanged env base w × MayClose tools plan_id reason tables base run)
                Silent
        checked_run plan sound run latest reasoned = Triple-bind _ _ (refuse-Triple _ _ _) λ u.
            Triple-given _ λ digest. Triple-bind _ _ (refuse-Triple _ _ _) λ u.
              Triple-given _ λ status. Triple-bind _ _ (items-Triple env base run.id) λ rows.
                Triple-given _ λ read. Triple-bind _ _ (refuse-Triple _ _ _) λ u.
                  Triple-given _ λ safe.
                    Triple-bind _ _
                      (Triple-transaction {Q = λ u w. Unchanged env base w} _ (λ w e. e) (λ w e. tt)
                        (λ w e. tt))
                      λ u. Triple-pure run (λ w e. (
                        e,
                        record {
                          reasoned = apart reasoned;
                          plan = plan;
                          sound = sound;
                          latest = latest;
                          same_plan = (eq_iff _ _).0 (not_false _ digest);
                          unfinished = unfinished run.status status;
                          at_rest = AtRest-all run.id base.items (
                              ap (any (λ item. not (one_of safe_states item.state))) (sym read)
                              ∙ safe);
                        },
                      ))

    close_run-Triple :
        (message : String) (run : ApplyRun)
        → MayClose tools plan_id reason tables base run
        → Triple env
            (Unchanged env base)
            (close_run message run)
            (IsClosed tools plan_id reason message tables base)
            Silent
    unfolding close_run
    close_run-Triple message run may =
        Triple-bind _ _ (set_run_state-Triple env base run.id RunState.failed (some message))
          λ closed.
            Triple-post _ (summary-Triple env base run.id RunState.failed (some message) closed)
              (λ s w h. record {
                run = run;
                may_close = may;
                closed = closed;
                ended = h.0;
                reported = h.1 ∙ h.0.state;
              })
              (λ w h. h)

-- Where a run was closed by hand, it is the plan's latest run, of the plan's own digest and not
-- complete; a reason was given; and no item of it was between its staging and its end or in recovery.
-- The journal now holds the run as failed with the message, and no item is changed.
pub abandon-IsClosed :
    (tools : Tools) (plan_id : ℕ) (reason message now : String) (tables : PlanTables) (env : Env)
    (w v : World) (s : Summary)
    → (abandon tools plan_id reason message now tables env w).0 ≡ (ok s, v)
    → IsClosed tools plan_id reason message tables w.db s v
unfolding abandon
abandon-IsClosed tools plan_id reason message now tables env w v s =
    by (abandonable tools plan_id reason tables env w)
      ((abandonable-Triple env w.db tools plan_id reason tables).at w refl)
  where
    by :
        (r : Outcome ApplyRun × World)
        → Ends
            (λ run u. Unchanged env w.db u × MayClose tools plan_id reason tables w.db run)
            Silent
            r
        → (closing plan_id message now tables env r).0 ≡ (ok s, v)
        → IsClosed tools plan_id reason message tables w.db s v
    by (ok run, u) h e =
        subst (Ends (IsClosed tools plan_id reason message tables w.db) Silent) e
          ((close_run-Triple env w.db tools plan_id reason tables message run h.1).at u h.0)
    by (raised x, u) h e = cc
    by (crashed, u) h e = cc

-- A plan whose run was closed by hand is not eligible afterwards, whatever else is in the tables.
pub eligible_plan-abandon :
    (tools : Tools) (plan_id : ℕ) (reason message now : String) (tables : PlanTables) (env : Env)
    (w : World) (s : Summary) (c : Current) (later : String) (plan : StoredPlan) (document : Json)
    (after : PlanTables)
    → (abandon tools plan_id reason message now tables env w).0.0 ≡ ok s
    → eligible_plan c plan_id later (abandon tools plan_id reason message now tables env w).1
      ≢ (done (plan, document), after)
unfolding abandon
eligible_plan-abandon tools plan_id reason message now tables env w s c later plan document after =
    by (abandonable tools plan_id reason tables env w)
  where
    or_true : (a b : Bool) → b ≡ true → (a || b) ≡ true
    or_true true b e = refl
    or_true false b e = e

    by :
        (r : Outcome ApplyRun × World)
        → (closing plan_id message now tables env r).0.0 ≡ ok s
        → eligible_plan c plan_id later (closing plan_id message now tables env r).1
          ≢ (done (plan, document), after)
    by (raised x, v) e h = cc
    by (crashed, v) e h = cc
    by (ok run, v) e h =
        let valid =
          ((eligible_plan_iff c plan_id later (mark_incompatible plan_id message now tables) plan
              document after).0
            h).0.valid in
        let invalid =
          is_invalidated-invalidate plan_id plan_id message now tables.invalidations
          ∙ or_true (is_invalidated plan_id tables.invalidations) (plan_id == plan_id)
              ((nat_eq_iff plan_id plan_id).1 refl) in
        cc (valid, invalid)
