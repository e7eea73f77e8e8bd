-- ===== src/Journal/Ended.antt =====
-- What the journal holds after the state of a run has been set (`set_run_state`, `get_run`, `items` and
-- `latest_for_plan` of src/kavita_ingest/apply_journal.py).
use kavita_ingest.Prelude.{
  ℕ, String, ◌≡◌, refl, sym, ap, ◌∙◌, Bool, true, false, Option, none, some, List, [], ◌∷◌, ◌==◌,
  string_Eq, if◌then◌else◌,
}
use kavita_ingest.Journal.States.{RunState}
use kavita_ingest.Journal.Rows.{ApplyRun, Event, Db}
use kavita_ingest.Journal.Repository.{
  find_run, found, get_run, rows_of, items, newest, latest_for_plan, update_runs, ran,
  write_run_state, set_run_state,
}
use kavita_ingest.Effect.{Env, World, Exception, done, error}
use kavita_ingest.Effect.Triples.{Triple, Triple-bind, Triple-transaction, EndsWritten}

-- Nothing is said of a run that ends otherwise.
abbrev pub Silent : World → Type 0
Silent w = Unit {0}

-- The run as it is recorded, with the state and the error that were set, and the items as before.
pub record IsEnded (base : Db) (run_id : String) (status : RunState) (message : Option String)
    (run : ApplyRun) (w : World) : Type 0 where
  pub items : w.db.items ≡ base.items
  pub recorded : find_run run_id w.db.runs ≡ some run
  pub state : run.status ≡ status
  pub told : run.error ≡ message

module _ (env : Env) (base : Db) where
  abbrev pub Unchanged : World → Type 0
  Unchanged w = w.db ≡ base

  pub items-Triple :
      (run_id : String)
      → Triple env Unchanged
          (items run_id)
          (λ rows w. Unchanged w × (rows ≡ rows_of run_id base.items))
          Silent
  unfolding items
  items-Triple run_id =
      Triple-transaction _ (λ w e. (e, ap (λ db. rows_of run_id db.items) e)) (λ w e. tt)
        (λ w e. tt)

  pub latest_for_plan-Triple :
      (plan_id : ℕ)
      → Triple env Unchanged
          (latest_for_plan plan_id)
          (λ run w. Unchanged w × (run ≡ newest plan_id base.runs none))
          Silent
  unfolding latest_for_plan
  latest_for_plan-Triple plan_id =
      Triple-transaction _ (λ w e. (e, ap (λ db. newest plan_id db.runs none) e)) (λ w e. tt)
        (λ w e. tt)

  module _ (run_id : String) (status : RunState) (message : Option String) where
    -- Whatever row of the run is found, it has the new state.
    abbrev Sets : List ApplyRun → Type 0
    Sets runs =
        (run : ApplyRun)
        → find_run run_id runs ≡ some run
        → (run.status ≡ status) × (run.error ≡ message)

    update_runs-Sets :
        (now : ℕ) (runs : List ApplyRun) → Sets (update_runs run_id (ran status message now) runs)
    unfolding update_runs find_run
    update_runs-Sets now [] run e = cc
    update_runs-Sets now (r ∷ rest) run e =
        by (r.id == run_id) refl (update_runs-Sets now rest run) e
      where
        same : {x y : ApplyRun} → some x ≡ some y → x ≡ y
        same e = cc

        by :
            (b : Bool)
            → (r.id == run_id) ≡ b
            → (find_run run_id (update_runs run_id (ran status message now) rest) ≡ some run
                → (run.status ≡ status) × (run.error ≡ message))
            → find_run run_id (
                (if b then ran status message now r else r)
                ∷ update_runs run_id (ran status message now) rest)
              ≡ some run
            → (run.status ≡ status) × (run.error ≡ message)
        by true at ih e =
            let is = same (
              sym (
                ap
                  (λ c.
                    if c
                    then some (ran status message now r)
                    else find_run run_id (update_runs run_id (ran status message now) rest))
                  at)
              ∙ e) in
            (sym (ap (λ x. x.status) is), sym (ap (λ x. x.error) is))
        by false at ih e = ih (
            sym (
              ap
                (λ c.
                  if c
                  then some r
                  else find_run run_id (update_runs run_id (ran status message now) rest))
                at)
            ∙ e)

    get_run-Triple :
        Triple env
          (λ w. (w.db.items ≡ base.items) × Sets w.db.runs)
          (get_run run_id)
          (IsEnded base run_id status message)
          Silent
    unfolding get_run
    get_run-Triple =
        Triple-transaction _ (λ w h. by w (find_run run_id w.db.runs) refl h) (λ w h. tt)
          (λ w h. tt)
      where
        by :
            (w : World) (o : Option ApplyRun)
            → find_run run_id w.db.runs ≡ o
            → (w.db.items ≡ base.items) × Sets w.db.runs
            → EndsWritten (IsEnded base run_id status message) Silent w (found o w.db)
        by w none at h = tt
        by w (some run) at h = record {
          items = h.0;
          recorded = at;
          state = (h.1 run at).0;
          told = (h.1 run at).1;
        }

    abbrev Set : Unit {0} → World → Type 0
    Set u w = (w.db.items ≡ base.items) × Sets w.db.runs

    write-Set :
        (b : Bool) (now : ℕ) (w : World) (x : Exception) (events : List Event)
        → w.db ≡ base
        → EndsWritten {A = Unit {0}} Set Silent w (
            if b
            then error x
            else done (
              tt,
              record w.db {
                runs = update_runs run_id (ran status message now) w.db.runs;
                events = events;
              },
            ))
    write-Set true now w x events e = tt
    write-Set false now w x events e = (ap (λ db. db.items) e, update_runs-Sets now w.db.runs)

    pub set_run_state-Triple :
        Triple env Unchanged
          (set_run_state run_id status message)
          (IsEnded base run_id status message)
          Silent
    unfolding set_run_state write_run_state
    set_run_state-Triple =
        Triple-bind _ _
          (Triple-transaction {Q = Set} _ (λ w e. write-Set _ _ w _ _ e) (λ w e. tt) (λ w e. tt))
          λ u. get_run-Triple
