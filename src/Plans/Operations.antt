-- ===== src/Plans/Operations.antt =====
-- Sequences of imports and approvals (`PlanStore` of src/kavita_ingest/plan_store.py).
use mathlib.Core.Path.{subst}
use kavita_ingest.Prelude.{
  ℕ, suc, String, ◌≡◌, refl, sym, ap, ◌∙◌, Bool, true, false, not, Option, none, some, List, [],
  ◌∷◌, ◌==◌, string_Eq, nat_Eq, eq_iff, length, if_cases, arith,
}
use kavita_ingest.Filesystem.State.{Bytes}
use kavita_ingest.Json.{Json, is_null, get}
use kavita_ingest.Effect.{Result, Exception, done, error}
use kavita_ingest.Plans.Rows.{
  StoredPlan, PlanTables, Connection, commit, roll_back, leave_open, is_invalidated,
}
use kavita_ingest.Plans.Step.{Step, resume, lift, ◌>>=◌}
use kavita_ingest.Plans.Document.{validate_plan_payload, plan_items, has_current_policy}
use kavita_ingest.Plans.Store.{
  Tools, find_plan, verify_plan, get_plan, validated, verified, is_superseded, is_draft, blocks,
  approve_document, approve_plan, approve,
}
use kavita_ingest.Plans.Import.{
  Surroundings, insert_index, insert_precondition, derive_precondition, derive_item, derive_indexes,
  insert_plan, new_plan_row, import_plan, supersede_prior, import_result, import_document,
  import_bytes,
}
use kavita_ingest.Plans.Immutable.{
  Extends, IsNumbered, Extends-refl, Extends-trans, Extends-append, IsNumbered-append,
  approve_rows-IsNumbered, approve_rows-Extends,
}

-- What a step of the store does to the rows of the plans.
pub record Advances (before after : PlanTables) : Type 0 where
  pub ids : IsNumbered 0 after.plans
  pub rows : Extends before.plans after.plans

-- A step that leaves the rows of the plans alone, however it ends.
record Spares {A : Type 0} (m : Step A) : Type 0 where
  at : (tables : PlanTables) → (m tables).1.plans ≡ tables.plans

Spares-bind :
    {A B : Type 0} (m : Step A) (f : A → Step B)
    → Spares m
    → ((a : A) → Spares (f a))
    → Spares (m >>= f)
unfolding ◌>>=◌
Spares-bind {A} {B} m f h k = record { at = λ tables. by (m tables) ∙ h.at tables }
  where
    by : (r : Result A × PlanTables) → (resume f r).1.plans ≡ r.1.plans
    by (done a, t) = (k a).at t
    by (error x, t) = refl

Spares-lift : {A : Type 0} (r : Result A) → Spares (lift r)
Spares-lift r = record { at = λ tables. refl }

insert_index-Spares : (row : _) → Spares (insert_index row)
unfolding insert_index
insert_index-Spares row = record {
  at = λ tables.
      if_cases {A = Result (Unit {0}) × PlanTables} (λ r. r.1.plans ≡ tables.plans) _ (λ h. refl)
        (λ h. refl);
}

insert_precondition-Spares : (s : Surroundings) (row : _) → Spares (insert_precondition s row)
unfolding insert_precondition
insert_precondition-Spares s row = record {
  at = λ tables.
      if_cases {A = Result (Unit {0}) × PlanTables} (λ r. r.1.plans ≡ tables.plans) _ (λ h. refl)
        (λ h. refl);
}

derive_precondition-Spares :
    (s : Surroundings) (plan_id : ℕ) (j : Json) (fingerprint : String) (head : Json)
    → Spares (derive_precondition s plan_id j fingerprint head)
unfolding derive_precondition
derive_precondition-Spares s plan_id j fingerprint head =
    if_cases Spares (is_null head) (λ e. Spares-lift (done tt))
      λ e. Spares-bind _ _ (Spares-lift _) λ decision_head.
        Spares-bind _ _ (Spares-lift _)
          λ key. Spares-bind _ _ (Spares-lift _) λ decision. insert_precondition-Spares s _

derive_item-Spares : (s : Surroundings) (plan_id : ℕ) (j : Json) → Spares (derive_item s plan_id j)
unfolding derive_item
derive_item-Spares s plan_id j = Spares-bind _ _ (Spares-lift _) λ destination.
    Spares-bind _ _ (Spares-lift _) λ hash.
      Spares-bind _ _ (insert_index-Spares _)
        λ u. derive_precondition-Spares s plan_id j _ (get "decision_head_id" (get "provenance" j))

derive_indexes-Spares :
    (s : Surroundings) (plan_id : ℕ) (js : List Json) → Spares (derive_indexes s plan_id js)
unfolding derive_indexes
derive_indexes-Spares s plan_id [] = Spares-lift (done tt)
derive_indexes-Spares s plan_id (j ∷ rest) =
    Spares-bind (derive_item s plan_id j) _ (derive_item-Spares s plan_id j)
      λ u. derive_indexes-Spares s plan_id rest

-- What starts from numbered rows ends with numbered rows that extend them.
Advances-Spares :
    {A : Type 0} (m : Step A) (tables : PlanTables)
    → Spares m
    → IsNumbered 0 tables.plans
    → Advances tables (m tables).1
Advances-Spares m tables h ids = record {
  ids = subst (IsNumbered 0) (sym (h.at tables)) ids;
  rows = subst (Extends tables.plans) (sym (h.at tables)) (Extends-refl tables.plans);
}

pub Advances-same : (tables : PlanTables) → IsNumbered 0 tables.plans → Advances tables tables
Advances-same tables ids = record { ids = ids; rows = Extends-refl tables.plans }

Advances-trans : (s t u : PlanTables) → Advances s t → Advances t u → Advances s u
Advances-trans s t u g h = record {
  ids = h.ids;
  rows = Extends-trans s.plans t.plans u.plans g.rows h.rows;
}

insert_plan-Advances :
    (plan : StoredPlan) (tables : PlanTables)
    → plan.id ≡ suc (length tables.plans)
    → IsNumbered 0 tables.plans
    → Advances tables (insert_plan plan tables).1
unfolding insert_plan
insert_plan-Advances plan tables e ids =
    if_cases {A = Result (Unit {0}) × PlanTables} (λ r. Advances tables r.1) _
      (λ h. Advances-same tables ids)
      λ h. record {
        ids = IsNumbered-append 0 tables.plans plan ids (omega (arith, e));
        rows = Extends-append tables.plans (plan ∷ []);
      }

-- A second action that spares the plans keeps what the first has reached.
Advances-bind :
    {A B : Type 0} (m : Step A) (f : A → Step B) (tables : PlanTables)
    → Advances tables (m tables).1
    → ((a : A) → Spares (f a))
    → Advances tables ((m >>= f) tables).1
unfolding ◌>>=◌
Advances-bind m f tables h k = Advances-trans tables (m tables).1 _ h (rest (m tables) h.ids)
  where
    rest : (r : Result _ × PlanTables) → IsNumbered 0 r.1.plans → Advances r.1 (resume f r).1
    rest (done a, t) ids = Advances-Spares (f a) t (k a) ids
    rest (error x, t) ids = Advances-same t ids

import_plan-Advances :
    (s : Surroundings) (plan : StoredPlan) (document : Json) (now : String) (tables : PlanTables)
    → plan.id ≡ suc (length tables.plans)
    → IsNumbered 0 tables.plans
    → Advances tables (import_plan s plan document now tables).1
unfolding import_plan supersede_prior
import_plan-Advances s plan document now tables e ids =
    Advances-bind (insert_plan plan) _ tables (insert_plan-Advances plan tables e ids) λ u.
      Spares-bind _ _ (derive_indexes-Spares s plan.id (plan_items document))
        λ v. record { at = λ t. supersede_prior-plans t }
  where
    supersede_prior-plans : (t : PlanTables) → (supersede_prior s plan.id now t).plans ≡ t.plans
    supersede_prior-plans t = refl

-- What was committed stays, and the open transaction only adds to it.
pub record Persists (before after : Connection) : Type 0 where
  pub committed : Advances before.committed after.committed
  pub pending : Advances after.committed after.working

module _ (c : Connection) (ids : IsNumbered 0 c.committed.plans)
    (pending : Advances c.committed c.working) where
  Persists-kept : Persists c c
  Persists-kept = record { committed = Advances-same c.committed ids; pending = pending }

  Persists-roll_back : Persists c (roll_back c)
  Persists-roll_back = record {
    committed = Advances-same c.committed ids;
    pending = Advances-same c.committed ids;
  }

  Persists-commit : (tables : PlanTables) → Advances c.working tables → Persists c (commit tables)
  Persists-commit tables h = record {
    committed = Advances-trans c.committed c.working tables pending h;
    pending = Advances-same tables h.ids;
  }

  Persists-leave_open :
      (tables : PlanTables) → Advances c.working tables → Persists c (leave_open tables c)
  Persists-leave_open tables h = record {
    committed = Advances-same c.committed ids;
    pending = Advances-trans c.committed c.working tables pending h;
  }

  import_bytes-Persists :
      (s : Surroundings) (payload : Bytes) (now : String)
      → Persists c (import_bytes s payload now c).1
  unfolding import_bytes new_plan_row
  import_bytes-Persists s payload now = read (validate_plan_payload s.tools.codec payload)
    where
      ended :
          (plan_id : ℕ) (r : Result (Unit {0}) × PlanTables)
          → Advances c.working r.1
          → Persists c (import_result s plan_id c r).1
      ended plan_id (done u, t) h = Persists-commit t h
      ended plan_id (error e, t) h =
          if_cases {A = Result StoredPlan × Connection} (λ r. Persists c r.1) _
            (λ integrity. Persists-roll_back) (λ other. Persists-leave_open t h)

      read : (r : Result Json) → Persists c (import_document s payload now c r).1
      read (error e) = Persists-kept
      read (done document) =
          ended _
            (import_plan s (new_plan_row s document payload now c.working) document now c.working)
            (import_plan-Advances s (new_plan_row s document payload now c.working) document now
              c.working refl pending.ids)

verify_plan_same :
    (tools : Tools) (plan found : StoredPlan) → verify_plan tools plan ≡ done found → plan ≡ found
unfolding verify_plan
verify_plan_same tools plan found =
    if_cases (λ r. r ≡ done found → plan ≡ found)
      (not (length plan.canonical_json == plan.byte_length)) (λ h e. absurd (never e))
      λ h.
        if_cases (λ r. r ≡ done found → plan ≡ found)
          (not (tools.sha256 plan.canonical_json == plan.sha256)) (λ h e. absurd (never e))
          λ h. by (validate_plan_payload tools.codec plan.canonical_json)
  where
    never : {x : Exception} → error x ≡ done found → ⊥
    never e = cc

    by : (r : Result Json) → validated plan r ≡ done found → plan ≡ found
    by (done document) e = cc
    by (error x) e = cc

pub get_plan_found :
    (tools : Tools) (plan_id : ℕ) (tables : PlanTables) (plan : StoredPlan)
    → get_plan tools plan_id tables ≡ done plan
    → find_plan plan_id tables.plans ≡ some plan
unfolding get_plan
get_plan_found tools plan_id tables plan = by (find_plan plan_id tables.plans)
  where
    by : (o : Option StoredPlan) → verified tools o ≡ done plan → o ≡ some plan
    by none e = cc
    by (some found) e = ap some (verify_plan_same tools found plan e)

approve-Persists :
    (tools : Tools) (plan_id : ℕ) (digest now : String) (c : Connection)
    → IsNumbered 0 c.committed.plans
    → Advances c.committed c.working
    → Persists c (approve tools plan_id digest now c).1
unfolding approve
approve-Persists tools plan_id digest now c ids pending = by (get_plan tools plan_id c.working) refl
  where
    read :
        (plan : StoredPlan) (r : Result Json)
        → get_plan tools plan_id c.working ≡ done plan
        → digest ≡ plan.sha256
        → Persists c (approve_document tools plan_id digest now plan c r).1
    read plan (error e) found matches = Persists-kept c ids pending
    read plan (done document) found matches =
        if_cases {A = Result StoredPlan × Connection} (λ r. Persists c r.1)
          (not (has_current_policy document))
          (λ h.
            Persists-commit c ids pending _
              record { ids = pending.ids; rows = Extends-refl c.working.plans })
          λ h.
            if_cases {A = Result StoredPlan × Connection} (λ r. Persists c r.1) (blocks document)
              (λ h. Persists-kept c ids pending)
              λ h.
                if_cases {A = Result StoredPlan × Connection} (λ r. Persists c r.1)
                  (not (is_draft plan.status)) (λ h. Persists-kept c ids pending)
                  λ h. Persists-commit c ids pending _ record {
                    ids = approve_rows-IsNumbered plan_id digest now 0 c.working.plans pending.ids;
                    rows =
                        approve_rows-Extends plan_id digest now 0 c.working.plans plan pending.ids
                          (get_plan_found tools plan_id c.working plan found) matches;
                  }

    by :
        (r : Result StoredPlan)
        → get_plan tools plan_id c.working ≡ r
        → Persists c (approve_plan tools plan_id digest now c r).1
    by (error e) at = Persists-kept c ids pending
    by (done plan) at =
        if_cases {A = Result StoredPlan × Connection} (λ r. Persists c r.1)
          (not (digest == plan.sha256)) (λ h. Persists-kept c ids pending)
          λ matches.
            if_cases {A = Result StoredPlan × Connection} (λ r. Persists c r.1)
              (is_invalidated plan_id c.working.invalidations) (λ h. Persists-kept c ids pending)
              λ h.
                if_cases {A = Result StoredPlan × Connection} (λ r. Persists c r.1)
                  (is_superseded plan_id c.working.supersessions) (λ h. Persists-kept c ids pending)
                  λ h.
                    read plan (validate_plan_payload tools.codec plan.canonical_json) at
                      ((eq_iff digest plan.sha256).0 (not_not (digest == plan.sha256) matches))
      where
        not_not : (b : Bool) → not b ≡ false → b ≡ true
        not_not true e = refl
        not_not false e = cc

-- An import or an approval, with its time.
pub data Operation : Type 0 where
  importing : Bytes → String → Operation
  approving : ℕ → String → String → Operation

unfoldable pub perform : Surroundings → Operation → Connection → Connection
perform s (importing payload now) c = (import_bytes s payload now c).1
perform s (approving plan_id digest now) c = (approve (s.tools) plan_id digest now c).1

unfoldable pub perform_each : Surroundings → List Operation → Connection → Connection
perform_each s [] c = c
perform_each s (o ∷ rest) c = perform_each s rest (perform s o c)

-- Let the ids of the committed plans count their rows, and the open transaction of a connection only
-- add rows behind them or approve drafts for their own digest. Then through any sequence of imports
-- and approvals on it, successful and refused ones, no committed row is removed or changed but by the
-- approval of a draft for the digest of its own bytes, as it is stored in the row; the ids still count
-- the rows; and what the last open transaction wrote only adds to the committed rows in that way.
-- What an import that fails with another error than an integrity error wrote is such an open
-- transaction: a later commit keeps it, and a later integrity error takes it back.
pub perform_each-Persists :
    (s : Surroundings) (operations : List Operation) (c : Connection)
    → IsNumbered 0 c.committed.plans
    → Advances c.committed c.working
    → Persists c (perform_each s operations c)
unfolding perform_each perform
perform_each-Persists s [] c ids pending = Persists-kept c ids pending
perform_each-Persists s (o ∷ rest) c ids pending =
    let one = by o in
    let later = perform_each-Persists s rest (perform s o c) one.committed.ids one.pending in
    record {
      committed =
          Advances-trans c.committed (perform s o c).committed _ one.committed later.committed;
      pending = later.pending;
    }
  where
    by : (o : Operation) → Persists c (perform s o c)
    by (importing payload now) = import_bytes-Persists c ids pending s payload now
    by (approving plan_id digest now) = approve-Persists (s.tools) plan_id digest now c ids pending
