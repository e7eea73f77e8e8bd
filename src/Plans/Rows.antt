-- ===== src/Plans/Rows.antt =====
-- The tables of the plans, and the statement by which a decision invalidates plans
-- (src/kavita_ingest/migrations, src/kavita_ingest/run_groups.py, src/kavita_ingest/decisions.py).
use mathlib.Core.Path.{subst}
use kavita_ingest.Prelude.{
  ℕ, String, ◌≡◌, refl, ap, ◌∙◌, ◌⊎◌, inl, inr, Bool, true, false, ◌&&◌, ◌||◌, Option, List, [],
  ◌∷◌, ◌++◌, ◌==◌, nat_Eq, nat_eq_iff, any, arith, if◌then◌else◌, if_cases, Bool-cases,
}
use kavita_ingest.Filesystem.State.{Bytes}

pub data PlanStatus : Type 0 where
  draft approved : PlanStatus

pub record StoredPlan : Type 0 where
  pub id : ℕ
  pub schema_version : ℕ
  pub canonical_json : Bytes
  pub byte_length : ℕ
  pub sha256 : String
  pub status : PlanStatus
  pub created_at : String
  pub approved_at : Option String
  pub approval_digest : Option String

pub record IndexRow : Type 0 where
  pub plan_id : ℕ
  pub item_id : String
  pub source_fingerprint : String
  pub destination_path : Option String
  pub blocked : Bool

pub record Precondition : Type 0 where
  pub plan_id : ℕ
  pub item_id : String
  pub source_fingerprint : String
  pub decision_head_id : ℕ
  pub run_group_key : Option String
  pub run_group_decision_id : Option ℕ

pub record Invalidation : Type 0 where
  pub plan_id : ℕ
  pub reason : String
  pub invalidated_at : String

pub record Supersession : Type 0 where
  pub old_plan_id : ℕ
  pub new_plan_id : ℕ
  pub superseded_at : String

pub record PlanTables : Type 0 where
  pub plans : List StoredPlan
  pub index : List IndexRow
  pub preconditions : List Precondition
  pub invalidations : List Invalidation
  pub supersessions : List Supersession

-- The tables on the disk, and as the connection sees them with what its open transaction wrote.
pub record Connection : Type 0 where
  pub committed : PlanTables
  pub working : PlanTables

abbrev pub commit : PlanTables → Connection
commit tables = record { committed = tables; working = tables }

-- What was written since the last commit is taken back, by whichever call it was written.
abbrev pub roll_back : Connection → Connection
roll_back c = record { committed = c.committed; working = c.committed }

-- What was written stays in the open transaction.
abbrev pub leave_open : PlanTables → Connection → Connection
leave_open tables c = record { committed = c.committed; working = tables }

abbrev pub is_invalidated : ℕ → List Invalidation → Bool
is_invalidated plan_id rows = any (λ row. row.plan_id == plan_id) rows

-- INSERT OR IGNORE: a plan that is invalidated keeps its first reason.
unfoldable pub invalidate : ℕ → String → String → List Invalidation → List Invalidation
invalidate plan_id reason now rows =
    if is_invalidated plan_id rows
    then rows
    else rows ++ record { plan_id = plan_id; reason = reason; invalidated_at = now } ∷ []

-- INSERT OR IGNORE … SELECT DISTINCT plan_id FROM plan_preconditions WHERE …
unfoldable pub invalidate_where :
    (Precondition → Bool)
    → String
    → String
    → List Precondition
    → List Invalidation
    → List Invalidation
invalidate_where test reason now [] rows = rows
invalidate_where test reason now (p ∷ rest) rows =
    invalidate_where test reason now rest
      (if test p then invalidate p.plan_id reason now rows else rows)

any-snoc :
    {A : Type 0} (q : A → Bool) (xs : List A) (x : A) → any q (xs ++ x ∷ []) ≡ (any q xs || q x)
any-snoc q [] x = ground arith
any-snoc q (y ∷ xs) x = ground (arith, any-snoc q xs x)

or_true : (a b : Bool) → a ≡ true → a ≡ (a || b)
or_true true b e = refl
or_true false b e = cc

or_same : (a b c : Bool) → ((a || b) || c) ≡ (a || (b || c))
or_same true b c = refl
or_same false b c = refl

pub is_invalidated-invalidate :
    (plan other : ℕ) (reason now : String) (rows : List Invalidation)
    → is_invalidated plan (invalidate other reason now rows)
      ≡ (is_invalidated plan rows || other == plan)
unfolding invalidate
is_invalidated-invalidate plan other reason now rows =
    if_cases (λ l. is_invalidated plan l ≡ (is_invalidated plan rows || other == plan))
      (is_invalidated other rows) (λ e. old (Bool-cases (other == plan)) e)
      (λ e. any-snoc (λ row. row.plan_id == plan) rows _)
  where
    old :
        ((other == plan) ≡ true) ⊎ ((other == plan) ≡ false)
        → is_invalidated other rows ≡ true
        → is_invalidated plan rows ≡ (is_invalidated plan rows || other == plan)
    old (inr apart) e = rw apart (ground arith)
    old (inl same) e =
        or_true (is_invalidated plan rows) (other == plan)
          (subst (λ n. is_invalidated n rows ≡ true) ((nat_eq_iff other plan).0 same) e)

-- Behind the statement a plan is invalidated exactly if it was before, or one of its preconditions
-- is selected.
pub is_invalidated-where :
    (test : Precondition → Bool) (reason now : String) (plan : ℕ) (ps : List Precondition)
    (rows : List Invalidation)
    → is_invalidated plan (invalidate_where test reason now ps rows)
      ≡ (is_invalidated plan rows || any (λ p. test p && p.plan_id == plan) ps)
unfolding invalidate_where
is_invalidated-where test reason now plan [] rows = ground arith
is_invalidated-where test reason now plan (p ∷ ps) rows =
    is_invalidated-where test reason now plan ps _
    ∙ ap (λ b. b || any (λ q. test q && q.plan_id == plan) ps) one
    ∙ or_same (is_invalidated plan rows) (test p && p.plan_id == plan) _
  where
    one :
        is_invalidated plan (if test p then invalidate p.plan_id reason now rows else rows)
        ≡ (is_invalidated plan rows || (test p && p.plan_id == plan))
    one = by (test p)
      where
        by :
            (b : Bool)
            → is_invalidated plan (if b then invalidate p.plan_id reason now rows else rows)
              ≡ (is_invalidated plan rows || (b && p.plan_id == plan))
        by true = is_invalidated-invalidate plan p.plan_id reason now rows
        by false = ground arith
