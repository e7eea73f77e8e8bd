-- ===== src/Plans/Step.antt =====
-- Statements in one transaction: each may raise, and returns the tables as its connection sees them.
-- What was written before an exception is still there; a rollback is written out where it happens.
use kavita_ingest.Prelude.{◌≡◌, refl, ap, ◌∙◌, ◌↔◌, true, false, Bool, String, if◌then◌else◌}
use kavita_ingest.Effect.{Result, done, error, Exception, Kind, exception}
use kavita_ingest.Plans.Rows.{PlanTables}

abbrev pub Step : Type 0 → Type 0
Step A = PlanTables → Result A × PlanTables

module _ {A : Type 0} where
  abbrev pub lift : Result A → Step A
  lift r tables = (r, tables)

  abbrev pub pure : A → Step A
  pure a tables = (done a, tables)

  abbrev pub raise : Kind → String → Step A
  raise kind message tables = (error (exception kind message), tables)

  abbrev pub reading : (PlanTables → Result A) → Step A
  reading f tables = (f tables, tables)

module _ {A B : Type 0} where
  abbrev pub resume : (A → Step B) → Result A × PlanTables → Result B × PlanTables
  resume f (done a, tables) = f a tables
  resume f (error e, tables) = (error e, tables)

  infixl 5 ◌>>=◌
  unfoldable pub ◌>>=◌ : Step A → (A → Step B) → Step B
  (m >>= f) tables = resume f (m tables)

  infixl 5 ◌>>◌
  abbrev pub ◌>>◌ : Step A → Step B → Step B
  m >> n = m >>= λ a. n

abbrev pub refuse_if : Bool → Kind → String → Step (Unit {0})
refuse_if b kind message = if b then raise kind message else pure tt

abbrev pub change : (PlanTables → PlanTables) → Step (Unit {0})
change f tables = (done tt, f tables)

error_never :
    {B : Type 0} {x : Exception} {u after : PlanTables} {b : B}
    → lift {A = B} (error x) u ≡ (done b, after)
    → ⊥
error_never {x = x} e = never (ap (λ r. r.0) e)
  where
    never : {C : Type 0} {y : C} → error x ≡ done y → ⊥
    never e = cc

module _ {A B : Type 0} (tables after : PlanTables) (b : B) where
  -- What a step that only computes leads to.
  pub lift_iff :
      (r : Result A) (f : A → Step B)
      → ((lift r >>= f) tables ≡ (done b, after))
        ↔ ((a : A) × (r ≡ done a) × (f a tables ≡ (done b, after)))
  unfolding ◌>>=◌
  lift_iff (done a) f =
      (λ e. (a, refl, e), λ (a', e, g). ap (λ x. f x tables) (done_injective e) ∙ g)
    where
      done_injective : {x y : A} → done x ≡ done y → x ≡ y
      done_injective e = cc
  lift_iff (error x) f = (λ e. absurd (error_never e), λ (a, e, g). cc)

  -- What a test behind which the tables are the same leads to.
  pub test_iff :
      (p : Bool) (x : Exception) (a : A) (u : PlanTables) (f : A → Step B)
      → (resume f (if p then (done a, tables) else (error x, u)) ≡ (done b, after))
        ↔ ((p ≡ true) × (f a tables ≡ (done b, after)))
  test_iff true x a u f = (λ e. (refl, e), λ h. h.1)
  test_iff false x a u f = (λ e. absurd (error_never e), λ h. cc)
