-- ===== src/Journal/Keeping.antt =====
-- Properties of the journal's tables that every transaction of the engine keeps.
use mathlib.Core.Path.{subst}
use kavita_ingest.Prelude.{List, ℕ, String, ◌≡◌, refl, Bool, true, false, if◌then◌else◌}
use kavita_ingest.Journal.States.{ItemState, may_become}
use kavita_ingest.Journal.Rows.{Db, Detail, Field}
use kavita_ingest.Journal.Repository.{write_transition, write_error}
use kavita_ingest.Effect.{Result, done, error}

-- What a transaction leaves in the tables, if it does not raise.
abbrev pub Writes : {A : Type 0} → (Db → Type 0) → Result (A × Db) → Type 0
Writes D (done (a, db)) = D db
Writes D (error e) = Unit

pub Writes_at :
    {A : Type 0} (D : Db → Type 0) (r : Result (A × Db)) {a : A} {db : Db}
    → Writes D r
    → r ≡ done (a, db)
    → D db
Writes_at D (done (b, db)) h e = subst (Writes D) e h
Writes_at D (error x) h e = cc

pub Writes-if :
    {A : Type 0} (D : Db → Type 0) (b : Bool) (r s : Result (A × Db))
    → (b ≡ true → Writes D r)
    → (b ≡ false → Writes D s)
    → Writes D (if b then r else s)
Writes-if D true r s hr hs = hr refl
Writes-if D false r s hr hs = hs refl

-- A property that the writes of the journal keep, a transition only where the table allows it.
pub record Journaling (D : Db → Type 0) : Type 0 where
  pub moves :
      (run_id item_id : String) (from to : ItemState) (detail : Detail) (fields : List Field)
      (now : ℕ) (db : Db)
      → may_become from to ≡ true
      → D db
      → Writes D (write_transition run_id item_id from to detail fields now db)
  pub notes :
      (run_id item_id : String) (state : ItemState) (message : String) (now : ℕ) (db : Db)
      → D db
      → Writes D (write_error run_id item_id state message now db)

-- No property at all.
abbrev pub Anything : Db → Type 0
Anything db = Unit

anything : {A : Type 0} (r : Result (A × Db)) → Writes Anything r
anything (done (a, db)) = tt
anything (error e) = tt

pub Anything-Journaling : Journaling Anything
Anything-Journaling = record {
  moves = λ r i from to detail fields now db allowed h. anything _;
  notes = λ r i s message now db h. anything _;
}
