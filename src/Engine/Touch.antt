-- ===== src/Engine/Touch.antt =====
-- The paths that the engine may remove or change for an item: its source, what lies in its staging
-- directory, that directory's parent, and the staged file that the journal names.
use kavita_ingest.Prelude.{◌≡◌, refl, true, Option, some, [], ◌∷◌, texts_Eq, eq_refl, arith}
use kavita_ingest.Filesystem.State.{FilePath, parent, is_relative_to, Files}
use kavita_ingest.Filesystem.Kept.{Fresh}
use kavita_ingest.Effect.{Env, Result, transaction}
use kavita_ingest.Journal.Rows.{Db}
use kavita_ingest.Journal.Keeping.{Writes, Writes_at}
use kavita_ingest.Effect.Keeps.{Keeps, Keeps-transaction}
use kavita_ingest.Linux.Kept.{KeptIn}
use kavita_ingest.Prelude.{ℕ, String}
use kavita_ingest.Engine.Item.{PreparedItem, staging_name}

pub data Staging (item : PreparedItem) (recorded : Option FilePath) (p : FilePath) : Type 0 where
  in_staging : is_relative_to p item.staging_directory ≡ true → Staging item recorded p
  over_staging : p ≡ parent item.staging_directory → Staging item recorded p
  is_recorded : recorded ≡ some p → Staging item recorded p

pub data Touchable (item : PreparedItem) (recorded : Option FilePath) (p : FilePath) : Type 0 where
  is_source : p ≡ item.source → Touchable item recorded p
  in_area : Staging item recorded p → Touchable item recorded p

is_relative_to_self : (p : FilePath) → is_relative_to p p ≡ true
unfolding is_relative_to
is_relative_to_self [] = eq_refl {K = FilePath} []
is_relative_to_self (name ∷ p) = rw (eq_refl {K = FilePath} (name ∷ p))

is_relative_to_child : (name : String) (p : FilePath) → is_relative_to (name ∷ p) p ≡ true
unfolding is_relative_to
is_relative_to_child name p = rw (is_relative_to_self p) (ground arith)

-- A transaction on the journal leaves the files alone.
pub transaction-Kept :
    {env : Env} {base : Files} {May : FilePath → Type 0} {D : Db → Type 0} {A : Type 0}
    (op : Env → ℕ → Db → Result (A × Db))
    → ((t : ℕ) (db : Db) → D db → Writes D (op env t db))
    → Keeps env (KeptIn base May D) (transaction op)
transaction-Kept {D = D} op kd =
    Keeps-transaction op (λ w i. i)
      λ w a db i e. record { files = i.files; tables = Writes_at D _ (kd w.tick w.db i.tables) e }

-- What an action on an item is allowed to touch, apart from the source.
pub record Area (base : Files) (May : FilePath → Type 0) (item : PreparedItem) : Type 0 where
  pub directory : Fresh base May item.staging_directory
  pub over : Fresh base May (parent item.staging_directory)
  pub named : (prefix token : String) → Fresh base May (staging_name prefix token item)

module _ (base : Files) (item : PreparedItem) (recorded : Option FilePath) where
  pub source-Fresh : Fresh base (Touchable item recorded) item.source
  source-Fresh = λ n h e. h (is_source refl)

  pub Touchable-Area : Area base (Touchable item recorded) item
  unfolding staging_name
  Touchable-Area = record {
    directory = λ n h e. h (in_area (in_staging (is_relative_to_self item.staging_directory)));
    over = λ n h e. h (in_area (over_staging refl));
    named = λ prefix token n h e.
        h (in_area (in_staging (is_relative_to_child _ item.staging_directory)));
  }

  pub Staging-Area : Area base (Staging item recorded) item
  unfolding staging_name
  Staging-Area = record {
    directory = λ n h e. h (in_staging (is_relative_to_self item.staging_directory));
    over = λ n h e. h (over_staging refl);
    named = λ prefix token n h e. h (in_staging (is_relative_to_child _ item.staging_directory));
  }

  pub recorded-Fresh : (p : FilePath) → recorded ≡ some p → Fresh base (Touchable item recorded) p
  recorded-Fresh p named = λ n h e. h (in_area (is_recorded named))
