-- ===== src/Engine/Assurance.antt =====
-- What a run of the engine guarantees for every fault and every crash: the loops of `_apply_locked`
-- and of `_recover_locked` over their items.
use kavita_ingest.Prelude.{String, ◌≡◌, ◌⊎◌, inl, inr, none, some, List, [], ◌∷◌, All, Any}
use kavita_ingest.Filesystem.State.{FilePath, Files}
use kavita_ingest.Filesystem.Kept.{Kept, Kept-refl, IsBounded}
use kavita_ingest.Journal.Rows.{Db, ApplyItem}
use kavita_ingest.Journal.Keeping.{Anything, Anything-Journaling}
use kavita_ingest.Journal.Replay.{IsValidEvent, IsReplayed, IsSound, RowsLater-refl}
use kavita_ingest.Journal.Sound.{IsSound-Journaling, append-nil}
use kavita_ingest.Effect.{Env, World}
use kavita_ingest.Engine.Item.{PreparedItem, Externals}
use kavita_ingest.Engine.Touch.{Touchable, source-Fresh, Touchable-Area}
use kavita_ingest.Engine.Runs.{apply_each, recover_each}
use kavita_ingest.Engine.NoClobber.Items.{Allowed, StageAllowed, apply_each-Kept, recover_each-Kept}

-- The log is well formed, and it replays to the states of the rows.
pub record IsConsistent (db : Db) : Type 0 where
  pub valid : All IsValidEvent db.events
  pub replayed : All (IsReplayed db.events) db.items

abbrev pub TouchableBy : List PreparedItem → FilePath → Type 0
TouchableBy items p = Any (λ item. Touchable item none p) items

abbrev pub TouchableIn : List PreparedItem → List ApplyItem → FilePath → Type 0
TouchableIn items rows p = TouchableBy items p ⊎ Any (λ row. row.staging_path ≡ some p) rows

IsSound-start : (db : Db) → IsConsistent db → IsSound db db
IsSound-start db h = record {
  appended = ([], append-nil db.events);
  valid = h.valid;
  replayed = h.replayed;
  rows = RowsLater-refl db.items;
}

module _ (base : Files) (May : FilePath → Type 0) where
  Allowed-of :
      (item : PreparedItem)
      → ((p : FilePath) → Touchable item none p → May p)
      → Allowed base May item
  Allowed-of item may =
      let area = Touchable-Area base item none in
      record {
        area = record {
          directory = λ n h. area.directory n (λ t. h (may _ t));
          over = λ n h. area.over n (λ t. h (may _ t));
          named = λ prefix token n h. area.named prefix token n (λ t. h (may _ t));
        };
        source = λ n h. source-Fresh base item none n (λ t. h (may _ t));
      }

  All-Allowed :
      (items : List PreparedItem)
      → ((p : FilePath) → TouchableBy items p → May p)
      → All (Allowed base May) items
  All-Allowed [] may = tt
  All-Allowed (item ∷ rest) may =
      (Allowed-of item (λ p t. may p (inl t)), All-Allowed rest (λ p t. may p (inr t)))

  stages_allowed :
      (rows : List ApplyItem)
      → ((p : FilePath) → Any (λ row. row.staging_path ≡ some p) rows → May p)
      → All (StageAllowed base May) rows
  stages_allowed [] may = tt
  stages_allowed (row ∷ rest) may =
      (λ p e n h a. h (may p (inl e)), stages_allowed rest (λ p t. may p (inr t)))

module _ (env : Env) (x : Externals) (run_id : String) (items : List PreparedItem) (w : World)
    (bounded : IsBounded w.files) where
  -- Whatever fails and wherever the process dies, executing the items of a run leaves every path
  -- that existed as it was, but for the items' sources and what lies in their staging directories
  -- (or is the parent of one); and no file that existed changes its bytes, under any name. The
  -- files of the world that it starts from are well formed.
  pub apply_each-no_clobber :
      Kept w.files (TouchableBy items) (apply_each x run_id items env w).1.files
  apply_each-no_clobber =
      ((apply_each-Kept env w.files (TouchableBy items) Anything Anything-Journaling x run_id items
          (All-Allowed w.files (TouchableBy items) items (λ p t. t))).at
        w (record { files = Kept-refl w.files (TouchableBy items) bounded; tables = tt })).files

  -- Whatever fails and wherever the process dies, executing the items of a run only appends to the
  -- journal's log, the log holds nothing but allowed transitions and notes, it replays to the state
  -- of every row, and every row is about the same item as before and in a state that its old one
  -- may reach. The journal is consistent and the files are well formed at the start.
  pub apply_each-journal : IsConsistent w.db → IsSound w.db (apply_each x run_id items env w).1.db
  apply_each-journal consistent =
      let may = TouchableBy items in
      ((apply_each-Kept env w.files may (IsSound w.db) (IsSound-Journaling w.db) x run_id items
          (All-Allowed w.files may items (λ p t. t))).at
        w
        (record {
          files = Kept-refl w.files may bounded;
          tables = IsSound-start w.db consistent;
        })).tables

  module _ (rows : List ApplyItem) where
    -- Whatever fails and wherever the process dies, recovering a run's items leaves every path that
    -- existed as it was, but for the items' sources, what lies in their staging directories (or is
    -- the parent of one) and the staged files that the journal names; and no file that existed
    -- changes its bytes, under any name. The files of the world that it starts from are well formed.
    pub recover_each-no_clobber :
        Kept w.files (TouchableIn items rows) (recover_each x run_id items rows env w).1.files
    recover_each-no_clobber =
        let may = TouchableIn items rows in
        ((recover_each-Kept env w.files may Anything Anything-Journaling x run_id items
            (All-Allowed w.files may items (λ p t. inl t)) rows
            (stages_allowed w.files may rows (λ p t. inr t))).at
          w (record { files = Kept-refl w.files may bounded; tables = tt })).files

    -- Whatever fails and wherever the process dies, recovering a run's items only appends to the
    -- journal's log, the log holds nothing but allowed transitions and notes, it replays to the
    -- state of every row, and every row is about the same item as before and in a state that its
    -- old one may reach. The journal is consistent and the files are well formed at the start.
    pub recover_each-journal :
        IsConsistent w.db → IsSound w.db (recover_each x run_id items rows env w).1.db
    recover_each-journal consistent =
        let may = TouchableIn items rows in
        ((recover_each-Kept env w.files may (IsSound w.db) (IsSound-Journaling w.db) x run_id items
            (All-Allowed w.files may items (λ p t. inl t)) rows
            (stages_allowed w.files may rows (λ p t. inr t))).at
          w
          (record {
            files = Kept-refl w.files may bounded;
            tables = IsSound-start w.db consistent;
          })).tables
