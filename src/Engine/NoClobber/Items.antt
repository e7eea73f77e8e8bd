-- ===== src/Engine/NoClobber/Items.antt =====
-- The loops over the items of a run leave alone what stood before them, and what they write to the
-- journal follows from what it held.
use mathlib.Core.Path.{subst}
use kavita_ingest.Prelude.{
  String, ◌≡◌, Bool, true, false, Option, none, some, List, [], ◌∷◌, ◌==◌, string_Eq, All,
}
use kavita_ingest.Filesystem.State.{FilePath, Files}
use kavita_ingest.Filesystem.Kept.{Fresh}
use kavita_ingest.Journal.Rows.{Db, ApplyItem}
use kavita_ingest.Journal.Keeping.{Journaling}
use kavita_ingest.Effect.{Env, M}
use kavita_ingest.Effect.Keeps.{Keeps, Keeps-bind, Keeps-pure, Keeps-catch, Keeps-from_option}
use kavita_ingest.Effect.Ensures.{Ensures-from_option, Keeps-bind-ensured}
use kavita_ingest.Linux.Kept.{KeptIn}
use kavita_ingest.Engine.Item.{PreparedItem, Externals}
use kavita_ingest.Engine.Touch.{Area}
use kavita_ingest.Engine.Runs.{
  apply_one, apply_each, or_this, prepared_for, recover_one, recover_each,
}
use kavita_ingest.Engine.NoClobber.{execute_item-Kept}
use kavita_ingest.Engine.NoClobber.Recovery.{mark-Kept, recovery_preflight-Kept, recover_item-Kept}

-- What may be done to an item's own paths.
pub record Allowed (base : Files) (May : FilePath → Type 0) (item : PreparedItem) : Type 0 where
  pub area : Area base May item
  pub source : Fresh base May item.source

-- The staged file that a row names may be touched.
abbrev pub StageAllowed : Files → (FilePath → Type 0) → ApplyItem → Type 0
StageAllowed base May row = (p : FilePath) → row.staging_path ≡ some p → Fresh base May p

prepared_for-All :
    (P : PreparedItem → Type 0) (item_id : String) (prepared : List PreparedItem)
    (item : PreparedItem)
    → All P prepared
    → prepared_for item_id prepared ≡ some item
    → P item
unfolding prepared_for
prepared_for-All P item_id [] item h e = cc
prepared_for-All P item_id (first ∷ rest) item h e =
    by (prepared_for item_id rest) (first.item_id == item_id)
      (prepared_for-All P item_id rest item h.1) e
  where
    by :
        (later : Option PreparedItem) (same : Bool)
        → (later ≡ some item → P item)
        → or_this later same first ≡ some item
        → P item
    by (some l) same in_rest f = in_rest f
    by none true in_rest f = subst P (cc) h.0
    by none false in_rest f = cc

module _ (env : Env) (base : Files) (May : FilePath → Type 0) (D : Db → Type 0)
    (journal : Journaling D) (x : Externals) (run_id : String) where
  abbrev Safe : {A : Type 0} → M A → Type 0
  Safe m = Keeps env (KeptIn base May D) m

  apply_one-Kept : (item : PreparedItem) → Allowed base May item → Safe (apply_one x run_id item)
  unfolding apply_one
  apply_one-Kept item may =
      Keeps-catch _ _ (execute_item-Kept env base May D item journal may.area may.source x run_id)
        (λ e. mark-Kept journal run_id item.item_id e e.kind)

  pub apply_each-Kept :
      (items : List PreparedItem) → All (Allowed base May) items → Safe (apply_each x run_id items)
  unfolding apply_each
  apply_each-Kept [] h = Keeps-pure tt
  apply_each-Kept (item ∷ rest) h =
      Keeps-bind _ _ (apply_one-Kept item h.0) (λ u. apply_each-Kept rest h.1)

  module _ (prepared : List PreparedItem) (may : All (Allowed base May) prepared) where
    recover_one-Kept :
        (row : ApplyItem) → StageAllowed base May row → Safe (recover_one x run_id prepared row)
    unfolding recover_one
    recover_one-Kept row staged =
        Keeps-catch _ _
          (Keeps-bind-ensured _ _ (Keeps-from_option _ _ _) (Ensures-from_option _ _ _)
            λ item found.
              let mine = prepared_for-All (Allowed base May) row.item_id prepared item may found in
              Keeps-bind _ _ (recovery_preflight-Kept journal x row item) λ u.
                recover_item-Kept env base May D item row journal mine.area mine.source staged x)
          (λ e. mark-Kept journal run_id row.item_id e e.kind)

    pub recover_each-Kept :
        (rows : List ApplyItem)
        → All (StageAllowed base May) rows
        → Safe (recover_each x run_id prepared rows)
    unfolding recover_each
    recover_each-Kept [] h = Keeps-pure tt
    recover_each-Kept (row ∷ rest) h =
        Keeps-bind _ _ (recover_one-Kept row h.0) (λ u. recover_each-Kept rest h.1)
