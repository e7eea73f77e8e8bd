-- ===== src/Journal/Refused.antt =====
-- A transition that the table of states does not allow (`transition` of
-- src/kavita_ingest/apply_journal.py).
use kavita_ingest.Prelude.{String, ◌≡◌, refl, sym, ap, ◌∙◌, false, not, Option, none, some, List}
use kavita_ingest.Journal.States.{ItemState, may_become}
use kavita_ingest.Journal.Rows.{ApplyItem, Db, Detail, Field}
use kavita_ingest.Journal.Repository.{find_item, found, get_item, transition}
use kavita_ingest.Effect.{
  Env, World, Fault, proceed, fail, crash, transaction, meet_transaction, value_error,
}
use kavita_ingest.Effect.Triples.{Ends, Triple, Triple-bind, Triple-refuse_if, Triple-given}

module _ (env : Env) (base : Db) where
  abbrev Same : World → Type 0
  Same w = w.db ≡ base

  get_item-Triple :
      (run_id item_id : String)
      → Triple env Same
          (get_item run_id item_id)
          (λ row w. Same w × (find_item run_id item_id base.items ≡ some row))
          Same
  unfolding get_item transaction
  get_item-Triple run_id item_id = record { at = λ w e. by w (env.fault w.tick) e }
    where
      read :
          (w : World) (o : Option ApplyItem)
          → find_item run_id item_id w.db.items ≡ o
          → w.db ≡ base
          → Ends
              (λ row v. Same v × (find_item run_id item_id base.items ≡ some row))
              Same
              (meet_transaction (λ env t db. found o db) env w proceed)
      read w none at e = e
      read w (some row) at e = (e, ap (λ db. find_item run_id item_id db.items) (sym e) ∙ at)

      by :
          (w : World) (f : Fault)
          → w.db ≡ base
          → Ends
              (λ row v. Same v × (find_item run_id item_id base.items ≡ some row))
              Same
              (meet_transaction (λ env t db. found (find_item run_id item_id db.items) db) env w f)
      by w proceed e = read w (find_item run_id item_id w.db.items) refl e
      by w fail e = e
      by w crash e = e

  refused-Triple :
      (run_id item_id : String) (to : ItemState) (detail : Detail) (fields : List Field)
      → ((row : ApplyItem)
          → find_item run_id item_id base.items ≡ some row
          → may_become row.state to ≡ false)
      → Triple env Same (transition run_id item_id to detail fields) (λ row w. ⊥) Same
  unfolding transition
  refused-Triple run_id item_id to detail fields blocked =
      Triple-bind (get_item run_id item_id) _ (get_item-Triple run_id item_id) λ row.
        Triple-given _ λ at.
          Triple-bind _ _
            (Triple-refuse_if {Q = λ w. ⊥} (not (may_become row.state to)) value_error
              "invalid journal transition" (λ w e p. never row at e) (λ w e. e))
            λ u. record { at = λ w e. absurd e }
    where
      never :
          (row : ApplyItem)
          → find_item run_id item_id base.items ≡ some row
          → not (may_become row.state to) ≡ false
          → ⊥
      never row at e = cc (blocked row at, e, ap not (blocked row at))

-- A transition of a row that is missing, or whose state may not become the one asked for, does not
-- succeed and leaves the journal exactly as it was, its log included, whatever fails meanwhile.
pub transition-refused :
    (env : Env) (run_id item_id : String) (to : ItemState) (detail : Detail) (fields : List Field)
    (w : World)
    → ((row : ApplyItem)
        → find_item run_id item_id w.db.items ≡ some row
        → may_become row.state to ≡ false)
    → Ends (λ row v. ⊥) (λ v. v.db ≡ w.db) (transition run_id item_id to detail fields env w)
transition-refused env run_id item_id to detail fields w blocked =
    (refused-Triple env w.db run_id item_id to detail fields blocked).at w refl
