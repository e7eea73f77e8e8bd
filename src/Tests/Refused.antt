-- ===== src/Tests/Refused.antt =====
-- An item that only passed its preflight cannot become complete.
use mathlib.Core.Path.{subst}
use kavita_ingest.Prelude.{◌≡◌, refl, false, some, []}
use kavita_ingest.Journal.States.{ItemState, may_become, allowed_transitions}
use kavita_ingest.Journal.Rows.{ApplyItem, Detail}
use kavita_ingest.Journal.Repository.{find_item, transition}
use kavita_ingest.Journal.Refused.{transition-refused}
use kavita_ingest.Effect.Triples.{Ends}
use kavita_ingest.Tests.{calm, row, start}

some_injective : {x y : ApplyItem} → some x ≡ some y → x ≡ y
some_injective e = cc

not_complete :
    (found : ApplyItem)
    → find_item "r1" "i1" start.db.items ≡ some found
    → may_become found.state ItemState.complete ≡ false
unfolding find_item may_become allowed_transitions
not_complete found e =
    subst (λ r. may_become r.state ItemState.complete ≡ false) (some_injective {x = row} e) refl

transition-refused_example :
    Ends
      (λ found v. ⊥)
      (λ v. v.db ≡ start.db)
      (transition "r1" "i1" ItemState.complete Detail.nothing [] calm start)
transition-refused_example =
    transition-refused calm "r1" "i1" ItemState.complete Detail.nothing [] start not_complete
