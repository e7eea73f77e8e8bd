-- ===== src/Engine/Outcome.antt =====
-- When a run is finished, and when it has to be recovered (`_finalize` of
-- src/kavita_ingest/apply_engine.py).
use mathlib.Core.Path.{subst}
use kavita_ingest.Prelude.{
  String, ◌≡◌, ◌≢◌, refl, sym, ap, ◌∙◌, ◌↔◌, ◌⊎◌, inl, inr, Bool, true, false, none, some, List, [],
  ◌∷◌, ◌==◌, string_Eq, eq_iff, all, any, All, Any, arith, if_cases, if◌then◌else◌, Bool-cases,
}
use kavita_ingest.Journal.States.{RunState, ItemState, state_eq, state_eq_iff, one_of}
use kavita_ingest.Journal.Rows.{ApplyRun, ApplyItem, Db}
use kavita_ingest.Journal.Repository.{find_run, rows_of, items}
use kavita_ingest.Journal.Ended.{Silent, IsEnded, Unchanged, items-Triple, set_run_state-Triple}
use kavita_ingest.Effect.{Env, World, ok}
use kavita_ingest.Effect.Triples.{
  Ends, Triple, Triple-bind, Triple-given, Triple-post, Triple-pure, Triple-transaction,
}
use kavita_ingest.Engine.Runs.{Summary, summary, final_state, needs_recovery, finalize}

-- The states in which files may have to be put in order: a failed item, one in recovery, and one
-- between the start of its commit and the end of its cleanup.
pub data Unsettled : ItemState → Type 0 where
  in_recovery : Unsettled ItemState.recovery_required
  has_failed : Unsettled ItemState.failed
  in_commit : Unsettled ItemState.committing
  is_committed : Unsettled ItemState.committed
  in_cleanup : Unsettled ItemState.cleanup_pending

Unsettled-iff : (s : ItemState) → (one_of needs_recovery s ≡ true) ↔ Unsettled s
Unsettled-iff s = (to s, λ u. from u)
  where
    from : {s : ItemState} → Unsettled s → one_of needs_recovery s ≡ true
    from in_recovery = refl
    from has_failed = refl
    from in_commit = refl
    from is_committed = refl
    from in_cleanup = refl

    to : (s : ItemState) → one_of needs_recovery s ≡ true → Unsettled s
    to ItemState.pending e = cc
    to ItemState.preflight_ok e = cc
    to ItemState.staging e = cc
    to ItemState.staged e = cc
    to ItemState.verified e = cc
    to ItemState.committing e = in_commit
    to ItemState.committed e = is_committed
    to ItemState.cleanup_pending e = in_cleanup
    to ItemState.cleaned e = cc
    to ItemState.complete e = cc
    to ItemState.failed e = has_failed
    to ItemState.stale e = cc
    to ItemState.recovery_required e = in_recovery

module _ (run_id : String) where
  -- An item of another run, or a complete one.
  abbrev pub IsDone : ApplyItem → Type 0
  IsDone item = (item.run_id ≢ run_id) ⊎ (item.state ≡ ItemState.complete)

  -- An item of the run that is not settled.
  abbrev pub IsOpen : ApplyItem → Type 0
  IsOpen item = (item.run_id ≡ run_id) × Unsettled item.state

  abbrev completes : ApplyItem → Bool
  completes item = state_eq item.state ItemState.complete

  abbrev recovers : ApplyItem → Bool
  recovers item = one_of needs_recovery item.state

  abbrev mine : ApplyItem → List ApplyItem → List ApplyItem
  mine item rows = if item.run_id == run_id then item ∷ rows else rows

  all_iff : (rows : List ApplyItem) → (all completes (rows_of run_id rows) ≡ true) ↔ All IsDone rows
  unfolding rows_of
  all_iff [] = (λ h. tt, λ h. refl)
  all_iff (row ∷ rows) =
      if_cases (λ l. (all completes l ≡ true) ↔ (IsDone row × All IsDone rows))
        (row.run_id == run_id) (λ own. here ((eq_iff row.run_id run_id).0 own) (all_iff rows))
        (λ other. there other (all_iff rows))
    where
      here :
          row.run_id ≡ run_id
          → ((all completes (rows_of run_id rows) ≡ true) ↔ All IsDone rows)
          → (all completes (row ∷ rows_of run_id rows) ≡ true) ↔ (IsDone row × All IsDone rows)
      here own rest =
          let here = state_eq_iff row.state ItemState.complete in
          (
            λ h. (inr (here.0 (ground (arith, h))), rest.0 (ground (arith, h))),
            λ h. ground (arith, here.1 (own_done h.0), rest.1 h.1),
          )
        where
          own_done : IsDone row → row.state ≡ ItemState.complete
          own_done (inl apart) = absurd (apart own)
          own_done (inr e) = e

      there :
          (row.run_id == run_id) ≡ false
          → ((all completes (rows_of run_id rows) ≡ true) ↔ All IsDone rows)
          → (all completes (rows_of run_id rows) ≡ true) ↔ (IsDone row × All IsDone rows)
      there other rest =
          (λ h. (inl (λ e. cc ((eq_iff row.run_id run_id).1 e, other)), rest.0 h), λ h. rest.1 h.1)

  any_iff : (rows : List ApplyItem) → (any recovers (rows_of run_id rows) ≡ true) ↔ Any IsOpen rows
  unfolding rows_of
  any_iff [] = (λ h. cc, λ h. elim h [ ])
  any_iff (row ∷ rows) =
      if_cases (λ l. (any recovers l ≡ true) ↔ (IsOpen row ⊎ Any IsOpen rows))
        (row.run_id == run_id) (λ own. here ((eq_iff row.run_id run_id).0 own) (any_iff rows))
        (λ other. there other (any_iff rows))
    where
      here :
          row.run_id ≡ run_id
          → ((any recovers (rows_of run_id rows) ≡ true) ↔ Any IsOpen rows)
          → (any recovers (row ∷ rows_of run_id rows) ≡ true) ↔ (IsOpen row ⊎ Any IsOpen rows)
      here own rest = (λ h. first (Bool-cases (recovers row)) h, λ h. second h)
        where
          first :
              (recovers row ≡ true) ⊎ (recovers row ≡ false)
              → any recovers (row ∷ rows_of run_id rows) ≡ true
              → IsOpen row ⊎ Any IsOpen rows
          first (inl e) h = inl (own, (Unsettled-iff row.state).0 e)
          first (inr e) h = inr (rest.0 (ground (arith, e, h)))

          second : IsOpen row ⊎ Any IsOpen rows → any recovers (row ∷ rows_of run_id rows) ≡ true
          second (inl e) = ground (arith, (Unsettled-iff row.state).1 e.1)
          second (inr h) = ground (arith, rest.1 h)

      there :
          (row.run_id == run_id) ≡ false
          → ((any recovers (rows_of run_id rows) ≡ true) ↔ Any IsOpen rows)
          → (any recovers (rows_of run_id rows) ≡ true) ↔ (IsOpen row ⊎ Any IsOpen rows)
      there other rest = (λ h. inr (rest.0 h), λ h. second h)
        where
          second : IsOpen row ⊎ Any IsOpen rows → any recovers (rows_of run_id rows) ≡ true
          second (inl e) = absurd (cc ((eq_iff row.run_id run_id).1 e.0, other))
          second (inr h) = rest.1 h

  none_open : (rows : List ApplyItem) → All IsDone rows → Any IsOpen rows → ⊥
  none_open [] h n = elim n [ ]
  none_open (row ∷ rows) h (inr n) = none_open rows h.1 n
  none_open (row ∷ rows) h (inl n) = by h.0
    where
      unsettled : Unsettled ItemState.complete → ⊥
      unsettled u = cc ((Unsettled-iff ItemState.complete).1 u)

      by : IsDone row → ⊥
      by (inl apart) = apart n.0
      by (inr e) = unsettled (subst Unsettled e n.1)

  -- What the state of a run says of the items.
  pub record Decides (rows : List ApplyItem) (state : RunState) : Type 0 where
    pub complete : (state ≡ RunState.complete) ↔ All IsDone rows
    pub recovery_required : (state ≡ RunState.recovery_required) ↔ Any IsOpen rows
    pub otherwise :
        (state ≡ RunState.complete)
        ⊎ (state ≡ RunState.recovery_required)
        ⊎ (state ≡ RunState.failed)

  final_state-Decides : (rows : List ApplyItem) → Decides rows (final_state (rows_of run_id rows))
  unfolding final_state
  final_state-Decides rows =
      by (all completes (rows_of run_id rows)) (any recovers (rows_of run_id rows)) (all_iff rows)
        (any_iff rows)
    where
      not_true : false ≡ true → ⊥
      not_true e = cc

      by :
          (a b : Bool)
          → ((a ≡ true) ↔ All IsDone rows)
          → ((b ≡ true) ↔ Any IsOpen rows)
          → Decides rows (
              if a
              then RunState.complete
              else if b
              then RunState.recovery_required
              else RunState.failed)
      by true b ha hb = record {
        complete = (λ h. ha.0 refl, λ h. refl);
        recovery_required = (λ h. cc, λ h. absurd (none_open rows (ha.0 refl) h));
        otherwise = inl refl;
      }
      by false true ha hb = record {
        complete = (λ h. cc, λ h. absurd (not_true (ha.1 h)));
        recovery_required = (λ h. hb.0 refl, λ h. refl);
        otherwise = inr (inl refl);
      }
      by false false ha hb = record {
        complete = (λ h. cc, λ h. absurd (not_true (ha.1 h)));
        recovery_required = (λ h. cc, λ h. absurd (not_true (hb.1 h)));
        otherwise = inr (inr refl);
      }

-- The state that the caller is told, the state that the journal holds, and the items as before.
pub record IsFinal (run_id : String) (base : Db) (s : Summary) (w : World) : Type 0 where
  pub decides : Decides run_id base.items s.status
  pub run : ApplyRun
  pub recorded : find_run run_id w.db.runs ≡ some run
  pub same_state : run.status ≡ s.status
  pub items : w.db.items ≡ base.items

module _ (env : Env) (base : Db) where
  pub summary-Triple :
      (run_id : String) (status : RunState) (message : _) (run : ApplyRun)
      → Triple env
          (IsEnded base run_id status message run)
          (summary run)
          (λ s w. IsEnded base run_id status message run w × (s.status ≡ run.status))
          Silent
  unfolding summary items
  summary-Triple run_id status message run =
      Triple-bind _ _
        (Triple-transaction {Q = λ rows w. IsEnded base run_id status message run w} _
          (λ w h. record { items = h.items; recorded = h.recorded; state = h.state; told = h.told })
          (λ w h. tt) (λ w h. tt))
        λ rows. Triple-pure _ (λ w h. (h, refl))

  finalize-Triple :
      (run_id : String)
      → Triple env (Unchanged env base) (finalize run_id) (IsFinal run_id base) Silent
  unfolding finalize
  finalize-Triple run_id = Triple-bind _ _ (items-Triple env base run_id) λ rows.
      Triple-given _ λ read.
        Triple-bind _ _ (set_run_state-Triple env base run_id (final_state rows) none) λ run.
          Triple-post _ (summary-Triple run_id (final_state rows) none run)
            (λ s w h. record {
              decides =
                  subst (Decides run_id base.items) (sym (h.1 ∙ h.0.state ∙ ap final_state read))
                    (final_state-Decides run_id base.items);
              run = run;
              recorded = h.0.recorded;
              same_state = sym h.1;
              items = h.0.items;
            })
            (λ w h. h)

-- Where ending a run returns, the state it reports is the one the journal now holds for the run, and
-- no item is changed. The state is complete exactly if every item of the run is complete; it is
-- recovery required exactly if some item of the run is failed, in recovery, or between the start of
-- its commit and the end of its cleanup; and else it is failed.
pub finalize-IsFinal :
    (run_id : String) (env : Env) (w v : World) (s : Summary)
    → finalize run_id env w ≡ (ok s, v)
    → IsFinal run_id w.db s v
finalize-IsFinal run_id env w v s e =
    subst (Ends (IsFinal run_id w.db) Silent) e ((finalize-Triple env w.db run_id).at w refl)
