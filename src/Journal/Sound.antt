-- ===== src/Journal/Sound.antt =====
-- Every write of the journal's repository leaves tables that follow from the ones before: the log
-- only grows, and it replays to the states of the rows.
use kavita_ingest.Prelude.{
  ℕ, String, ◌≡◌, refl, sym, ◌∙◌, ap, inl, inr, Bool, true, false, ◌&&◌, ◌==◌, string_Eq, nat_Eq,
  none, some, List, [], ◌∷◌, ◌++◌, All, All-append, if◌then◌else◌,
}
use kavita_ingest.Journal.States.{ItemState, state_eq, state_eq_iff, may_become}
use kavita_ingest.Journal.Rows.{ApplyItem, Db, Detail, Event, item_event, Field, names}
use kavita_ingest.Journal.Repository.{
  moved, noted, selects, update_rows, row_count, write_transition, write_error,
}
use kavita_ingest.Journal.Keeping.{Writes, Writes-if, Journaling}
use kavita_ingest.Journal.Replay.{
  IsValidEvent, IsReplayed, onward, Later, RowsLater, IsSound, replay, replay-append,
  identity-moved, state-moved,
}

append_assoc : (xs ys zs : List Event) → (xs ++ ys) ++ zs ≡ xs ++ (ys ++ zs)
append_assoc [] ys zs = refl
append_assoc (x ∷ xs) ys zs = ap (λ l. x ∷ l) (append_assoc xs ys zs)

module _ (test : ApplyItem → Bool) (f : ApplyItem → ApplyItem) where
  abbrev Updated : ApplyItem → ApplyItem
  Updated x = if test x then f x else x

  update_rows-All :
      (P Q : ApplyItem → Type 0)
      → ((x : ApplyItem) → P x → Q (Updated x))
      → (xs : List ApplyItem) → All P xs
      → All Q (update_rows test f xs)
  unfolding update_rows
  update_rows-All P Q pq [] h = tt
  update_rows-All P Q pq (x ∷ xs) h = (pq x h.0, update_rows-All P Q pq xs h.1)

  update_rows-Later :
      ((x y : ApplyItem) → Later x y → Later x (Updated y))
      → (xs ys : List ApplyItem) → RowsLater xs ys
      → RowsLater xs (update_rows test f ys)
  unfolding update_rows
  update_rows-Later up [] [] h = tt
  update_rows-Later up [] (y ∷ ys) h = elim h [ ]
  update_rows-Later up (x ∷ xs) [] h = elim h [ ]
  update_rows-Later up (x ∷ xs) (y ∷ ys) h = (up x y h.0, update_rows-Later up xs ys h.1)

module _ (r i : String) (from to : ItemState) (detail : Detail) (fields : List Field)
    (now : ℕ) where
  abbrev moves_event : Event
  moves_event = item_event r i (some from) to now detail

  replay-moves :
      (events : List Event) (x : ApplyItem)
      → IsReplayed events x
      → replay x.run_id x.item_id none (events ++ moves_event ∷ []) ≡ (
          if names r i x
          then (if state_eq x.state from then some to else some x.state)
          else some x.state)
  unfolding replay
  replay-moves events x h = rw (replay-append x.run_id x.item_id none events, h) refl

  moved-Replayed :
      (events : List Event) (x : ApplyItem)
      → IsReplayed events x
      → IsReplayed
          (events ++ moves_event ∷ [])
          (if selects r i from x then moved to fields now x else x)
  moved-Replayed events x h = by (names r i x) (state_eq x.state from) (replay-moves events x h)
    where
      by :
          (n s : Bool)
          → replay x.run_id x.item_id none (events ++ moves_event ∷ [])
            ≡ (if n then (if s then some to else some x.state) else some x.state)
          → IsReplayed (events ++ moves_event ∷ []) (if n && s then moved to fields now x else x)
      by true true e =
          rw
            (
              ap (λ k. k.run_id) (identity-moved to fields now x),
              ap (λ k. k.item_id) (identity-moved to fields now x),
              state-moved to fields now x,
            )
            e
      by true false e = e
      by false s e = e

  moved-Later :
      may_become from to ≡ true
      → (x y : ApplyItem) → Later x y
      → Later x (if selects r i from y then moved to fields now y else y)
  moved-Later allowed x y h =
      by (names r i y) (state_eq y.state from) ((state_eq_iff y.state from).0)
    where
      by :
          (n s : Bool)
          → (s ≡ true → y.state ≡ from)
          → Later x (if n && s then moved to fields now y else y)
      by true true is = record {
        same = identity-moved to fields now y ∙ h.same;
        state = rw (state-moved to fields now y) (onward h.state (rw (is refl) allowed));
      }
      by true false is = h
      by false s is = h

  pub write_transition-Sound :
      (start db : Db)
      → may_become from to ≡ true
      → IsSound start db
      → Writes (IsSound start) (write_transition r i from to detail fields now db)
  unfolding write_transition
  write_transition-Sound start db allowed h =
      Writes-if (IsSound start) (row_count (selects r i from) db.items == 1) _ _
        (λ one. record {
          appended = (
            h.appended.0 ++ moves_event ∷ [],
            ap (λ l. l ++ moves_event ∷ []) h.appended.1 ∙ append_assoc start.events h.appended.0 _,
          );
          valid = All-append IsValidEvent db.events _ h.valid (inr allowed, tt);
          replayed = update_rows-All _ _ _ _ (moved-Replayed db.events) db.items h.replayed;
          rows = update_rows-Later _ _ (moved-Later allowed) start.items db.items h.rows;
        })
        (λ other. tt)

module _ (r i : String) (s : ItemState) (message : String) (now : ℕ) where
  abbrev note_event : Event
  note_event = item_event r i (some s) s now (Detail.noted message)

  noted-Replayed :
      (events : List Event) (x : ApplyItem)
      → IsReplayed events x
      → IsReplayed (events ++ note_event ∷ []) (if names r i x then noted message now x else x)
  unfolding replay
  noted-Replayed events x h =
      by (names r i x) (state_eq x.state s) ((state_eq_iff x.state s).0)
        (rw (replay-append x.run_id x.item_id none events, h) refl)
    where
      by :
          (n e : Bool)
          → (e ≡ true → x.state ≡ s)
          → replay x.run_id x.item_id none (events ++ note_event ∷ [])
            ≡ (if n then (if e then some s else some x.state) else some x.state)
          → IsReplayed (events ++ note_event ∷ []) (if n then noted message now x else x)
      by true true is h = h ∙ ap some (sym (is refl))
      by true false is h = h
      by false e is h = h

  noted-Later :
      (x y : ApplyItem) → Later x y → Later x (if names r i y then noted message now y else y)
  noted-Later x y h = by (names r i y)
    where
      by : (n : Bool) → Later x (if n then noted message now y else y)
      by true = record { same = h.same; state = h.state }
      by false = h

  pub write_error-Sound :
      (start db : Db) → IsSound start db → Writes (IsSound start) (write_error r i s message now db)
  unfolding write_error
  write_error-Sound start db h = record {
    appended = (
      h.appended.0 ++ note_event ∷ [],
      ap (λ l. l ++ note_event ∷ []) h.appended.1 ∙ append_assoc start.events h.appended.0 _,
    );
    valid = All-append IsValidEvent db.events _ h.valid (inl refl, tt);
    replayed = update_rows-All _ _ _ _ (noted-Replayed db.events) db.items h.replayed;
    rows = update_rows-Later _ _ noted-Later start.items db.items h.rows;
  }

pub IsSound-Journaling : (start : Db) → Journaling (IsSound start)
IsSound-Journaling start = record {
  moves = λ r i from to detail fields now db allowed h.
      write_transition-Sound r i from to detail fields now start db allowed h;
  notes = λ r i s message now db h. write_error-Sound r i s message now start db h;
}

pub append-nil : (xs : List Event) → xs ≡ xs ++ []
append-nil [] = refl
append-nil (x ∷ xs) = ap (λ l. x ∷ l) (append-nil xs)
