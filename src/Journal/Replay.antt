-- ===== src/Journal/Replay.antt =====
-- The log of events against the rows: what the events of an item say its state is, and the rows and
-- the log that may follow from earlier ones.
use kavita_ingest.Prelude.{
  ℕ, String, ◌≡◌, refl, ◌∙◌, ◌⊎◌, true, ◌&&◌, Option, none, some, List, [], ◌∷◌, ◌++◌, ◌==◌,
  string_Eq, All, if◌then◌else◌,
}
use kavita_ingest.Filesystem.State.{FilePath}
use kavita_ingest.Journal.States.{ItemState, Policy, state_eq, may_become}
use kavita_ingest.Journal.Rows.{
  ApplyItem, Db, Event, item_event, run_event, Field, set_field, set_fields,
}
use kavita_ingest.Journal.Repository.{moved, completed}

abbrev pub advanced : Option ItemState → Option ItemState → ItemState → Option ItemState
advanced current none to = some to
advanced none (some from) to = none
advanced (some s) (some from) to = if state_eq s from then some to else some s

abbrev pub after : String → String → Option ItemState → Event → Option ItemState
after run_id item_id current (item_event r i from to now detail) =
    if run_id == r && item_id == i then advanced current from to else current
after run_id item_id current (run_event r status now detail) = current

-- The state that a list of events gives an item that is in `current` before them.
unfoldable pub replay : String → String → Option ItemState → List Event → Option ItemState
replay run_id item_id current [] = current
replay run_id item_id current (e ∷ rest) =
    replay run_id item_id (after run_id item_id current e) rest

-- An event that the journal may hold: the first of an item, a note, or an allowed transition.
abbrev pub IsValidEvent : Event → Type 0
IsValidEvent (item_event r i none to now detail) = to ≡ ItemState.pending
IsValidEvent (item_event r i (some from) to now detail) = (from ≡ to) ⊎ (may_become from to ≡ true)
IsValidEvent (run_event r status now detail) = Unit

abbrev pub IsReplayed : List Event → ApplyItem → Type 0
IsReplayed events item = replay item.run_id item.item_id none events ≡ some item.state

-- The states that an item may reach.
pub data Reachable (s : ItemState) : ItemState → Type 0 where
  here : Reachable s s
  onward : {t u : ItemState} → Reachable s t → may_become t u ≡ true → Reachable s u

-- The columns that say what an item is about.
pub record Identity : Type 0 where
  pub run_id : String
  pub item_id : String
  pub source_path : FilePath
  pub planned_source_hash : String
  pub destination_path : FilePath
  pub lifecycle_policy : Policy
  pub archive_path : Option FilePath

abbrev pub identity : ApplyItem → Identity
identity x = record {
  run_id = x.run_id;
  item_id = x.item_id;
  source_path = x.source_path;
  planned_source_hash = x.planned_source_hash;
  destination_path = x.destination_path;
  lifecycle_policy = x.lifecycle_policy;
  archive_path = x.archive_path;
}

-- A later version of a row: it is about the same, and its state may be reached.
pub record Later (x y : ApplyItem) : Type 0 where
  pub same : identity y ≡ identity x
  pub state : Reachable x.state y.state

abbrev pub RowsLater : List ApplyItem → List ApplyItem → Type 0
RowsLater [] [] = Unit
RowsLater (x ∷ xs) (y ∷ ys) = Later x y × RowsLater xs ys
RowsLater [] (y ∷ ys) = ⊥
RowsLater (x ∷ xs) [] = ⊥

-- Tables that may follow from others.
pub record IsSound (start db : Db) : Type 0 where
  pub appended : (new : List Event) × (db.events ≡ start.events ++ new)
  pub valid : All IsValidEvent db.events
  pub replayed : All (IsReplayed db.events) db.items
  pub rows : RowsLater start.items db.items

pub replay-append :
    (r i : String) (s : Option ItemState) (xs ys : List Event)
    → replay r i s (xs ++ ys) ≡ replay r i (replay r i s xs) ys
unfolding replay
replay-append r i s [] ys = refl
replay-append r i s (e ∷ xs) ys = replay-append r i (after r i s e) xs ys

pub Later-refl : (x : ApplyItem) → Later x x
Later-refl x = record { same = refl; state = here }

pub RowsLater-refl : (xs : List ApplyItem) → RowsLater xs xs
RowsLater-refl [] = tt
RowsLater-refl (x ∷ xs) = (Later-refl x, RowsLater-refl xs)

identity-set_field : (f : Field) (x : ApplyItem) → identity (set_field f x) ≡ identity x
identity-set_field (Field.staging_path p) x = refl
identity-set_field (Field.staged_hash h) x = refl
identity-set_field (Field.staged_size n) x = refl
identity-set_field (Field.verification e) x = refl
identity-set_field (Field.destination_hash h) x = refl
identity-set_field (Field.cleanup_path p) x = refl
identity-set_field (Field.recovery_detail s) x = refl
identity-set_field (Field.error s) x = refl

state-set_field : (f : Field) (x : ApplyItem) → (set_field f x).state ≡ x.state
state-set_field (Field.staging_path p) x = refl
state-set_field (Field.staged_hash h) x = refl
state-set_field (Field.staged_size n) x = refl
state-set_field (Field.verification e) x = refl
state-set_field (Field.destination_hash h) x = refl
state-set_field (Field.cleanup_path p) x = refl
state-set_field (Field.recovery_detail s) x = refl
state-set_field (Field.error s) x = refl

identity-set_fields : (fs : List Field) (x : ApplyItem) → identity (set_fields fs x) ≡ identity x
identity-set_fields [] x = refl
identity-set_fields (f ∷ fs) x = identity-set_fields fs (set_field f x) ∙ identity-set_field f x

state-set_fields : (fs : List Field) (x : ApplyItem) → (set_fields fs x).state ≡ x.state
state-set_fields [] x = refl
state-set_fields (f ∷ fs) x = state-set_fields fs (set_field f x) ∙ state-set_field f x

identity-completed :
    (to : ItemState) (now : ℕ) (x : ApplyItem) → identity (completed to now x) ≡ identity x
identity-completed ItemState.complete now x = refl
identity-completed _ now x = refl

state-completed : (to : ItemState) (now : ℕ) (x : ApplyItem) → (completed to now x).state ≡ x.state
state-completed ItemState.complete now x = refl
state-completed _ now x = refl

pub identity-moved :
    (to : ItemState) (fs : List Field) (now : ℕ) (x : ApplyItem)
    → identity (moved to fs now x) ≡ identity x
identity-moved to fs now x = identity-completed to now _ ∙ identity-set_fields fs _

pub state-moved :
    (to : ItemState) (fs : List Field) (now : ℕ) (x : ApplyItem) → (moved to fs now x).state ≡ to
state-moved to fs now x = state-completed to now _ ∙ state-set_fields fs _
