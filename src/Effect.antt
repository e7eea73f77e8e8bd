-- ===== src/Effect.antt =====
-- Code that changes the files and the journal, may raise, and may be stopped at any effect.
pub mod Keeps
pub mod Ensures
pub mod Triples
use kavita_ingest.Prelude.{ℕ, suc, String, Bool, true, false, Option, none, some, if◌then◌else◌}
use kavita_ingest.Filesystem.State.{Files, Bytes}
use kavita_ingest.Journal.Rows.{Db}

-- The classes of the exceptions that the modelled code raises or catches; `other_error` is any class
-- that none of its `except` clauses names.
pub data Kind : Type 0 where
  os_error file_exists destination_exists not_a_directory : Kind
  value_error type_error overflow_error key_error runtime_error : Kind
  database_error subprocess_error other_error : Kind
  apply_refused stale_plan recovery_required plan_already_complete : Kind

pub record Exception : Type 0 where
  pub kind : Kind
  pub message : String

-- `isinstance(exc, OSError)` and `isinstance(exc, ApplyRefused)`
abbrev pub is_os_error : Kind → Bool
is_os_error os_error = true
is_os_error file_exists = true
is_os_error destination_exists = true
is_os_error not_a_directory = true
is_os_error _ = false

abbrev pub is_apply_refused : Kind → Bool
is_apply_refused apply_refused = true
is_apply_refused stale_plan = true
is_apply_refused recovery_required = true
is_apply_refused plan_already_complete = true
is_apply_refused _ = false

-- What meets an effect: it is made, its system call or its statement fails, or the process dies.
pub data Fault : Type 0 where
  proceed fail crash : Fault

-- What a run meets from outside, by the number of the effect, and the hash function.
pub record Env : Type 0 where
  pub fault : ℕ → Fault
  pub random : ℕ → String
  pub now : ℕ → ℕ
  pub sha256 : Bytes → String

pub record World : Type 0 where
  pub files : Files
  pub db : Db
  pub tick : ℕ

pub data Outcome {ℓ} (A : Type ℓ) : Type ℓ where
  ok : A → Outcome A
  raised : Exception → Outcome A
  crashed : Outcome A

abbrev pub M : Type 0 → Type 0
M A = Env → World → Outcome A × World

-- A pure step that may raise.
pub data Result {ℓ} (A : Type ℓ) : Type ℓ where
  done : A → Result A
  error : Exception → Result A

abbrev pub exception : Kind → String → Exception
exception k m = record { kind = k; message = m }

abbrev ticked : World → World
ticked w = record w { tick = suc w.tick }

module _ {A : Type 0} where
  unfoldable pub pure : A → M A
  pure a env w = (ok a, w)

  unfoldable pub raise : Kind → String → M A
  raise k m env w = (raised (exception k m), w)

  unfoldable pub rethrow : Exception → M A
  rethrow e env w = (raised e, w)

  -- A read that cannot fail.
  unfoldable pub look : (Files → A) → M A
  look f env w = (ok (f w.files), w)

  abbrev settle_files : World → Result (A × Files) → Outcome A × World
  settle_files w (done (a, fs)) = (ok a, record (ticked w) { files = fs })
  settle_files w (error e) = (raised e, ticked w)

  abbrev meet_system :
      (Env → ℕ → Files → Result (A × Files)) → Env → World → Fault → Outcome A × World
  meet_system op env w proceed = settle_files w (op env w.tick w.files)
  meet_system op env w fail = (raised (exception os_error "system call failed"), ticked w)
  meet_system op env w crash = (crashed, w)

  -- A system call on the files.
  unfoldable pub system : (Env → ℕ → Files → Result (A × Files)) → M A
  system op env w = meet_system op env w (env.fault w.tick)

  abbrev settle_db : World → Result (A × Db) → Outcome A × World
  settle_db w (done (a, db)) = (ok a, record (ticked w) { db = db })
  settle_db w (error e) = (raised e, ticked w)

  abbrev pub meet_transaction :
      (Env → ℕ → Db → Result (A × Db)) → Env → World → Fault → Outcome A × World
  meet_transaction op env w proceed = settle_db w (op env w.tick w.db)
  meet_transaction op env w fail = (raised (exception database_error "statement failed"), ticked w)
  meet_transaction op env w crash = (crashed, w)

  -- A transaction on the journal: all of it is written, or nothing.
  unfoldable pub transaction : (Env → ℕ → Db → Result (A × Db)) → M A
  transaction op env w = meet_transaction op env w (env.fault w.tick)

  abbrev handle : (Exception → M A) → Env → Outcome A × World → Outcome A × World
  handle h env (ok a, w) = (ok a, w)
  handle h env (raised e, w) = h e env w
  handle h env (crashed, w) = (crashed, w)

  -- try: m, except …: h. Nothing runs after a crash.
  unfoldable pub catch : M A → (Exception → M A) → M A
  catch m h env w = handle h env (m env w)

  abbrev afterwards : Outcome A → Env → Outcome (Unit {0}) × World → Outcome A × World
  afterwards r env (ok u, w) = (r, w)
  afterwards r env (raised e, w) = (raised e, w)
  afterwards r env (crashed, w) = (crashed, w)

  abbrev finish : M (Unit {0}) → Env → Outcome A × World → Outcome A × World
  finish last env (ok a, w) = afterwards (ok a) env (last env w)
  finish last env (raised e, w) = afterwards (raised e) env (last env w)
  finish last env (crashed, w) = (crashed, w)

  -- try: m, finally: last. An exception of `last` replaces that of `m`.
  unfoldable pub try_finally : M A → M (Unit {0}) → M A
  try_finally m last env w = finish last env (m env w)

module _ {A B : Type 0} where
  abbrev continue : (A → M B) → Env → Outcome A × World → Outcome B × World
  continue f env (ok a, w) = f a env w
  continue f env (raised e, w) = (raised e, w)
  continue f env (crashed, w) = (crashed, w)

  infixl 5 ◌>>=◌ ◌>>◌
  unfoldable pub ◌>>=◌ : M A → (A → M B) → M B
  ◌>>=◌ m f env w = continue f env (m env w)

  abbrev pub ◌>>◌ : M A → M B → M B
  m >> n = m >>= λ _. n

-- if the test holds, raise
unfoldable pub refuse_if : Bool → Kind → String → M (Unit {0})
unfolding pure raise
refuse_if b k m = if b then raise k m else pure tt

unfoldable pub when : Bool → M (Unit {0}) → M (Unit {0})
unfolding pure
when b m = if b then m else pure tt

unfoldable pub from_option : {A : Type 0} → Option A → Kind → String → M A
unfolding pure raise
from_option none k m = raise k m
from_option (some a) k m = pure a
