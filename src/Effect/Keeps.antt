-- ===== src/Effect/Keeps.antt =====
-- Invariants of actions, whatever fails and wherever the process dies: one rule for each way to
-- build an action.
use kavita_ingest.Prelude.{
  ℕ, String, ◌≡◌, refl, Bool, true, false, Option, none, some, if◌then◌else◌,
}
use kavita_ingest.Filesystem.State.{Files}
use kavita_ingest.Journal.Rows.{Db}
use kavita_ingest.Effect.{
  Env, Exception, Fault, proceed, fail, crash, World, Outcome, ok, raised, crashed, M, Result, done,
  error, Kind, pure, raise, rethrow, look, system, transaction, catch, try_finally, handle, finish,
  afterwards, settle_files, settle_db, meet_system, meet_transaction, continue, ticked, ◌>>=◌,
  refuse_if, when, from_option,
}

-- `m` keeps `I`, whether it returns, raises or is cut off.
pub record Keeps (env : Env) (I : World → Type 0) {A : Type 0} (m : M A) : Type 0 where
  pub at : (w : World) → I w → I (m env w).1

module _ (I : World → Type 0) {A : Type 0} where
  afterwards-keeps :
      (env : Env) (r : Outcome A) (p : Outcome (Unit {0}) × World)
      → I p.1
      → I (afterwards r env p).1
  afterwards-keeps env r (ok u, w) i = i
  afterwards-keeps env r (raised e, w) i = i
  afterwards-keeps env r (crashed, w) i = i

  settle_files-keeps :
      (w : World) (r : Result (A × Files))
      → ((a : A) (fs : Files) → r ≡ done (a, fs) → I (record (ticked w) { files = fs }))
      → I (ticked w)
      → I (settle_files w r).1
  settle_files-keeps w (done (a, fs)) kd i = kd a fs refl
  settle_files-keeps w (error e) kd i = i

  settle_db-keeps :
      (w : World) (r : Result (A × Db))
      → ((a : A) (db : Db) → r ≡ done (a, db) → I (record (ticked w) { db = db }))
      → I (ticked w)
      → I (settle_db w r).1
  settle_db-keeps w (done (a, db)) kd i = kd a db refl
  settle_db-keeps w (error e) kd i = i

module _ {env : Env} {I : World → Type 0} {A : Type 0} where
  pub Keeps-pure : (a : A) → Keeps env I (pure a)
  unfolding pure
  Keeps-pure a = record { at = λ w h. h }

  pub Keeps-raise : (k : Kind) (m : String) → Keeps env I (raise {A = A} k m)
  unfolding raise
  Keeps-raise k m = record { at = λ w h. h }

  pub Keeps-rethrow : (e : Exception) → Keeps env I (rethrow {A = A} e)
  unfolding rethrow
  Keeps-rethrow e = record { at = λ w h. h }

  pub Keeps-look : (f : Files → A) → Keeps env I (look f)
  unfolding look
  Keeps-look f = record { at = λ w h. h }

  pub Keeps-if :
      (b : Bool) (m n : M A) → Keeps env I m → Keeps env I n → Keeps env I (if b then m else n)
  Keeps-if true m n km kn = km
  Keeps-if false m n km kn = kn

  pub Keeps-from_option : (o : Option A) (k : Kind) (m : String) → Keeps env I (from_option o k m)
  unfolding from_option
  Keeps-from_option none k m = Keeps-raise k m
  Keeps-from_option (some a) k m = Keeps-pure a

  handle-keeps :
      (h : Exception → M A) (p : Outcome A × World)
      → ((e : Exception) → Keeps env I (h e))
      → I p.1
      → I (handle h env p).1
  handle-keeps h (ok a, w) kh i = i
  handle-keeps h (raised e, w) kh i = (kh e).at w i
  handle-keeps h (crashed, w) kh i = i

  pub Keeps-catch :
      (m : M A) (h : Exception → M A)
      → Keeps env I m
      → ((e : Exception) → Keeps env I (h e))
      → Keeps env I (catch m h)
  unfolding catch
  Keeps-catch m h km kh = record { at = λ w i. handle-keeps h (m env w) kh (km.at w i) }

  finish-keeps :
      (last : M (Unit {0})) (p : Outcome A × World)
      → Keeps env I last
      → I p.1
      → I (finish last env p).1
  finish-keeps last (ok a, w) kl i = afterwards-keeps I env (ok a) (last env w) (kl.at w i)
  finish-keeps last (raised e, w) kl i = afterwards-keeps I env (raised e) (last env w) (kl.at w i)
  finish-keeps last (crashed, w) kl i = i

  pub Keeps-try_finally :
      (m : M A) (last : M (Unit {0}))
      → Keeps env I m
      → Keeps env I last
      → Keeps env I (try_finally m last)
  unfolding try_finally
  Keeps-try_finally m last km kl = record { at = λ w i. finish-keeps last (m env w) kl (km.at w i) }

  meet_system-keeps :
      (op : Env → ℕ → Files → Result (A × Files))
      → ((w : World) → I w → I (ticked w))
      → ((w : World) (a : A) (fs : Files)
          → I w
          → op env w.tick w.files ≡ done (a, fs)
          → I (record (ticked w) { files = fs }))
      → (w : World) (f : Fault) → I w
      → I (meet_system op env w f).1
  meet_system-keeps op kt kd w proceed i =
      settle_files-keeps I w (op env w.tick w.files) (λ a fs e. kd w a fs i e) (kt w i)
  meet_system-keeps op kt kd w fail i = kt w i
  meet_system-keeps op kt kd w crash i = i

  -- A system call keeps what does not look at the count of effects, if its change does.
  pub Keeps-system :
      (op : Env → ℕ → Files → Result (A × Files))
      → ((w : World) → I w → I (ticked w))
      → ((w : World) (a : A) (fs : Files)
          → I w
          → op env w.tick w.files ≡ done (a, fs)
          → I (record (ticked w) { files = fs }))
      → Keeps env I (system op)
  unfolding system
  Keeps-system op kt kd = record { at = λ w i. meet_system-keeps op kt kd w (env.fault w.tick) i }

  meet_transaction-keeps :
      (op : Env → ℕ → Db → Result (A × Db))
      → ((w : World) → I w → I (ticked w))
      → ((w : World) (a : A) (db : Db)
          → I w
          → op env w.tick w.db ≡ done (a, db)
          → I (record (ticked w) { db = db }))
      → (w : World) (f : Fault) → I w
      → I (meet_transaction op env w f).1
  meet_transaction-keeps op kt kd w proceed i =
      settle_db-keeps I w (op env w.tick w.db) (λ a db e. kd w a db i e) (kt w i)
  meet_transaction-keeps op kt kd w fail i = kt w i
  meet_transaction-keeps op kt kd w crash i = i

  pub Keeps-transaction :
      (op : Env → ℕ → Db → Result (A × Db))
      → ((w : World) → I w → I (ticked w))
      → ((w : World) (a : A) (db : Db)
          → I w
          → op env w.tick w.db ≡ done (a, db)
          → I (record (ticked w) { db = db }))
      → Keeps env I (transaction op)
  unfolding transaction
  Keeps-transaction op kt kd = record {
    at = λ w i. meet_transaction-keeps op kt kd w (env.fault w.tick) i;
  }

module _ {env : Env} {I : World → Type 0} where
  pub Keeps-refuse_if : (b : Bool) (k : Kind) (m : String) → Keeps env I (refuse_if b k m)
  unfolding refuse_if
  Keeps-refuse_if true k m = Keeps-raise k m
  Keeps-refuse_if false k m = Keeps-pure tt

  pub Keeps-when : (b : Bool) (m : M (Unit {0})) → Keeps env I m → Keeps env I (when b m)
  unfolding when
  Keeps-when true m km = km
  Keeps-when false m km = Keeps-pure tt

module _ {env : Env} {I : World → Type 0} {A B : Type 0} where
  continue-keeps :
      (f : A → M B) (F : A → Type 0) (p : Outcome A × World)
      → ((a : A) → F a → Keeps env I (f a))
      → ((a : A) → p.0 ≡ ok a → F a)
      → I p.1
      → I (continue f env p).1
  continue-keeps f F (ok a, w) kf known i = (kf a (known a refl)).at w i
  continue-keeps f F (raised e, w) kf known i = i
  continue-keeps f F (crashed, w) kf known i = i

  -- The rest of the block may use a fact about what `m` returned.
  pub Keeps-bind-known :
      (m : M A) (f : A → M B) (F : A → Type 0)
      → Keeps env I m
      → ((w : World) → I w → (a : A) → (m env w).0 ≡ ok a → F a)
      → ((a : A) → F a → Keeps env I (f a))
      → Keeps env I (m >>= f)
  unfolding ◌>>=◌
  Keeps-bind-known m f F km known kf = record {
    at = λ w i. continue-keeps f F (m env w) kf (known w i) (km.at w i);
  }

  pub Keeps-bind :
      (m : M A) (f : A → M B)
      → Keeps env I m
      → ((a : A) → Keeps env I (f a))
      → Keeps env I (m >>= f)
  Keeps-bind m f km kf = Keeps-bind-known m f (λ a. Unit {0}) km (λ w i a e. tt) (λ a u. kf a)

abbrev pub Post : (World → Type 0) → (World → Type 0) → {A : Type 0} → Outcome A × World → Type 0
Post J I (ok a, w) = J w
Post J I (raised e, w) = I w
Post J I (crashed, w) = I w

-- From a state with `I`, `m` returns in one with `J`; otherwise it ends in one with `I`.
pub record Reaches (env : Env) (I J : World → Type 0) {A : Type 0} (m : M A) : Type 0 where
  pub at : (w : World) → I w → Post J I (m env w)

module _ (I J : World → Type 0) {A : Type 0} where
  settle_files-reached :
      (w : World) (r : Result (A × Files))
      → ((a : A) (fs : Files) → r ≡ done (a, fs) → J (record (ticked w) { files = fs }))
      → I (ticked w)
      → Post J I (settle_files w r)
  settle_files-reached w (done (a, fs)) kd i = kd a fs refl
  settle_files-reached w (error e) kd i = i

  meet_system-reached :
      (env : Env) (op : Env → ℕ → Files → Result (A × Files))
      → ((w : World) → I w → I (ticked w))
      → ((w : World) (a : A) (fs : Files)
          → I w
          → op env w.tick w.files ≡ done (a, fs)
          → J (record (ticked w) { files = fs }))
      → (w : World) (f : Fault) → I w
      → Post J I (meet_system op env w f)
  meet_system-reached env op kt kd w proceed i =
      settle_files-reached w (op env w.tick w.files) (λ a fs e. kd w a fs i e) (kt w i)
  meet_system-reached env op kt kd w fail i = kt w i
  meet_system-reached env op kt kd w crash i = i

  pub Reaches-system :
      (env : Env) (op : Env → ℕ → Files → Result (A × Files))
      → ((w : World) → I w → I (ticked w))
      → ((w : World) (a : A) (fs : Files)
          → I w
          → op env w.tick w.files ≡ done (a, fs)
          → J (record (ticked w) { files = fs }))
      → Reaches env I J (system op)
  unfolding system
  Reaches-system env op kt kd = record {
    at = λ w i. meet_system-reached env op kt kd w (env.fault w.tick) i;
  }

module _ {env : Env} {I J : World → Type 0} {A B : Type 0} where
  continue-reached :
      (f : A → M B) (p : Outcome A × World)
      → ((a : A) → Keeps env J (f a))
      → ((w : World) → J w → I w)
      → Post J I p
      → I (continue f env p).1
  continue-reached f (ok a, w) kf ji i = ji _ ((kf a).at w i)
  continue-reached f (raised e, w) kf ji i = i
  continue-reached f (crashed, w) kf ji i = i

  -- The rest of the block keeps the stronger invariant that `m` establishes.
  pub Keeps-bind-reached :
      (m : M A) (f : A → M B)
      → Reaches env I J m
      → ((a : A) → Keeps env J (f a))
      → ((w : World) → J w → I w)
      → Keeps env I (m >>= f)
  unfolding ◌>>=◌
  Keeps-bind-reached m f rm kf ji = record {
    at = λ w i. continue-reached f (m env w) kf ji (rm.at w i);
  }

pub ruleset keeps_rules = (
  Keeps-pure, Keeps-raise, Keeps-rethrow, Keeps-look, Keeps-if, Keeps-from_option, Keeps-catch,
  Keeps-try_finally, Keeps-refuse_if, Keeps-when, Keeps-bind,
)
