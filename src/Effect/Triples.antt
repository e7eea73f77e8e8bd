-- ===== src/Effect/Triples.antt =====
-- Triples: from a state with `P` an action returns `a` in a state with `Q a`, or ends with `E`.
use kavita_ingest.Prelude.{ℕ, String, ◌≡◌, refl, Bool, true, false, Option, none, some}
use kavita_ingest.Filesystem.State.{Files}
use kavita_ingest.Journal.Rows.{Db}
use kavita_ingest.Effect.{
  Env, Kind, Fault, proceed, fail, crash, World, Outcome, ok, raised, crashed, M, Result, done,
  error, pure, system, settle_files, meet_system, transaction, settle_db, meet_transaction, ticked,
  continue, ◌>>=◌, refuse_if, from_option,
}
use kavita_ingest.Effect.Keeps.{Keeps}

abbrev pub Ends :
    {A : Type 0} → (A → World → Type 0) → (World → Type 0) → Outcome A × World → Type 0
Ends Q E (ok a, w) = Q a w
Ends Q E (raised e, w) = E w
Ends Q E (crashed, w) = E w

pub record Triple (env : Env) (P : World → Type 0) {A : Type 0} (m : M A) (Q : A → World → Type 0)
    (E : World → Type 0) : Type 0 where
  pub at : (w : World) → P w → Ends Q E (m env w)

module _ {env : Env} {P E : World → Type 0} {A : Type 0} {Q : A → World → Type 0} where
  pub Triple-pure : (a : A) → ((w : World) → P w → Q a w) → Triple env P (pure a) Q E
  unfolding pure
  Triple-pure a h = record { at = h }

module _ {P E : World → Type 0} {A : Type 0} where
  Ends-of_keeps : (r : Outcome A × World) → ((w : World) → P w → E w) → P r.1 → Ends (λ a. P) E r
  Ends-of_keeps (ok a, w) pe i = i
  Ends-of_keeps (raised e, w) pe i = pe w i
  Ends-of_keeps (crashed, w) pe i = pe w i

  pub Triple-keeps :
      {env : Env} (m : M A) → Keeps env P m → ((w : World) → P w → E w) → Triple env P m (λ a. P) E
  Triple-keeps {env} m km pe = record { at = λ w i. Ends-of_keeps (m env w) pe (km.at w i) }

module _ {env : Env} {P E : World → Type 0} {Q : World → Type 0} where
  pub Triple-refuse_if :
      (b : Bool) (k : Kind) (m : String)
      → ((w : World) → b ≡ false → P w → Q w)
      → ((w : World) → P w → E w)
      → Triple env P (refuse_if b k m) (λ u. Q) E
  unfolding refuse_if
  Triple-refuse_if true k m pq pe = record { at = pe }
  Triple-refuse_if false k m pq pe = record { at = λ w i. pq w refl i }

pub Triple-from_option :
    {env : Env} {P E : World → Type 0} {A : Type 0} (o : Option A) (k : Kind) (m : String)
    → ((w : World) → P w → E w)
    → Triple env P (from_option o k m) (λ a w. P w × (o ≡ some a)) E
unfolding from_option
Triple-from_option none k m pe = record { at = pe }
Triple-from_option (some a) k m pe = record { at = λ w i. (i, refl) }

module _ {A : Type 0} (Q : A → World → Type 0) (E : World → Type 0) where
  abbrev pub EndsResult : World → Result (A × Files) → Type 0
  EndsResult w (done (a, fs)) = Q a (record (ticked w) { files = fs })
  EndsResult w (error e) = E (ticked w)

  settled : (w : World) (r : Result (A × Files)) → EndsResult w r → Ends Q E (settle_files w r)
  settled w (done (a, fs)) h = h
  settled w (error e) h = h

  met :
      (env : Env) (op : Env → ℕ → Files → Result (A × Files)) (w : World) (f : Fault)
      → EndsResult w (op env w.tick w.files)
      → E (ticked w)
      → E w
      → Ends Q E (meet_system op env w f)
  met env op w proceed h t e = settled w (op env w.tick w.files) h
  met env op w fail h t e = t
  met env op w crash h t e = e

pub Triple-system :
    {env : Env} {P E : World → Type 0} {A : Type 0} {Q : A → World → Type 0}
    (op : Env → ℕ → Files → Result (A × Files))
    → ((w : World) → P w → EndsResult Q E w (op env w.tick w.files))
    → ((w : World) → P w → E (ticked w))
    → ((w : World) → P w → E w)
    → Triple env P (system op) Q E
unfolding system
Triple-system {env} {P} {E} {A} {Q} op h t e = record {
  at = λ w i. met Q E env op w (env.fault w.tick) (h w i) (t w i) (e w i);
}

module _ {env : Env} {E : World → Type 0} {A B : Type 0} {R : A → World → Type 0}
    {Q : B → World → Type 0} where
  continued :
      (f : A → M B) (p : Outcome A × World)
      → ((a : A) → Triple env (R a) (f a) Q E)
      → Ends R E p
      → Ends Q E (continue f env p)
  continued f (ok a, w) hf r = (hf a).at w r
  continued f (raised e, w) hf r = r
  continued f (crashed, w) hf r = r

  pub Triple-bind :
      {P : World → Type 0} (m : M A) (f : A → M B)
      → Triple env P m R E
      → ((a : A) → Triple env (R a) (f a) Q E)
      → Triple env P (m >>= f) Q E
  unfolding ◌>>=◌
  Triple-bind m f hm hf = record { at = λ w i. continued f (m env w) hf (hm.at w i) }

module _ {env : Env} {P P' E : World → Type 0} {A : Type 0} {Q : A → World → Type 0} where
  pub Triple-weaken :
      (m : M A) → ((w : World) → P w → P' w) → Triple env P' m Q E → Triple env P m Q E
  Triple-weaken m pp h = record { at = λ w i. h.at w (pp w i) }

module _ {env : Env} {P E : World → Type 0} {A B : Type 0} {Q : B → World → Type 0} where
  -- A step that keeps what is known.
  pub Triple-then :
      (m : M A) (f : A → M B)
      → Keeps env P m
      → ((w : World) → P w → E w)
      → ((a : A) → Triple env P (f a) Q E)
      → Triple env P (m >>= f) Q E
  Triple-then m f km pe hf = Triple-bind m f (Triple-keeps m km pe) hf

-- A fact that does not depend on the world may be assumed.
pub Triple-given :
    {env : Env} {P E : World → Type 0} {A : Type 0} {Q : A → World → Type 0} {F : Type 0} (m : M A)
    → (F → Triple env P m Q E)
    → Triple env (λ w. P w × F) m Q E
Triple-given m h = record { at = λ w i. (h i.1).at w i.0 }

module _ {A : Type 0} (Q R : A → World → Type 0) (E F : World → Type 0) where
  Ends-weaken :
      (o : Outcome A × World)
      → ((a : A) (w : World) → Q a w → R a w)
      → ((w : World) → E w → F w)
      → Ends Q E o
      → Ends R F o
  Ends-weaken (ok a, w) qr ef h = qr a w h
  Ends-weaken (raised e, w) qr ef h = ef w h
  Ends-weaken (crashed, w) qr ef h = ef w h

pub Triple-post :
    {env : Env} {P E F : World → Type 0} {A : Type 0} {Q R : A → World → Type 0} (m : M A)
    → Triple env P m Q E
    → ((a : A) (w : World) → Q a w → R a w)
    → ((w : World) → E w → F w)
    → Triple env P m R F
Triple-post {env} {P} {E} {F} {A} {Q} {R} m h qr ef = record {
  at = λ w i. Ends-weaken Q R E F (m env w) qr ef (h.at w i);
}

module _ {A : Type 0} (Q : A → World → Type 0) (E : World → Type 0) where
  abbrev pub EndsWritten : World → Result (A × Db) → Type 0
  EndsWritten w (done (a, db)) = Q a (record (ticked w) { db = db })
  EndsWritten w (error e) = E (ticked w)

  written : (w : World) (r : Result (A × Db)) → EndsWritten w r → Ends Q E (settle_db w r)
  written w (done (a, db)) h = h
  written w (error e) h = h

  tried :
      (env : Env) (op : Env → ℕ → Db → Result (A × Db)) (w : World) (f : Fault)
      → EndsWritten w (op env w.tick w.db)
      → E (ticked w)
      → E w
      → Ends Q E (meet_transaction op env w f)
  tried env op w proceed h t e = written w (op env w.tick w.db) h
  tried env op w fail h t e = t
  tried env op w crash h t e = e

pub Triple-transaction :
    {env : Env} {P E : World → Type 0} {A : Type 0} {Q : A → World → Type 0}
    (op : Env → ℕ → Db → Result (A × Db))
    → ((w : World) → P w → EndsWritten Q E w (op env w.tick w.db))
    → ((w : World) → P w → E (ticked w))
    → ((w : World) → P w → E w)
    → Triple env P (transaction op) Q E
unfolding transaction
Triple-transaction {env} {P} {E} {A} {Q} op h t e = record {
  at = λ w i. tried Q E env op w (env.fault w.tick) (h w i) (t w i) (e w i);
}
