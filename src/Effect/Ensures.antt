-- ===== src/Effect/Ensures.antt =====
-- What is known of the value that an action returns, from the state in which it starts.
use mathlib.Core.Path.{subst}
use kavita_ingest.Prelude.{
  ℕ, String, ◌≡◌, refl, Bool, true, false, Option, none, some, if◌then◌else◌,
}
use kavita_ingest.Filesystem.State.{Files}
use kavita_ingest.Effect.{
  Env, Exception, Kind, Fault, proceed, fail, crash, World, Outcome, ok, raised, crashed, M, Result,
  done, error, pure, raise, rethrow, look, system, catch, handle, settle_files, meet_system,
  continue, ◌>>=◌, from_option, refuse_if,
}
use kavita_ingest.Effect.Keeps.{Keeps, Keeps-bind-known}

abbrev pub Of : {A : Type 0} → (A → Type 0) → Outcome A → Type 0
Of F (ok a) = F a
Of F (raised e) = Unit
Of F crashed = Unit

Of-Unit : {A : Type 0} (r : Outcome A) → Of (λ a. Unit {0}) r
Of-Unit (ok a) = tt
Of-Unit (raised e) = tt
Of-Unit crashed = tt

-- If `m` returns `a` from a state with `I`, then `F a`.
pub record Ensures (env : Env) (I : World → Type 0) {A : Type 0} (m : M A) (F : A → Type 0)
    : Type 0 where
  pub of : (w : World) → I w → Of F (m env w).0

abbrev pub OfResult : {A S : Type 0} → (A → Type 0) → Result (A × S) → Type 0
OfResult F (done (a, s)) = F a
OfResult F (error e) = Unit

pub OfResult-if :
    {A S : Type 0} (F : A → Type 0) (b : Bool) (r s : Result (A × S))
    → (b ≡ true → OfResult F r)
    → (b ≡ false → OfResult F s)
    → OfResult F (if b then r else s)
OfResult-if F true r s hr hs = hr refl
OfResult-if F false r s hr hs = hs refl

module _ {A : Type 0} (F : A → Type 0) where
  settled : (w : World) (r : Result (A × Files)) → OfResult F r → Of F (settle_files w r).0
  settled w (done (a, fs)) h = h
  settled w (error e) h = tt

  met :
      (env : Env) (op : Env → ℕ → Files → Result (A × Files)) (w : World) (f : Fault)
      → OfResult F (op env w.tick w.files)
      → Of F (meet_system op env w f).0
  met env op w proceed h = settled w (op env w.tick w.files) h
  met env op w fail h = tt
  met env op w crash h = tt

module _ {env : Env} {I : World → Type 0} {A : Type 0} {F : A → Type 0} where
  pub Ensures-pure : (a : A) → F a → Ensures env I (pure a) F
  unfolding pure
  Ensures-pure a h = record { of = λ w i. h }

  pub Ensures-raise : (k : Kind) (m : String) → Ensures env I (raise {A = A} k m) F
  unfolding raise
  Ensures-raise k m = record { of = λ w i. tt }

  pub Ensures-rethrow : (e : Exception) → Ensures env I (rethrow {A = A} e) F
  unfolding rethrow
  Ensures-rethrow e = record { of = λ w i. tt }

  pub Ensures-if :
      (b : Bool) (m n : M A)
      → (b ≡ true → Ensures env I m F)
      → (b ≡ false → Ensures env I n F)
      → Ensures env I (if b then m else n) F
  Ensures-if true m n hm hn = hm refl
  Ensures-if false m n hm hn = hn refl

  pub Ensures-look :
      (f : Files → A) → ((w : World) → I w → F (f w.files)) → Ensures env I (look f) F
  unfolding look
  Ensures-look f h = record { of = h }

  pub Ensures-system :
      (op : Env → ℕ → Files → Result (A × Files))
      → ((w : World) → I w → OfResult F (op env w.tick w.files))
      → Ensures env I (system op) F
  unfolding system
  Ensures-system op h = record { of = λ w i. met F env op w (env.fault w.tick) (h w i) }

  handled :
      (h : Exception → M A) (p : Outcome A × World)
      → ((e : Exception) → Ensures env I (h e) F)
      → I p.1
      → Of F p.0
      → Of F (handle h env p).0
  handled h (ok a, w) he i f = f
  handled h (raised e, w) he i f = (he e).of w i
  handled h (crashed, w) he i f = tt

  pub Ensures-catch :
      (m : M A) (h : Exception → M A)
      → Keeps env I m
      → Ensures env I m F
      → ((e : Exception) → Ensures env I (h e) F)
      → Ensures env I (catch m h) F
  unfolding catch
  Ensures-catch m h km hm he = record { of = λ w i. handled h (m env w) he (km.at w i) (hm.of w i) }

pub Ensures-from_option :
    {env : Env} {I : World → Type 0} {A : Type 0} (o : Option A) (k : Kind) (m : String)
    → Ensures env I (from_option o k m) (λ a. o ≡ some a)
unfolding from_option
Ensures-from_option none k m = Ensures-raise k m
Ensures-from_option (some a) k m = Ensures-pure a refl

-- Behind a guard its test has failed.
pub Ensures-refuse_if :
    {env : Env} {I : World → Type 0} (b : Bool) (k : Kind) (m : String)
    → Ensures env I (refuse_if b k m) (λ u. b ≡ false)
unfolding refuse_if
Ensures-refuse_if true k m = Ensures-raise k m
Ensures-refuse_if false k m = Ensures-pure tt refl

module _ {env : Env} {I : World → Type 0} {A B : Type 0} {G : A → Type 0} {F : B → Type 0} where
  continued :
      (f : A → M B) (p : Outcome A × World)
      → ((a : A) → G a → Ensures env I (f a) F)
      → I p.1
      → Of G p.0
      → Of F (continue f env p).0
  continued f (ok a, w) hf i g = (hf a g).of w i
  continued f (raised e, w) hf i g = tt
  continued f (crashed, w) hf i g = tt

  pub Ensures-bind :
      (m : M A) (f : A → M B)
      → Keeps env I m
      → Ensures env I m G
      → ((a : A) → G a → Ensures env I (f a) F)
      → Ensures env I (m >>= f) F
  unfolding ◌>>=◌
  Ensures-bind m f km hm hf = record {
    of = λ w i. continued f (m env w) hf (km.at w i) (hm.of w i);
  }

module _ {env : Env} {I : World → Type 0} {A B : Type 0} {F : B → Type 0} where
  -- What the rest of a block ensures, where nothing has to be known of the first value.
  pub Ensures-then :
      (m : M A) (f : A → M B)
      → Keeps env I m
      → ((a : A) → Ensures env I (f a) F)
      → Ensures env I (m >>= f) F
  Ensures-then m f km hf =
      Ensures-bind {G = λ a. Unit {0}} m f km (record { of = λ w i. Of-Unit (m env w).0 })
        (λ a u. hf a)

module _ {env : Env} {I : World → Type 0} {A B : Type 0} {F : A → Type 0} where
  -- The rest of a block may use what the first action ensures.
  pub Keeps-bind-ensured :
      (m : M A) (f : A → M B)
      → Keeps env I m
      → Ensures env I m F
      → ((a : A) → F a → Keeps env I (f a))
      → Keeps env I (m >>= f)
  Keeps-bind-ensured m f km hm kf =
      Keeps-bind-known m f F km (λ w i a e. subst (Of F) e (hm.of w i)) kf

pub Ensures-weaken :
    {env : Env} {I : World → Type 0} {A : Type 0} {F G : A → Type 0} (m : M A)
    → ((a : A) → F a → G a)
    → Ensures env I m F
    → Ensures env I m G
Ensures-weaken {env} {I} {A} {F} {G} m fg h = record { of = λ w i. by (m env w).0 (h.of w i) }
  where
    by : (r : Outcome A) → Of F r → Of G r
    by (ok a) f = fg a f
    by (raised e) f = tt
    by crashed f = tt
