-- ===== src/RateLimit/Traces.antt =====
-- The tables that any number of processes reach by reserving and blocking, one transaction after
-- another, on a clock that does not go back.
use mathlib.Core.Path.{subst}
use kavita_ingest.Prelude.{
  ℕ, suc, ◌+◌, ◌≤◌, ◌<◌, ◌≡◌, refl, sym, ◌∙◌, ap, String, false, ◌&&◌, ◌⊎◌, inl, inr, some, List,
  [], ◌∷◌, ◌++◌, ◌==◌, string_Eq, ltb, leb, length, All, All-append, All-map, eq_refl, arith,
  if◌then◌else◌,
}
use kavita_ingest.RateLimit.{
  RatePolicy, Reservation, Reserved, Tables, times, recent, in_order, interval_wait, timestamps_at,
  reserve, block,
}
use kavita_ingest.RateLimit.Times.{
  recent-outside, All-in_order, length-in_order, in_order-IsSorted, IsSorted, IsSorted-last_from,
  times-append,
}
use kavita_ingest.RateLimit.Bounds.{Answer, row_at, reserve-Answer}

-- All calls for one bucket give one policy; other buckets may have any.
pub data Trace (provider bucket : String) (policy : RatePolicy) : ℕ → Tables → Type 0 where
  started : Trace provider bucket policy 0 (record { reservations = []; blocks = [] })
  reserved :
      {earlier : ℕ} {before : Tables} (now : ℕ) (answer : Reservation) (after : Tables)
      → Trace provider bucket policy earlier before
      → earlier ≤ now
      → reserve provider bucket now policy before ≡ some (answer, after)
      → Trace provider bucket policy now after
  elsewhere :
      {earlier : ℕ} {before : Tables} (p b : String) (other : RatePolicy) (now : ℕ)
      (answer : Reservation) (after : Tables)
      → Trace provider bucket policy earlier before
      → earlier ≤ now
      → (p == provider && b == bucket) ≡ false
      → reserve p b now other before ≡ some (answer, after)
      → Trace provider bucket policy now after
  blocked :
      {earlier : ℕ} {before : Tables} (p b : String) (seconds : ℕ) (reason : String) (now : ℕ)
      → Trace provider bucket policy earlier before
      → earlier ≤ now
      → Trace provider bucket policy now (block p b seconds reason now before)

-- The reservations made in the window that ends at `t`.
unfoldable pub made_in : ℕ → ℕ → List ℕ → ℕ
made_in t window [] = 0
made_in t window (u ∷ us) =
    let others = made_in t window us in if leb u t && ltb t (u + window) then suc others else others

-- Each is at least an interval after every one before it.
abbrev pub Spaced : ℕ → List ℕ → Type 0
Spaced interval [] = Unit
Spaced interval (t ∷ ts) = All (λ u. t + interval ≤ u) ts × Spaced interval ts

-- What holds of the reservations of a bucket, in the order in which they were made.
pub record IsLimited (policy : RatePolicy) (now : ℕ) (ts : List ℕ) : Type 0 where
  pub past : All (λ t. t ≤ now) ts
  pub windows : (t : ℕ) → made_in t policy.window ts ≤ policy.max_requests
  pub spaced : policy.min_interval ≤ policy.window → Spaced policy.min_interval ts

made_in-append :
    (t window : ℕ) (ts us : List ℕ)
    → made_in t window (ts ++ us) ≡ made_in t window ts + made_in t window us
unfolding made_in
made_in-append t window [] us = omega arith
made_in-append t window (u ∷ ts) us = ground (arith, made_in-append t window ts us)

-- From a moment on that no reservation is after, the windows hold what the last one held, or less.
made_in-recent :
    (t now window : ℕ) (ts : List ℕ) → now ≤ t → made_in t window ts ≤ length (recent now window ts)
unfolding made_in recent
made_in-recent t now window [] le = omega arith
made_in-recent t now window (u ∷ ts) le = ground (arith, made_in-recent t now window ts le)

Spaced-append :
    (interval now : ℕ) (ts : List ℕ)
    → Spaced interval ts
    → All (λ t. t + interval ≤ now) ts
    → Spaced interval (ts ++ now ∷ [])
Spaced-append interval now [] h late = (tt, tt)
Spaced-append interval now (t ∷ ts) h late =
    (All-append _ ts (now ∷ []) h.0 (late.0, tt), Spaced-append interval now ts h.1 late.1)

-- The newest reservation in the window bounds the others there, the rest are out of it.
late_enough :
    (policy : RatePolicy) (now : ℕ) (ts : List ℕ)
    → policy.min_interval ≤ policy.window
    → interval_wait now policy (in_order (recent now policy.window ts)) ≡ 0
    → All (λ t. t + policy.min_interval ≤ now) ts
late_enough policy now ts short none_left =
    All-map _ _ ts (λ t. outside t)
      (recent-outside (λ t. t + policy.min_interval ≤ now) now policy.window ts
        (All-in_order _ _ (bounded _ (in_order-IsSorted _) none_left)))
  where
    outside :
        (t : ℕ)
        → (t + policy.min_interval ≤ now) ⊎ (t + policy.window ≤ now)
        → t + policy.min_interval ≤ now
    outside t (inl h) = h
    outside t (inr h) = omega arith

    bounded :
        (us : List ℕ)
        → IsSorted us
        → interval_wait now policy us ≡ 0
        → All (λ t. t + policy.min_interval ≤ now) us
    bounded [] h e = tt
    bounded (u ∷ us) h e = All-map _ _ (u ∷ us) (λ t le. omega arith) (IsSorted-last_from u us h)

pub IsLimited-later :
    (policy : RatePolicy) (earlier now : ℕ) (ts : List ℕ)
    → earlier ≤ now
    → IsLimited policy earlier ts
    → IsLimited policy now ts
IsLimited-later policy earlier now ts le h = record {
  past = All-map _ _ ts (λ t b. omega arith) h.past;
  windows = h.windows;
  spaced = h.spaced;
}

module _ (policy : RatePolicy) (now : ℕ) (ts : List ℕ) (h : IsLimited policy now ts) where
  IsLimited-granted :
      length (in_order (recent now policy.window ts)) < policy.max_requests
      → interval_wait now policy (in_order (recent now policy.window ts)) ≡ 0
      → IsLimited policy now (ts ++ now ∷ [])
  unfolding made_in
  IsLimited-granted room free = record {
    past = All-append _ ts (now ∷ []) h.past (omega arith, tt);
    windows = λ t. ground (
      arith,
      made_in-append t policy.window ts (now ∷ []),
      h.windows t,
      made_in-recent t now policy.window ts,
      length-in_order (recent now policy.window ts),
    );
    spaced = λ short.
        Spaced-append policy.min_interval now ts (h.spaced short)
          (late_enough policy now ts short free);
  }

times-own :
    (provider bucket : String) (now : ℕ) (rows : List Reserved)
    → times provider bucket (rows ++ row_at provider bucket now ∷ [])
      ≡ times provider bucket rows ++ now ∷ []
unfolding times
times-own provider bucket now rows =
    rw (times-append provider bucket rows, eq_refl provider, eq_refl bucket) refl

times-other :
    (provider bucket p b : String) (now : ℕ) (rows : List Reserved)
    → (p == provider && b == bucket) ≡ false
    → times provider bucket (rows ++ row_at p b now ∷ []) ≡ times provider bucket rows
unfolding times
times-other provider bucket p b now rows other =
    rw (times-append provider bucket rows, other) (append_nil (times provider bucket rows))
  where
    append_nil : (ts : List ℕ) → ts ++ [] ≡ ts
    append_nil [] = refl
    append_nil (t ∷ ts) = ap (λ l. t ∷ l) (append_nil ts)

module _ (provider bucket : String) (policy : RatePolicy) where
  abbrev Limited : ℕ → Tables → Type 0
  Limited now tables = IsLimited policy now (times provider bucket tables.reservations)

  own_step :
      (now : ℕ) (before after : Tables) (answer : Reservation)
      → Limited now before
      → Answer provider bucket now policy
          (timestamps_at provider bucket now policy before)
          before
          (some (answer, after))
      → Limited now after
  own_step now before after answer h (inl (denied, same)) = subst (Limited now) (sym same) h
  own_step now before after answer h (inr (allowed, granted)) =
      subst (IsLimited policy now)
        (sym (ap (times provider bucket) granted.written ∙ times-own provider bucket now _))
        (IsLimited-granted policy now _ h granted.room granted.spaced)

  other_step :
      (p b : String) (other : RatePolicy) (now : ℕ) (before after : Tables) (answer : Reservation)
      → (p == provider && b == bucket) ≡ false
      → Limited now before
      → Answer p b now other (timestamps_at p b now other before) before (some (answer, after))
      → Limited now after
  other_step p b other now before after answer apart h (inl (denied, same)) =
      subst (Limited now) (sym same) h
  other_step p b other now before after answer apart h (inr (allowed, granted)) =
      subst (IsLimited policy now)
        (sym (
          ap (times provider bucket) granted.written ∙ times-other provider bucket p b now _ apart))
        h

  -- In every state that the tables reach, through any sequence of reservations and blocks by any
  -- processes on a clock that does not go back, and with one policy for the bucket: no window of the
  -- policy's length holds more reservations of the bucket than the policy allows, none was made in
  -- the future, and where the policy's interval is no longer than its window, every two of them are
  -- at least that interval apart.
  pub Trace-IsLimited :
      (now : ℕ) (tables : Tables)
      → Trace provider bucket policy now tables
      → IsLimited policy now (times provider bucket tables.reservations)
  unfolding times made_in block
  Trace-IsLimited now tables started = record {
    past = tt;
    windows = λ t. omega arith;
    spaced = λ short. tt;
  }
  Trace-IsLimited now tables (reserved {earlier} {before} now2 answer after trace le e) =
      own_step now before tables answer
        (IsLimited-later policy earlier now _ le (Trace-IsLimited earlier before trace))
        (subst (Answer provider bucket now policy _ before) e
          (reserve-Answer provider bucket now policy before))
  Trace-IsLimited now tables
        (elsewhere {earlier} {before} p b other now2 answer after trace le apart e) =
      other_step p b other now before tables answer apart
        (IsLimited-later policy earlier now _ le (Trace-IsLimited earlier before trace))
        (subst (Answer p b now other _ before) e (reserve-Answer p b now other before))
  Trace-IsLimited now tables (blocked {earlier} {before} p b seconds reason now2 trace le) =
      IsLimited-later policy earlier now _ le (Trace-IsLimited earlier before trace)
