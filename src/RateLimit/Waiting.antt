-- ===== src/RateLimit/Waiting.antt =====
-- A reservation that is denied is granted after the wait that it names.
use kavita_ingest.Prelude.{
  ℕ, ◌+◌, ◌-◌, ◌≤◌, ◌<◌, ◌≡◌, refl, String, true, false, ◌⊎◌, inl, inr, Option, none, some, List,
  [], ◌∷◌, ltb, leb, length, All, All-map, arith, if_cases, Bool-cases,
}
use kavita_ingest.RateLimit.{
  RatePolicy, Reservation, Tables, times, recent, in_order, blocked_until, max, last_from,
  interval_wait, window_wait, timestamps_at, decide, reserve, attempt, wait_and_reserve,
}
use kavita_ingest.RateLimit.Times.{
  recent-outside, in_order-All, All-in_order, length-in_order, in_order-IsSorted, IsSorted,
  IsSorted-last_from,
}
use kavita_ingest.RateLimit.Traces.{made_in, IsLimited}

recent-made_in :
    (now window : ℕ) (ts : List ℕ)
    → All (λ t. t ≤ now) ts
    → length (recent now window ts) ≡ made_in now window ts
unfolding recent made_in
recent-made_in now window [] h = refl
recent-made_in now window (t ∷ ts) h = ground (arith, h.0, recent-made_in now window ts h.1)

recent_shrinks :
    (now later window : ℕ) (ts : List ℕ)
    → now ≤ later
    → length (recent later window ts) ≤ length (recent now window ts)
unfolding recent
recent_shrinks now later window [] le = omega arith
recent_shrinks now later window (t ∷ ts) le = ground (arith, recent_shrinks now later window ts le)

-- If the window still holds as many, it holds the same.
recent_stays :
    (now later window : ℕ) (ts : List ℕ)
    → now ≤ later
    → length (recent now window ts) ≤ length (recent later window ts)
    → All (λ t. later < t + window) (recent now window ts)
unfolding recent
recent_stays now later window [] le same = tt
recent_stays now later window (t ∷ ts) le same =
    let shrinks = recent_shrinks now later window ts le in
    if_cases (All (λ u. later < u + window)) (ltb now (t + window))
      (λ e. (
        ground (arith, shrinks, same, e),
        recent_stays now later window ts le (ground (arith, shrinks, same, e)),
      ))
      (λ e. recent_stays now later window ts le (ground (arith, shrinks, same, e)))

last-All : (P : ℕ → Type 0) (t : ℕ) (ts : List ℕ) → All P (t ∷ ts) → P (last_from t ts)
last-All P t [] h = h.0
last-All P t (u ∷ us) h = last-All P u us h.1

module _ (now later : ℕ) (policy : RatePolicy) (le : now ≤ later) where
  abbrev IsFree : ℕ → Type 0
  IsFree t = t + policy.min_interval ≤ later

  recent_keeps :
      (ts : List ℕ)
      → All (λ t. IsFree t ⊎ (t + policy.window ≤ now)) ts
      → All IsFree (recent later policy.window ts)
  unfolding recent
  recent_keeps [] h = tt
  recent_keeps (t ∷ ts) h =
      if_cases (All IsFree) (ltb later (t + policy.window))
        (λ e. (ground (arith, h.0, e, le), recent_keeps ts h.1)) (λ e. recent_keeps ts h.1)

  bounded : (us : List ℕ) → IsSorted us → now + interval_wait now policy us ≤ later → All IsFree us
  bounded [] h w = tt
  bounded (u ∷ us) h w = All-map _ _ (u ∷ us) (λ t b. omega arith) (IsSorted-last_from u us h)

  none_left : (us : List ℕ) → All IsFree us → interval_wait later policy us ≡ 0
  none_left [] h = refl
  none_left (u ∷ us) h = omega (arith, last-All IsFree u us h)

  -- The interval after the newest reservation is over.
  interval_over :
      (ts : List ℕ)
      → now + interval_wait now policy (in_order (recent now policy.window ts)) ≤ later
      → interval_wait later policy (in_order (recent later policy.window ts)) ≡ 0
  interval_over ts wait = none_left (in_order (recent later policy.window ts)) (
      in_order-All IsFree _ (
        recent_keeps ts (
          recent-outside IsFree now policy.window ts
            (All-in_order IsFree _ (bounded _ (in_order-IsSorted _) wait)))))

  -- The oldest reservation has left a window that was full.
  window_open :
      (ts : List ℕ) (full : ℕ)
      → 0 < policy.max_requests
      → length (recent now policy.window ts) ≤ policy.max_requests
      → window_wait now policy (in_order (recent now policy.window ts)) ≡ some full
      → now + full ≤ later
      → length (recent later policy.window ts) < policy.max_requests
  window_open ts full some_allowed few w wait =
      elim (le_or_lt (length (recent now policy.window ts))
        (length (recent later policy.window ts))) [
          | inr fewer ↦ omega arith
          | inl same ↦
              all_there (in_order (recent now policy.window ts))
                (in_order-All _ _ (recent_stays now later policy.window ts le same))
                (length-in_order (recent now policy.window ts)) w
        ]
    where
      le_or_lt : (a b : ℕ) → (a ≤ b) ⊎ (b < a)
      le_or_lt a b = elim (Bool-cases (leb a b)) [
        | inl e ↦ inl (ground arith)
        | inr e ↦ inr (ground arith)
      ]

      all_there :
          (us : List ℕ)
          → All (λ t. later < t + policy.window) us
          → length us ≡ length (recent now policy.window ts)
          → window_wait now policy us ≡ some full
          → length (recent later policy.window ts) < policy.max_requests
      all_there [] h n e =
          omega (arith, n, some_allowed, recent_shrinks now later policy.window ts le)
      all_there (u ∷ us) h n e =
          if_cases
            (λ o. o ≡ some full → length (recent later policy.window ts) < policy.max_requests)
            (leb policy.max_requests (length (u ∷ us))) (λ f g. ground (arith, h.0, wait, le, g))
            (λ f g. ground (arith, n, f, recent_shrinks now later policy.window ts le)) e

abbrev Grants : Option (Reservation × Tables) → Type 0
Grants none = ⊥
Grants (some (r, after)) = r.allowed ≡ true

module _ (provider bucket : String) (policy : RatePolicy) where
  -- Where every wait is over, the reservation is made.
  settled_free :
      (now : ℕ) (tables : Tables) (us : List ℕ) (full : ℕ)
      → blocked_until provider bucket tables.blocks ≤ now
      → interval_wait now policy us ≡ 0
      → full ≡ 0
      → Grants (decide provider bucket now policy us tables (some full))
  settled_free now tables us full free spaced zero_full =
      if_cases (λ p. Grants (some p))
        (ltb 0 (
          max
            (max (blocked_until provider bucket tables.blocks - now) (interval_wait now policy us))
            full))
        (λ e. absurd (ground (arith, free, spaced, zero_full, e))) (λ e. refl)

  granted_free :
      (now : ℕ) (tables : Tables) (us : List ℕ)
      → blocked_until provider bucket tables.blocks ≤ now
      → interval_wait now policy us ≡ 0
      → length us < policy.max_requests
      → Grants (decide provider bucket now policy us tables (window_wait now policy us))
  granted_free now tables [] free spaced room =
      if_cases (λ o. Grants (decide provider bucket now policy [] tables o))
        (leb policy.max_requests 0) (λ e. absurd (ground arith))
        (λ e. settled_free now tables [] 0 free spaced refl)
  granted_free now tables (u ∷ us) free spaced room =
      if_cases (λ o. Grants (decide provider bucket now policy (u ∷ us) tables o))
        (leb policy.max_requests (length (u ∷ us))) (λ e. absurd (ground arith))
        (λ e. settled_free now tables (u ∷ us) 0 free spaced refl)

  -- What a call of `reserve` answers at first: it grants, or it names a wait that is long enough.
  abbrev Waits : ℕ → Tables → Option (Reservation × Tables) → Type 0
  Waits now tables none = ⊥
  Waits now tables (some (r, after)) =
      (r.allowed ≡ true)
      ⊎ ((r.allowed ≡ false)
          × (after ≡ tables)
          × ((later : ℕ)
              → now + r.wait ≤ later
              → Grants (reserve provider bucket later policy tables)))

  module _ (some_allowed : 0 < policy.max_requests) (now : ℕ) (tables : Tables)
      (few : length (recent now policy.window (times provider bucket tables.reservations))
        ≤ policy.max_requests) where
    abbrev own : List ℕ
    own = times provider bucket tables.reservations

    abbrev stamps : List ℕ
    stamps = timestamps_at provider bucket now policy tables

    answers :
        (full : ℕ)
        → window_wait now policy stamps ≡ some full
        → Waits now tables (decide provider bucket now policy stamps tables (some full))
    unfolding reserve
    answers full w =
        if_cases (λ p. Waits now tables (some p))
          (ltb 0 (
            max
              (max (blocked_until provider bucket tables.blocks - now)
                (interval_wait now policy stamps))
              full))
          (λ e. inr (
            refl,
            refl,
            λ later long.
                granted_free later tables (timestamps_at provider bucket later policy tables)
                  (ground (arith, long))
                  (interval_over now later policy (ground (arith, long)) own (ground (arith, long)))
                  (rw (length-in_order (recent later policy.window own)) (
                    window_open now later policy (ground (arith, long)) own full some_allowed few w
                      (ground (arith, long)))),
          ))
          (λ e. inl refl)

    window_wait-some : (us : List ℕ) → window_wait now policy us ≡ none → ⊥
    window_wait-some [] =
        if_cases (λ o. o ≡ none → ⊥) (leb policy.max_requests 0) (λ e. absurd (ground arith))
          (λ e f. cc)
    window_wait-some (u ∷ us) =
        if_cases (λ o. o ≡ none → ⊥) (leb policy.max_requests (length (u ∷ us))) (λ e f. cc)
          (λ e f. cc)

    first_answer : Waits now tables (reserve provider bucket now policy tables)
    unfolding reserve
    first_answer = by (window_wait now policy stamps) refl
      where
        by :
            (o : Option ℕ)
            → window_wait now policy stamps ≡ o
            → Waits now tables (decide provider bucket now policy stamps tables o)
        by none e = absurd (window_wait-some stamps e)
        by (some full) e = answers full e

  abbrev Returned : Option (ℕ × Tables) → Type 0
  Returned o = (t : ℕ) × (after : Tables) × (o ≡ some (t, after))

  granted_attempt :
      (again : ℕ → Tables → Option (ℕ × Tables)) (now late : ℕ) (o : Option (Reservation × Tables))
      → Grants o
      → Returned (attempt again now late o)
  granted_attempt again now late none h = elim h [ ]
  granted_attempt again now late (some (r, after)) h = rw h (now, after, refl)

  two_attempts :
      (again : ℕ → Tables → Option (ℕ × Tables)) (now first second : ℕ) (tables : Tables)
      (o : Option (Reservation × Tables))
      → Waits now tables o
      → Returned (
          attempt
            (λ t after. attempt again t second (reserve provider bucket t policy after))
            now
            first
            o)
  two_attempts again now first second tables none h = elim h [ ]
  two_attempts again now first second tables (some (r, after)) (inl allowed) =
      rw allowed (now, after, refl)
  two_attempts again now first second tables (some (r, after)) (inr (denied, same, next)) =
      rw (denied, same)
        (granted_attempt again _ second _ (next ((now + r.wait) + first) (omega arith)))

  -- A caller that waits as it is told gets its reservation at its second attempt at the latest, if
  -- nobody else reserves or blocks meanwhile: however late its sleep ends, where the policy allows a
  -- request at all and the bucket's reservations keep to it.
  pub wait_and_reserve-granted :
      (late : ℕ → ℕ) (now : ℕ) (tables : Tables)
      → 0 < policy.max_requests
      → IsLimited policy now (times provider bucket tables.reservations)
      → (t : ℕ) × (after : Tables) × (wait_and_reserve 2 late provider bucket now policy tables
          ≡ some (t, after))
  unfolding wait_and_reserve
  wait_and_reserve-granted late now tables some_allowed limited =
      two_attempts (λ t after. none) now (late 1) (late 0) tables
        (reserve provider bucket now policy tables)
        (first_answer some_allowed now tables (
          rw
            (recent-made_in now policy.window (times provider bucket tables.reservations)
              limited.past)
            (limited.windows now)))
