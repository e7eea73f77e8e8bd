-- ===== src/RateLimit/Bounds.antt =====
-- What the reservations of a bucket satisfy, whatever the processes that share the tables ask for.
use kavita_ingest.Prelude.{
  ℕ, ◌+◌, ◌-◌, ◌≤◌, ◌<◌, ◌≡◌, refl, String, true, false, ◌⊎◌, inl, inr, Option, none, some, List,
  [], ◌∷◌, ◌++◌, string_Eq, ltb, leb, length, All, arith, if_cases,
}
use kavita_ingest.RateLimit.{
  RatePolicy, Reservation, Reserved, Tables, blocked_until, max, interval_wait, window_wait,
  timestamps_at, decide, reserve,
}
use kavita_ingest.RateLimit.Times.{recent-All, in_order-All}

abbrev pub row_at : String → String → ℕ → Reserved
row_at provider bucket now = record { provider = provider; bucket = bucket; at = now }

-- What a reservation that is granted at `now` has checked, and what it writes.
pub record Granted (provider bucket : String) (now : ℕ) (policy : RatePolicy) (timestamps : List ℕ)
    (before after : Tables) : Type 0 where
  pub unblocked : blocked_until provider bucket before.blocks ≤ now
  pub spaced : interval_wait now policy timestamps ≡ 0
  pub room : length timestamps < policy.max_requests
  pub written : after.reservations ≡ before.reservations ++ row_at provider bucket now ∷ []

-- What a call of `reserve` may do.
abbrev pub Answer :
    String → String → ℕ → RatePolicy → List ℕ → Tables → Option (Reservation × Tables) → Type 0
Answer provider bucket now policy timestamps before none = Unit
Answer provider bucket now policy timestamps before (some (r, after)) =
    ((r.allowed ≡ false) × (after ≡ before))
    ⊎ ((r.allowed ≡ true) × Granted provider bucket now policy timestamps before after)

module _ (provider bucket : String) (now : ℕ) (policy : RatePolicy) (before : Tables) where
  settled :
      (timestamps : List ℕ) (full : ℕ)
      → (full ≡ 0 → length timestamps < policy.max_requests)
      → Answer provider bucket now policy timestamps before
          (decide provider bucket now policy timestamps before (some full))
  settled timestamps full room =
      if_cases (λ p. Answer provider bucket now policy timestamps before (some p)) (ltb 0 wait)
        (λ e. inl (refl, refl))
        (λ e.
          let zero_wait : wait ≡ 0 = ground arith in
          inr (
            refl,
            record {
              unblocked = ground (arith, zero_wait);
              spaced = ground (arith, zero_wait);
              room = room (ground (arith, zero_wait));
              written = refl;
            },
          ))
    where
      wait : ℕ
      wait =
          max
            (max (blocked_until provider bucket before.blocks - now)
              (interval_wait now policy timestamps))
            full

  answered :
      (timestamps : List ℕ)
      → All (λ t. now < t + policy.window) timestamps
      → Answer provider bucket now policy timestamps before
          (decide provider bucket now policy timestamps before (window_wait now policy timestamps))
  answered [] h =
      if_cases
        (λ o.
          Answer provider bucket now policy [] before
            (decide provider bucket now policy [] before o))
        (leb policy.max_requests 0) (λ e. tt) (λ e. settled [] 0 (λ z. ground arith))
  answered (t ∷ ts) h =
      if_cases
        (λ o.
          Answer provider bucket now policy (t ∷ ts) before
            (decide provider bucket now policy (t ∷ ts) before o))
        (leb policy.max_requests (length (t ∷ ts)))
        (λ e. settled (t ∷ ts) ((t + policy.window) - now) (λ z. absurd (ground (arith, h.0))))
        (λ e. settled (t ∷ ts) 0 (λ z. ground arith))

  in_time : All (λ t. now < t + policy.window) (timestamps_at provider bucket now policy before)
  in_time = in_order-All _ _ (recent-All now policy.window _)

  -- A call of `reserve` writes nothing unless the block is over, the newest reservation is old
  -- enough and the window has room; then it adds one row.
  pub reserve-Answer :
      Answer provider bucket now policy
        (timestamps_at provider bucket now policy before)
        before
        (reserve provider bucket now policy before)
  unfolding reserve
  reserve-Answer = answered (timestamps_at provider bucket now policy before) in_time
