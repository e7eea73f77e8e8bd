-- ===== src/RateLimit.antt =====
-- `DurableRateLimiter` of src/kavita_ingest/rate_limit.py. Times and durations are natural numbers
-- of one unit, the clock's; a bound `t > now - w` of the source, whose right side may be negative
-- there, is written `now < t + w`. Each call of `reserve` and of `block` is one transaction.
pub mod Times
pub mod Bounds
pub mod Traces
pub mod Waiting
use kavita_ingest.Prelude.{
  ℕ, ◌+◌, ◌-◌, String, Bool, true, false, ◌&&◌, Option, none, some, List, [], ◌∷◌, ◌++◌, ◌==◌,
  string_Eq, zero, suc, ltb, leb, length, if◌then◌else◌,
}

pub record RatePolicy : Type 0 where
  pub max_requests : ℕ
  pub window : ℕ
  pub min_interval : ℕ

-- `RateReservation`
pub record Reservation : Type 0 where
  pub allowed : Bool
  pub wait : ℕ
  pub window_count : ℕ
  pub reserved_at : Option ℕ

-- A row of `provider_rate_reservations`, and one of `provider_blocks`.
pub record Reserved : Type 0 where
  pub provider : String
  pub bucket : String
  pub at : ℕ

pub record Block : Type 0 where
  pub provider : String
  pub bucket : String
  pub until : ℕ
  pub reason : String

pub record Tables : Type 0 where
  pub reservations : List Reserved
  pub blocks : List Block

unfoldable pub times : String → String → List Reserved → List ℕ
times provider bucket [] = []
times provider bucket (row ∷ rest) =
    let others = times provider bucket rest in
    if row.provider == provider && row.bucket == bucket then row.at ∷ others else others

-- reserved_at > now - window
unfoldable pub recent : ℕ → ℕ → List ℕ → List ℕ
recent now window [] = []
recent now window (t ∷ ts) =
    let others = recent now window ts in if ltb now (t + window) then t ∷ others else others

-- ORDER BY reserved_at
unfoldable pub place : ℕ → List ℕ → List ℕ
place t [] = t ∷ []
place t (u ∷ us) = let later = place t us in if leb t u then t ∷ u ∷ us else u ∷ later

unfoldable pub in_order : List ℕ → List ℕ
in_order [] = []
in_order (t ∷ ts) = place t (in_order ts)

-- blocked_until, 0 where there is no block
unfoldable pub blocked_until : String → String → List Block → ℕ
blocked_until provider bucket [] = 0
blocked_until provider bucket (b ∷ rest) =
    let others = blocked_until provider bucket rest in
    if b.provider == provider && b.bucket == bucket then b.until else others

abbrev pub max : ℕ → ℕ → ℕ
max a b = if leb a b then b else a

-- timestamps[-1]
abbrev pub last_from : ℕ → List ℕ → ℕ
last_from t [] = t
last_from t (u ∷ us) = last_from u us

abbrev pub interval_wait : ℕ → RatePolicy → List ℕ → ℕ
interval_wait now policy [] = 0
interval_wait now policy (t ∷ ts) = (last_from t ts + policy.min_interval) - now

-- timestamps[0] raises IndexError where no reservation is left and none is allowed.
abbrev pub window_wait : ℕ → RatePolicy → List ℕ → Option ℕ
window_wait now policy [] = if leb policy.max_requests 0 then none else some 0
window_wait now policy (t ∷ ts) =
    if leb policy.max_requests (length (t ∷ ts)) then some ((t + policy.window) - now) else some 0

abbrev settle : String → String → ℕ → List ℕ → ℕ → Tables → Reservation × Tables
settle provider bucket now timestamps wait tables =
    if ltb 0 wait
    then (
      record { allowed = false; wait = wait; window_count = length timestamps; reserved_at = none },
      tables,
    )
    else (
      record {
        allowed = true;
        wait = 0;
        window_count = length timestamps + 1;
        reserved_at = some now;
      },
      record tables {
        reservations =
            tables.reservations ++ record { provider = provider; bucket = bucket; at = now } ∷ [];
      },
    )

abbrev pub timestamps_at : String → String → ℕ → RatePolicy → Tables → List ℕ
timestamps_at provider bucket now policy tables =
    in_order (recent now policy.window (times provider bucket tables.reservations))

abbrev decide :
    String → String → ℕ → RatePolicy → List ℕ → Tables → Option ℕ → Option (Reservation × Tables)
decide provider bucket now policy timestamps tables none = none
decide provider bucket now policy timestamps tables (some full) = some (
    settle provider bucket now timestamps
      (max
        (max (blocked_until provider bucket tables.blocks - now)
          (interval_wait now policy timestamps))
        full)
      tables)

-- `none`: an IndexError, and nothing is written.
unfoldable pub reserve : String → String → ℕ → RatePolicy → Tables → Option (Reservation × Tables)
reserve provider bucket now policy tables =
    let timestamps = timestamps_at provider bucket now policy tables in
    decide provider bucket now policy timestamps tables (window_wait now policy timestamps)

-- ON CONFLICT: the later end of the block is kept, and the new reason.
unfoldable pub upsert_block : Block → List Block → List Block
upsert_block new [] = new ∷ []
upsert_block new (old ∷ rest) =
    let others = upsert_block new rest in
    if old.provider == new.provider && old.bucket == new.bucket
    then record new { until = max old.until new.until } ∷ rest
    else old ∷ others

unfoldable pub block : String → String → ℕ → String → ℕ → Tables → Tables
block provider bucket seconds reason now tables = record tables {
  blocks =
      upsert_block
        (record { provider = provider; bucket = bucket; until = now + seconds; reason = reason })
        tables.blocks;
}

-- `state`: the reservations in the window, and what is left of the block.
unfoldable pub state : String → String → ℕ → RatePolicy → Tables → ℕ × ℕ
state provider bucket now policy tables = (
  length (recent now policy.window (times provider bucket tables.reservations)),
  blocked_until provider bucket tables.blocks - now,
)

-- `wait_and_reserve`, where the n-th sleep from the end takes `late n` longer than it was asked to
-- and no other process writes meanwhile: when the reservation is made, and the tables.
abbrev pub attempt :
    (ℕ → Tables → Option (ℕ × Tables)) → ℕ → ℕ → Option (Reservation × Tables) → Option (ℕ × Tables)
attempt again now late none = none
attempt again now late (some (answer, after)) = elim answer.allowed [
  | true ↦ some (now, after)
  | false ↦ again ((now + answer.wait) + late) after
]

unfoldable pub wait_and_reserve :
    ℕ → (ℕ → ℕ) → String → String → ℕ → RatePolicy → Tables → Option (ℕ × Tables)
wait_and_reserve zero late provider bucket now policy tables = none
wait_and_reserve (suc fuel) late provider bucket now policy tables =
    attempt (λ t after. wait_and_reserve fuel late provider bucket t policy after) now (late fuel)
      (reserve provider bucket now policy tables)
