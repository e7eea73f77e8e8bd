-- ===== src/Tests/Limits.antt =====
-- A bucket that two requests fill.
use kavita_ingest.Prelude.{ℕ, ◌≡◌, refl, true, false, none, some, [], ◌∷◌, string_Eq, arith}
use kavita_ingest.RateLimit.{
  RatePolicy, Reservation, Tables, reserve, times, recent, place, in_order, blocked_until,
  wait_and_reserve,
}
use kavita_ingest.RateLimit.Traces.{Trace, started, reserved, IsLimited, Trace-IsLimited}
use kavita_ingest.RateLimit.Waiting.{wait_and_reserve-granted}

abbrev one_each : RatePolicy
one_each = record { max_requests = 1; window = 10; min_interval = 2 }

abbrev empty : Tables
empty = record { reservations = []; blocks = [] }

abbrev after_first : Tables
after_first = record {
  reservations = record { provider = "comic_vine"; bucket = "api"; at = 5 } ∷ [];
  blocks = [];
}

abbrev first_answer : Reservation
first_answer = record { allowed = true; wait = 0; window_count = 1; reserved_at = some 5 }

abbrev second_answer : Reservation
second_answer = record { allowed = false; wait = 7; window_count = 1; reserved_at = none }

-- The second request is told to wait until the first has left the window.
two_requests : Trace "comic_vine" "api" one_each 8 after_first
unfolding reserve times recent place in_order blocked_until
two_requests =
    reserved 8 second_answer after_first
      (reserved 5 first_answer after_first started (omega arith) refl) (omega arith) refl

Trace-IsLimited_example : IsLimited one_each 8 (times "comic_vine" "api" after_first.reservations)
Trace-IsLimited_example = Trace-IsLimited "comic_vine" "api" one_each 8 after_first two_requests

wait_and_reserve-granted_example :
    (t : ℕ) × (after : Tables) × (wait_and_reserve 2
        (λ n. 1)
        "comic_vine"
        "api"
        8
        one_each
        after_first
      ≡ some (t, after))
wait_and_reserve-granted_example =
    wait_and_reserve-granted "comic_vine" "api" one_each (λ n. 1) 8 after_first (omega arith)
      (Trace-IsLimited "comic_vine" "api" one_each 8 after_first two_requests)
