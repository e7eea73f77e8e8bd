-- ===== src/Providers/Client.antt =====
-- `CachedProviderClient` of src/kavita_ingest/providers/client.py: one request, answered from the cache
-- or over the network, behind the rate limiter.
use kavita_ingest.Prelude.{
  ℕ, zero, suc, ◌+◌, ◌-◌, String, Bool, true, false, not, ◌&&◌, ◌||◌, Option, none, some, List, [],
  ◌∷◌, ◌++◌, ◌==◌, string_Eq, nat_Eq, ltb, leb, lookup, insert, length, if◌then◌else◌,
}
use kavita_ingest.Json.{Json}
use kavita_ingest.RateLimit.{RatePolicy, Reserved, Tables, block, wait_and_reserve}
use kavita_ingest.Providers.Store.{
  Candidate, CacheRow, CacheEntry, get_cache, fits_schema, Rewritten, incompatible, missing,
  rewritten, rewrite_cache_normalization, put_cache,
}

-- The exceptions of the client: `ProviderError`, its two subclasses, a ValueError of the cache, and
-- what the limiter raises, or its waiting without end.
pub data Failure : Type 0 where
  provider_error unavailable malformed cache_error limiter_error : Failure

pub data Answer (A : Type 0) : Type 0 where
  returned : A → Answer A
  failed : Failure → Answer A

-- `HttpResponse`; the body is `none` where it is no JSON.
pub record Response : Type 0 where
  pub status : ℕ
  pub retry_after : Option String
  pub body : Option Json

-- `ClientActivity`
pub record ClientActivity : Type 0 where
  pub cache_hits : ℕ
  pub cache_misses : ℕ
  pub cache_schema_migrations : ℕ
  pub exact_detail_hydrations : ℕ
  pub network_requests : List (String × ℕ)
  pub errors : ℕ
  pub rate_limit_events : ℕ

-- The client's tables, its activity, the clock, and the requests that have gone over the network,
-- each with the time at which it was reserved.
pub record Session : Type 0 where
  pub cache : List CacheRow
  pub limits : Tables
  pub activity : ClientActivity
  pub now : ℕ
  pub sent : List Reserved

-- The settings of a client and what it is given: the transport, by the number of the request and
-- the time it takes, the lateness of sleeps, and `float` and `parsedate_to_datetime` of a text.
pub record Client : Type 0 where
  pub provider : String
  pub policy : RatePolicy
  pub ttl : ℕ
  pub schema : ℕ
  pub offline : Bool
  pub network_enabled : Bool
  pub max_retries : ℕ
  pub request_key : String → Json → String
  pub transport : ℕ → Option Response
  pub took : ℕ → ℕ
  pub patience : ℕ
  pub late : ℕ → ℕ
  pub parse_float : String → Option ℕ
  pub parse_date : String → Option ℕ

pub record Request : Type 0 where
  pub operation : String
  pub identity : Json
  pub bucket : String
  pub normalize : Json → Option (List Candidate)

abbrev pub Action : Type 0
Action = Session → Answer (List Candidate) × Session

abbrev pub or_zero : Option ℕ → ℕ
or_zero none = 0
or_zero (some n) = n

-- max(0.0, …) is the subtraction of natural numbers.
unfoldable pub retry_after : Client → ℕ → Option String → ℕ
retry_after c now none = 60
retry_after c now (some value) = if value == "" then 60 else elim (c.parse_float value) [
  | some n ↦ n
  | none ↦ elim (c.parse_date value) [ none ↦ 60 | some t ↦ t - now ]
]

-- `_normalize`; `none` is a MalformedProviderResponse.
unfoldable pub normalized : Client → Request → Json → Option (List Candidate)
normalized c r raw = elim (r.normalize raw) [
  | none ↦ none
  | some candidates ↦ if fits_schema candidates c.schema then some candidates else none
]

abbrev pub hit : Session → Session
hit s = record s { activity = record (s.activity) { cache_hits = s.activity.cache_hits + 1 } }

abbrev pub migrated : Session → Session
migrated s = record s {
  activity = record (s.activity) {
    cache_hits = s.activity.cache_hits + 1;
    cache_schema_migrations = s.activity.cache_schema_migrations + 1;
  };
}

abbrev pub erred : Session → Session
erred s = record s { activity = record (s.activity) { errors = s.activity.errors + 1 } }

abbrev pub limited : Session → Session
limited s = record s {
  activity = record (s.activity) {
    errors = s.activity.errors + 1;
    rate_limit_events = s.activity.rate_limit_events + 1;
  };
}

-- A request is counted as it goes out, and the transport takes its time.
abbrev pub counted : Client → String → ℕ → Tables → Session → Session
counted c bucket t tables s = record s {
  limits = tables;
  now = t + c.took (length s.sent);
  sent = s.sent ++ record { provider = c.provider; bucket = bucket; at = t } ∷ [];
  activity = record (s.activity) {
    network_requests =
        insert bucket (or_zero (lookup bucket s.activity.network_requests) + 1)
          s.activity.network_requests;
  };
}

abbrev pub blocked_for : Client → String → Option String → Session → Session
blocked_for c bucket header s = record (limited s) {
  limits = block c.provider bucket (retry_after c s.now header) "HTTP 429" s.now s.limits;
}

abbrev pub stored :
    Client → Request → Json → Session → Option (List Candidate) → Answer (List Candidate) × Session
stored c r raw s none = (failed malformed, s)
stored c r raw s (some candidates) =
    elim (put_cache
      (record {
        cache_key = c.request_key r.operation r.identity;
        provider = c.provider;
        operation = r.operation;
        request = r.identity;
        candidates = candidates;
        raw = raw;
        schema_version = c.schema;
        fetched_at = s.now;
        expires_at = s.now + c.ttl;
      })
      s.cache) [
        | none ↦ (failed cache_error, s)
        | some rows ↦ (returned candidates, record s { cache = rows })
      ]

abbrev pub read_body : Client → Request → Session → Option Json → Answer (List Candidate) × Session
read_body c r s none = (failed provider_error, s)
read_body c r s (some raw) = stored c r raw s (normalized c r raw)

-- `continue`, where a retry is left
abbrev pub retried : Option Action → Session → Answer (List Candidate) × Session
retried none s = (failed provider_error, erred s)
retried (some again) s = again (erred s)

abbrev pub is_left : Option Action → Bool
is_left none = false
is_left (some again) = true

unfoldable pub received :
    Client → Request → Option Action → Session → Option Response → Answer (List Candidate) × Session
received c r again s none = retried again s
received c r again s (some response) =
    if response.status == 429
    then (failed provider_error, blocked_for c r.bucket response.retry_after s)
    else if leb 500 response.status && is_left again
    then retried again s
    else if ltb response.status 200 || leb 300 response.status
    then (failed provider_error, erred s)
    else read_body c r s response.body

abbrev pub sent_by :
    Client
    → Request
    → Option Action
    → Session
    → Option (ℕ × Tables)
    → Answer (List Candidate) × Session
sent_by c r again s none = (failed limiter_error, s)
sent_by c r again s (some (t, tables)) =
    received c r again (counted c r.bucket t tables s) (c.transport (length s.sent))

-- One round of the loop, with what follows on `continue`.
unfoldable pub attempt : Client → Request → Option Action → Action
attempt c r again s =
    sent_by c r again s
      (wait_and_reserve c.patience c.late c.provider r.bucket s.now c.policy s.limits)

-- for attempt in range(…), with the number of the retries that are left
unfoldable pub attempts : Client → Request → ℕ → Action
attempts c r zero = attempt c r none
attempts c r (suc left) = attempt c r (some (attempts c r left))

abbrev pub missed : Session → Session
missed s = record s {
  activity = record (s.activity) { cache_misses = s.activity.cache_misses + 1 };
}

unfoldable pub from_network : Client → Request → Action
from_network c r s =
    if not c.network_enabled then (failed unavailable, s) else attempts c r c.max_retries (missed s)

abbrev pub offline_answer : Client → Option CacheEntry → Action
offline_answer c none s = (failed unavailable, s)
offline_answer c (some entry) s =
    if entry.schema_version == c.schema
    then (returned entry.candidates, hit s)
    else (failed unavailable, s)

unfoldable pub past_cache : Client → Request → Option CacheEntry → Action
past_cache c r cached s = if c.offline then offline_answer c cached s else from_network c r s

abbrev pub migration_failed : Client → Request → CacheEntry → Action
migration_failed c r entry s =
    if c.offline then (failed unavailable, s) else past_cache c r (some entry) s

abbrev pub rewritten_as :
    Client
    → Request
    → CacheEntry
    → List Candidate
    → Session
    → Rewritten
    → Answer (List Candidate) × Session
rewritten_as c r entry candidates s incompatible = (failed cache_error, s)
rewritten_as c r entry candidates s missing = migration_failed c r entry s
rewritten_as c r entry candidates s (rewritten rows) =
    (returned candidates, migrated (record s { cache = rows }))

abbrev pub migrated_as :
    Client
    → Request
    → CacheEntry
    → Session
    → Option (List Candidate)
    → Answer (List Candidate) × Session
migrated_as c r entry s none = migration_failed c r entry s
migrated_as c r entry s (some candidates) =
    rewritten_as c r entry candidates s (
      rewrite_cache_normalization (c.request_key r.operation r.identity) candidates c.schema
        s.cache)

-- The entry is normalised anew from the raw answer.
unfoldable pub migrate : Client → Request → CacheEntry → Action
migrate c r entry s = migrated_as c r entry s (normalized c r entry.raw)

abbrev pub schema_matches : Client → CacheEntry → Bool
schema_matches c entry = entry.schema_version == c.schema && fits_schema entry.candidates c.schema

abbrev pub cached_answer : Client → Request → Option CacheEntry → Action
cached_answer c r none s = past_cache c r none s
cached_answer c r (some entry) s =
    if not (schema_matches c entry)
    then (if not entry.stale || c.offline
        then migrate c r entry s
        else past_cache c r (some entry) s)
    else if not entry.stale
    then (returned entry.candidates, hit s)
    else past_cache c r (some entry) s

abbrev pub opened : Request → Session → Session
opened r s =
    if r.operation == "fetch"
    then record s {
      activity = record (s.activity) {
        exact_detail_hydrations = s.activity.exact_detail_hydrations + 1;
      };
    }
    else s

-- `get`
unfoldable pub request : Client → Request → Action
request c r s =
    cached_answer c r (get_cache (c.request_key r.operation r.identity) s.now s.cache) (opened r s)

-- Requests one after another, each whatever the ones before it came to.
unfoldable pub request_each : Client → List Request → Session → Session
request_each c [] s = s
request_each c (r ∷ rest) s = request_each c rest (request c r s).1
