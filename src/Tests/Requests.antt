-- ===== src/Tests/Requests.antt =====
-- A provider that fails once and then answers.
use kavita_ingest.Prelude.{
  ℕ, zero, suc, ◌+◌, ◌≤◌, ◌≡◌, inl, refl, true, false, Option, none, some, [], ◌∷◌, length,
}
use kavita_ingest.Json.{null}
use kavita_ingest.RateLimit.{times}
use kavita_ingest.RateLimit.Traces.{IsLimited}
use kavita_ingest.Providers.Client.{
  Client, ClientActivity, Request, Response, Session, request, request_each,
}
use kavita_ingest.Providers.Limited.{request_each-IsLimited}
use kavita_ingest.Providers.Requests.{request-bound, request-offline}

abbrev responses : ℕ → Option Response
responses zero = some (record { status = 503; retry_after = none; body = none })
responses (suc n) = some (record { status = 200; retry_after = none; body = some null })

abbrev client : Client
client = record {
  provider = "open_library";
  policy = record { max_requests = 1; window = 10; min_interval = 1 };
  ttl = 100;
  schema = 1;
  offline = false;
  network_enabled = true;
  max_retries = 1;
  request_key = λ operation identity. operation;
  transport = responses;
  took = λ n. 1;
  patience = 2;
  late = λ n. 0;
  parse_float = λ s. none;
  parse_date = λ s. none;
}

abbrev search : Request
search = record {
  operation = "search";
  identity = null;
  bucket = "api";
  normalize = λ raw. some (record { provider_schema_version = 1; fields = raw } ∷ []);
}

abbrev no_activity : ClientActivity
no_activity = record {
  cache_hits = 0;
  cache_misses = 0;
  cache_schema_migrations = 0;
  exact_detail_hydrations = 0;
  network_requests = [];
  errors = 0;
  rate_limit_events = 0;
}

abbrev session : Session
session = record {
  cache = [];
  limits = record { reservations = []; blocks = [] };
  activity = no_activity;
  now = 5;
  sent = [];
}

request_each-IsLimited_example :
    let end = request_each client (search ∷ search ∷ []) session in
    IsLimited client.policy end.now (times "open_library" "api" end.sent)
    × (end.limits.reservations ≡ end.sent)
request_each-IsLimited_example =
    request_each-IsLimited client "api" (search ∷ search ∷ []) [] no_activity 5

request-bound_example : length (request client search session).1.sent ≤ 0 + 2
request-bound_example = request-bound client search session

abbrev offline_client : Client
offline_client = record client { offline = true }

request-offline_example : (request offline_client search session).1.sent ≡ []
request-offline_example = request-offline offline_client search session (inl refl)
