-- ===== src/Providers/Limited.antt =====
-- The client and the rate limiter: no request goes over the network without its reservation.
use mathlib.Core.Path.{subst}
use kavita_ingest.Prelude.{
  ℕ, zero, suc, ◌+◌, ◌≤◌, ◌≡◌, refl, sym, ap, ◌∙◌, inl, inr, String, Bool, true, false, not, ◌&&◌,
  ◌||◌, Option, none, some, List, [], ◌∷◌, ◌++◌, ◌==◌, string_Eq, nat_Eq, eq_iff, ltb, leb, length,
  Bool-cases, if_cases, arith,
}
use kavita_ingest.Json.{Json}
use kavita_ingest.RateLimit.{
  RatePolicy, Reservation, Reserved, Tables, reserve, times, block, attempt as wait_once,
  wait_and_reserve, timestamps_at,
}
use kavita_ingest.RateLimit.Bounds.{row_at, Answer as MayAnswer, reserve-Answer}
use kavita_ingest.RateLimit.Traces.{
  Trace, started, reserved, elsewhere, blocked, IsLimited, IsLimited-later, Trace-IsLimited,
}
use kavita_ingest.Providers.Store.{
  Candidate, CacheRow, CacheEntry, get_cache, Rewritten, incompatible, missing, rewritten,
  rewrite_cache_normalization, put_cache,
}
use kavita_ingest.Providers.Client.{
  Client, ClientActivity, Request, Session, Response, Answer, returned, failed, provider_error,
  cache_error, Action, retried, erred, missed, counted, blocked_for, stored, read_body, normalized,
  received, is_left, sent_by, attempt, attempts, from_network, offline_answer, past_cache,
  migration_failed, rewritten_as, migrated_as, migrate, schema_matches, cached_answer, opened,
  request, request_each,
}

-- Clock, tables and sent requests of a session: the tables were reached by transactions that the
-- limiter made, and each reservation stands for a request that was sent.
pub record Follows (provider bucket : String) (policy : RatePolicy) (now : ℕ) (limits : Tables)
    (sent : List Reserved) : Type 0 where
  pub earlier : ℕ
  pub past : earlier ≤ now
  pub trace : Trace provider bucket policy earlier limits
  pub all_sent : limits.reservations ≡ sent

-- What a wait that ends has done.
pub record Waited (provider bucket asked : String) (policy : RatePolicy) (now t : ℕ)
    (before after : Tables) : Type 0 where
  pub later : now ≤ t
  pub trace : Trace provider bucket policy t after
  pub written : after.reservations ≡ before.reservations ++ row_at provider asked t ∷ []

module _ (provider bucket asked : String) (policy : RatePolicy) where
  reserve-Trace :
      (earlier now : ℕ) (before after : Tables) (answer : Reservation)
      → Trace provider bucket policy earlier before
      → earlier ≤ now
      → reserve provider asked now policy before ≡ some (answer, after)
      → Trace provider bucket policy now after
  reserve-Trace earlier now before after answer trace le e =
      elim (Bool-cases (provider == provider && asked == bucket)) [
        | inl same ↦ reserved now answer after trace le (
            subst (λ b. reserve provider b now policy before ≡ some (answer, after)) (named same) e)
        | inr other ↦ elsewhere provider asked policy now answer after trace le other e
      ]
    where
      named : (provider == provider && asked == bucket) ≡ true → asked ≡ bucket
      named e = (eq_iff asked bucket).0 (second (provider == provider) (asked == bucket) e)
        where
          second : (a b : Bool) → (a && b) ≡ true → b ≡ true
          second true b e = e
          second false b e = cc

  wait_and_reserve-Waited :
      (fuel : ℕ) (late : ℕ → ℕ) (earlier now : ℕ) (before : Tables) (t : ℕ) (after : Tables)
      → Trace provider bucket policy earlier before
      → earlier ≤ now
      → wait_and_reserve fuel late provider asked now policy before ≡ some (t, after)
      → Waited provider bucket asked policy now t before after
  unfolding wait_and_reserve
  wait_and_reserve-Waited zero late earlier now before t after trace le e = cc
  wait_and_reserve-Waited (suc fuel) late earlier now before t after trace le e =
      by (reserve provider asked now policy before) refl
        (reserve-Answer provider asked now policy before)
        (λ u tables followed. wait_and_reserve-Waited fuel late now u tables t after followed) e
    where
      again : ℕ → Tables → Option (ℕ × Tables)
      again u tables = wait_and_reserve fuel late provider asked u policy tables

      by :
          (o : Option (Reservation × Tables))
          → reserve provider asked now policy before ≡ o
          → MayAnswer provider asked now policy
              (timestamps_at provider asked now policy before)
              before
              o
          → ((u : ℕ) (tables : Tables)
              → Trace provider bucket policy now tables
              → now ≤ u
              → again u tables ≡ some (t, after)
              → Waited provider bucket asked policy u t tables after)
          → wait_once again now (late fuel) o ≡ some (t, after)
          → Waited provider bucket asked policy now t before after
      by none at may ih e = cc
      by (some (answer, tables)) at (inr (allowed, granted)) ih e =
          let same : (now, tables) ≡ (t, after) = pair_of (
            sym (
              ap
                (λ b. elim b [
                  | true ↦ some (now, tables)
                  | false ↦ again ((now + answer.wait) + late fuel) tables
                ])
                allowed)
            ∙ e) in
          subst (λ x. Waited provider bucket asked policy now x.0 before x.1) same
            (record {
              later = omega arith;
              trace = reserve-Trace earlier now before tables answer trace le at;
              written = granted.written;
            })
        where
          pair_of : {x y : ℕ × Tables} → some x ≡ some y → x ≡ y
          pair_of e = cc
      by (some (answer, tables)) at (inl (denied, unchanged)) ih e =
          let step = now + answer.wait + late fuel in
          let w =
            ih step tables (reserve-Trace earlier now before tables answer trace le at)
              (omega arith)
              (sym (
                  ap (λ b. elim b [ true ↦ some (now, tables) | false ↦ again step tables ]) denied)
                ∙ e) in
          record {
            later = omega (arith, w.later);
            trace = w.trace;
            written =
                w.written ∙ ap (λ x. x.reservations ++ row_at provider asked t ∷ []) unchanged;
          }

module _ (c : Client) (bucket : String) where
  abbrev Followed : Session → Type 0
  Followed s = Follows c.provider bucket c.policy s.now s.limits s.sent

  abbrev Ended : Answer (List Candidate) × Session → Type 0
  Ended r = Followed r.1

  -- How an action goes on from a session that follows the limiter.
  abbrev Follower : Action → Type 0
  Follower m = (s : Session) → Followed s → Ended (m s)

  retried-Ended :
      (again : Option Action) (s : Session)
      → ((m : Action) → again ≡ some m → Follower m)
      → Followed s
      → Ended (retried again s)
  retried-Ended none s ih h = h
  retried-Ended (some m) s ih h = ih m refl (erred s) h

  stored-Ended :
      (r : Request) (raw : Json) (s : Session) (candidates : Option (List Candidate))
      → Followed s
      → Ended (stored c r raw s candidates)
  stored-Ended r raw s none h = h
  stored-Ended r raw s (some candidates) h = by (put_cache _ s.cache)
    where
      by :
          (rows : Option (List CacheRow))
          → Ended (elim rows [
            | none ↦ (failed cache_error, s)
            | some rows ↦ (returned candidates, record s { cache = rows })
          ])
      by none = h
      by (some rows) = h

  received-Ended :
      (r : Request) (again : Option Action) (s : Session) (response : Option Response)
      → ((m : Action) → again ≡ some m → Follower m)
      → Followed s
      → Ended (received c r again s response)
  unfolding received block
  received-Ended r again s none ih h = retried-Ended again s ih h
  received-Ended r again s (some response) ih h =
      if_cases Ended (response.status == 429) (λ e. too_many)
        λ e.
          if_cases Ended (leb 500 response.status && is_left again)
            (λ e. retried-Ended again s ih h)
            λ e.
              if_cases Ended (ltb response.status 200 || leb 300 response.status) (λ e. h)
                (λ e. body response.body)
    where
      too_many : Ended (failed provider_error, blocked_for c r.bucket response.retry_after s)
      too_many = record {
        earlier = s.now;
        past = omega arith;
        trace = blocked c.provider r.bucket _ "HTTP 429" s.now h.trace h.past;
        all_sent = h.all_sent;
      }

      body : (b : Option Json) → Ended (read_body c r s b)
      body none = h
      body (some raw) = stored-Ended r raw s (normalized c r raw) h

  attempt-Ended :
      (r : Request) (again : Option Action) (s : Session)
      → ((m : Action) → again ≡ some m → Follower m)
      → Followed s
      → Ended (attempt c r again s)
  unfolding attempt
  attempt-Ended r again s ih h =
      by (wait_and_reserve c.patience c.late c.provider r.bucket s.now c.policy s.limits) refl
    where
      by :
          (o : Option (ℕ × Tables))
          → wait_and_reserve c.patience c.late c.provider r.bucket s.now c.policy s.limits ≡ o
          → Ended (sent_by c r again s o)
      by none at = h
      by (some (t, tables)) at =
          let w =
            wait_and_reserve-Waited c.provider bucket r.bucket c.policy c.patience c.late h.earlier
              s.now s.limits t tables h.trace h.past at in
          received-Ended r again (counted c r.bucket t tables s) (c.transport (length s.sent)) ih
            (record {
              earlier = t;
              past = omega arith;
              trace = w.trace;
              all_sent =
                  w.written ∙ ap (λ rows. rows ++ row_at c.provider r.bucket t ∷ []) h.all_sent;
            })

  attempts-Follower : (r : Request) (left : ℕ) → Follower (attempts c r left)
  unfolding attempts
  attempts-Follower r zero s h = attempt-Ended r none s (λ m e. cc) h
  attempts-Follower r (suc left) s h =
      attempt-Ended r (some (attempts c r left)) s
        (λ m e. subst Follower (some_injective e) (attempts-Follower r left)) h
    where
      some_injective : {m n : Action} → some m ≡ some n → m ≡ n
      some_injective e = cc

  past_cache-Follower :
      (r : Request) (cached : Option CacheEntry) → Follower (past_cache c r cached)
  unfolding past_cache from_network
  past_cache-Follower r cached s h =
      if_cases Ended c.offline (λ e. offline cached)
        λ e.
          if_cases Ended (not c.network_enabled) (λ e. h)
            λ e. attempts-Follower r c.max_retries (missed s) h
    where
      offline : (cached : Option CacheEntry) → Ended (offline_answer c cached s)
      offline none = h
      offline (some entry) = if_cases Ended (entry.schema_version == c.schema) (λ e. h) (λ e. h)

  migrate-Follower : (r : Request) (entry : CacheEntry) → Follower (migrate c r entry)
  unfolding migrate
  migrate-Follower r entry s h = by (normalized c r entry.raw)
    where
      not_migrated : Ended (migration_failed c r entry s)
      not_migrated = if_cases Ended c.offline (λ e. h) (λ e. past_cache-Follower r (some entry) s h)

      rewriting :
          (candidates : List Candidate) (o : Rewritten)
          → Ended (rewritten_as c r entry candidates s o)
      rewriting candidates incompatible = h
      rewriting candidates missing = not_migrated
      rewriting candidates (rewritten rows) = h

      by : (o : Option (List Candidate)) → Ended (migrated_as c r entry s o)
      by none = not_migrated
      by (some candidates) =
          rewriting candidates (rewrite_cache_normalization _ candidates c.schema s.cache)

  request-Follower : (r : Request) → Follower (request c r)
  unfolding request
  request-Follower r s h =
      by (get_cache (c.request_key r.operation r.identity) s.now s.cache) (opened r s)
        (if_cases Followed (r.operation == "fetch") (λ e. h) (λ e. h))
    where
      by :
          (cached : Option CacheEntry) (u : Session)
          → Followed u
          → Ended (cached_answer c r cached u)
      by none u g = past_cache-Follower r none u g
      by (some entry) u g =
          if_cases Ended (not (schema_matches c entry))
            (λ e.
              if_cases Ended (not entry.stale || c.offline) (λ e. migrate-Follower r entry u g)
                (λ e. past_cache-Follower r (some entry) u g))
            λ e.
              if_cases Ended (not entry.stale) (λ e. g)
                (λ e. past_cache-Follower r (some entry) u g)

  request_each-Followed :
      (requests : List Request) (s : Session) → Followed s → Followed (request_each c requests s)
  unfolding request_each
  request_each-Followed [] s h = h
  request_each-Followed (r ∷ rest) s h =
      request_each-Followed rest (request c r s).1 (request-Follower r s h)

  -- From tables without reservations and blocks on, whatever requests are made one after another and
  -- however the provider answers them: in no stretch of time of the policy's length are more requests
  -- of a bucket sent over the network than the policy allows, retries included, none is sent in the
  -- future, and where the policy's interval is no longer than its window, every two of them are at
  -- least that interval apart; and each was reserved.
  pub request_each-IsLimited :
      (requests : List Request) (cache : List CacheRow) (activity : ClientActivity) (now : ℕ)
      → let start : Session = record {
        cache = cache;
        limits = record { reservations = []; blocks = [] };
        activity = activity;
        now = now;
        sent = [];
      } in
        let end = request_each c requests start in
        IsLimited c.policy end.now (times c.provider bucket end.sent)
        × (end.limits.reservations ≡ end.sent)
  request_each-IsLimited requests cache activity now =
      let start : Session = record {
        cache = cache;
        limits = record { reservations = []; blocks = [] };
        activity = activity;
        now = now;
        sent = [];
      } in
      let end = request_each c requests start in
      let h =
        request_each-Followed requests start
          (record { earlier = 0; past = omega arith; trace = started; all_sent = refl }) in
      (
        subst (λ rows. IsLimited c.policy end.now (times c.provider bucket rows)) h.all_sent
            (IsLimited-later c.policy h.earlier end.now _ h.past
              (Trace-IsLimited c.provider bucket c.policy h.earlier end.limits h.trace)),
        h.all_sent,
      )
