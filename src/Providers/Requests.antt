-- ===== src/Providers/Requests.antt =====
-- How often one request goes over the network.
use mathlib.Core.Path.{subst}
use kavita_ingest.Prelude.{
  ℕ, zero, suc, ◌+◌, ◌≤◌, ◌≡◌, refl, sym, ap, ◌⊎◌, inl, inr, true, false, not, ◌&&◌, ◌||◌, Option,
  none, some, List, [], ◌∷◌, ◌==◌, string_Eq, nat_Eq, ltb, leb, length, length-append, if_cases,
  arith,
}
use kavita_ingest.Json.{Json}
use kavita_ingest.RateLimit.{Reserved, Tables, wait_and_reserve}
use kavita_ingest.RateLimit.Bounds.{row_at}
use kavita_ingest.Providers.Store.{
  Candidate, CacheRow, CacheEntry, get_cache, Rewritten, incompatible, missing, rewritten,
  rewrite_cache_normalization, put_cache,
}
use kavita_ingest.Providers.Client.{
  Client, Request, Session, Response, Answer, returned, failed, cache_error, Action, retried, erred,
  missed, counted, stored, read_body, normalized, received, is_left, sent_by, attempt, attempts,
  from_network, offline_answer, past_cache, migration_failed, rewritten_as, migrated_as, migrate,
  schema_matches, cached_answer, opened, request,
}

module _ (c : Client) (r : Request) where
  stored-sent :
      (raw : Json) (s : Session) (candidates : Option (List Candidate))
      → (stored c r raw s candidates).1.sent ≡ s.sent
  stored-sent raw s none = refl
  stored-sent raw s (some candidates) = by (put_cache _ s.cache)
    where
      by :
          (rows : Option (List CacheRow))
          → (let result : Answer (List Candidate) × Session = elim rows [
            | none ↦ (failed cache_error, s)
            | some rows ↦ (returned candidates, record s { cache = rows })
          ] in
              result.1.sent)
            ≡ s.sent
      by none = refl
      by (some rows) = refl

  -- What arrives is followed by no more requests than what follows on `continue`.
  received-sent :
      (k : ℕ) (again : Option Action) (s : Session) (response : Option Response)
      → ((m : Action) → again ≡ some m → (u : Session) → length (m u).1.sent ≤ length u.sent + k)
      → length (received c r again s response).1.sent ≤ length s.sent + k
  unfolding received
  received-sent k again s none ih = retrying again ih
    where
      retrying :
          (again : Option Action)
          → ((m : Action)
              → again ≡ some m
              → (u : Session) → length (m u).1.sent ≤ length u.sent + k)
          → length (retried again s).1.sent ≤ length s.sent + k
      retrying none ih = omega arith
      retrying (some m) ih = ih m refl (erred s)
  received-sent k again s (some response) ih =
      if_cases {A = Answer (List Candidate) × Session} (λ x. length x.1.sent ≤ length s.sent + k)
        (response.status == 429) (λ e. omega arith)
        λ e.
          if_cases {A = Answer (List Candidate) × Session}
            (λ x. length x.1.sent ≤ length s.sent + k) (leb 500 response.status && is_left again)
            (λ e. retrying again ih)
            λ e.
              if_cases {A = Answer (List Candidate) × Session}
                (λ x. length x.1.sent ≤ length s.sent + k)
                (ltb response.status 200 || leb 300 response.status) (λ e. omega arith)
                (λ e. body response.body)
    where
      retrying :
          (again : Option Action)
          → ((m : Action)
              → again ≡ some m
              → (u : Session) → length (m u).1.sent ≤ length u.sent + k)
          → length (retried again s).1.sent ≤ length s.sent + k
      retrying none ih = omega arith
      retrying (some m) ih = ih m refl (erred s)

      body : (b : Option Json) → length (read_body c r s b).1.sent ≤ length s.sent + k
      body none = omega arith
      body (some raw) = omega (arith, ap length (stored-sent raw s (normalized c r raw)))

  attempt-sent :
      (k : ℕ) (again : Option Action) (s : Session)
      → ((m : Action) → again ≡ some m → (u : Session) → length (m u).1.sent ≤ length u.sent + k)
      → length (attempt c r again s).1.sent ≤ length s.sent + suc k
  unfolding attempt
  attempt-sent k again s ih =
      by (wait_and_reserve c.patience c.late c.provider r.bucket s.now c.policy s.limits)
    where
      by : (o : Option (ℕ × Tables)) → length (sent_by c r again s o).1.sent ≤ length s.sent + suc k
      by none = omega arith
      by (some (t, tables)) = omega (
        arith,
        received-sent k again (counted c r.bucket t tables s) (c.transport (length s.sent)) ih,
        length-append s.sent (row_at c.provider r.bucket t ∷ []),
      )

  attempts-sent :
      (left : ℕ) (s : Session) → length (attempts c r left s).1.sent ≤ length s.sent + suc left
  unfolding attempts
  attempts-sent zero s = attempt-sent 0 none s (λ m e. cc)
  attempts-sent (suc left) s = attempt-sent (suc left) (some (attempts c r left)) s λ m e u.
      subst (λ n. length (n u).1.sent ≤ length u.sent + suc left) (some_injective e)
        (attempts-sent left u)
    where
      some_injective : {m n : Action} → some m ≡ some n → m ≡ n
      some_injective e = cc

  -- What the ways through the cache do to the requests that were sent.
  module _ (Q : List Reserved → Type 0) (sent : List Reserved) (same : Q sent)
      (network : c.offline ≡ false
        → (u : Session) → u.sent ≡ sent
        → Q (from_network c r u).1.sent) where
    past_cache-sent :
        (cached : Option CacheEntry) (u : Session)
        → u.sent ≡ sent
        → Q (past_cache c r cached u).1.sent
    unfolding past_cache
    past_cache-sent cached u e =
        if_cases {A = Answer (List Candidate) × Session} (λ x. Q x.1.sent) c.offline
          (λ h. offline cached) (λ h. network h u e)
      where
        offline : (cached : Option CacheEntry) → Q (offline_answer c cached u).1.sent
        offline none = subst Q (sym e) same
        offline (some entry) =
            if_cases {A = Answer (List Candidate) × Session} (λ x. Q x.1.sent)
              (entry.schema_version == c.schema) (λ h. subst Q (sym e) same)
              (λ h. subst Q (sym e) same)

    migrate-sent :
        (entry : CacheEntry) (u : Session) → u.sent ≡ sent → Q (migrate c r entry u).1.sent
    unfolding migrate
    migrate-sent entry u e = by (normalized c r entry.raw)
      where
        not_migrated : Q (migration_failed c r entry u).1.sent
        not_migrated =
            if_cases {A = Answer (List Candidate) × Session} (λ x. Q x.1.sent) c.offline
              (λ h. subst Q (sym e) same) (λ h. past_cache-sent (some entry) u e)

        rewriting :
            (candidates : List Candidate) (o : Rewritten)
            → Q (rewritten_as c r entry candidates u o).1.sent
        rewriting candidates incompatible = subst Q (sym e) same
        rewriting candidates missing = not_migrated
        rewriting candidates (rewritten rows) = subst Q (sym e) same

        by : (o : Option (List Candidate)) → Q (migrated_as c r entry u o).1.sent
        by none = not_migrated
        by (some candidates) =
            rewriting candidates (rewrite_cache_normalization _ candidates c.schema u.cache)

    request-sent : (s : Session) → s.sent ≡ sent → Q (request c r s).1.sent
    unfolding request
    request-sent s e =
        by (get_cache (c.request_key r.operation r.identity) s.now s.cache) (opened r s)
          (if_cases {A = Session} (λ u. u.sent ≡ sent) (r.operation == "fetch") (λ h. e) (λ h. e))
      where
        by :
            (cached : Option CacheEntry) (u : Session)
            → u.sent ≡ sent
            → Q (cached_answer c r cached u).1.sent
        by none u f = past_cache-sent none u f
        by (some entry) u f =
            if_cases {A = Answer (List Candidate) × Session} (λ x. Q x.1.sent)
              (not (schema_matches c entry))
              (λ h.
                if_cases {A = Answer (List Candidate) × Session} (λ x. Q x.1.sent)
                  (not entry.stale || c.offline) (λ h. migrate-sent entry u f)
                  (λ h. past_cache-sent (some entry) u f))
              λ h.
                if_cases {A = Answer (List Candidate) × Session} (λ x. Q x.1.sent) (not entry.stale)
                  (λ h. subst Q (sym f) same) (λ h. past_cache-sent (some entry) u f)

  -- One request goes over the network at most once more often than the client may retry.
  pub request-bound :
      (s : Session) → length (request c r s).1.sent ≤ length s.sent + suc c.max_retries
  unfolding from_network
  request-bound s =
      request-sent (λ sent. length sent ≤ length s.sent + suc c.max_retries) s.sent (omega arith)
        (λ h u e.
          if_cases {A = Answer (List Candidate) × Session}
            (λ x. length x.1.sent ≤ length s.sent + suc c.max_retries) (not c.network_enabled)
            (λ g. omega (arith, ap length e))
            (λ g. omega (arith, attempts-sent c.max_retries (missed u), ap length e)))
        s refl

  -- A client that is offline or may not use the network sends nothing.
  pub request-offline :
      (s : Session)
      → (c.offline ≡ true) ⊎ (c.network_enabled ≡ false)
      → (request c r s).1.sent ≡ s.sent
  unfolding from_network
  request-offline s closed =
      request-sent (λ sent. sent ≡ s.sent) s.sent refl
        (λ h u e.
          if_cases {A = Answer (List Candidate) × Session} (λ x. x.1.sent ≡ s.sent)
            (not c.network_enabled) (λ g. e) (λ g. absurd (contrary closed h g)))
        s refl
    where
      contrary :
          (c.offline ≡ true) ⊎ (c.network_enabled ≡ false)
          → c.offline ≡ false
          → not c.network_enabled ≡ false
          → ⊥
      contrary (inl e) h g = cc (e, h)
      contrary (inr e) h g = cc (ap not e, g)
