-- ===== src/Reddit/Retries.antt =====
-- How often AuthenticatedClient.request of internal/reddit/client.go asks Reddit.
use apollo_backend.Prelude.{
  ℕ, zero, suc, ◌≤◌, ◌≡◌, refl, ap, ◌∙◌, Bool, true, false, not, ◌&&◌, Option, none, some, List, [],
  ◌∷◌, arith, if◌then◌else◌, length, Bool-cases, Option-cases, inl, inr,
}
use apollo_backend.Str.{Str}
use apollo_backend.Errors.{Error, Result, ok, err, is_oauth_revoked}
use apollo_backend.Domain.Durations.{Time}
use apollo_backend.Exec.{Env, World, returned, HttpRequest, Event, http_sent, form, ◌>>=◌}
use apollo_backend.Reddit.Types.{Parser}
use apollo_backend.Reddit.Request.{Request, headers_of, http_request}
use apollo_backend.Reddit.Client.{
  Transport, AuthCredentials, AuthenticatedClient, ErrorMap, backoff_schedule, reply_result,
  send_request, do_request, retry_rounds, retried, handled, request,
}

-- The trace with `n` more sends of a request.
unfoldable pub sent_times : ℕ → HttpRequest → List Event → List Event
sent_times zero req events = events
sent_times (suc n) req events = sent_times n req (http_sent req ∷ events)

-- `n` sends of the request, and nothing else.
pub record IsSent (req : HttpRequest) (n : ℕ) (before after : World) : Type 0 where
  pub trace : after.trace ≡ sent_times n req before.trace
  pub db : after.db ≡ before.db
  pub locks : after.locks ≡ before.locks

-- Whether another attempt follows the first: after an error that is no revoked authorization.
unfoldable pub tries_again : Request → Result Str → Bool
tries_again r (ok b) = false
tries_again r (err e) = not (is_oauth_revoked e) && r.retry

-- The HTTP request that stands for a request with a valid URL.
unfoldable pub http_of : Request → HttpRequest
http_of r = record {
  method = r.method;
  url = r.url;
  query = r.query;
  headers = headers_of r;
  body = form r.body;
}

module _ (env : Env) (t : Transport) (errmap : ErrorMap) (r : Request)
    (valid : t.invalid_url r.url ≡ none) where
  do_request-IsSent :
      (w : World)
      → ((do_request env t errmap r w).0
          ≡ returned (reply_result errmap (env.http w.calls (http_of r))))
        × IsSent (http_of r) 1 w (do_request env t errmap r w).1
  unfolding do_request send_request http_request http_of sent_times ◌>>=◌
  do_request-IsSent w =
      rw (valid, send_request) (refl, record { trace = refl; db = refl; locks = refl })

  again :
      (n : ℕ) (w v u : World)
      → IsSent (http_of r) 1 w v
      → IsSent (http_of r) n v u
      → IsSent (http_of r) (suc n) w u
  unfolding sent_times
  again n w v u a b = record {
    trace = b.trace ∙ ap (λ l. sent_times n (http_of r) l) a.trace;
    db = b.db ∙ a.db;
    locks = b.locks ∙ a.locks;
  }

  retry_rounds-IsSent :
      (delays : List Time) (first : Result Str) (w : World)
      → (n : ℕ) × (n ≤ length delays)
        × ((x : Result Str) × ((retry_rounds env t errmap r delays first w).0 ≡ returned x))
        × IsSent (http_of r) n w (retry_rounds env t errmap r delays first w).1
  unfolding retry_rounds sent_times ◌>>=◌
  retry_rounds-IsSent delays (ok b) w =
      (0, omega arith, (ok b, refl), record { trace = refl; db = refl; locks = refl })
  retry_rounds-IsSent [] (err e) w =
      (0, omega arith, (err e, refl), record { trace = refl; db = refl; locks = refl })
  retry_rounds-IsSent (d ∷ delays) (err e) w =
      let (o, s) = do_request-IsSent w in
      let (n, le, x, more) =
        retry_rounds-IsSent delays (reply_result errmap (env.http w.calls (http_of r)))
          (do_request env t errmap r w).1 in
      rw o (suc n, omega (arith, le), x, again n w _ _ s more)

  retried-IsSent :
      (first : Result Str) (w : World)
      → (n : ℕ) × (n ≤ 4)
        × (n ≤ (if tries_again r first then 4 else 0))
        × ((x : Result Str) × ((retried env t errmap r first w).0 ≡ returned x))
        × IsSent (http_of r) n w (retried env t errmap r first w).1
  unfolding retried sent_times ◌>>=◌ tries_again
  retried-IsSent (ok b) w =
      (0, omega arith, omega arith, (ok b, refl), record { trace = refl; db = refl; locks = refl })
  retried-IsSent (err e) w = elim (Bool-cases (not (is_oauth_revoked e) && r.retry)) [
    | inl k ↦
        let (n, le, x, s) = retry_rounds-IsSent backoff_schedule (err e) w in rw k (n, le, le, x, s)
    | inr k ↦ rw k (
      0,
      omega arith,
      omega arith,
      (err e, refl),
      record { trace = refl; db = refl; locks = refl },
    )
  ]

-- The request under the account's User-Agent.
abbrev pub sent_as : AuthCredentials → Request → Request
sent_as rac r = record r { user_agent = rac.user_agent }

one_more : (b : Bool) (n : ℕ) → n ≤ (if b then 4 else 0) → suc n ≤ (if b then 5 else 1)
one_more true n h = omega (arith, h)
one_more false n h = omega (arith, h)

module _ (env : Env) (t : Transport) (p : Parser) {A : Type 0} where
  -- A reply is handled without an effect.
  handled-same :
      (r : Request) (handler : p.Value → A) (empty : Option A) (x : Result Str) (w : World)
      → (handled env t p r handler empty x w).1 ≡ w
  unfolding handled ◌>>=◌
  handled-same r handler empty (err e) w = refl
  handled-same r handler empty (ok body) w = ground arith

  -- A request with a valid URL goes out once, and up to four times more when the first reply is an
  -- error but not a revoked authorization and retries are on; always as the same HTTP request with
  -- the account's User-Agent. The database and the locks stay as they are.
  pub request-attempts :
      (rac : AuthenticatedClient) (errmap : ErrorMap) (r : Request) (handler : p.Value → A)
      (empty : Option A) (w : World)
      → t.invalid_url r.url ≡ none
      → (n : ℕ) × (1 ≤ n)
        × (n ≤ (
            if tries_again
              (sent_as rac r)
              (reply_result errmap (env.http w.calls (http_of (sent_as rac r))))
            then 5
            else 1))
        × IsSent (http_of (sent_as rac r)) n w (request env t p rac errmap r handler empty w).1
  unfolding request ◌>>=◌
  request-attempts rac errmap r handler empty w valid =
      let r' = sent_as rac r in
      let (o, s) = do_request-IsSent env t errmap r' valid w in
      let first = reply_result errmap (env.http w.calls (http_of r')) in
      let (n, le, few, (x, e), more) =
        retried-IsSent env t errmap r' valid first (do_request env t errmap r' w).1 in
      rw (o, e, handled-same r' handler empty x _)
        (suc n, omega arith, one_more _ n few, again env t errmap r' valid n w _ _ s more)

  request-invalid :
      (rac : AuthenticatedClient) (errmap : ErrorMap) (r : Request) (handler : p.Value → A)
      (empty : Option A) (w : World) (e : Error)
      → t.invalid_url r.url ≡ some e
      → (request env t p rac errmap r handler empty w).1.db ≡ w.db
  unfolding request do_request send_request http_request ◌>>=◌
  request-invalid rac errmap r handler empty w e invalid = rw (invalid, send_request) refl

  -- With an invalid URL the request panics before anything goes out, so the tables stay in any case.
  pub request-db :
      (rac : AuthenticatedClient) (errmap : ErrorMap) (r : Request) (handler : p.Value → A)
      (empty : Option A) (w : World)
      → (request env t p rac errmap r handler empty w).1.db ≡ w.db
  request-db rac errmap r handler empty w = elim (Option-cases (t.invalid_url r.url)) [
    | inl valid ↦ (request-attempts rac errmap r handler empty w valid).3.db
    | inr (x, e) ↦ request-invalid rac errmap r handler empty w x e
  ]
