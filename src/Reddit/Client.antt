-- ===== src/Reddit/Client.antt =====
-- internal/reddit/client.go: the authenticated client, its retries and its calls. The state of the
-- rate limits is not read or written by the code as it stands. `Transport` has what the client takes
-- from other packages.
use apollo_backend.Prelude.{
  ℕ, Bool, false, not, ◌&&◌, ◌||◌, Option, none, some, List, [], ◌∷◌, ◌++◌, ltb, ◌==◌,
  if◌then◌else◌, length,
}
use apollo_backend.Str.{Str, lit, is_empty, contains}
use apollo_backend.Errors.{
  Error, oauth_revoked, timeout, subreddit_not_found, too_many_requests, server_error, other,
  Result, ok, err, is_oauth_revoked,
}
use apollo_backend.Domain.Durations.{Time, second}
use apollo_backend.Exec.{
  Exec, Env, HttpRequest, HttpReply, failed, reply, http_sent, pure, panic, external, emit, ◌>>=◌,
  ◌>>◌,
}
use apollo_backend.Reddit.Types.{
  Parser, ListingResponse, RefreshTokenResponse, empty_listing_response, new_listing_response,
  new_refresh_token_response,
}
use apollo_backend.Reddit.Request.{
  Request, RequestOption, new_request, http_request, with_tags, with_method, with_url, with_body,
  with_query, with_basic_auth, with_token, with_empty_response_bytes,
}

pub record Transport : Type 0 where
  pub invalid_url : Str → Option Error
  pub base64 : Str → Str

pub record AuthCredentials : Type 0 where
  pub reddit_id : Str
  pub refresh_token : Str
  pub access_token : Str
  pub client_id : Str
  pub client_secret : Str
  pub user_agent : Str

-- The client keeps the credentials it was made from.
abbrev pub AuthenticatedClient : Type 0
AuthenticatedClient = AuthCredentials

unfoldable pub new_authenticated_client : AuthCredentials → Exec AuthenticatedClient
unfolding is_empty
new_authenticated_client creds =
    if is_empty creds.reddit_id
      || is_empty creds.access_token
      || is_empty creds.refresh_token
      || is_empty creds.client_id
      || is_empty creds.user_agent
    then panic
    else pure creds

abbrev pub ErrorMap : Type 0
ErrorMap = ℕ → Option Error

unfoldable pub default_error_map : ErrorMap
default_error_map status =
    if status == 401 || status == 403
    then some oauth_revoked
    else if status == 404
    then some subreddit_not_found
    else if status == 429
    then some too_many_requests
    else none

unfoldable pub refresh_error_map : ErrorMap
refresh_error_map status =
    if status == 400
    then some oauth_revoked
    else if status == 429
    then some too_many_requests
    else none

-- 200 ms, 500 ms, 1 s and 2 s
abbrev pub backoff_schedule : List Time
backoff_schedule = 200_000_000 ∷ 500_000_000 ∷ second ∷ 2_000_000_000 ∷ []

abbrev timeout_text : Str
timeout_text = lit "http2: timeout awaiting response headers"

-- `strings.Contains(err.Error(), …)`, for an error whose text is not the program's own
unfoldable pub names_timeout : Error → Bool
unfolding contains
names_timeout (other message) = contains message timeout_text
names_timeout (server_error status body) = contains body timeout_text
names_timeout _ = false

unfoldable pub reply_result : ErrorMap → HttpReply → Result Str
unfolding contains
reply_result errmap (failed message) =
    if contains message timeout_text then err timeout else err (other message)
reply_result errmap (reply status body) =
    if status == 200
    then ok body
    else elim (errmap status) [ some e ↦ err e | none ↦ err (server_error status body) ]

abbrev kept_token : Str → RefreshTokenResponse → RefreshTokenResponse
kept_token token ret =
    if is_empty ret.refresh_token then record ret { refresh_token = token } else ret

unfoldable pub refreshed_tokens : Str → Result RefreshTokenResponse → Result RefreshTokenResponse
unfolding is_empty
refreshed_tokens token (err e) = err e
refreshed_tokens token (ok ret) = ok (kept_token token ret)

unfoldable pub refresh_request : Transport → AuthenticatedClient → Request
unfolding new_request with_tags with_method with_url with_body with_basic_auth
refresh_request t rac = new_request (
    with_tags (lit "url:/api/v1/access_token" ∷ [])
    ∷ with_method (lit "POST")
    ∷ with_url (lit "https://www.reddit.com/api/v1/access_token")
    ∷ with_body (lit "grant_type") (lit "refresh_token")
    ∷ with_body (lit "refresh_token") rac.refresh_token
    ∷ with_basic_auth t.base64 rac.client_id rac.client_secret
    ∷ [])

unfoldable pub about_info_request : AuthenticatedClient → Str → Request
unfolding new_request with_method with_url with_token with_query
about_info_request rac fullname = new_request (
    with_method (lit "GET")
    ∷ with_token rac.access_token
    ∷ with_url (lit "https://oauth.reddit.com/api/info")
    ∷ with_query (lit "id") fullname
    ∷ [])

unfoldable pub inbox_request : AuthenticatedClient → List RequestOption → Request
unfolding new_request with_tags with_method with_url with_token with_empty_response_bytes
inbox_request rac opts = new_request (
    opts
    ++ with_tags (lit "url:/api/v1/message/inbox" ∷ [])
      ∷ with_method (lit "GET")
      ∷ with_token rac.access_token
      ∷ with_url (lit "https://oauth.reddit.com/message/inbox")
      ∷ with_empty_response_bytes 122
      ∷ [])

module _ (env : Env) (t : Transport) where
  unfoldable pub send_request : ErrorMap → Option HttpRequest → Exec (Result Str)
  unfolding reply_result
  send_request errmap none = panic
  send_request errmap (some req) = do
    emit (http_sent req)
    r ← external (λ i. env.http i req)
    pure (reply_result errmap r)

  unfoldable pub do_request : ErrorMap → Request → Exec (Result Str)
  unfolding send_request http_request
  do_request errmap r = send_request errmap (http_request t.invalid_url r)

  -- The rounds of the backoff schedule, until one has no error.
  unfoldable pub retry_rounds : ErrorMap → Request → List Time → Result Str → Exec (Result Str)
  unfolding do_request
  retry_rounds errmap r delays (ok body) = pure (ok body)
  retry_rounds errmap r [] (err e) = pure (err e)
  retry_rounds errmap r (delay ∷ delays) (err e) = do
    again ← do_request errmap r
    retry_rounds errmap r delays again

  unfoldable pub retried : ErrorMap → Request → Result Str → Exec (Result Str)
  unfolding retry_rounds is_oauth_revoked
  retried errmap r (ok body) = pure (ok body)
  retried errmap r (err e) =
      if not (is_oauth_revoked e) && r.retry
      then retry_rounds errmap r backoff_schedule (err e)
      else pure (err e)

  -- What the body of the reply is, with the empty value for a reply of the empty length.
  module _ (p : Parser) {A : Type 0} where
    unfoldable pub handled : Request → (p.Value → A) → Option A → Result Str → Exec (Result A)
    unfolding names_timeout
    handled r handler empty (err e) = pure (if names_timeout e then err timeout else err e)
    handled r handler empty (ok body) =
        if ltb 0 r.empty_response_bytes && length body == r.empty_response_bytes
        then elim empty [ some a ↦ pure (ok a) | none ↦ panic ]
        else elim (p.parse body) [ err e ↦ pure (err e) | ok val ↦ pure (ok (handler val)) ]

    -- AuthenticatedClient.request; a caller asserts the type of what it gets, and an empty value
    -- without one panics there
    unfoldable pub request :
        AuthenticatedClient → ErrorMap → Request → (p.Value → A) → Option A → Exec (Result A)
    unfolding do_request retried handled
    request rac errmap r handler empty = do
      first ← do_request errmap (record r { user_agent = rac.user_agent })
      last ← retried errmap (record r { user_agent = rac.user_agent }) first
      handled (record r { user_agent = rac.user_agent }) handler empty last

  module _ (p : Parser) where
    unfoldable pub refresh_tokens : AuthenticatedClient → Exec (Result RefreshTokenResponse)
    unfolding refresh_request request refreshed_tokens new_refresh_token_response refresh_error_map
    refresh_tokens rac = do
      rtr ←
          request p rac refresh_error_map (refresh_request t rac) (new_refresh_token_response p)
            none
      pure (refreshed_tokens rac.refresh_token rtr)

    unfoldable pub message_inbox :
        AuthenticatedClient → List RequestOption → Exec (Result ListingResponse)
    unfolding inbox_request request new_listing_response default_error_map
    message_inbox rac opts =
        request p rac default_error_map (inbox_request rac opts) (new_listing_response p)
          (some empty_listing_response)

    unfoldable pub about_info : AuthenticatedClient → Str → Exec (Result ListingResponse)
    unfolding about_info_request request new_listing_response default_error_map
    about_info rac fullname =
        request p rac default_error_map (about_info_request rac fullname) (new_listing_response p)
          none
