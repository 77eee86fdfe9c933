-- ===== src/Api/Registration.antt =====
-- internal/api/accounts.go: the request that registers an account, and where its fields come from.
pub mod Precedence
use apollo_backend.Prelude.{Bool, ◌||◌, [], if◌then◌else◌}
use apollo_backend.Str.{Str, lit, is_empty}
use apollo_backend.Domain.{Account}

pub record RegistrationRequest : Type 0 where
  pub username : Str
  pub access_token : Str
  pub refresh_token : Str
  pub client_id : Str
  pub client_secret : Str
  pub redirect_uri : Str
  pub user_agent : Str
  pub development : Bool

-- What json.Unmarshal reads: the snake_case keys, and the two camelCase ones.
pub record RegistrationJson : Type 0 where
  pub request : RegistrationRequest
  pub access_token_camel : Str
  pub refresh_token_camel : Str

-- `if a == "" { a = b }`
unfoldable pub backfilled : Str → Str → Str
unfolding is_empty
backfilled a b = if is_empty a then b else a

unfoldable pub unmarshal_registration : RegistrationJson → RegistrationRequest
unfolding backfilled
unmarshal_registration aux = record (aux.request) {
  access_token = backfilled aux.request.access_token aux.access_token_camel;
  refresh_token = backfilled aux.request.refresh_token aux.refresh_token_camel;
}

unfoldable pub fill_reddit_creds_from_header :
    (header : Str → Str) → RegistrationRequest → RegistrationRequest
unfolding backfilled
fill_reddit_creds_from_header header r = record r {
  client_id = backfilled r.client_id (header (lit "X-Apollo-Reddit-Client-Id"));
  client_secret = backfilled r.client_secret (header (lit "X-Apollo-Reddit-Client-Secret"));
  redirect_uri = backfilled r.redirect_uri (header (lit "X-Apollo-Reddit-Redirect-Uri"));
  user_agent = backfilled r.user_agent (header (lit "X-Apollo-Reddit-User-Agent"));
}

unfoldable pub fill_reddit_creds_from_env :
    (getenv : Str → Str) → RegistrationRequest → RegistrationRequest
unfolding backfilled
fill_reddit_creds_from_env getenv r = record r {
  client_id = backfilled r.client_id (getenv (lit "REDDIT_CLIENT_ID"));
  client_secret = backfilled r.client_secret (getenv (lit "REDDIT_CLIENT_SECRET"));
  redirect_uri = backfilled r.redirect_uri (getenv (lit "REDDIT_REDIRECT_URI"));
  user_agent = backfilled r.user_agent (getenv (lit "REDDIT_USER_AGENT"));
}

-- The two calls that both handlers make.
unfoldable pub filled : (header getenv : Str → Str) → RegistrationRequest → RegistrationRequest
unfolding fill_reddit_creds_from_header fill_reddit_creds_from_env
filled header getenv r = fill_reddit_creds_from_env getenv (fill_reddit_creds_from_header header r)

-- The guard before registerAccount.
unfoldable pub lacks_credentials : RegistrationRequest → Bool
unfolding is_empty
lacks_credentials r = is_empty r.access_token || is_empty r.refresh_token || is_empty r.client_id

unfoldable pub to_account : RegistrationRequest → Account
to_account req = record {
  id = 0;
  username = req.username;
  account_id = [];
  access_token = req.access_token;
  refresh_token = req.refresh_token;
  token_expires_at = 0;
  development = req.development;
  reddit_client_id = req.client_id;
  reddit_client_secret = req.client_secret;
  reddit_redirect_uri = req.redirect_uri;
  reddit_user_agent = req.user_agent;
  last_message_id = [];
  next_notification_check_at = 0;
  next_stuck_notification_check_at = 0;
  check_count = 0;
}
