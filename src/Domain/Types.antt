-- ===== src/Domain/Types.antt =====
-- The structs of internal/domain. Identifiers and counters are numbers; vote thresholds are signed.
use apollo_backend.Prelude.{ℕ, Bool}
use apollo_backend.Prelude.Int.{ℤ}
use apollo_backend.Str.{Str, lit, str_eq, to_lower}
use apollo_backend.Domain.Durations.{Time}

pub record Account : Type 0 where
  pub id : ℕ
  pub username : Str
  pub account_id : Str
  pub access_token : Str
  pub refresh_token : Str
  pub token_expires_at : Time
  pub development : Bool
  pub reddit_client_id : Str
  pub reddit_client_secret : Str
  pub reddit_redirect_uri : Str
  pub reddit_user_agent : Str
  pub last_message_id : Str
  pub next_notification_check_at : Time
  pub next_stuck_notification_check_at : Time
  pub check_count : ℕ

unfoldable pub normalized_username : Account → Str
unfolding to_lower
normalized_username acct = to_lower acct.username

abbrev pub device_transport_apns : Str
device_transport_apns = lit "apns"

abbrev pub device_transport_bark : Str
device_transport_bark = lit "bark"

pub record Device : Type 0 where
  pub id : ℕ
  pub apns_token : Str
  pub sandbox : Bool
  pub transport : Str
  pub transport_endpoint : Str

unfoldable pub is_bark : Device → Bool
is_bark dev = str_eq dev.transport device_transport_bark

pub record LiveActivity : Type 0 where
  pub id : ℕ
  pub apns_token : Str
  pub development : Bool
  pub reddit_account_id : Str
  pub thread_id : Str
  pub subreddit : Str
  pub next_check_at : Time
  pub expires_at : Time

pub record Subreddit : Type 0 where
  pub id : ℕ
  pub next_check_at : Time
  pub subreddit_id : Str
  pub name : Str

pub record User : Type 0 where
  pub id : ℕ
  pub next_check_at : Time
  pub user_id : Str
  pub name : Str

pub data WatcherType : Type 0 where
  subreddit_watcher user_watcher trending_watcher : WatcherType

unfoldable pub watcher_type_string : WatcherType → Str
watcher_type_string subreddit_watcher = lit "subreddit"
watcher_type_string user_watcher = lit "user"
watcher_type_string trending_watcher = lit "trending"

pub record Watcher : Type 0 where
  pub id : ℕ
  pub created_at : Time
  pub last_notified_at : Time
  pub label : Str
  pub device_id : ℕ
  pub account_id : ℕ
  pub type : WatcherType
  pub watchee_id : ℕ
  pub watchee_label : Str
  pub author : Str
  pub subreddit : Str
  pub upvotes : ℤ
  pub keyword : Str
  pub flair : Str
  pub domain : Str
  pub hits : ℕ
  pub device : Device
  pub account : Account
