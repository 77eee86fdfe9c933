-- ===== src/Examples/Worlds.antt =====
-- Small databases and services for the runs: every call succeeds, at the times that are given.
use apollo_backend.Prelude.{
  refl, true, false, not, ◌&&◌, ◌||◌, none, List, [], ◌∷◌, leb, ◌==◌, length, any,
}
use apollo_backend.Prelude.Int.{pos}
use apollo_backend.Str.{Str, lit, str_eq, is_empty}
use apollo_backend.Errors.{ok}
use apollo_backend.Domain.{Account, Device, LiveActivity, user_watcher}
use apollo_backend.Domain.Validation.{Rules}
use apollo_backend.Domain.Durations.{Time}
use apollo_backend.Schema.{Db, WatcherRow}
use apollo_backend.Exec.{Env, World, Lock, HttpReply, ApnsReply}
use apollo_backend.Push.Json.{Json, null, end}
use apollo_backend.Push.Delivery.{Codec, Sender}
use apollo_backend.Reddit.Types.{Parser, Thing, ListingResponse}
use apollo_backend.Reddit.Client.{Transport, AuthCredentials}

-- Every call is made at `at`, and Reddit answers 500.
abbrev pub env_at : Time → Env
env_at at = record {
  now = λ i. at;
  db_error = λ i. none;
  redis_error = λ i. none;
  queue_error = λ i. none;
  http = λ i r. HttpReply.reply 500 [];
  apns = λ i g n. ApnsReply.reply true 200 [];
  activity = λ i g n. ApnsReply.reply true 200 [];
  random = λ i. i;
}

abbrev pub empty_db : Db
empty_db = record {
  accounts = [];
  accounts_seq = 1;
  devices = [];
  devices_seq = 1;
  devices_accounts = [];
  live_activities = [];
  live_activities_seq = 1;
  subreddits = [];
  subreddits_seq = 1;
  users = [];
  users_seq = 1;
  watchers = [];
  watchers_seq = 1;
}

abbrev pub world : Db → List Lock → World
world db locks = record { db = db; locks = locks; calls = 0; trace = [] }

abbrev pub account : Account
account = record {
  id = 1;
  username = lit "someone";
  account_id = lit "abc";
  access_token = lit "access";
  refresh_token = lit "refresh";
  token_expires_at = 0;
  development = false;
  reddit_client_id = lit "client";
  reddit_client_secret = [];
  reddit_redirect_uri = [];
  reddit_user_agent = lit "agent";
  last_message_id = [];
  next_notification_check_at = 0;
  next_stuck_notification_check_at = 0;
  check_count = 1;
}

abbrev pub phone : Device
phone = record {
  id = 1;
  apns_token = lit "token";
  sandbox = false;
  transport = lit "apns";
  transport_endpoint = [];
}

abbrev pub bark_phone : Device
bark_phone = record {
  id = 2;
  apns_token = lit "bark-token";
  sandbox = false;
  transport = lit "bark";
  transport_endpoint = lit "https://api.day.app/key";
}

abbrev pub codec : Codec
codec = record {
  payload_map = λ p. ok end;
  encode = λ r. ok r.body;
  decode = λ s. (200, []);
  url_error = λ u. none;
}

abbrev pub sender : Sender
sender = record { has_apns = true; topic = lit "app"; bark_default_icon = lit "icon" }

abbrev pub transport : Transport
transport = record { invalid_url = λ u. none; base64 = λ s. s }

-- A parser that reads nothing.
abbrev pub parser : Parser
parser = record {
  Value = Json;
  parse = λ s. ok null;
  get = λ k v. null;
  string_at = λ k v. [];
  int_at = λ k v. 0;
  score_at = λ k v. pos 0;
  unix_at = λ k v. 0;
  bool_at = λ k v. false;
  array_at = λ k v. [];
  elements = λ v. [];
}

abbrev pub message : Str → Str → Thing
message id author = record {
  kind = lit "t4";
  id = id;
  type = [];
  author = author;
  subject = lit "hello";
  body = lit "text";
  created_at = 0;
  context = [];
  parent_id = [];
  link_title = [];
  destination = [];
  subreddit = [];
  subreddit_type = [];
  score = pos 0;
  self_text = [];
  title = [];
  url = [];
  flair = [];
  thumbnail = [];
  over18 = false;
  num_comments = 0;
}

abbrev pub listing : ListingResponse
listing = record {
  count = 3;
  children =
      message (lit "3") (lit "ann")
      ∷ message (lit "2") (lit "[deleted]")
      ∷ message (lit "1") (lit "bob")
      ∷ [];
  after = [];
  before = [];
}

abbrev pub client : AuthCredentials
client = record {
  reddit_id = lit "abc";
  refresh_token = lit "refresh";
  access_token = lit "access";
  client_id = lit "client";
  client_secret = [];
  user_agent = lit "agent";
}

abbrev pub rules : Rules
rules = record {
  required = λ s. not (is_empty s);
  length_in = λ lo hi s. is_empty s || (leb lo (length s) && (hi == 0 || leb (length s) hi));
  one_of = λ options s. is_empty s || any (str_eq s) options;
  required_lem = λ s. refl;
  length_in_lem = λ lo hi s h. refl;
  one_of_lem = λ options s. refl;
}

abbrev pub live_activity : LiveActivity
live_activity = record {
  id = 0;
  apns_token = lit "activity";
  development = false;
  reddit_account_id = lit "abc";
  thread_id = lit "xyz";
  subreddit = lit "pics";
  next_check_at = 0;
  expires_at = 0;
}

-- A watcher of the user with the number 5, on the phone.
abbrev pub watcher_row : WatcherRow
watcher_row = record {
  id = 9;
  created_at = 0;
  last_notified_at = 0;
  label = lit "posts";
  device_id = 1;
  account_id = 1;
  type = user_watcher;
  watchee_id = 5;
  author = [];
  subreddit = [];
  upvotes = pos 0;
  keyword = [];
  flair = [];
  domain = [];
  hits = 0;
}

abbrev pub watched : Db
watched = record empty_db {
  accounts = record { account = account; is_deleted = false } ∷ [];
  devices = phone ∷ [];
  devices_accounts =
      record {
        account_id = 1;
        device_id = 1;
        watcher_notifiable = true;
        inbox_notifiable = true;
        global_mute = false;
      }
      ∷ [];
  watchers = watcher_row ∷ [];
}

-- A live activity that is due.
abbrev pub active : Db
active = record empty_db { live_activities = live_activity ∷ [] }
