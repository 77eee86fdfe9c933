-- ===== src/Repository/Watchers.antt =====
-- internal/repository/postgres_watcher.go. The joined account has only the columns that are
-- selected; what is not has its zero value.
pub mod Notifiable
use apollo_backend.Prelude.{
  ℕ, ◌+◌, Bool, true, false, not, ◌&&◌, ◌||◌, Option, none, some, List, [], ◌∷◌, ◌++◌, map, ◌==◌,
  if◌then◌else◌, any,
}
use apollo_backend.Prelude.Table.{select_where, update_where, delete_where, first, join}
use apollo_backend.Str.{Str, str_eq}
use apollo_backend.Errors.{Error, invalid, Result, ok, err}
use apollo_backend.Domain.{
  Account, Device, Subreddit, User, Watcher, WatcherType, subreddit_watcher, user_watcher,
  trending_watcher,
}
use apollo_backend.Domain.Validation.{Rules, validate_watcher}
use apollo_backend.Domain.Durations.{Time}
use apollo_backend.Schema.{Db, AccountRow, DeviceAccountRow, WatcherRow}
use apollo_backend.Exec.{Exec, Env, pure, external, ◌>>=◌, statement}
use apollo_backend.Repository.Accounts.{first_or_not_found, foreign_key_violation}

unfoldable pub same_type : WatcherType → WatcherType → Bool
same_type subreddit_watcher subreddit_watcher = true
same_type user_watcher user_watcher = true
same_type trending_watcher trending_watcher = true
same_type _ _ = false

abbrev name_or_empty : {A : Type 0} → (A → Str) → Option A → Str
name_or_empty name none = []
name_or_empty name (some r) = name r

-- The label of the table that the type reads, by its LEFT JOIN on the primary key.
unfoldable pub watchee_label : Db → WatcherType → ℕ → Str
unfolding select_where first
watchee_label db user_watcher id =
    name_or_empty (λ u. u.name) (first (select_where (λ u. u.id == id) db.users))
watchee_label db _ id =
    name_or_empty (λ s. s.name) (first (select_where (λ s. s.id == id) db.subreddits))

-- The columns of `accounts` that are selected.
unfoldable pub joined_account : Account → Account
joined_account a = record {
  id = a.id;
  username = [];
  account_id = a.account_id;
  access_token = a.access_token;
  refresh_token = a.refresh_token;
  token_expires_at = 0;
  development = false;
  reddit_client_id = a.reddit_client_id;
  reddit_client_secret = a.reddit_client_secret;
  reddit_redirect_uri = [];
  reddit_user_agent = a.reddit_user_agent;
  last_message_id = [];
  next_notification_check_at = 0;
  next_stuck_notification_check_at = 0;
  check_count = 0;
}

unfoldable pub to_watcher : Db → WatcherRow → Device → Account → Watcher
unfolding watchee_label joined_account
to_watcher db row device account = record {
  id = row.id;
  created_at = row.created_at;
  last_notified_at = row.last_notified_at;
  label = row.label;
  device_id = row.device_id;
  account_id = row.account_id;
  type = row.type;
  watchee_id = row.watchee_id;
  watchee_label = watchee_label db row.type row.watchee_id;
  author = row.author;
  subreddit = row.subreddit;
  upvotes = row.upvotes;
  keyword = row.keyword;
  flair = row.flair;
  domain = row.domain;
  hits = row.hits;
  device = device;
  account = joined_account account;
}

-- watchers ⋈ devices ⋈ accounts, for the rows that pass; deleted accounts stay in.
unfoldable pub watchers_where : (WatcherRow → Device → Account → Bool) → Db → List Watcher
unfolding join select_where to_watcher
watchers_where p db =
    join
      (λ row.
        join
          (λ device.
            map (λ a. to_watcher db row device a.account)
              (select_where (λ a. a.account.id == row.account_id && p row device a.account)
                db.accounts))
          (select_where (λ d. d.id == row.device_id) db.devices))
      db.watchers

unfoldable pub watcher_by_id_sql : ℕ → Time → Db → Result Watcher × Db
unfolding watchers_where first_or_not_found
watcher_by_id_sql id now db = (first_or_not_found (watchers_where (λ row d a. row.id == id) db), db)

-- The link of the device and the account wants watcher notifications and is not muted.
abbrev pub is_open : Device → Account → DeviceAccountRow → Bool
is_open d a l =
    l.device_id == d.id && l.account_id == a.id && l.watcher_notifiable && not l.global_mute

unfoldable pub by_type_and_watchee_sql : WatcherType → ℕ → Time → Db → Result (List Watcher) × Db
unfolding watchers_where same_type
by_type_and_watchee_sql typ id now db = (
  ok (
      watchers_where
        (λ row d a.
          same_type row.type typ && row.watchee_id == id && any (is_open d a) db.devices_accounts)
        db),
  db,
)

unfoldable pub by_device_and_account_sql : Str → Str → Time → Db → Result (List Watcher) × Db
unfolding watchers_where
by_device_and_account_sql token rid now db =
    (ok (watchers_where (λ row d a. str_eq d.apns_token token && str_eq a.account_id rid) db), db)

unfoldable pub new_row : Watcher → ℕ → Time → WatcherRow
new_row w id at = record {
  id = id;
  created_at = at;
  last_notified_at = at;
  label = w.label;
  device_id = w.device_id;
  account_id = w.account_id;
  type = w.type;
  watchee_id = w.watchee_id;
  author = w.author;
  subreddit = w.subreddit;
  upvotes = w.upvotes;
  keyword = w.keyword;
  flair = w.flair;
  domain = w.domain;
  hits = 0;
}

-- The references to `devices` and `accounts` are checked.
unfoldable pub insert_watcher_sql : Watcher → Time → Time → Db → Result Watcher × Db
unfolding new_row
insert_watcher_sql w at now db =
    if any (λ d. d.id == w.device_id) db.devices
      && any (λ a. a.account.id == w.account_id) db.accounts
    then (
      ok (record w { id = db.watchers_seq }),
      record db {
        watchers = db.watchers ++ new_row w db.watchers_seq at ∷ [];
        watchers_seq = db.watchers_seq + 1;
      },
    )
    else (err foreign_key_violation, record db { watchers_seq = db.watchers_seq + 1 })

unfoldable pub edited : Watcher → WatcherRow → WatcherRow
edited w row = record row {
  watchee_id = w.watchee_id;
  author = w.author;
  subreddit = w.subreddit;
  upvotes = w.upvotes;
  keyword = w.keyword;
  flair = w.flair;
  domain = w.domain;
  label = w.label;
}

abbrev row_has_id : ℕ → WatcherRow → Bool
row_has_id id row = row.id == id

abbrev with_watchers : List WatcherRow → Db → Result (Unit {0}) × Db
with_watchers rows db = (ok tt, record db { watchers = rows })

unfoldable pub update_watcher_sql : Watcher → Time → Db → Result (Unit {0}) × Db
unfolding update_where edited
update_watcher_sql w now db =
    with_watchers (update_where (row_has_id w.id) (edited w) db.watchers) db

unfoldable pub increment_hits_sql : ℕ → Time → Time → Db → Result (Unit {0}) × Db
unfolding update_where
increment_hits_sql id at now db =
    with_watchers
      (update_where (row_has_id id)
        (λ row. record row { hits = row.hits + 1; last_notified_at = at }) db.watchers)
      db

unfoldable pub delete_watcher_sql : ℕ → Time → Db → Result (Unit {0}) × Db
unfolding delete_where
delete_watcher_sql id now db = with_watchers (delete_where (row_has_id id) db.watchers) db

unfoldable pub delete_by_type_and_watchee_sql : WatcherType → ℕ → Time → Db → Result (Unit {0}) × Db
unfolding delete_where same_type
delete_by_type_and_watchee_sql typ id now db =
    with_watchers (delete_where (λ row. same_type row.type typ && row.watchee_id == id) db.watchers)
      db

module _ (env : Env) where
  unfoldable pub watcher_by_id : ℕ → Exec (Result Watcher)
  watcher_by_id id = statement env (watcher_by_id_sql id)

  unfoldable pub by_type_and_watchee : WatcherType → ℕ → Exec (Result (List Watcher))
  by_type_and_watchee typ id = statement env (by_type_and_watchee_sql typ id)

  unfoldable pub by_device_and_account : Str → Str → Exec (Result (List Watcher))
  by_device_and_account token rid = statement env (by_device_and_account_sql token rid)

  unfoldable pub create_watcher : Rules → Watcher → Exec (Result Watcher)
  create_watcher v w =
      if validate_watcher v w
      then external env.now >>= (λ now. statement env (insert_watcher_sql w now))
      else pure (err invalid)

  unfoldable pub update_watcher : Rules → Watcher → Exec (Result (Unit {0}))
  update_watcher v w =
      if validate_watcher v w then statement env (update_watcher_sql w) else pure (err invalid)

  unfoldable pub increment_hits : ℕ → Exec (Result (Unit {0}))
  increment_hits id = external env.now >>= (λ now. statement env (increment_hits_sql id now))

  unfoldable pub delete_watcher : ℕ → Exec (Result (Unit {0}))
  delete_watcher id = statement env (delete_watcher_sql id)

  unfoldable pub delete_by_type_and_watchee : WatcherType → ℕ → Exec (Result (Unit {0}))
  delete_by_type_and_watchee typ id = statement env (delete_by_type_and_watchee_sql typ id)
