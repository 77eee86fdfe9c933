-- ===== src/Schema.antt =====
-- docs/schema.sql: the tables, and the sequences behind the SERIAL columns. A row that a
-- repository's struct holds whole is that struct.
use apollo_backend.Prelude.{ℕ, Bool, List}
use apollo_backend.Str.{Str}
use apollo_backend.Prelude.Int.{ℤ}
use apollo_backend.Domain.{Account, Device, LiveActivity, Subreddit, User, WatcherType}
use apollo_backend.Domain.Durations.{Time}

pub record AccountRow : Type 0 where
  pub account : Account
  pub is_deleted : Bool

pub record DeviceAccountRow : Type 0 where
  pub account_id : ℕ
  pub device_id : ℕ
  pub watcher_notifiable : Bool
  pub inbox_notifiable : Bool
  pub global_mute : Bool

-- A row of `watchers`; the related rows and labels that `Watcher` has come from joins.
pub record WatcherRow : Type 0 where
  pub id : ℕ
  pub created_at : Time
  pub last_notified_at : Time
  pub label : Str
  pub device_id : ℕ
  pub account_id : ℕ
  pub type : WatcherType
  pub watchee_id : ℕ
  pub author : Str
  pub subreddit : Str
  pub upvotes : ℤ
  pub keyword : Str
  pub flair : Str
  pub domain : Str
  pub hits : ℕ

pub record Db : Type 0 where
  pub accounts : List AccountRow
  pub accounts_seq : ℕ
  pub devices : List Device
  pub devices_seq : ℕ
  pub devices_accounts : List DeviceAccountRow
  pub live_activities : List LiveActivity
  pub live_activities_seq : ℕ
  pub subreddits : List Subreddit
  pub subreddits_seq : ℕ
  pub users : List User
  pub users_seq : ℕ
  pub watchers : List WatcherRow
  pub watchers_seq : ℕ
