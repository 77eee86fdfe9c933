-- ===== src/Repository/WellFormed.antt =====
-- The constraints of docs/schema.sql as an invariant of the tables; the statements of
-- internal/repository that keep it are in the children.
pub mod AccountRows
pub mod ActivityRows
pub mod DeviceRows
pub mod AccountStatements
pub mod DeviceStatements
pub mod Operations
use apollo_backend.Prelude.{
  ℕ, suc, ◌+◌, ◌<◌, ◌≡◌, ◌≢◌, refl, sym, ap, Bool, true, false, not, ◌&&◌, ◌||◌, Option, none, some,
  List, [], ◌∷◌, ◌++◌, arith, inl, inr, ◌==◌, ==_iff, if◌then◌else◌, any, All, All-append,
  All-map_pred, Bool-cases, Option-cases,
}
use apollo_backend.Prelude.Table.{
  select_where, update_where, delete_where, first, All-delete_where, All-update_where,
}
use apollo_backend.Prelude.Keys.{
  Absent, Unique, Unique-append, Unique-update_where, Unique-delete_where, Absent-of_any,
  any_of_first-none, any-update_where, any-append, any-delete_where, IsFree, Unique-update_key,
}
use apollo_backend.Str.{Str, str_eq, str_eq_iff, str_eq_refl}
use apollo_backend.Errors.{Result, ok, err}
use apollo_backend.Domain.{Account, Device, LiveActivity}
use apollo_backend.Domain.Durations.{Time}
use apollo_backend.Schema.{Db, AccountRow, DeviceAccountRow}
use apollo_backend.Repository.Accounts
use apollo_backend.Repository.Accounts.{
  has_username, has_id, name_taken, inserted, refreshed, links, fresh_link, mark_deleted,
}
use apollo_backend.Repository.Devices
use apollo_backend.Repository.Devices.{has_token, switched}

abbrev pub device_has_id : ℕ → Device → Bool
device_has_id i d = d.id == i

pub record AccountsOk (rows : List AccountRow) (seq : ℕ) : Type 0 where
  pub usernames : Unique (λ r. r.account.username) rows
  pub ids : Unique (λ r. r.account.id) rows
  pub below : All (λ r. r.account.id < seq) rows

pub record DevicesOk (rows : List Device) (seq : ℕ) : Type 0 where
  pub tokens : Unique (λ d. d.apns_token) rows
  pub ids : Unique (λ d. d.id) rows
  pub below : All (λ d. d.id < seq) rows

pub record ActivitiesOk (rows : List LiveActivity) (seq : ℕ) : Type 0 where
  pub tokens : Unique (λ la. la.apns_token) rows
  pub ids : Unique (λ la. la.id) rows
  pub below : All (λ la. la.id < seq) rows

pub record LinksOk (accounts : List AccountRow) (devices : List Device)
    (rows : List DeviceAccountRow) : Type 0 where
  pub to_accounts : All (λ l. any (has_id l.account_id) accounts ≡ true) rows
  pub to_devices : All (λ l. any (device_has_id l.device_id) devices ≡ true) rows
  pub pairs : Unique (λ l. let p : ℕ × ℕ = (l.account_id, l.device_id) in p) rows

-- Usernames, identifiers and tokens are unique; sequences are ahead of the identifiers; a link
-- joins an account and a device that are there, and no pair twice.
pub record WellFormed (db : Db) : Type 0 where
  pub accounts : AccountsOk db.accounts db.accounts_seq
  pub devices : DevicesOk db.devices db.devices_seq
  pub linked : LinksOk db.accounts db.devices db.devices_accounts
  pub live : ActivitiesOk db.live_activities db.live_activities_seq
