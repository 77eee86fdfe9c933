-- ===== src/Repository/Devices.antt =====
-- internal/repository/postgres_device.go
pub mod Upserted
use apollo_backend.Prelude.{
  ℕ, ◌+◌, Bool, ◌&&◌, Option, none, some, List, [], ◌∷◌, ◌++◌, ◌==◌, if◌then◌else◌, any,
}
use apollo_backend.Prelude.Table.{select_where, update_where, delete_where, first, join}
use apollo_backend.Str.{Str, str_eq, is_empty}
use apollo_backend.Errors.{not_found, invalid, Result, ok, err}
use apollo_backend.Domain.{Account, Device, device_transport_apns}
use apollo_backend.Domain.Validation.{Rules, Url, validate_device}
use apollo_backend.Domain.Durations.{Time}
use apollo_backend.Schema.{Db, DeviceAccountRow}
use apollo_backend.Exec.{Exec, Env, pure, mapped, statement}
use apollo_backend.Repository.Accounts.{first_or_not_found, unique_violation, links}

unfoldable pub get_by_id_sql : ℕ → Time → Db → Result Device × Db
unfolding select_where first_or_not_found
get_by_id_sql id now db = (first_or_not_found (select_where (λ d. d.id == id) db.devices), db)

abbrev pub has_token : Str → Device → Bool
has_token token d = str_eq d.apns_token token

unfoldable pub get_by_apns_token_sql : Str → Time → Db → Result Device × Db
unfolding select_where first_or_not_found
get_by_apns_token_sql token now db =
    (first_or_not_found (select_where (has_token token) db.devices), db)

-- devices ⋈ devices_accounts, for the links that pass a test
unfoldable pub devices_linked : (DeviceAccountRow → Bool) → Db → List Device
unfolding select_where join
devices_linked p db =
    join
      (λ d. join (λ l. d ∷ []) (select_where (λ l. l.device_id == d.id && p l) db.devices_accounts))
      db.devices

unfoldable pub get_by_account_id_sql : ℕ → Time → Db → Result (List Device) × Db
unfolding devices_linked
get_by_account_id_sql id now db = (ok (devices_linked (λ l. l.account_id == id) db), db)

unfoldable pub get_inbox_notifiable_sql : ℕ → Time → Db → Result (List Device) × Db
unfolding devices_linked
get_inbox_notifiable_sql id now db =
    (ok (devices_linked (λ l. l.account_id == id && l.inbox_notifiable) db), db)

unfoldable pub get_watcher_notifiable_sql : ℕ → Time → Db → Result (List Device) × Db
unfolding devices_linked
get_watcher_notifiable_sql id now db =
    (ok (devices_linked (λ l. l.account_id == id && l.watcher_notifiable) db), db)

unfoldable pub normalize_transport : Device → Device
unfolding is_empty
normalize_transport dev =
    if is_empty dev.transport then record dev { transport = device_transport_apns } else dev

unfoldable pub switched : Device → Device → Device
switched dev row = record row {
  sandbox = dev.sandbox;
  transport = dev.transport;
  transport_endpoint = dev.transport_endpoint;
}

unfoldable pub insert_device : Device → Db → Result Device × Db
insert_device dev db = (
  ok (record dev { id = db.devices_seq }),
  record db {
    devices = db.devices ++ record dev { id = db.devices_seq } ∷ [];
    devices_seq = db.devices_seq + 1;
  },
)

unfoldable pub create_or_update_sql : Device → Time → Db → Result Device × Db
unfolding insert_device switched update_where select_where first
create_or_update_sql dev now db =
    elim (first (select_where (has_token dev.apns_token) db.devices)) [
      | none ↦ insert_device dev db
      | some row ↦ (
        ok (record dev { id = row.id }),
        record db {
          devices = update_where (has_token dev.apns_token) (switched dev) db.devices;
          devices_seq = db.devices_seq + 1;
        },
      )
    ]

unfoldable pub create_sql : Device → Time → Db → Result Device × Db
unfolding insert_device
create_sql dev now db =
    if any (has_token dev.apns_token) db.devices
    then (err unique_violation, record db { devices_seq = db.devices_seq + 1 })
    else insert_device dev db

unfoldable pub update_sql : Device → Time → Db → Result (Unit {0}) × Db
unfolding update_where switched
update_sql dev now db =
    (ok tt, record db { devices = update_where (λ d. d.id == dev.id) (switched dev) db.devices })

-- The links and the watchers of a device that is deleted go with it (ON DELETE CASCADE).
abbrev pub names_deleted : Str → Db → ℕ → Bool
names_deleted token db device = any (λ d. has_token token d && d.id == device) db.devices

abbrev pub of_deleted : Str → Db → DeviceAccountRow → Bool
of_deleted token db l = names_deleted token db l.device_id

unfoldable pub delete_sql : Str → Time → Db → Result (Unit {0}) × Db
unfolding delete_where
delete_sql token now db = (
  ok tt,
  record db {
    devices = delete_where (has_token token) db.devices;
    devices_accounts = delete_where (of_deleted token db) db.devices_accounts;
    watchers = delete_where (λ w. names_deleted token db w.device_id) db.watchers;
  },
)

unfoldable pub with_flags : (inbox watcher global : Bool) → DeviceAccountRow → DeviceAccountRow
with_flags inbox watcher global l = record l {
  watcher_notifiable = watcher;
  inbox_notifiable = inbox;
  global_mute = global;
}

unfoldable pub set_notifiable_sql :
    Device → Account → (inbox watcher global : Bool) → Time → Db → Result (Unit {0}) × Db
unfolding update_where with_flags
set_notifiable_sql dev acct inbox watcher global now db = (
  ok tt,
  record db {
    devices_accounts =
        update_where (links acct.id dev.id) (with_flags inbox watcher global) db.devices_accounts;
  },
)

-- `Scan` reads the first row; whatever goes wrong is ErrNotFound.
unfoldable pub get_notifiable_sql : Device → Account → Time → Db → Result (Bool × Bool × Bool) × Db
unfolding select_where first
get_notifiable_sql dev acct now db =
    elim (first (select_where (links acct.id dev.id) db.devices_accounts)) [
      | none ↦ (err not_found, db)
      | some l ↦ (ok (l.inbox_notifiable, l.watcher_notifiable, l.global_mute), db)
    ]

module _ (env : Env) where
  unfoldable pub get_by_id : ℕ → Exec (Result Device)
  get_by_id id = statement env (get_by_id_sql id)

  unfoldable pub get_by_apns_token : Str → Exec (Result Device)
  get_by_apns_token token = statement env (get_by_apns_token_sql token)

  unfoldable pub get_by_account_id : ℕ → Exec (Result (List Device))
  get_by_account_id id = statement env (get_by_account_id_sql id)

  unfoldable pub get_inbox_notifiable_by_account_id : ℕ → Exec (Result (List Device))
  get_inbox_notifiable_by_account_id id = statement env (get_inbox_notifiable_sql id)

  unfoldable pub get_watcher_notifiable_by_account_id : ℕ → Exec (Result (List Device))
  get_watcher_notifiable_by_account_id id = statement env (get_watcher_notifiable_sql id)

  unfoldable pub create_or_update : Device → Exec (Result Device)
  unfolding normalize_transport
  create_or_update dev = statement env (create_or_update_sql (normalize_transport dev))

  unfoldable pub delete : Str → Exec (Result (Unit {0}))
  delete token = statement env (delete_sql token)

  unfoldable pub set_notifiable :
      Device → Account → (inbox watcher global : Bool) → Exec (Result (Unit {0}))
  set_notifiable dev acct inbox watcher global =
      statement env (set_notifiable_sql dev acct inbox watcher global)

  -- Any error is ErrNotFound.
  abbrev pub or_not_found : {A : Type 0} → Result A → Result A
  or_not_found (ok a) = ok a
  or_not_found (err e) = err not_found

  unfoldable pub get_notifiable : Device → Account → Exec (Result (Bool × Bool × Bool))
  get_notifiable dev acct w =
      let (o, w') = statement env (get_notifiable_sql dev acct) w in (mapped or_not_found o, w')

  module _ (v : Rules) (parse_url : Str → Option Url) where
    unfoldable pub create : Device → Exec (Result Device)
    unfolding normalize_transport
    create dev =
        if validate_device v parse_url (normalize_transport dev)
        then statement env (create_sql (normalize_transport dev))
        else pure (err invalid)

    unfoldable pub update : Device → Exec (Result (Unit {0}))
    unfolding normalize_transport
    update dev =
        if validate_device v parse_url (normalize_transport dev)
        then statement env (update_sql (normalize_transport dev))
        else pure (err invalid)
