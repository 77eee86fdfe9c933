-- ===== src/Api/Accounts/Notifications.antt =====
-- The handlers of an account's notification settings.
use apollo_backend.Prelude.{ℕ, ◌≡◌, refl, true, none, any, ◌+◌}
use apollo_backend.Str.{Str}
use apollo_backend.Errors.{Result, ok}
use apollo_backend.Domain.{Account, Device}
use apollo_backend.Domain.Durations.{Time}
use apollo_backend.Schema.{Db}
use apollo_backend.Exec.{Exec, Env, World, pure, returned, statement, ◌>>=◌}
use apollo_backend.Repository.Accounts
use apollo_backend.Repository.Accounts.{links}
use apollo_backend.Repository.Devices
use apollo_backend.Repository.Settings.{Flags, set, run_op}
use apollo_backend.Repository.Settings.Refines.{set-found}
use apollo_backend.Api.Responses.{Response, success, or_fail, done}
use apollo_backend.Api.Accounts.{
  AccountNotificationsRequest, with_device_and_account, notifications_account, notifications_of,
  get_notifications_account,
}

module _ (env : Env) (up : (i : ℕ) → env.db_error i ≡ none) where
  -- A statement while the database answers.
  statement_lem :
      {A : Type 0} (f : Time → Db → Result A × Db) (w : World)
      → statement env f w ≡ (
        returned (f (env.now w.calls) w.db).0,
        record w { db = (f (env.now w.calls) w.db).1; calls = w.calls + 1 },
      )
  unfolding statement
  statement_lem f w = rw (up w.calls, statement) refl

  with_lem :
      {A : Type 0} (apns rid : Str) (w : World) (d : Device) (a : Account)
      (next : Device → Account → Exec (Response A))
      → (Devices.get_by_apns_token_sql apns 0 w.db).0 ≡ ok d
      → (Accounts.get_by_reddit_id_sql rid 0 w.db).0 ≡ ok a
      → with_device_and_account env apns rid next w
        ≡ next d a (record w { calls = w.calls + 1 + 1 })
  unfolding with_device_and_account or_fail Devices.get_by_apns_token Accounts.get_by_reddit_id
      Devices.get_by_apns_token_sql Accounts.get_by_reddit_id_sql ◌>>=◌ statement
  with_lem apns rid w d a next fd fa = rw (up w.calls, fd, up (w.calls + 1), fa, statement) refl

  abbrev flags_in : AccountNotificationsRequest → Flags
  flags_in anr = (anr.inbox_notifications, anr.watcher_notifications, anr.global_mute)

  -- The world behind the settings that were put.
  abbrev put_world : AccountNotificationsRequest → Device → Account → World → World
  put_world anr d a w = record w {
    db = run_op (env.now (w.calls + 1 + 1)) (set a d (flags_in anr)) w.db;
    calls = w.calls + 1 + 1 + 1;
  }

  put_lem :
      (anr : AccountNotificationsRequest) (apns rid : Str) (w : World) (d : Device) (a : Account)
      → (Devices.get_by_apns_token_sql apns 0 w.db).0 ≡ ok d
      → (Accounts.get_by_reddit_id_sql rid 0 w.db).0 ≡ ok a
      → notifications_account env (ok anr) apns rid w ≡ (returned (success tt), put_world anr d a w)
  unfolding notifications_account or_fail done Devices.set_notifiable Devices.set_notifiable_sql
      statement ◌>>=◌
  put_lem anr apns rid w d a fd fa =
      rw (with_lem apns rid w d a _ fd fa, up (w.calls + 1 + 1), statement) refl

  get_lem :
      (anr : AccountNotificationsRequest) (apns rid : Str) (w : World) (d : Device) (a : Account)
      → (Devices.get_by_apns_token_sql apns 0 w.db).0 ≡ ok d
      → (Accounts.get_by_reddit_id_sql rid 0 w.db).0 ≡ ok a
      → (Devices.get_notifiable_sql d a (env.now (w.calls + 1 + 1)) w.db).0 ≡ ok (flags_in anr)
      → (get_notifications_account env apns rid w).0 ≡ returned (success anr)
  unfolding get_notifications_account or_fail Devices.get_notifiable notifications_of statement
      ◌>>=◌
  get_lem anr apns rid w d a fd fa found =
      let answer : Device → Account → Exec (Response AccountNotificationsRequest) = λ d' a'.
        Devices.get_notifiable env d' a' >>= λ flags.
        or_fail 500 flags (λ f. pure (success (notifications_of env f))) in
      rw (with_lem apns rid w d a answer fd fa, up (w.calls + 1 + 1), found, statement) refl

  -- Where the path names a device and an account that are linked, settings that are put through the
  -- API are what the API then answers, while the database answers.
  pub notifications_account-get :
      (anr : AccountNotificationsRequest) (apns rid : Str) (w : World) (d : Device) (a : Account)
      → (Devices.get_by_apns_token_sql apns 0 w.db).0 ≡ ok d
      → (Accounts.get_by_reddit_id_sql rid 0 w.db).0 ≡ ok a
      → any (links a.id d.id) w.db.devices_accounts ≡ true
      → ((notifications_account env (ok anr) apns rid w).0 ≡ returned (success tt))
        × ((get_notifications_account env apns rid
              (notifications_account env (ok anr) apns rid w).1).0
            ≡ returned (success anr))
  unfolding Devices.set_notifiable_sql Devices.get_by_apns_token_sql Accounts.get_by_reddit_id_sql
  notifications_account-get anr apns rid w d a fd fa linked =
      let v = put_world anr d a w in
      rw (put_lem anr apns rid w d a fd fa) (
        refl,
        get_lem anr apns rid v d a fd fa (
            set-found (env.now (w.calls + 1 + 1)) (env.now (v.calls + 1 + 1)) a d (flags_in anr)
              w.db linked),
      )
