-- ===== src/Examples/Jobs.antt =====
-- Runs of the workers on small worlds.
use apollo_backend.Prelude.{◌≡◌, refl, false, All, if◌then◌else◌, none, List, [], ◌∷◌}
use apollo_backend.Prelude.{arith, ℕ, any, ◌==◌, ◌&&◌}
use apollo_backend.Scheduler.Enqueue.{enqueue_live_activities}
use apollo_backend.Scheduler.Enqueue.LiveActivities.{IsLockedBatch, enqueue_live_activities-batch}
use apollo_backend.Str.{lit, str_eq}
use apollo_backend.Errors.{not_found, ok, err}
use apollo_backend.Domain.{Account, LiveActivity, Watcher, user_watcher}
use apollo_backend.Exec.{returned}
use apollo_backend.Repository.Accounts
use apollo_backend.Repository.LiveActivities.{create, get, get_sql}
use apollo_backend.Repository.LiveActivities.Registration.{create-get}
use apollo_backend.Repository.LiveActivities.Registration
use apollo_backend.Repository.WellFormed.{WellFormed}
use apollo_backend.Repository.WellFormed.Operations.{
  upsert_account, upsert_device, associate, run_all, run_all-keeps_tables,
}
use apollo_backend.Schema.{Db}
use apollo_backend.Repository.Watchers.{by_type_and_watchee_sql}
use apollo_backend.Repository.Watchers.Notifiable.{
  IsNotified, is_due, by_type_and_watchee-IsNotified,
}
use apollo_backend.Worker.ParseInt.{parse_int, natural, digits_from}
use apollo_backend.Worker.StuckNotifications.{examined, consume_stuck}
use apollo_backend.Worker.StuckNotifications.Moves.{IsMoved, consume_stuck-moves}
use apollo_backend.Worker.StuckNotifications.Messages.{is_missing, examined-private}
use apollo_backend.Worker.Notifications.{received}
use apollo_backend.Worker.Notifications.Newest.{name_of_standing}
use apollo_backend.Worker.Notifications.FirstCheck.{set_account, received-first_check}
use apollo_backend.Examples.Worlds.{
  watched, active, env_at, empty_db, world, account, codec, sender, transport, parser, listing,
  live_activity, client, phone, rules,
}

empty_world-WellFormed : WellFormed empty_db
empty_world-WellFormed = record {
  accounts = record { usernames = tt; ids = tt; below = tt };
  devices = record { tokens = tt; ids = tt; below = tt };
  linked = record { to_accounts = tt; to_devices = tt; pairs = tt };
  live = record { tokens = tt; ids = tt; below = tt };
}

-- An account with a phone.
abbrev registered : Account → Db
registered a =
    (run_all (env_at 1) rules (λ s. none)
      (upsert_account a ∷ upsert_device phone ∷ associate (record a { id = 1 }) phone ∷ [])
      (world empty_db [])).1.db

registered-WellFormed : (a : Account) → WellFormed (registered a)
registered-WellFormed a =
    run_all-keeps_tables (env_at 1) rules (λ s. none)
      (upsert_account a ∷ upsert_device phone ∷ associate (record a { id = 1 }) phone ∷ [])
      (world empty_db []) empty_world-WellFormed

abbrev new_account : Account
new_account = record account { check_count = 0 }

received-first_check_example :
    ((received (env_at 1) codec sender new_account listing (world watched [])).0 ≡ returned tt)
    × ((received (env_at 1) codec sender new_account listing (world watched [])).1.trace ≡ [])
    × ((received (env_at 1) codec sender new_account listing (world watched [])).1.db
        ≡ set_account
            (record new_account {
              last_message_id = name_of_standing new_account.last_message_id listing.children;
              check_count = 1;
            })
            watched)
unfolding str_eq
received-first_check_example =
    received-first_check (env_at 1) (λ i. refl) codec sender new_account listing (world watched [])
      refl refl

create-get_example :
    (r : LiveActivity) × ((create (env_at 7) live_activity (world empty_db [])).0 ≡ returned (ok r))
    × ((get
          (env_at 7)
          live_activity.apns_token
          (create (env_at 7) live_activity (world empty_db [])).1).0
        ≡ returned (ok (Registration.registered live_activity 7 r.id (err not_found))))
unfolding get_sql
create-get_example = create-get (env_at 7) live_activity (world empty_db []) (λ i. refl)

abbrev stuck : Account
stuck = record account { last_message_id = lit "t4_9" }

examined-private_example :
    ((examined (env_at 1) transport parser stuck client (ok listing) (world empty_db [])).0
      ≡ returned tt)
    × ((examined (env_at 1) transport parser stuck client (ok listing) (world empty_db [])).1.trace
        ≡ [])
    × ((examined (env_at 1) transport parser stuck client (ok listing) (world empty_db [])).1.db ≡ (
        if is_missing stuck listing.children
        then (Accounts.update
            (env_at 1)
            (record stuck { last_message_id = name_of_standing [] listing.children })
            (world empty_db [])).1.db
        else empty_db))
unfolding str_eq
examined-private_example =
    examined-private (env_at 1) transport parser stuck client refl listing (world empty_db [])

by_type_and_watchee-IsNotified_example :
    (ws : List Watcher) × ((by_type_and_watchee_sql user_watcher 5 1 watched).0 ≡ ok ws)
    × All (IsNotified watched user_watcher 5) ws
    × ((i : ℕ)
        → any (λ w. w.id == i) ws
          ≡ any (λ row. row.id == i && is_due watched user_watcher 5 row) watched.watchers)
by_type_and_watchee-IsNotified_example = by_type_and_watchee-IsNotified user_watcher 5 1 watched

enqueue_live_activities-batch_example :
    ((enqueue_live_activities (env_at 60) (λ n. false) (world active [])).0 ≡ returned tt)
    × IsLockedBatch 100 [] (enqueue_live_activities (env_at 60) (λ n. false) (world active [])).1
enqueue_live_activities-batch_example =
    enqueue_live_activities-batch (env_at 60) 100 (λ i. omega arith) (λ n. false) (world active [])

-- A user that is due.
abbrev followed : Db
followed = record empty_db {
  users = record { id = 5; next_check_at = 10; user_id = lit "u"; name = lit "ann" } ∷ [];
}

abbrev stuck_db : Db
stuck_db = record watched { accounts = record { account = stuck; is_deleted = false } ∷ [] }

consume_stuck-moves_example :
    IsMoved 1 stuck_db
      (consume_stuck (env_at 1) transport parser (lit "1") (world stuck_db [])).1.db
unfolding parse_int natural digits_from
consume_stuck-moves_example =
    consume_stuck-moves (env_at 1) transport parser (lit "1") 1 (world stuck_db []) refl (tt, tt)
