-- ===== src/Repository/WellFormed/Operations.antt =====
-- Every method of the account, device and live activity repositories, as one type of operations.
use apollo_backend.Prelude.{◌≡◌, refl, Bool, Option, List, [], ◌∷◌, ℕ, arith}
use apollo_backend.Str.{Str}
use apollo_backend.Errors.{Result}
use apollo_backend.Domain.{Account, Device, LiveActivity}
use apollo_backend.Domain.Validation.{Rules, Url}
use apollo_backend.Domain.Durations.{Time}
use apollo_backend.Schema.{Db}
use apollo_backend.Exec.{Exec, Env, World, pure, statement, ◌>>◌, mapped}
use apollo_backend.Exec.Keeps.{
  Keeps, keeps_rules, Keeps-statement, Keeps-pure, Keeps-if, Keeps-bind, Keeps-external,
}
use apollo_backend.Repository.Accounts
use apollo_backend.Repository.Devices
use apollo_backend.Repository.LiveActivities
use apollo_backend.Repository.WellFormed.{WellFormed}
use apollo_backend.Repository.WellFormed.AccountStatements.{
  upsert_account-WellFormed, create_account-WellFormed, update_account-WellFormed,
  mark_accounts-WellFormed, links-WellFormed, associate-WellFormed,
}
use apollo_backend.Repository.WellFormed.DeviceStatements.{
  upsert_device-WellFormed, create_device-WellFormed, update_device-WellFormed,
  delete_device-WellFormed, live-WellFormed, upsert_live-WellFormed,
}
use apollo_backend.Repository.WellFormed.ActivityRows.{delete-ActivitiesOk}
use apollo_backend.Repository.WellFormed.DeviceRows.{delete-LinksOk, flags-LinksOk}

pub data Operation : Type 0 where
  account_by_id delete_account : ℕ → Operation
  account_by_reddit_id accounts_by_token : Str → Operation
  upsert_account create_account update_account : Account → Operation
  associate disassociate : Account → Device → Operation
  prune_stale : Time → Operation
  prune_orphaned : Operation
  device_by_id devices_by_account inbox_devices watcher_devices : ℕ → Operation
  device_by_token delete_device : Str → Operation
  upsert_device create_device update_device : Device → Operation
  set_notifiable : Device → Account → Bool → Bool → Bool → Operation
  get_notifiable : Device → Account → Operation
  get_live delete_live : Str → Operation
  upsert_live : LiveActivity → Operation
  remove_stale : Time → Operation

module _ (env : Env) (v : Rules) (parse_url : Str → Option Url) where
  pub run : Operation → Exec (Unit {0})
  run (account_by_id i) = do Accounts.get_by_id env i; pure tt
  run (delete_account i) = do Accounts.delete env i; pure tt
  run (account_by_reddit_id s) = do Accounts.get_by_reddit_id env s; pure tt
  run (accounts_by_token s) = do Accounts.get_by_apns_token env s; pure tt
  run (upsert_account a) = do Accounts.create_or_update env a; pure tt
  run (create_account a) = do Accounts.create env a; pure tt
  run (update_account a) = do Accounts.update env a; pure tt
  run (associate a d) = do Accounts.associate env a d; pure tt
  run (disassociate a d) = do Accounts.disassociate env a d; pure tt
  run (prune_stale t) = do Accounts.prune_stale env t; pure tt
  run prune_orphaned = do Accounts.prune_orphaned env; pure tt
  run (device_by_id i) = do Devices.get_by_id env i; pure tt
  run (devices_by_account i) = do Devices.get_by_account_id env i; pure tt
  run (inbox_devices i) = do Devices.get_inbox_notifiable_by_account_id env i; pure tt
  run (watcher_devices i) = do Devices.get_watcher_notifiable_by_account_id env i; pure tt
  run (device_by_token s) = do Devices.get_by_apns_token env s; pure tt
  run (delete_device s) = do Devices.delete env s; pure tt
  run (upsert_device d) = do Devices.create_or_update env d; pure tt
  run (create_device d) = do Devices.create env v parse_url d; pure tt
  run (update_device d) = do Devices.update env v parse_url d; pure tt
  run (set_notifiable d a i w g) = do Devices.set_notifiable env d a i w g; pure tt
  run (get_notifiable d a) = do Devices.get_notifiable env d a; pure tt
  run (get_live s) = do LiveActivities.get env s; pure tt
  run (delete_live s) = do LiveActivities.delete env s; pure tt
  run (upsert_live la) = do LiveActivities.create env la; pure tt
  run (remove_stale t) = do LiveActivities.remove_stale env t; pure tt

  pub run_all : List Operation → Exec (Unit {0})
  run_all [] = pure tt
  run_all (op ∷ ops) = do run op; run_all ops

  abbrev IsKept : {A : Type 0} → Exec A → Type 0
  IsKept m = Keeps (λ w. WellFormed w.db) m

  discard : {A : Type 0} (m : Exec A) → IsKept m → IsKept (m >> pure tt)
  discard m h = search (keeps_rules, h)

  by_statement :
      {A : Type 0} (f : Time → Db → Result A × Db)
      → ((now : Time) (db : Db) → WellFormed db → WellFormed (f now db).1)
      → IsKept (statement env f >> pure tt)
  by_statement f h = discard (statement env f) (Keeps-statement WellFormed env f h)

  -- Nothing is written.
  by_query :
      {A : Type 0} (f : Time → Db → Result A × Db)
      → ((now : Time) (db : Db) → (f now db).1 ≡ db)
      → IsKept (statement env f >> pure tt)
  by_query f same = by_statement f (λ now db h. rw same h)

  mapped-IsKept :
      {A : Type 0} (g : A → A) (m : Exec A) → IsKept m → IsKept (λ w. (mapped g (m w).0, (m w).1))
  mapped-IsKept g m h = record { at = h.at }

  notifiable_same :
      (d : Device) (a : Account) (now : Time) (db : Db)
      → (Devices.get_notifiable_sql d a now db).1 ≡ db
  unfolding Devices.get_notifiable_sql
  notifiable_same d a now db = ground arith

  run-WellFormed : (op : Operation) → IsKept (run op)
  unfolding run Accounts.get_by_id Accounts.get_by_id_sql Accounts.delete Accounts.delete_sql
      Accounts.get_by_reddit_id Accounts.get_by_reddit_id_sql Accounts.get_by_apns_token
      Accounts.get_by_apns_token_sql Accounts.create_or_update Accounts.create Accounts.update
      Accounts.associate Accounts.disassociate Accounts.disassociate_sql Accounts.prune_stale
      Accounts.prune_stale_sql Accounts.prune_orphaned Accounts.prune_orphaned_sql
      Accounts.prune_sql Devices.get_by_id Devices.get_by_id_sql Devices.get_by_account_id
      Devices.get_by_account_id_sql Devices.get_inbox_notifiable_by_account_id
      Devices.get_inbox_notifiable_sql Devices.get_watcher_notifiable_by_account_id
      Devices.get_watcher_notifiable_sql Devices.get_by_apns_token Devices.get_by_apns_token_sql
      Devices.delete Devices.create_or_update Devices.create Devices.update Devices.set_notifiable
      Devices.set_notifiable_sql Devices.get_notifiable LiveActivities.get LiveActivities.get_sql
      LiveActivities.delete LiveActivities.delete_sql LiveActivities.create
      LiveActivities.remove_stale LiveActivities.remove_stale_sql
  run-WellFormed (account_by_id i) = by_query _ (λ now db. refl)
  run-WellFormed (delete_account i) = by_statement _ (λ now db h. mark_accounts-WellFormed h _)
  run-WellFormed (account_by_reddit_id s) = by_query _ (λ now db. refl)
  run-WellFormed (accounts_by_token s) = by_query _ (λ now db. refl)
  run-WellFormed (upsert_account a) = by_statement _ (λ now db h. upsert_account-WellFormed h a now)
  run-WellFormed (create_account a) = by_statement _ (λ now db h. create_account-WellFormed h a now)
  run-WellFormed (update_account a) = by_statement _ (λ now db h. update_account-WellFormed h a now)
  run-WellFormed (associate a d) = by_statement _ (λ now db h. associate-WellFormed h a d now)
  run-WellFormed (disassociate a d) =
      by_statement _ (λ now db h. links-WellFormed h _ (delete-LinksOk h.linked _))
  run-WellFormed (prune_stale t) = by_statement _ (λ now db h. mark_accounts-WellFormed h _)
  run-WellFormed prune_orphaned = by_statement _ (λ now db h. mark_accounts-WellFormed h _)
  run-WellFormed (device_by_id i) = by_query _ (λ now db. refl)
  run-WellFormed (devices_by_account i) = by_query _ (λ now db. refl)
  run-WellFormed (inbox_devices i) = by_query _ (λ now db. refl)
  run-WellFormed (watcher_devices i) = by_query _ (λ now db. refl)
  run-WellFormed (device_by_token s) = by_query _ (λ now db. refl)
  run-WellFormed (delete_device s) = by_statement _ (λ now db h. delete_device-WellFormed h s now)
  run-WellFormed (upsert_device d) = by_statement _ (λ now db h. upsert_device-WellFormed h _ now)
  run-WellFormed (create_device d) = discard _ (
      Keeps-if _ (Keeps-statement WellFormed env _ (λ now db h. create_device-WellFormed h _ now))
        (Keeps-pure _))
  run-WellFormed (update_device d) = discard _ (
      Keeps-if _ (Keeps-statement WellFormed env _ (λ now db h. update_device-WellFormed h _ now))
        (Keeps-pure _))
  run-WellFormed (set_notifiable d a i w g) =
      by_statement _
        (λ now db h. links-WellFormed h _ (flags-LinksOk h.linked _ _ (λ l. refl) (λ l. refl)))
  run-WellFormed (get_notifiable d a) = discard _ (
      mapped-IsKept _ (statement env (Devices.get_notifiable_sql d a))
        (Keeps-statement WellFormed env _ (λ now db h. rw notifiable_same h)))
  run-WellFormed (get_live s) = by_query _ (λ now db. refl)
  run-WellFormed (delete_live s) =
      by_statement _
        (λ now db h. live-WellFormed h _ db.live_activities_seq (delete-ActivitiesOk _ h.live))
  run-WellFormed (upsert_live la) = discard _ (
      Keeps-bind _ _ (Keeps-external WellFormed env.now)
        (λ t. Keeps-statement WellFormed env _ (λ now db h. upsert_live-WellFormed h _ now)))
  run-WellFormed (remove_stale t) =
      by_statement _
        (λ now db h. live-WellFormed h _ db.live_activities_seq (delete-ActivitiesOk _ h.live))

  run_all-WellFormed : (ops : List Operation) → IsKept (run_all ops)
  unfolding run_all
  run_all-WellFormed [] = Keeps-pure tt
  run_all-WellFormed (op ∷ ops) =
      Keeps-bind (run op) (λ _. run_all ops) (run-WellFormed op) (λ _. run_all-WellFormed ops)

  -- Any sequence of repository calls, each of which may fail, takes well-formed tables (unique
  -- usernames, numbers and tokens, sequences ahead of the numbers, no dangling or doubled link) to
  -- well-formed tables.
  pub run_all-keeps_tables :
      (ops : List Operation) (w : World) → WellFormed w.db → WellFormed (run_all ops w).1.db
  run_all-keeps_tables ops w h = (run_all-WellFormed ops).at w h
