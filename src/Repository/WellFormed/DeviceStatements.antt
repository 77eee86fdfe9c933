-- ===== src/Repository/WellFormed/DeviceStatements.antt =====
-- The statements on `devices` and `live_activities` keep the tables well formed.
use apollo_backend.Prelude.{
  ℕ, ◌≡◌, ◌∙◌, refl, true, false, List, [], ◌∷◌, inl, inr, any, All, Bool-cases, Option-cases,
}
use apollo_backend.Prelude.Table.{select_where, delete_where, first}
use apollo_backend.Prelude.Keys.{any_of_first-none, any-update_where, any-append, any-delete_where}
use apollo_backend.Str.{Str}
use apollo_backend.Domain.{Device, LiveActivity}
use apollo_backend.Domain.Durations.{Time}
use apollo_backend.Schema.{Db, DeviceAccountRow}
use apollo_backend.Repository.Devices
use apollo_backend.Repository.Devices.{has_token, switched, insert_device, of_deleted, with_flags}
use apollo_backend.Repository.LiveActivities
use apollo_backend.Repository.WellFormed.{ActivitiesOk, DevicesOk, WellFormed, device_has_id}
use apollo_backend.Repository.WellFormed.ActivityRows.{insert-ActivitiesOk, extend-ActivitiesOk}
use apollo_backend.Repository.WellFormed.DeviceRows.{
  insert-DevicesOk, switch-DevicesOk, skip-DevicesOk, delete-DevicesOk, LinksOk-tables,
  delete-LinksOk,
}
use apollo_backend.Repository.WellFormed.AccountStatements.{or_true}

module _ {db : Db} (wf : WellFormed db) where
  -- The devices change, and every number stays.
  devices-WellFormed :
      (rows : List Device) (seq : ℕ)
      → DevicesOk rows seq
      → ((i : ℕ) → any (device_has_id i) db.devices ≡ true → any (device_has_id i) rows ≡ true)
      → WellFormed (record db { devices = rows; devices_seq = seq })
  devices-WellFormed rows seq rows_ok keeps = record {
    accounts = wf.accounts;
    devices = rows_ok;
    linked = LinksOk-tables wf.linked (λ i h. h) keeps;
    live = wf.live;
  }

  insert_device-WellFormed :
      (dev : Device)
      → any (has_token dev.apns_token) db.devices ≡ false
      → WellFormed (insert_device dev db).1
  unfolding insert_device
  insert_device-WellFormed dev e =
      devices-WellFormed _ _ (insert-DevicesOk dev wf.devices e)
        (λ i h. rw any-append (or_true _ _ h))

  pub upsert_device-WellFormed :
      (dev : Device) (now : Time) → WellFormed (Devices.create_or_update_sql dev now db).1
  unfolding Devices.create_or_update_sql
  upsert_device-WellFormed dev now =
      elim (Option-cases (first (select_where (has_token dev.apns_token) db.devices))) [
        | inl e ↦
            rw (e, Devices.create_or_update_sql)
              (insert_device-WellFormed dev
                (any_of_first-none (has_token dev.apns_token) db.devices e))
        | inr (row, e) ↦
            rw (e, Devices.create_or_update_sql)
              (devices-WellFormed _ _
                (skip-DevicesOk (switch-DevicesOk dev wf.devices (has_token dev.apns_token)))
                (λ i h.
                  any-update_where (device_has_id i) (has_token dev.apns_token) (switched dev)
                    db.devices (λ r _. refl)
                  ∙ h))
      ]

  pub create_device-WellFormed :
      (dev : Device) (now : Time) → WellFormed (Devices.create_sql dev now db).1
  unfolding Devices.create_sql
  create_device-WellFormed dev now = elim (Bool-cases (any (has_token dev.apns_token) db.devices)) [
    | inl e ↦ rw e (devices-WellFormed _ _ (skip-DevicesOk wf.devices) (λ i h. h))
    | inr e ↦ rw e (insert_device-WellFormed dev e)
  ]

  pub update_device-WellFormed :
      (dev : Device) (now : Time) → WellFormed (Devices.update_sql dev now db).1
  unfolding Devices.update_sql
  update_device-WellFormed dev now =
      devices-WellFormed _ db.devices_seq (switch-DevicesOk dev wf.devices (device_has_id dev.id))
        (λ i h.
          any-update_where (device_has_id i) (device_has_id dev.id) (switched dev) db.devices
            (λ r _. refl)
          ∙ h)

  -- A link that is left is to a device that is left.
  kept_devices :
      (token : Str) (rows : List DeviceAccountRow)
      → All (λ l. any (device_has_id l.device_id) db.devices ≡ true) rows
      → All
          (λ l. any (device_has_id l.device_id) (delete_where (has_token token) db.devices) ≡ true)
          (delete_where (of_deleted token db) rows)
  unfolding delete_where
  kept_devices token [] h = tt
  kept_devices token (l ∷ rows) (x, h) = elim (Bool-cases (of_deleted token db l)) [
    | inl e ↦ rw e (kept_devices token rows h)
    | inr e ↦ rw e (
      any-delete_where (device_has_id l.device_id) (has_token token) db.devices e ∙ x,
      kept_devices token rows h,
    )
  ]

  pub delete_device-WellFormed :
      (token : Str) (now : Time) → WellFormed (Devices.delete_sql token now db).1
  unfolding Devices.delete_sql
  delete_device-WellFormed token now =
      let rest = delete-LinksOk wf.linked (of_deleted token db) in
      record {
        accounts = wf.accounts;
        devices = delete-DevicesOk (has_token token) wf.devices;
        linked = record {
          to_accounts = rest.to_accounts;
          to_devices = kept_devices token db.devices_accounts wf.linked.to_devices;
          pairs = rest.pairs;
        };
        live = wf.live;
      }

  -- The live activities change.
  pub live-WellFormed :
      (rows : List LiveActivity) (seq : ℕ)
      → ActivitiesOk rows seq
      → WellFormed (record db { live_activities = rows; live_activities_seq = seq })
  live-WellFormed rows seq u = record {
    accounts = wf.accounts;
    devices = wf.devices;
    linked = wf.linked;
    live = u;
  }

  pub upsert_live-WellFormed :
      (la : LiveActivity) (now : Time) → WellFormed (LiveActivities.upsert_sql la now db).1
  unfolding LiveActivities.upsert_sql
  upsert_live-WellFormed la now =
      elim (Option-cases
        (first (select_where (LiveActivities.has_token la.apns_token) db.live_activities))) [
          | inl e ↦
              rw (e, LiveActivities.upsert_sql)
                (live-WellFormed _ _ (
                  insert-ActivitiesOk la wf.live (
                    any_of_first-none (LiveActivities.has_token la.apns_token) db.live_activities
                      e)))
          | inr (row, e) ↦
              rw (e, LiveActivities.upsert_sql)
                (live-WellFormed _ _
                  (extend-ActivitiesOk la wf.live (LiveActivities.has_token la.apns_token)))
        ]
