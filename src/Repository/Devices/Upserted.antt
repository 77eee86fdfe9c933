-- ===== src/Repository/Devices/Upserted.antt =====
-- What CreateOrUpdate of the device repository stores.
use apollo_backend.Prelude.{
  ℕ, ◌+◌, ◌≡◌, refl, ap, ◌∙◌, none, arith, Option-cases, inl, inr, Bool-cases,
}
use apollo_backend.Prelude.Table.{select_where, first}
use apollo_backend.Str.{str_eq_refl, str_eq_iff, is_empty}
use apollo_backend.Errors.{ok}
use apollo_backend.Domain.{Device, device_transport_apns}
use apollo_backend.Domain.Durations.{Time}
use apollo_backend.Schema.{Db}
use apollo_backend.Exec.{Env, World, returned, ◌>>=◌, statement}
use apollo_backend.Repository.Found.{
  first-update_where, first-selected, first-insert, found_lem, first_lem,
}
use apollo_backend.Repository.Devices.{
  has_token, normalize_transport, switched, create_or_update_sql, get_by_apns_token_sql,
  create_or_update, get_by_apns_token,
}

-- A known token keeps its number, a new one has the next.
upsert-get :
    (dev : Device) (now t : Time) (db : Db)
    → (r : Device) × ((create_or_update_sql dev now db).0 ≡ ok r)
      × ((get_by_apns_token_sql dev.apns_token t (create_or_update_sql dev now db).1).0 ≡ ok r)
      × (record r { id = dev.id } ≡ dev)
      × ((old : Device) → (get_by_apns_token_sql dev.apns_token now db).0 ≡ ok old → r.id ≡ old.id)
unfolding create_or_update_sql get_by_apns_token_sql switched
upsert-get dev now t db =
    elim (Option-cases (first (select_where (has_token dev.apns_token) db.devices))) [
      | inl e ↦
          let new : Device = record dev { id = db.devices_seq } in
          rw (e, create_or_update_sql)
            (
              new,
              refl,
              found_lem _ new (
                  first-insert (has_token dev.apns_token) db.devices new
                    (str_eq_refl dev.apns_token) e),
              refl,
              (λ old k. let f = first_lem _ old k in ground arith),
            )
      | inr (row, e) ↦
          let q = first-selected (has_token dev.apns_token) db.devices row e in
          rw (e, create_or_update_sql)
            (
              record dev { id = row.id },
              refl,
              found_lem _ (switched dev row) (
                    first-update_where (has_token dev.apns_token) (switched dev) db.devices row
                      (λ r. refl) e)
                  ∙ ap (λ token. ok (record dev { id = row.id; apns_token = token }))
                      ((str_eq_iff row.apns_token dev.apns_token).0 q),
              refl,
              (λ old k.
                  let f = first_lem _ old k in
                  let same : row ≡ old = ground arith in ap (λ d. d.id) same),
            )
    ]

stored-get :
    (env : Env) (dev : Device) (w : World)
    → ((i : ℕ) → env.db_error i ≡ none)
    → (r : Device) × ((statement env (create_or_update_sql dev) w).0 ≡ returned (ok r))
      × ((get_by_apns_token env dev.apns_token (statement env (create_or_update_sql dev) w).1).0
          ≡ returned (ok r))
      × (record r { id = dev.id } ≡ dev)
      × ((old : Device)
          → (get_by_apns_token env dev.apns_token w).0 ≡ returned (ok old)
          → r.id ≡ old.id)
unfolding get_by_apns_token statement
stored-get env dev w fine =
    let now = env.now w.calls in
    let (r, o, g, k, same) = upsert-get dev now (env.now (w.calls + 1)) w.db in
    rw (fine w.calls, o, fine (w.calls + 1), g)
      (
        r,
        refl,
        refl,
        k,
        λ old h.
            let there : (get_by_apns_token_sql dev.apns_token now w.db).0 ≡ ok old = ground arith in
            same old there,
      )

-- While the database answers, a device that is stored is what the next look-up of its token finds,
-- with all its fields, as the transport was normalized, and with the number that was returned; this
-- is the number that the token had before if it was known, so that its links stay.
pub create_or_update-get :
    (env : Env) (dev : Device) (w : World)
    → ((i : ℕ) → env.db_error i ≡ none)
    → (r : Device) × ((create_or_update env dev w).0 ≡ returned (ok r))
      × ((get_by_apns_token env dev.apns_token (create_or_update env dev w).1).0 ≡ returned (ok r))
      × (record r { id = dev.id } ≡ normalize_transport dev)
      × ((old : Device)
          → (get_by_apns_token env dev.apns_token w).0 ≡ returned (ok old)
          → r.id ≡ old.id)
unfolding create_or_update get_by_apns_token statement ◌>>=◌
create_or_update-get env dev w fine = elim (Bool-cases (is_empty dev.transport)) [
  | inl e ↦ rw e (stored-get env (record dev { transport = device_transport_apns }) w fine)
  | inr e ↦ rw e (stored-get env dev w fine)
]
