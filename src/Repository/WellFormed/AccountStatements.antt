-- ===== src/Repository/WellFormed/AccountStatements.antt =====
-- The statements on `accounts` and its links keep the tables well formed, whatever they return.
use apollo_backend.Prelude.{
  ℕ, ◌≡◌, ◌∙◌, refl, Bool, true, false, ◌&&◌, ◌||◌, List, arith, inl, inr, any, Bool-cases,
  and-true, Option-cases,
}
use apollo_backend.Prelude.Table.{select_where, update_where, first}
use apollo_backend.Prelude.Keys.{any_of_first-none, any-update_where, any-append}
use apollo_backend.Domain.{Account, Device}
use apollo_backend.Domain.Durations.{Time}
use apollo_backend.Schema.{Db, AccountRow, DeviceAccountRow}
use apollo_backend.Repository.Accounts
use apollo_backend.Repository.Accounts.{
  has_username, has_id, name_taken, inserted, refreshed, insert_account, links, mark_deleted,
}
use apollo_backend.Repository.WellFormed.{AccountsOk, LinksOk, WellFormed, device_has_id}
use apollo_backend.Repository.WellFormed.AccountRows.{
  insert-AccountsOk, same_keys-AccountsOk, skip-AccountsOk, update-AccountsOk, absent-AccountsOk,
}
use apollo_backend.Repository.WellFormed.DeviceRows.{LinksOk-tables, link-LinksOk}

pub or_true : (a b : Bool) → a ≡ true → (a || b) ≡ true
or_true a b h = ground arith

module _ {db : Db} (wf : WellFormed db) where
  -- The accounts change, and every number stays.
  accounts-WellFormed :
      (rows : List AccountRow) (seq : ℕ)
      → AccountsOk rows seq
      → ((i : ℕ) → any (has_id i) db.accounts ≡ true → any (has_id i) rows ≡ true)
      → WellFormed (record db { accounts = rows; accounts_seq = seq })
  accounts-WellFormed rows seq rows_ok keeps = record {
    accounts = rows_ok;
    devices = wf.devices;
    linked = LinksOk-tables wf.linked keeps (λ i h. h);
    live = wf.live;
  }

  insert_account-WellFormed :
      (acc : Account) (next stuck : Time)
      → any (has_username acc.username) db.accounts ≡ false
      → WellFormed (insert_account acc next stuck db).1
  unfolding insert_account
  insert_account-WellFormed acc next stuck e =
      accounts-WellFormed _ _ (insert-AccountsOk acc wf.accounts next stuck e)
        (λ i h. rw any-append (or_true _ _ h))

  same_keys-WellFormed :
      (p : AccountRow → Bool) (f : AccountRow → AccountRow) (seq : ℕ)
      → AccountsOk (update_where p f db.accounts) seq
      → ((r : AccountRow) → (f r).account.id ≡ r.account.id)
      → WellFormed (record db { accounts = update_where p f db.accounts; accounts_seq = seq })
  same_keys-WellFormed p f seq rows_ok numbers =
      accounts-WellFormed _ seq rows_ok
        (λ i h. any-update_where (has_id i) p f db.accounts (λ r _. rw numbers) ∙ h)

  pub upsert_account-WellFormed :
      (acc : Account) (now : Time) → WellFormed (Accounts.create_or_update_sql acc now db).1
  unfolding Accounts.create_or_update_sql
  upsert_account-WellFormed acc now =
      elim (Option-cases (first (select_where (has_username acc.username) db.accounts))) [
        | inl e ↦
            rw (e, Accounts.create_or_update_sql)
              (insert_account-WellFormed acc now now
                (any_of_first-none (has_username acc.username) db.accounts e))
        | inr (row, e) ↦
            rw (e, Accounts.create_or_update_sql)
              (same_keys-WellFormed (has_username acc.username) (refreshed acc) _
                (skip-AccountsOk (same_keys-AccountsOk wf.accounts _ _ (λ r. refl) (λ r. refl)))
                (λ r. refl))
      ]

  pub create_account-WellFormed :
      (acc : Account) (now : Time) → WellFormed (Accounts.create_sql acc now db).1
  unfolding Accounts.create_sql
  create_account-WellFormed acc now =
      elim (Bool-cases (any (has_username acc.username) db.accounts)) [
        | inl e ↦ rw e (accounts-WellFormed _ _ (skip-AccountsOk wf.accounts) (λ i h. h))
        | inr e ↦ rw e (
            insert_account-WellFormed acc acc.next_notification_check_at
              acc.next_stuck_notification_check_at e)
      ]

  given_account-WellFormed :
      (acc : Account)
      → AccountsOk
          (update_where (has_id acc.id) (λ row. record row { account = acc }) db.accounts)
          db.accounts_seq
      → WellFormed (record db {
        accounts = update_where (has_id acc.id) (λ row. record row { account = acc }) db.accounts;
      })
  given_account-WellFormed acc rows_ok = accounts-WellFormed _ db.accounts_seq rows_ok (λ i h.
      any-update_where (has_id i) (has_id acc.id) (λ row. record row { account = acc }) db.accounts
        (λ r t. ground arith)
      ∙ h)

  pub update_account-WellFormed :
      (acc : Account) (now : Time) → WellFormed (Accounts.update_sql acc now db).1
  unfolding Accounts.update_sql
  update_account-WellFormed acc now = elim (Bool-cases (any (has_id acc.id) db.accounts)) [
    | inr e ↦ rw e (given_account-WellFormed acc (absent-AccountsOk acc wf.accounts e))
    | inl e ↦ elim (Bool-cases (any (name_taken acc) db.accounts)) [
      | inl t ↦ rw (e, t) wf
      | inr t ↦ rw (e, t) (given_account-WellFormed acc (update-AccountsOk acc wf.accounts t))
    ]
  ]

  pub mark_accounts-WellFormed :
      (p : AccountRow → Bool)
      → WellFormed (record db { accounts = update_where p mark_deleted db.accounts })
  mark_accounts-WellFormed p =
      same_keys-WellFormed p mark_deleted db.accounts_seq
        (same_keys-AccountsOk wf.accounts p mark_deleted (λ r. refl) (λ r. refl)) (λ r. refl)

  -- The links change.
  pub links-WellFormed :
      (rows : List DeviceAccountRow)
      → LinksOk db.accounts db.devices rows
      → WellFormed (record db { devices_accounts = rows })
  links-WellFormed rows h = record {
    accounts = wf.accounts;
    devices = wf.devices;
    linked = h;
    live = wf.live;
  }

  pub associate-WellFormed :
      (acc : Account) (dev : Device) (now : Time)
      → WellFormed (Accounts.associate_sql acc dev now db).1
  unfolding Accounts.associate_sql
  associate-WellFormed acc dev now =
      elim (Bool-cases (any (links acc.id dev.id) db.devices_accounts)) [
        | inl e ↦ rw e wf
        | inr e ↦
            elim (Bool-cases
              (any (has_id acc.id) db.accounts && any (device_has_id dev.id) db.devices)) [
                | inl t ↦
                    let (a, d) = and-true _ _ t in
                    rw (e, t) (links-WellFormed _ (link-LinksOk wf.linked acc.id dev.id e a d))
                | inr t ↦ rw (e, t) wf
              ]
      ]
