-- ===== src/Worker/Notifications/FirstCheck.antt =====
-- The first check of an account, which only finds out where its inbox stands.
use apollo_backend.Prelude.{
  ℕ, ◌+◌, ◌≡◌, refl, ap, true, false, Option-cases, Bool-cases, inl, inr, none, List, [], ◌∷◌, any,
  arith, ◌==◌, ==_iff,
}
use apollo_backend.Prelude.Table.{update_where, select_where, first}
use apollo_backend.Prelude.Keys.{any-update_where}
use apollo_backend.Errors.{ok}
use apollo_backend.Domain.{Account}
use apollo_backend.Schema.{Db, AccountRow}
use apollo_backend.Exec.{Env, World, returned, statement, ◌>>=◌}
use apollo_backend.Repository.Accounts
use apollo_backend.Repository.Accounts.{has_id, name_taken}
use apollo_backend.Push.Delivery.{Codec, Sender}
use apollo_backend.Reddit.Types.{ListingResponse, full_name}
use apollo_backend.Worker.Notifications.{remember, received}
use apollo_backend.Worker.Notifications.Newest.{stands, name_of_standing, newest-stands}

-- The row of an account is set to it.
abbrev pub set_row : Account → AccountRow → AccountRow
set_row acc row = record row { account = acc }

abbrev pub set_account : Account → Db → Db
set_account acc db = record db { accounts = update_where (has_id acc.id) (set_row acc) db.accounts }

update_twice :
    (i : ℕ) (a b : Account) (rows : List AccountRow)
    → (a.id == i) ≡ true
    → update_where (has_id i) (set_row b) (update_where (has_id i) (set_row a) rows)
      ≡ update_where (has_id i) (set_row b) rows
unfolding update_where
update_twice i a b [] same = refl
update_twice i a b (r ∷ rows) same = elim (Bool-cases (has_id i r)) [
  | inl e ↦ rw (e, same, update_twice i a b rows same) refl
  | inr e ↦ rw (e, e, update_twice i a b rows same) refl
]

-- Setting a row to an account of its own takes nobody's name.
still_free :
    (acc to : Account) (rows : List AccountRow)
    → to.id ≡ acc.id
    → any (name_taken acc) rows ≡ false
    → any (name_taken acc) (update_where (has_id acc.id) (set_row to) rows) ≡ false
still_free acc to rows same free =
    rw
      (any-update_where (name_taken acc) (has_id acc.id) (set_row to) rows (λ r e.
        let own : (to.id == acc.id) ≡ true = (==_iff to.id acc.id).1 same in
        rw (own, e) ground arith))
      free

module _ (env : Env) (up : (i : ℕ) → env.db_error i ≡ none) where
  update_lem :
      (acc : Account) (w : World)
      → any (name_taken acc) w.db.accounts ≡ false
      → Accounts.update env acc w
        ≡ (returned (ok tt), record w { db = set_account acc w.db; calls = w.calls + 1 })
  unfolding Accounts.update Accounts.update_sql statement
  update_lem acc w free = elim (Bool-cases (any (has_id acc.id) w.db.accounts)) [
    | inl e ↦ rw (up w.calls, e, free, statement) refl
    | inr e ↦ rw (up w.calls, e, statement) refl
  ]

  -- The database answers here, and the account's name is not taken by another. On the first check of
  -- an account, whatever its inbox holds, nothing is pushed: all that happens is that its row gets the
  -- name of the newest message that is not deleted, where there is one, and a check count of one.
  pub received-first_check :
      (c : Codec) (s : Sender) (account : Account) (msgs : ListingResponse) (w : World)
      → account.check_count ≡ 0
      → any (name_taken account) w.db.accounts ≡ false
      → ((received env c s account msgs w).0 ≡ returned tt)
        × ((received env c s account msgs w).1.trace ≡ w.trace)
        × ((received env c s account msgs w).1.db
            ≡ set_account
                (record account {
                  last_message_id = name_of_standing account.last_message_id msgs.children;
                  check_count = 1;
                })
                w.db)
  unfolding received remember name_of_standing full_name ◌>>=◌
  received-first_check c s account msgs w first_one free =
      elim (Option-cases (first (select_where stands msgs.children))) [
        | inl e ↦
            let counted : Account = record account { check_count = 1 } in
            rw
              (
                newest-stands msgs.children,
                e,
                first_one,
                update_lem counted w free,
                name_of_standing,
              )
              (refl, refl, refl)
        | inr (m, e) ↦
            let named : Account = record account { last_message_id = full_name m } in
            let counted : Account = record named { check_count = 1 } in
            let first_time : Account = record named { check_count = 0 } in
            let w' : World = record w { db = set_account first_time w.db; calls = w.calls + 1 } in
            rw
              (
                newest-stands msgs.children,
                e,
                update_lem named w free,
                first_one,
                update_lem counted w' (still_free counted first_time w.db.accounts refl free),
                name_of_standing,
              )
              (
                refl,
                refl,
                ap (λ rows. record (w.db) { accounts = rows })
                    (update_twice account.id first_time counted w.db.accounts
                      ((==_iff account.id account.id).1 refl)),
              )
      ]
