-- ===== src/Worker/StuckNotifications/Moves.antt =====
-- What a run of stuckNotificationsConsumer.Consume leaves of the database.
use apollo_backend.Prelude.{
  ℕ, ◌+◌, ◌≡◌, ◌∙◌, refl, ap, sym, not, true, false, ◌==◌, ==_iff, none, some, List, [], ◌∷◌, map,
  any, ◌&&◌, if◌then◌else◌, Bool-cases, Option-cases, inl, inr, All, All-map_pred, arith,
}
use mathlib.Core.Path.{subst}
use apollo_backend.Prelude.Int.{pos}
use apollo_backend.Prelude.Keys.{Unique, Absent}
use apollo_backend.Prelude.Table.{select_where, update_where}
use apollo_backend.Str.{Str}
use apollo_backend.Errors.{Result, ok, err}
use apollo_backend.Domain.{Account}
use apollo_backend.Schema.{Db, AccountRow}
use apollo_backend.Exec.{Exec, Env, World, pure, statement, ◌>>=◌, deferring}
use apollo_backend.Exec.Keeps.{
  Keeps, keeps_rules, Keeps-pure, Keeps-if, Keeps-bind, Keeps-statement, Keeps-same,
}
use apollo_backend.Repository.Accounts
use apollo_backend.Repository.Accounts.{has_id, name_taken, first_or_not_found, live_accounts}
use apollo_backend.Reddit.Types.{
  Parser, Thing, ListingResponse, is_deleted, new_listing_response, empty_listing_response,
}
use apollo_backend.Reddit.Request.{RequestOption}
use apollo_backend.Reddit.Client.{
  Transport, AuthenticatedClient, AuthCredentials, default_error_map, inbox_request,
  about_info_request, message_inbox, about_info, new_authenticated_client,
}
use apollo_backend.Reddit.Retries.{request-db}
use apollo_backend.Worker.Locks.{ack}
use apollo_backend.Worker.ParseInt.{parse_int}
use apollo_backend.Worker.Notifications.FirstCheck.{set_row}
use apollo_backend.Worker.StuckNotifications.{
  has_left, is_last, is_message, is_gone, restarted, restart, reset, examined, examine, check_last,
  account_of, run_check, consume_stuck,
}

-- An account but for the name of its last message.
abbrev pub without_name : Account → Account
without_name a = record a { last_message_id = [] }

-- The row of the account `i` is seen without that name.
abbrev pub seen_row : ℕ → AccountRow → AccountRow
seen_row i row = if has_id i row then record row { account = without_name row.account } else row

-- Only the name of the last message of the account `i` differs.
abbrev pub IsMoved : ℕ → (before after : Db) → Type 0
IsMoved i before after =
    (record after { accounts = [] } ≡ record before { accounts = [] })
    × (map (seen_row i) after.accounts ≡ map (seen_row i) before.accounts)

-- The rows of a number are the account, but for that name.
abbrev IsOf : Account → List AccountRow → Type 0
IsOf account rows =
    All (λ r. has_id account.id r ≡ true → without_name r.account ≡ without_name account) rows

moved_rows :
    (account : Account) (name : Str) (rows : List AccountRow)
    → IsOf account rows
    → let to : Account = record account { last_message_id = name } in
      (map (seen_row account.id) (update_where (has_id account.id) (set_row to) rows)
        ≡ map (seen_row account.id) rows)
      × IsOf account (update_where (has_id account.id) (set_row to) rows)
unfolding update_where
moved_rows account name [] h = (refl, tt)
moved_rows account name (r ∷ rows) (k, h) =
    let (e, rest) = moved_rows account name rows h in
    let own : (account.id == account.id) ≡ true = (==_iff account.id account.id).1 refl in
    elim (Bool-cases (has_id account.id r)) [
      | inl y ↦
          rw (y, own, e)
            (
              ap
                  (λ a.
                    let seen : AccountRow = record r { account = a } in
                    seen ∷ map (seen_row account.id) rows)
                  (sym (k y)),
              ((λ z. refl), rest),
            )
      | inr y ↦ rw (y, y) (ap (λ l. r ∷ l) e, ((λ z. ground arith), rest))
    ]

none_of :
    (i : ℕ) (rows : List AccountRow)
    → Absent (λ r. r.account.id) i rows
    → (select_where (λ r. r.account.id == i && not r.is_deleted) rows ≡ [])
      × ((acc : Account) → All (λ r. has_id i r ≡ true → r.account ≡ acc) rows)
unfolding select_where
none_of i [] a = (refl, λ acc. tt)
none_of i (r ∷ rows) (n, a) = elim (Bool-cases (r.account.id == i)) [
  | inl y ↦ absurd (n ((==_iff _ _).0 y))
  | inr y ↦
      let (empty, rest) = none_of i rows a in
      (rw y empty, λ acc. ((λ z. absurd (n ((==_iff _ _).0 z))), rest acc))
]

-- The live account of a number is what all rows of the number hold.
found_only :
    (i : ℕ) (rows : List AccountRow) (acc : Account)
    → Unique (λ r. r.account.id) rows
    → first_or_not_found
        (map (λ r. r.account) (select_where (λ r. r.account.id == i && not r.is_deleted) rows))
      ≡ ok acc
    → (acc.id ≡ i) × All (λ r. has_id i r ≡ true → r.account ≡ acc) rows
unfolding select_where first_or_not_found
found_only i [] acc u e = cc
found_only i (r ∷ rows) acc (a, u) e = elim (Bool-cases (r.account.id == i)) [
  | inr y ↦
      let (id, rest) = found_only i rows acc u (rw y at e) in (id, ((λ z. ground arith), rest))
  | inl y ↦
      let number : r.account.id ≡ i = (==_iff _ _).0 y in
      let (empty, rest) = none_of i rows (rw (← number) a) in
      elim (Bool-cases r.is_deleted) [
        | inl d ↦ let none_found = rw (y, d, empty) at e in cc
        | inr d ↦
            let only = rw (y, d) at e in
            let same : r.account ≡ acc = ground arith in
            (ap (λ x. x.id) (sym same) ∙ number, ((λ z. same), rest acc))
      ]
]

module _ (env : Env) (t : Transport) (p : Parser) (account : Account) (before : Db) where
  Q : Db → Type 0
  Q db = IsMoved account.id before db × IsOf account db.accounts

  abbrev IsKept : {A : Type 0} → Exec A → Type 0
  IsKept m = Keeps (λ w. Q w.db) m

  inbox_call-IsKept :
      (rac : AuthenticatedClient) (opts : List RequestOption)
      → IsKept (message_inbox env t p rac opts)
  unfolding message_inbox
  inbox_call-IsKept rac opts = Keeps-same Q (message_inbox env t p rac opts) (
      request-db env t p rac default_error_map (inbox_request rac opts) (new_listing_response p)
        (some empty_listing_response))

  about_call-IsKept :
      (rac : AuthenticatedClient) (name : Str) → IsKept (about_info env t p rac name)
  unfolding about_info
  about_call-IsKept rac name = Keeps-same Q (about_info env t p rac name) (
      request-db env t p rac default_error_map (about_info_request rac name)
        (new_listing_response p) none)

  is_gone-IsKept :
      (rac : AuthenticatedClient) (things : List Thing)
      → IsKept (is_gone env t p account rac things)
  unfolding is_gone
  is_gone-IsKept rac [] = Keeps-pure true
  is_gone-IsKept rac (thing ∷ things) =
      let rest = is_gone-IsKept rac things in
      Keeps-if (not (is_last account thing)) rest (
        Keeps-if (is_deleted thing) (Keeps-pure true) (
          Keeps-if (is_message account) (Keeps-pure false) (
            Keeps-bind (message_inbox env t p rac []) (λ r. pure (has_left account r))
              (inbox_call-IsKept rac []) (λ r. Keeps-pure (has_left account r)))))

  restart-IsKept : (r : Result ListingResponse) → IsKept (restart env t p account r)
  unfolding restart restarted Accounts.update Accounts.update_sql Q
  restart-IsKept (err e) = Keeps-pure tt
  restart-IsKept (ok things) =
      Keeps-bind _ _
        (Keeps-statement Q env _ (λ now db h.
          let (m, k) =
            moved_rows account (restarted account things).last_message_id db.accounts h.1 in
          elim (Bool-cases (
            any (has_id account.id) db.accounts
            && any (name_taken (restarted account things)) db.accounts)) [
              | inl c ↦ rw (c, Accounts.update_sql) h
              | inr c ↦ rw (c, Accounts.update_sql) ((h.0.0, m ∙ h.0.1), k)
            ]))
        (λ r. Keeps-pure tt)

  examined-IsKept :
      (rac : AuthenticatedClient) (r : Result ListingResponse)
      → IsKept (examined env t p account rac r)
  unfolding examined reset
  examined-IsKept rac (err e) = Keeps-pure tt
  examined-IsKept rac (ok things) =
      search (keeps_rules, is_gone-IsKept, restart-IsKept, inbox_call-IsKept)

  client-IsKept : (creds : AuthCredentials) → IsKept (new_authenticated_client creds)
  unfolding new_authenticated_client
  client-IsKept creds = search keeps_rules

  check_last-IsKept : IsKept (check_last env t p (ok account))
  unfolding check_last examine
  check_last-IsKept =
      search (keeps_rules, client-IsKept, examined-IsKept, inbox_call-IsKept, about_call-IsKept)
        depth 8

ack-db : (env : Env) (w : World) → (ack env w).1.db ≡ w.db
unfolding ack ◌>>=◌
ack-db env w = elim (Option-cases (env.queue_error w.calls)) [
  | inl e ↦ rw e refl
  | inr (x, e) ↦ rw e refl
]

check_last-IsMoved :
    (env : Env) (t : Transport) (p : Parser) (i : ℕ) (r : Result Account) (w : World)
    → ((acc : Account)
        → r ≡ ok acc
        → (acc.id ≡ i) × All (λ x. has_id i x ≡ true → x.account ≡ acc) w.db.accounts)
    → IsMoved i w.db (check_last env t p r w).1.db
unfolding check_last Q ◌>>=◌
check_last-IsMoved env t p i (err e) w known = (refl, refl)
check_last-IsMoved env t p i (ok acc) w known =
    let (id, agree) = known acc refl in
    let of : IsOf acc w.db.accounts =
      All-map_pred (λ x. has_id i x ≡ true → x.account ≡ acc) _
        (λ x h z. ap without_name (h (subst (λ n. has_id n x ≡ true) id z))) w.db.accounts agree in
    subst (λ n. IsMoved n w.db (check_last env t p (ok acc) w).1.db) id
      ((check_last-IsKept env t p acc w.db).at w ((refl, refl), of)).0

-- Where the payload is a number and the numbers of the accounts are unique, a run of the stuck
-- notifications consumer changes nothing of the database but the name of the last message of the
-- account with that number, whatever Reddit answers and whichever statements fail, also when it
-- panics.
pub consume_stuck-moves :
    (env : Env) (t : Transport) (p : Parser) (payload : Str) (i : ℕ) (w : World)
    → parse_int payload ≡ some (pos i)
    → Unique (λ r. r.account.id) w.db.accounts
    → IsMoved i w.db (consume_stuck env t p payload w).1.db
unfolding consume_stuck run_check account_of deferring statement Accounts.get_by_id
    Accounts.get_by_id_sql live_accounts ◌>>=◌
consume_stuck-moves env t p payload i w number u = elim (Option-cases (env.db_error w.calls)) [
  | inl e ↦
      let r : Result Account = (Accounts.get_by_id_sql i (env.now w.calls) w.db).0 in
      let looked : World = record w { calls = w.calls + 1 } in
      rw (number, e, statement, ack-db env (check_last env t p r looked).1)
        (check_last-IsMoved env t p i r looked (λ acc k. found_only i w.db.accounts acc u k))
  | inr (x, e) ↦
      rw (number, e, statement, ack-db env (record w { calls = w.calls + 1 })) (refl, refl)
]
