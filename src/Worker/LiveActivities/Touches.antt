-- ===== src/Worker/LiveActivities/Touches.antt =====
-- What a run of liveActivitiesConsumer.Consume leaves of the database.
use apollo_backend.Prelude.{
  ℕ, ◌+◌, ◌≡◌, ◌∙◌, refl, ap, sym, not, Bool, true, false, ==_iff, ◌&&◌, List, [], ◌∷◌, map, any,
  Bool-cases, Option-cases, inl, inr, All, All-map_pred, arith,
}
use apollo_backend.Prelude.Keys.{Unique, Unique-update_where, Absent}
use apollo_backend.Prelude.Table.{select_where, update_where, delete_where}
use apollo_backend.Str.{Str, str_eq}
use apollo_backend.Errors.{Result, ok, err}
use apollo_backend.Domain.{Account, LiveActivity}
use apollo_backend.Domain.Durations.{Time}
use apollo_backend.Schema.{Db, AccountRow}
use apollo_backend.Exec.{Env, World, statement, ◌>>=◌}
use apollo_backend.Exec.Keeps.{
  Keeps, Keeps-pure, Keeps-if, Keeps-bind, Keeps-external, Keeps-statement, Keeps-same,
  Keeps-deferring,
}
use apollo_backend.Repository.Accounts
use apollo_backend.Repository.Accounts.{has_id, name_taken, first_or_not_found, live_accounts}
use apollo_backend.Repository.LiveActivities
use apollo_backend.Repository.LiveActivities.{has_token}
use apollo_backend.Reddit.Types.{Parser, RefreshTokenResponse}
use apollo_backend.Reddit.Client.{Transport}
use apollo_backend.Worker.Locks.{ack, del, pttl}
use apollo_backend.Worker.Notifications.{renewed}
use apollo_backend.Worker.Notifications.FirstCheck.{set_row}
use apollo_backend.Worker.LiveActivities.{
  ActivitySender, Sort, look_as, found, update_activity, consume_activity,
}
use apollo_backend.Worker.LiveActivities.Kept.{drop_row-IsKept, look_as-IsKept}

abbrev pub without_tokens : Account → Account
without_tokens a = record a { access_token = []; refresh_token = []; token_expires_at = 0 }

abbrev pub seen_row : AccountRow → AccountRow
seen_row row = record row { account = without_tokens row.account }

abbrev pub is_other : Str → LiveActivity → Bool
is_other at la = not (has_token at la)

-- The rows of other activities are as they were, and of everything else only tokens of accounts differ.
pub record IsTouched (at : Str) (before after : Db) : Type 0 where
  pub tables :
      record after { accounts = []; live_activities = [] }
      ≡ record before { accounts = []; live_activities = [] }
  pub accounts : map seen_row after.accounts ≡ map seen_row before.accounts
  pub activities :
      select_where (is_other at) after.live_activities
      ≡ select_where (is_other at) before.live_activities

-- The rows of a number are the account, but for the tokens.
abbrev IsOf : Account → List AccountRow → Type 0
IsOf account rows =
    All (λ r. has_id account.id r ≡ true → without_tokens r.account ≡ without_tokens account) rows

renewed_rows :
    (account : Account) (at : Time) (tokens : RefreshTokenResponse) (rows : List AccountRow)
    → IsOf account rows
    → (map seen_row (update_where (has_id account.id) (set_row (renewed at tokens account)) rows)
        ≡ map seen_row rows)
      × IsOf account (update_where (has_id account.id) (set_row (renewed at tokens account)) rows)
unfolding update_where renewed
renewed_rows account at tokens [] h = (refl, tt)
renewed_rows account at tokens (r ∷ rows) (k, h) =
    let (e, rest) = renewed_rows account at tokens rows h in
    elim (Bool-cases (has_id account.id r)) [
      | inl y ↦
          rw (y, e)
            (
              ap (λ a. let seen : AccountRow = record r { account = a } in seen ∷ map seen_row rows)
                  (sym (k y)),
              ((λ z. refl), rest),
            )
      | inr y ↦ rw (y, y) (ap (λ l. seen_row r ∷ l) e, ((λ z. ground arith), rest))
    ]

not_held :
    (i : ℕ) (rows : List AccountRow)
    → Absent (λ r. r.account.id) i rows
    → any (has_id i) rows ≡ false
not_held i [] a = refl
not_held i (r ∷ rows) (n, a) = elim (Bool-cases (has_id i r)) [
  | inl y ↦ absurd (n ((==_iff _ _).0 y))
  | inr y ↦ rw y (not_held i rows a)
]

clash : {b : Bool} → b ≡ true → ¬ (b ≡ false)
clash h k = ground arith

-- A live account that a look-up finds is what all rows of its number hold.
found_held :
    (q : Account → Bool) (rows : List AccountRow) (acc : Account)
    → Unique (λ r. r.account.id) rows
    → first_or_not_found
        (map (λ r. r.account) (select_where (λ r. q r.account && not r.is_deleted) rows))
      ≡ ok acc
    → (any (has_id acc.id) rows ≡ true) × All (λ r. has_id acc.id r ≡ true → r.account ≡ acc) rows
unfolding select_where first_or_not_found
found_held q [] acc u e = cc
found_held q (r ∷ rows) acc (a, u) e = elim (Bool-cases (q r.account && not r.is_deleted)) [
  | inl y ↦
      let only = rw y at e in
      let same : r.account ≡ acc = ground arith in
      let id : r.account.id ≡ acc.id = ap (λ x. x.id) same in
      let held : has_id acc.id r ≡ true = (==_iff _ _).1 id in
      (
        rw held refl,
        (
          (λ z. same),
          All-map_pred (λ x. ¬ (x.account.id ≡ r.account.id))
              (λ x. has_id acc.id x ≡ true → x.account ≡ acc)
              (λ x n z. absurd (n ((==_iff _ _).0 z ∙ sym id))) rows a,
        ),
      )
  | inr y ↦
      let (held, rest) = found_held q rows acc u (rw y at e) in
      (
        ground (arith, held),
        (
          (λ z.
              let free = not_held acc.id rows (rw (← (==_iff _ _).0 z) a) in
              absurd (clash held free)),
          rest,
        ),
      )
]

other_rows :
    (at : Str) (rows : List LiveActivity)
    → select_where (is_other at) (delete_where (has_token at) rows)
      ≡ select_where (is_other at) rows
unfolding select_where delete_where
other_rows at [] = refl
other_rows at (r ∷ rows) = elim (Bool-cases (has_token at r)) [
  | inl y ↦ rw y (other_rows at rows)
  | inr y ↦ rw (y, y) (ap (λ l. r ∷ l) (other_rows at rows))
]

module _ (env : Env) (at : Str) (before : Db) where
  -- What the job keeps, and what it keeps for an account that it has found.
  Kept : Db → Type 0
  Kept db = IsTouched at before db × Unique (λ r. r.account.id) db.accounts

  KeptFor : Account → Db → Type 0
  KeptFor account db = Kept db × IsOf account db.accounts

  dropping : (now : Time) (db : Db) → Kept db → Kept (LiveActivities.delete_sql at now db).1
  unfolding Kept LiveActivities.delete_sql
  dropping now db (h, u) = (
    record {
      tables = h.tables;
      accounts = h.accounts;
      activities = other_rows at db.live_activities ∙ h.activities;
    },
    u,
  )

  dropping_for :
      (account : Account) (now : Time) (db : Db)
      → KeptFor account db
      → KeptFor account (LiveActivities.delete_sql at now db).1
  unfolding KeptFor LiveActivities.delete_sql
  dropping_for account now db (h, k) = (dropping now db h, k)

  updating :
      (account : Account) (now at' : Time) (tokens : RefreshTokenResponse) (db : Db)
      → KeptFor account db
      → KeptFor account (Accounts.update_sql (renewed at' tokens account) now db).1
  unfolding Kept KeptFor Accounts.update_sql renewed
  updating account now at' tokens db h =
      let to = renewed at' tokens account in
      let (seen, k) = renewed_rows account at' tokens db.accounts h.1 in
      elim (Bool-cases (any (has_id account.id) db.accounts && any (name_taken to) db.accounts)) [
        | inl c ↦ rw (c, Accounts.update_sql) h
        | inr c ↦
            rw (c, Accounts.update_sql)
              (
                (
                  record {
                    tables = h.0.0.tables;
                    accounts = seen ∙ h.0.0.accounts;
                    activities = h.0.0.activities;
                  },
                  Unique-update_where (λ r. r.account.id) (has_id account.id) (set_row to)
                      db.accounts (λ r y. sym ((==_iff _ _).0 y)) h.0.1,
                ),
                k,
              )
      ]

  module _ (s : ActivitySender) (sorted : Sort) (t : Transport) (p : Parser) where
    looked_up :
        (now : Time) (la : LiveActivity) (r : Result Account) (w : World)
        → Kept w.db
        → ((acc : Account) → r ≡ ok acc → IsOf acc w.db.accounts)
        → Kept (look_as env s sorted t p at now la r w).1.db
    unfolding look_as Kept KeptFor
    looked_up now la (err e) w h of = (drop_row-IsKept env at Kept dropping).at w h
    looked_up now la (ok acc) w h of =
        ((look_as-IsKept env at (KeptFor acc) (dropping_for acc) s sorted t p acc (updating acc) now
            la).at
          w (h, of acc refl)).0

    found-IsKept :
        (now : Time) (r : Result LiveActivity)
        → Keeps (λ w. Kept w.db) (found env s sorted t p at now r)
    unfolding found Accounts.get_by_reddit_id Accounts.get_by_reddit_id_sql live_accounts statement
        Kept ◌>>=◌
    found-IsKept now (err e) = Keeps-pure tt
    found-IsKept now (ok la) = record {
      at = λ w h. elim (Option-cases (env.db_error w.calls)) [
        | inr (x, e) ↦
            rw (e, statement)
              (looked_up now la (err x) (record w { calls = w.calls + 1 }) h
                (λ acc k. ground arith))
        | inl e ↦
            rw (e, statement)
              (looked_up now la
                (Accounts.get_by_reddit_id_sql la.reddit_account_id (env.now w.calls) w.db).0
                (record w { calls = w.calls + 1 }) h
                (λ acc k.
                  All-map_pred (λ r. has_id acc.id r ≡ true → r.account ≡ acc) _
                    (λ r same z. ap without_tokens (same z)) w.db.accounts
                    (found_held (λ a. str_eq a.account_id la.reddit_account_id) w.db.accounts acc
                      h.1 k).1))
      ];
    }

    -- What asks the queue and the lock server only.
    ack-db : (w : World) → (ack env w).1.db ≡ w.db
    unfolding ack ◌>>=◌
    ack-db w = elim (Option-cases (env.queue_error w.calls)) [
      | inl e ↦ rw e refl
      | inr (x, e) ↦ rw e refl
    ]

    del-db : (key : Str) (w : World) → (del env key w).1.db ≡ w.db
    unfolding del ◌>>=◌
    del-db key w = elim (Option-cases (env.redis_error w.calls)) [
      | inl e ↦ rw e refl
      | inr (x, e) ↦ rw e refl
    ]

    pttl-db : (key : Str) (w : World) → (pttl env key w).1.db ≡ w.db
    unfolding pttl ◌>>=◌
    pttl-db key w = elim (Option-cases (env.redis_error w.calls)) [
      | inl e ↦ rw e refl
      | inr (x, e) ↦ rw e refl
    ]

    consume_activity-IsKept : Keeps (λ w. Kept w.db) (consume_activity env s sorted t p at)
    unfolding consume_activity update_activity LiveActivities.get LiveActivities.get_sql
    consume_activity-IsKept = Keeps-bind _ _ (Keeps-external Kept env.now) (λ now.
        Keeps-deferring (ack env) _ (Keeps-same Kept _ ack-db) (
          Keeps-bind _ _ (Keeps-same Kept _ (pttl-db _)) (λ ttl. Keeps-if _ (Keeps-pure tt) (
            Keeps-deferring _ _ (Keeps-same Kept _ (del-db _)) (
              Keeps-if _ (drop_row-IsKept env at Kept dropping)
                (Keeps-bind _ _ (Keeps-statement Kept env _ (λ n db h. h)) (found-IsKept now)))))))

-- Where the numbers of the accounts are unique, a run of the live activities consumer leaves the rows
-- of all other activities as they are, in their order, and changes nothing else of the database but
-- tokens of accounts, whatever Reddit and APNs answer and whichever statements fail, also when it
-- panics.
pub consume_activity-touches :
    (env : Env) (s : ActivitySender) (sorted : Sort) (t : Transport) (p : Parser) (at : Str)
    (w : World)
    → Unique (λ r. r.account.id) w.db.accounts
    → IsTouched at w.db (consume_activity env s sorted t p at w).1.db
unfolding Kept
consume_activity-touches env s sorted t p at w u =
    ((consume_activity-IsKept env at w.db s sorted t p).at w
      (record { tables = refl; accounts = refl; activities = refl }, u)).0
