-- ===== src/Repository/Accounts.antt =====
-- internal/repository/postgres_account.go
use apollo_backend.Prelude.{
  ℕ, ◌+◌, Bool, true, false, not, ◌&&◌, none, some, List, [], ◌∷◌, ◌++◌, map, ltb, ◌==◌,
  if◌then◌else◌, any, length,
}
use apollo_backend.Prelude.Table.{select_where, update_where, delete_where, first, join}
use apollo_backend.Str.{Str, lit, str_eq}
use apollo_backend.Errors.{Error, not_found, other, Result, ok, err}
use apollo_backend.Domain.{Account, Device}
use apollo_backend.Domain.Durations.{Time}
use apollo_backend.Schema.{Db, AccountRow, DeviceAccountRow}
use apollo_backend.Exec.{Exec, Env, statement}

-- `accs[0]`, or ErrNotFound
unfoldable pub first_or_not_found {ℓ} : {A : Type ℓ} → List A → Result A
first_or_not_found [] = err not_found
first_or_not_found (r ∷ rs) = ok r

abbrev pub unique_violation : Error
unique_violation = other (lit "duplicate key value violates unique constraint")

abbrev pub foreign_key_violation : Error
foreign_key_violation = other (lit "insert violates foreign key constraint")

unfoldable pub live_accounts : (Account → Bool) → Db → List Account
unfolding select_where
live_accounts p db =
    map (λ r. r.account) (select_where (λ r. p r.account && not r.is_deleted) db.accounts)

unfoldable pub get_by_id_sql : ℕ → Time → Db → Result Account × Db
unfolding live_accounts first_or_not_found
get_by_id_sql id now db = (first_or_not_found (live_accounts (λ a. a.id == id) db), db)

unfoldable pub get_by_reddit_id_sql : Str → Time → Db → Result Account × Db
unfolding live_accounts first_or_not_found
get_by_reddit_id_sql rid now db =
    (first_or_not_found (live_accounts (λ a. str_eq a.account_id rid) db), db)

-- The row that an INSERT without conflict adds; `check_count` has its default.
unfoldable pub inserted : Account → ℕ → Time → Time → AccountRow
inserted acc id next stuck = record {
  account = record acc {
    id = id;
    next_notification_check_at = next;
    next_stuck_notification_check_at = stuck;
    check_count = 0;
  };
  is_deleted = false;
}

-- DO UPDATE SET …
unfoldable pub refreshed : Account → AccountRow → AccountRow
refreshed acc row = record {
  account = record (row.account) {
    access_token = acc.access_token;
    refresh_token = acc.refresh_token;
    token_expires_at = acc.token_expires_at;
    last_message_id = acc.last_message_id;
    reddit_client_id = acc.reddit_client_id;
    reddit_client_secret = acc.reddit_client_secret;
    reddit_redirect_uri = acc.reddit_redirect_uri;
    reddit_user_agent = acc.reddit_user_agent;
  };
  is_deleted = false;
}

abbrev pub has_username : Str → AccountRow → Bool
has_username name row = str_eq row.account.username name

unfoldable pub insert_account : Account → Time → Time → Db → Result Account × Db
unfolding inserted
insert_account acc next stuck db = (
  ok (record acc { id = db.accounts_seq }),
  record db {
    accounts = db.accounts ++ inserted acc db.accounts_seq next stuck ∷ [];
    accounts_seq = db.accounts_seq + 1;
  },
)

unfoldable pub create_or_update_sql : Account → Time → Db → Result Account × Db
unfolding insert_account refreshed update_where select_where first
create_or_update_sql acc now db =
    elim (first (select_where (has_username acc.username) db.accounts)) [
      | none ↦ insert_account acc now now db
      | some row ↦ (
        ok (record acc { id = row.account.id }),
        record db {
          accounts = update_where (has_username acc.username) (refreshed acc) db.accounts;
          accounts_seq = db.accounts_seq + 1;
        },
      )
    ]

unfoldable pub create_sql : Account → Time → Db → Result Account × Db
unfolding insert_account
create_sql acc now db =
    if any (has_username acc.username) db.accounts
    then (err unique_violation, record db { accounts_seq = db.accounts_seq + 1 })
    else insert_account acc acc.next_notification_check_at acc.next_stuck_notification_check_at db

abbrev pub has_id : ℕ → AccountRow → Bool
has_id id row = row.account.id == id

-- Another row has the name that the update gives to row `id`.
abbrev pub name_taken : Account → AccountRow → Bool
name_taken acc row = has_username acc.username row && not (has_id acc.id row)

-- Every column but `id` and `is_deleted` is set, and `id` is the one that was looked for.
unfoldable pub update_sql : Account → Time → Db → Result (Unit {0}) × Db
unfolding update_where
update_sql acc now db =
    if any (has_id acc.id) db.accounts && any (name_taken acc) db.accounts
    then (err unique_violation, db)
    else (
      ok tt,
      record db {
        accounts = update_where (has_id acc.id) (λ row. record row { account = acc }) db.accounts;
      },
    )

unfoldable pub delete_sql : ℕ → Time → Db → Result (Unit {0}) × Db
unfolding update_where
delete_sql id now db = (
  ok tt,
  record db {
    accounts = update_where (has_id id) (λ row. record row { is_deleted = true }) db.accounts;
  },
)

abbrev pub links : ℕ → ℕ → DeviceAccountRow → Bool
links account device l = l.account_id == account && l.device_id == device

abbrev pub fresh_link : ℕ → ℕ → DeviceAccountRow
fresh_link account device = record {
  account_id = account;
  device_id = device;
  watcher_notifiable = true;
  inbox_notifiable = true;
  global_mute = false;
}

unfoldable pub associate_sql : Account → Device → Time → Db → Result (Unit {0}) × Db
associate_sql acc dev now db =
    if any (links acc.id dev.id) db.devices_accounts
    then (ok tt, db)
    else if any (has_id acc.id) db.accounts && any (λ d. d.id == dev.id) db.devices
    then (
      ok tt,
      record db { devices_accounts = db.devices_accounts ++ fresh_link acc.id dev.id ∷ [] },
    )
    else (err foreign_key_violation, db)

unfoldable pub disassociate_sql : Account → Device → Time → Db → Result (Unit {0}) × Db
unfolding delete_where
disassociate_sql acc dev now db =
    (ok tt, record db { devices_accounts = delete_where (links acc.id dev.id) db.devices_accounts })

-- accounts ⋈ devices_accounts ⋈ devices
unfoldable pub get_by_apns_token_sql : Str → Time → Db → Result (List Account) × Db
unfolding select_where join
get_by_apns_token_sql token now db = (
  ok (
      join
        (λ row.
          join
            (λ l.
              map (λ d. row.account)
                (select_where (λ d. d.id == l.device_id && str_eq d.apns_token token) db.devices))
            (select_where (λ l. l.account_id == row.account.id) db.devices_accounts))
        (select_where (λ row. not row.is_deleted) db.accounts)),
  db,
)

abbrev pub mark_deleted : AccountRow → AccountRow
mark_deleted row = record row { is_deleted = true }

-- The number of rows affected counts rows that were marked before.
unfoldable pub prune_sql : (AccountRow → Bool) → Db → Result ℕ × Db
unfolding select_where update_where
prune_sql p db = (
  ok (length (select_where p db.accounts)),
  record db { accounts = update_where p mark_deleted db.accounts },
)

unfoldable pub prune_stale_sql : Time → Time → Db → Result ℕ × Db
unfolding prune_sql
prune_stale_sql expiry now db = prune_sql (λ row. ltb row.account.token_expires_at expiry) db

abbrev pub is_orphan : Db → AccountRow → Bool
is_orphan db row = not (any (λ l. l.account_id == row.account.id) db.devices_accounts)

unfoldable pub prune_orphaned_sql : Time → Db → Result ℕ × Db
unfolding prune_sql
prune_orphaned_sql now db = prune_sql (is_orphan db) db

-- The methods: one statement each.
module _ (env : Env) where
  unfoldable pub get_by_id : ℕ → Exec (Result Account)
  get_by_id id = statement env (get_by_id_sql id)

  unfoldable pub get_by_reddit_id : Str → Exec (Result Account)
  get_by_reddit_id rid = statement env (get_by_reddit_id_sql rid)

  unfoldable pub get_by_apns_token : Str → Exec (Result (List Account))
  get_by_apns_token token = statement env (get_by_apns_token_sql token)

  -- The account comes back with the `id` that `Scan` wrote to it.
  unfoldable pub create_or_update : Account → Exec (Result Account)
  create_or_update acc = statement env (create_or_update_sql acc)

  unfoldable pub create : Account → Exec (Result Account)
  create acc = statement env (create_sql acc)

  unfoldable pub update : Account → Exec (Result (Unit {0}))
  update acc = statement env (update_sql acc)

  unfoldable pub delete : ℕ → Exec (Result (Unit {0}))
  delete id = statement env (delete_sql id)

  unfoldable pub associate : Account → Device → Exec (Result (Unit {0}))
  associate acc dev = statement env (associate_sql acc dev)

  unfoldable pub disassociate : Account → Device → Exec (Result (Unit {0}))
  disassociate acc dev = statement env (disassociate_sql acc dev)

  unfoldable pub prune_stale : Time → Exec (Result ℕ)
  prune_stale expiry = statement env (prune_stale_sql expiry)

  unfoldable pub prune_orphaned : Exec (Result ℕ)
  prune_orphaned = statement env prune_orphaned_sql
