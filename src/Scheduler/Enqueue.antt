-- ===== src/Scheduler/Enqueue.antt =====
-- The tasks of internal/cmd/scheduler.go: enqueueUsers, enqueueSubreddits, enqueueStuckAccounts,
-- enqueueLiveActivities, enqueueAccounts, pruneLiveActivities and pruneAccounts. `locked` says which
-- rows other transactions hold, `before` is the database's collation, and `busy` is the state of
-- enqueueAccountsMutex, which a running task holds. The goroutines of enqueueAccounts wait for
-- their offsets, so they run one after the other.
pub mod LiveActivities
pub mod Published
use apollo_backend.Prelude.{
  ℕ, zero, suc, ◌+◌, ◌-◌, ◌*◌, ◌/◌, ◌%◌, Bool, true, false, not, ◌&&◌, ◌||◌, Option, none, some,
  List, [], ◌∷◌, ◌++◌, map, ltb, ◌==◌, if◌then◌else◌, any,
}
use apollo_backend.Prelude.Table.{select_where, join}
use apollo_backend.Str.{Str, lit, str_eq}
use apollo_backend.Errors.{Error, Result, ok, err}
use apollo_backend.Domain.{Account, LiveActivity, Subreddit, User}
use apollo_backend.Domain.Durations.{
  Time, minute, notification_check_interval, subreddit_check_interval,
  stuck_notification_check_interval, live_activity_check_interval, stale_token_threshold,
}
use apollo_backend.Schema.{Db, AccountRow, DeviceAccountRow}
use apollo_backend.Exec.{
  Exec, Env, World, published, pure, gets, external, emit, set_locks, ◌>>=◌, ◌>>◌, statement,
}
use apollo_backend.Repository.Accounts.{prune_stale, prune_orphaned}
use apollo_backend.Repository.LiveActivities.{remove_stale}
use apollo_backend.Scheduler.Chunks.{chunks}
use apollo_backend.Scheduler.Locks.{lock_all}
use apollo_backend.Scheduler.Batches.{batch}

-- strconv.FormatInt(n, 10) with fuel; n + 1 is enough
unfoldable pub digits : ℕ → ℕ → Str
digits zero n = []
digits (suc fuel) n = elim (ltb n 10) [
  | true ↦ (b'0' + n) ∷ []
  | false ↦ digits fuel (n / 10) ++ (b'0' + n % 10) ∷ []
]

unfoldable pub format_int : ℕ → Str
unfolding digits
format_int n = digits (n + 1) n

module _ (env : Env) where
  unfoldable pub publish : Str → List Str → Exec (Option Error)
  publish queue payloads = do
    e ← external env.queue_error
    elim e [ some x ↦ pure (some x) | none ↦ do emit (published queue payloads); pure none ]

  unfoldable pub publish_to_all : List Str → List Str → Exec (Unit {0})
  unfolding publish
  publish_to_all [] payloads = pure tt
  publish_to_all (q ∷ qs) payloads = publish q payloads >> publish_to_all qs payloads

  -- `if len(ids) == 0 { return }`, then the ids as text go to each queue
  unfoldable pub publish_ids : List Str → Result (List ℕ) → Exec (Unit {0})
  unfolding publish_to_all format_int
  publish_ids queues (err e) = pure tt
  publish_ids queues (ok []) = pure tt
  publish_ids queues (ok (n ∷ ns)) = publish_to_all queues (map format_int (n ∷ ns))

  -- EvalSha: the script runs, or fails and takes no key
  unfoldable pub eval_sha : Str → List Str → Exec (Result (List Str))
  eval_sha prefix ids = do
    e ← external env.redis_error
    now ← external env.now
    locks ← gets (λ w. w.locks)
    elim e [
      | some x ↦ pure (err x)
      | none ↦ do
        set_locks (lock_all prefix now ids locks).1
        pure (ok (lock_all prefix now ids locks).0)
    ]

-- The four statements, at the task's own time `at`.
module _ (locked : ℕ → Bool) (at : Time) where
  unfoldable pub users_batch : Time → Db → Result (List ℕ) × Db
  unfolding batch
  users_batch now db =
      let chosen =
        batch (λ u. u.id) (λ u. u.next_check_at) (λ t u. record u { next_check_at = t }) at
          (at + notification_check_interval) locked 100 db.users in
      (ok (map (λ u. u.id) chosen.0), record db { users = chosen.1 })

  unfoldable pub subreddits_batch : Time → Db → Result (List ℕ) × Db
  unfolding batch
  subreddits_batch now db =
      let chosen =
        batch (λ s. s.id) (λ s. s.next_check_at) (λ t s. record s { next_check_at = t }) at
          (at + subreddit_check_interval) locked 100 db.subreddits in
      (ok (map (λ s. s.id) chosen.0), record db { subreddits = chosen.1 })

  abbrev postponed : Time → AccountRow → AccountRow
  postponed t row = record row {
    account = record row.account { next_stuck_notification_check_at = t };
  }

  unfoldable pub stuck_accounts_batch : Time → Db → Result (List ℕ) × Db
  unfolding batch
  stuck_accounts_batch now db =
      let chosen =
        batch (λ r. r.account.id) (λ r. r.account.next_stuck_notification_check_at) postponed at
          (at + stuck_notification_check_interval) locked 500 db.accounts in
      (ok (map (λ r. r.account.id) chosen.0), record db { accounts = chosen.1 })

  unfoldable pub live_activities_batch : Time → Db → Result (List Str) × Db
  unfolding batch
  live_activities_batch now db =
      let chosen =
        batch (λ l. l.id) (λ l. l.next_check_at) (λ t l. record l { next_check_at = t }) at
          (at + live_activity_check_interval) locked 1000 db.live_activities in
      (ok (map (λ l. l.apns_token) chosen.0), record db { live_activities = chosen.1 })

-- Tokens go through the locks before they are published.
module _ (env : Env) where
  unfoldable pub publish_locked : Str → Result (List Str) → Exec (Unit {0})
  unfolding publish
  publish_locked queue (err e) = pure tt
  publish_locked queue (ok []) = pure tt
  publish_locked queue (ok (t ∷ ts)) = publish env queue (t ∷ ts) >> pure tt

  unfoldable pub lock_and_publish : Str → Str → Result (List Str) → Exec (Unit {0})
  unfolding eval_sha publish_locked
  lock_and_publish prefix queue (err e) = pure tt
  lock_and_publish prefix queue (ok []) = pure tt
  lock_and_publish prefix queue (ok (t ∷ ts)) = do
    taken ← eval_sha env prefix (t ∷ ts)
    publish_locked queue taken

module _ (env : Env) (locked : ℕ → Bool) where
  unfoldable pub enqueue_users : Exec (Unit {0})
  unfolding users_batch publish_ids
  enqueue_users = do
    now ← external env.now
    ids ← statement env (users_batch locked now)
    publish_ids env (lit "users" ∷ []) ids

  unfoldable pub enqueue_subreddits : Exec (Unit {0})
  unfolding subreddits_batch publish_ids
  enqueue_subreddits = do
    now ← external env.now
    ids ← statement env (subreddits_batch locked now)
    publish_ids env (lit "subreddits" ∷ lit "trending" ∷ []) ids

  unfoldable pub enqueue_stuck_accounts : Exec (Unit {0})
  unfolding stuck_accounts_batch publish_ids
  enqueue_stuck_accounts = do
    now ← external env.now
    ids ← statement env (stuck_accounts_batch locked now)
    publish_ids env (lit "stuck-notifications" ∷ []) ids

  unfoldable pub enqueue_live_activities : Exec (Unit {0})
  unfolding live_activities_batch lock_and_publish
  enqueue_live_activities = do
    now ← external env.now
    tokens ← statement env (live_activities_batch locked now)
    lock_and_publish env (lit "locks:live-activities") (lit "live-activities") tokens

  unfoldable pub prune_live_activities : Exec (Unit {0})
  prune_live_activities = do now ← external env.now; remove_stale env (now - 10 * minute); pure tt

  unfoldable pub prune_accounts : Exec (Unit {0})
  prune_accounts = do
    now ← external env.now
    stale ← prune_stale env (now - stale_token_threshold)
    elim stale [ err e ↦ pure tt | ok n ↦ prune_orphaned env >> pure tt ]

-- SELECT DISTINCT … ORDER BY
module _ (before : Str → Str → Bool) where
  unfoldable pub insert_distinct : Str → List Str → List Str
  insert_distinct s [] = s ∷ []
  insert_distinct s (t ∷ ts) =
      let rest = t ∷ insert_distinct s ts in
      if str_eq s t then t ∷ ts else if before s t then s ∷ t ∷ ts else rest

  unfoldable pub distinct_sorted : List Str → List Str
  unfolding insert_distinct
  distinct_sorted [] = []
  distinct_sorted (s ∷ ss) = insert_distinct s (distinct_sorted ss)

  abbrev has_device : Db → AccountRow → Bool
  has_device db row =
      any (λ l. (l.account_id == row.account.id) && any (λ d. d.id == l.device_id) db.devices)
        db.devices_accounts

  unfoldable pub account_ids : Time → Db → Result (List Str) × Db
  unfolding distinct_sorted select_where
  account_ids now db = (
    ok (
        distinct_sorted (
          map (λ r. r.account.account_id)
            (select_where (λ r. not r.is_deleted && has_device db r) db.accounts))),
    db,
  )

module _ (env : Env) where
  -- The goroutine of one offset.
  unfoldable pub enqueue_chunk : List Str → Exec (Unit {0})
  unfolding eval_sha publish_locked
  enqueue_chunk candidates = do
    taken ← eval_sha env (lit "locks:accounts") candidates
    publish_locked env (lit "notifications") taken

  unfoldable pub enqueue_chunks : List (List Str) → Exec (Unit {0})
  unfolding enqueue_chunk
  enqueue_chunks [] = pure tt
  enqueue_chunks (c ∷ cs) = enqueue_chunk c >> enqueue_chunks cs

  unfoldable pub enqueue_all : Result (List Str) → Exec (Unit {0})
  unfolding enqueue_chunks chunks
  enqueue_all (err e) = pure tt
  enqueue_all (ok ids) = enqueue_chunks (chunks ids)

  unfoldable pub enqueue_accounts : (Str → Str → Bool) → (busy : Bool) → Exec (Unit {0})
  unfolding enqueue_all account_ids
  enqueue_accounts before true = pure tt
  enqueue_accounts before false = do ids ← statement env (account_ids before); enqueue_all ids
