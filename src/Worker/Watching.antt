-- ===== src/Worker/Watching.antt =====
-- What the consumers of internal/worker/users.go, subreddits.go and trending.go share: a job that is
-- a row's number, the account that is drawn to ask Reddit, and the flags that say which device has
-- been told of which post.
pub mod Settled
pub mod Rest
pub mod Tables
use apollo_backend.Prelude.{
  ℕ, ◌+◌, ◌%◌, Bool, false, Option, none, some, List, [], ◌∷◌, length, get_elem?,
}
use apollo_backend.Prelude.Int.{ℤ, pos, negsuc}
use apollo_backend.Str.{Str}
use apollo_backend.Errors.{not_found, Result, ok, err}
use apollo_backend.Domain.{Account, Device, Watcher}
use apollo_backend.Domain.Durations.{Time}
use apollo_backend.Schema.{Db}
use apollo_backend.Exec.{
  Exec, Env, pure, gets, external, emit, set_locks, rejected, ◌>>=◌, deferring, statement,
}
use apollo_backend.Scheduler.Locks.{is_held, unlock}
use apollo_backend.Worker.Locks.{ack}

-- What a failed `GetByID` leaves.
abbrev pub zero_account : Account
zero_account = record {
  id = 0;
  username = [];
  account_id = [];
  access_token = [];
  refresh_token = [];
  token_expires_at = 0;
  development = false;
  reddit_client_id = [];
  reddit_client_secret = [];
  reddit_redirect_uri = [];
  reddit_user_agent = [];
  last_message_id = [];
  next_notification_check_at = 0;
  next_stuck_notification_check_at = 0;
  check_count = 0;
}

abbrev pub zero_device : Device
zero_device = record {
  id = 0;
  apns_token = [];
  sandbox = false;
  transport = [];
  transport_endpoint = [];
}

-- `x, _ := …`
unfoldable pub value_or : {A : Type 0} → A → Result A → A
value_or zero_value (ok a) = a
value_or zero_value (err e) = zero_value

-- watchers[i] of the watchers w ∷ ws
unfoldable pub watcher_at : Watcher → List Watcher → ℕ → Watcher
watcher_at w ws i = elim (get_elem? (w ∷ ws) i) [ none ↦ w | some x ↦ x ]

module _ (env : Env) where
  -- rand.Intn(len(watchers))
  unfoldable pub drawn : Watcher → List Watcher → Exec Watcher
  unfolding watcher_at
  drawn w ws = external (λ i. watcher_at w ws (env.random i % length (w ∷ ws)))

  unfoldable pub reject : Exec (Unit {0})
  reject = do e ← external env.queue_error; elim e [ some x ↦ pure tt | none ↦ emit rejected ]

  -- A payload that is no number is rejected; any other delivery is acknowledged in the end.
  unfoldable pub numbered : (ℤ → Exec (Unit {0})) → Option ℤ → Exec (Unit {0})
  unfolding reject
  numbered job none = reject
  numbered job (some id) = deferring (ack env) (job id)

  -- No row has a negative number.
  unfoldable pub row_of : {A : Type 0} → (ℕ → Time → Db → Result A × Db) → ℤ → Exec (Result A)
  row_of sql (pos id) = statement env (sql id)
  row_of sql (negsuc n) = statement env (λ now db. (err not_found, db))

  -- `redis.Get(key).Bool()`, false after an error; a key is only ever set to true
  unfoldable pub is_flagged : Str → Exec Bool
  unfolding is_held
  is_flagged key = do
    e ← external env.redis_error
    now ← external env.now
    locks ← gets (λ w. w.locks)
    elim e [ some x ↦ pure false | none ↦ pure (is_held now key locks) ]

  -- SETEX, whose error is dropped
  unfoldable pub flag : Str → Time → Exec (Unit {0})
  unfolding unlock
  flag key duration = do
    e ← external env.redis_error
    now ← external env.now
    locks ← gets (λ w. w.locks)
    elim e [
      | some x ↦ pure tt
      | none ↦ set_locks (record { key = key; expires = now + duration } ∷ unlock key locks)
    ]
