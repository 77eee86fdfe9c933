-- ===== src/Worker/Locks.antt =====
-- What the consumers of internal/worker do with the queue and the lock server: PTTL and DEL of a job's
-- key, and the acknowledgement of its delivery.
use apollo_backend.Prelude.{◌-◌, ◌/◌, Bool, false, none, some, List, [], ◌∷◌, ◌==◌, if◌then◌else◌}
use apollo_backend.Prelude.Int.{ℤ, pos, negsuc}
use apollo_backend.Str.{Str}
use apollo_backend.Domain.Durations.{Time}
use apollo_backend.Exec.{Exec, Env, Lock, pure, gets, external, emit, set_locks, acked, ◌>>=◌}
use apollo_backend.Scheduler.Locks.{holds, unlock}

-- PTTL counts milliseconds; a key that is not there has -2.
unfoldable pub ttl_of : Time → Str → List Lock → ℤ
unfolding holds
ttl_of now key [] = negsuc 1
ttl_of now key (l ∷ ls) =
    let rest = ttl_of now key ls in
    if holds now key l then pos ((l.expires - now) / 1_000_000) else rest

module _ (env : Env) where
  -- `.Val()`: zero after an error
  unfoldable pub pttl : Str → Exec ℤ
  unfolding ttl_of
  pttl key = do
    e ← external env.redis_error
    now ← external env.now
    locks ← gets (λ w. w.locks)
    elim e [ some x ↦ pure (pos 0) | none ↦ pure (ttl_of now key locks) ]

  -- DEL, whose error is only logged
  unfoldable pub del : Str → Exec (Unit {0})
  unfolding unlock
  del key = do
    e ← external env.redis_error
    locks ← gets (λ w. w.locks)
    elim e [ some x ↦ pure tt | none ↦ set_locks (unlock key locks) ]

  -- delivery.Ack, whose error is only logged
  unfoldable pub ack : Exec (Unit {0})
  ack = do e ← external env.queue_error; elim e [ some x ↦ pure tt | none ↦ emit acked ]

unfoldable pub is_zero : ℤ → Bool
is_zero (pos n) = n == 0
is_zero (negsuc n) = false
