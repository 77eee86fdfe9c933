-- ===== src/Worker/LiveActivities/Release.antt =====
-- The deferred calls of liveActivitiesConsumer.Consume: the acknowledgement and the lock.
use apollo_backend.Prelude.{ℕ, ◌+◌, ◌≡◌, refl, none, Bool-cases, inl, inr}
use apollo_backend.Str.{Str, lit}
use apollo_backend.Domain.Durations.{Time}
use apollo_backend.Exec.{Env, World, ◌>>=◌, deferring}
use apollo_backend.Reddit.Types.{Parser}
use apollo_backend.Reddit.Client.{Transport}
use apollo_backend.Scheduler.Locks.{lock_key}
use apollo_backend.Scheduler.Locks.Exclusion.{is_held-unlock}
use apollo_backend.Worker.Locks.{pttl, del, is_zero, ttl_of}
use apollo_backend.Worker.Notifications.Release.{IsReleased, ack-acked, del-unlock}
use apollo_backend.Worker.LiveActivities.{ActivitySender, Sort, update_activity, consume_activity}

module _ (env : Env) where
  -- Whatever happens to the job in between, a panic included, a delivery is acknowledged last; and
  -- unless the job found its lock about to expire, the activity's lock is gone then; provided that
  -- the queue and the lock server answer.
  pub consume_activity-releases :
      (s : ActivitySender) (sorted : Sort) (t : Transport) (p : Parser) (at : Str) (w : World)
      (now : Time)
      → ((i : ℕ) → env.queue_error i ≡ none)
      → ((i : ℕ) → env.redis_error i ≡ none)
      → IsReleased env
          (lock_key (lit "locks:live-activities") at)
          now
          w
          (consume_activity env s sorted t p at w).1
  unfolding consume_activity pttl deferring ◌>>=◌
  consume_activity-releases s sorted t p at w now q r =
      let key = lock_key (lit "locks:live-activities") at in
      let start : World = record w { calls = w.calls + 1 + 1 + 1 } in
      let u = (update_activity env s sorted t p (env.now w.calls) at start).1 in
      let v = (del env key u).1 in
      let (a, l) = ack-acked env v (q v.calls) in
      elim (Bool-cases (is_zero (ttl_of (env.now (w.calls + 1 + 1)) key w.locks))) [
        | inl skipped ↦
            rw (r (w.calls + 1), skipped)
              ((start.trace, (ack-acked env start (q start.calls)).0), inl refl)
        | inr live ↦
            rw (r (w.calls + 1), live)
              (
                (v.trace, a),
                inr (rw (l, del-unlock env key u (r u.calls)) (is_held-unlock now key u.locks)),
              )
      ]
