-- ===== src/Worker/Notifications/Release.antt =====
-- The deferred calls of notificationsConsumer.Consume: the acknowledgement and the lock.
use apollo_backend.Prelude.{
  ℕ, ◌+◌, ◌≡◌, ◌⊎◌, refl, true, false, none, List, ◌∷◌, Bool-cases, inl, inr,
}
use apollo_backend.Str.{Str, lit}
use apollo_backend.Domain.Durations.{Time}
use apollo_backend.Exec.{Env, World, Event, acked, ◌>>=◌, deferring}
use apollo_backend.Push.Delivery.{Codec, Sender}
use apollo_backend.Reddit.Types.{Parser}
use apollo_backend.Reddit.Client.{Transport}
use apollo_backend.Scheduler.Locks.{lock_key, is_held, unlock}
use apollo_backend.Scheduler.Locks.Exclusion.{is_held-unlock}
use apollo_backend.Worker.Locks.{pttl, del, ack, is_zero, ttl_of}
use apollo_backend.Worker.Notifications.{process, consume}

-- Between the two worlds a delivery was settled: it is acknowledged last, and unless the key was found
-- about to expire it is free.
abbrev pub IsReleased : Env → (key : Str) (at : Time) (before after : World) → Type 0
IsReleased env key at before after =
    ((events : List Event) × (after.trace ≡ acked ∷ events))
    × ((is_zero (ttl_of (env.now (before.calls + 1 + 1)) key before.locks) ≡ true)
        ⊎ (is_held at key after.locks ≡ false))

module _ (env : Env) where
  pub ack-acked :
      (w : World)
      → env.queue_error w.calls ≡ none
      → ((ack env w).1.trace ≡ acked ∷ w.trace) × ((ack env w).1.locks ≡ w.locks)
  unfolding ack ◌>>=◌
  ack-acked w e = rw e (refl, refl)

  pub del-unlock :
      (key : Str) (w : World)
      → env.redis_error w.calls ≡ none
      → (del env key w).1.locks ≡ unlock key w.locks
  unfolding del ◌>>=◌
  del-unlock key w e = rw e refl

  -- Whatever happens to the job in between, a panic included, a delivery is acknowledged last; and
  -- unless the job found its lock about to expire, the account's lock is gone then; provided that
  -- the queue and the lock server answer.
  pub consume-releases :
      (c : Codec) (s : Sender) (t : Transport) (p : Parser) (id : Str) (w : World) (at : Time)
      → ((i : ℕ) → env.queue_error i ≡ none)
      → ((i : ℕ) → env.redis_error i ≡ none)
      → IsReleased env (lock_key (lit "locks:accounts") id) at w (consume env c s t p id w).1
  unfolding consume pttl deferring ◌>>=◌
  consume-releases c s t p id w at q r =
      let key = lock_key (lit "locks:accounts") id in
      let start : World = record w { calls = w.calls + 1 + 1 + 1 } in
      let u = (process env c s t p (env.now w.calls) id start).1 in
      let v = (del env key u).1 in
      let (a, l) = ack-acked v (q v.calls) in
      elim (Bool-cases (is_zero (ttl_of (env.now (w.calls + 1 + 1)) key w.locks))) [
        | inl skipped ↦
            rw (r (w.calls + 1), skipped)
              ((start.trace, (ack-acked start (q start.calls)).0), inl refl)
        | inr live ↦
            rw (r (w.calls + 1), live)
              (
                (v.trace, a),
                inr (rw (l, del-unlock key u (r u.calls)) (is_held-unlock at key u.locks)),
              )
      ]
