-- ===== src/Scheduler/Enqueue/LiveActivities.antt =====
-- What enqueueLiveActivities publishes.
use apollo_backend.Prelude.{
  ℕ, ◌+◌, ◌<◌, ◌≡◌, refl, ◌⊎◌, inl, inr, Bool, true, List, [], ◌∷◌, All, Option-cases,
}
use apollo_backend.Str.{Str, lit}
use apollo_backend.Errors.{Result, ok, err}
use apollo_backend.Domain.Durations.{Time, notification_check_timeout}
use apollo_backend.Exec.{Env, World, Event, Lock, published, returned, ◌>>=◌, statement}
use apollo_backend.Scheduler.Locks.{lock_key, is_held, lock_all}
use apollo_backend.Scheduler.Locks.Exclusion.{taken-held}
use apollo_backend.Scheduler.Enqueue.{
  publish, eval_sha, publish_locked, lock_and_publish, live_activities_batch,
  enqueue_live_activities,
}

-- Nothing is published, or one batch whose tokens are all locked at `t`.
pub record IsLockedBatch (t : Time) (sent : List Event) (after : World) : Type 0 where
  pub batch :
      (after.trace ≡ sent)
      ⊎ ((tokens : List Str) × (after.trace ≡ published (lit "live-activities") tokens ∷ sent)
          × All
              (λ id. is_held t (lock_key (lit "locks:live-activities") id) after.locks ≡ true)
              tokens)

-- The tokens that the script returned are locked.
Held : Time → List Lock → Result (List Str) → Type 0
Held t locks (err e) = Unit {0}
Held t locks (ok tokens) =
    All (λ id. is_held t (lock_key (lit "locks:live-activities") id) locks ≡ true) tokens

module _ (env : Env) (t : Time)
    (recent : (i : ℕ) → t < env.now i + notification_check_timeout) where
  publish_locked-batch :
      (r : Result (List Str)) (w : World)
      → Held t w.locks r
      → ((publish_locked env (lit "live-activities") r w).0 ≡ returned tt)
        × IsLockedBatch t w.trace (publish_locked env (lit "live-activities") r w).1
  unfolding publish_locked publish Held ◌>>=◌
  publish_locked-batch (err e) w h = (refl, record { batch = inl refl })
  publish_locked-batch (ok []) w h = (refl, record { batch = inl refl })
  publish_locked-batch (ok (x ∷ xs)) w h = elim (Option-cases (env.queue_error w.calls)) [
    | inl e ↦ rw e (refl, record { batch = inr (x ∷ xs, refl, h) })
    | inr (y, e) ↦ rw e (refl, record { batch = inl refl })
  ]

  lock_and_publish-batch :
      (r : Result (List Str)) (w : World)
      → ((lock_and_publish env (lit "locks:live-activities") (lit "live-activities") r w).0
          ≡ returned tt)
        × IsLockedBatch t w.trace
            (lock_and_publish env (lit "locks:live-activities") (lit "live-activities") r w).1
  unfolding lock_and_publish eval_sha Held ◌>>=◌
  lock_and_publish-batch (err e) w = (refl, record { batch = inl refl })
  lock_and_publish-batch (ok []) w = (refl, record { batch = inl refl })
  lock_and_publish-batch (ok (x ∷ xs)) w = elim (Option-cases (env.redis_error w.calls)) [
    | inr (y, e) ↦ rw e (publish_locked-batch (err y) _ tt)
    | inl e ↦
        let now = env.now (w.calls + 1) in
        let taken = lock_all (lit "locks:live-activities") now (x ∷ xs) w.locks in
        rw e (
          publish_locked-batch (ok taken.0) (record w { locks = taken.1; calls = w.calls + 1 + 1 })
            (taken-held (lit "locks:live-activities") now t (x ∷ xs) w.locks
              (recent (w.calls + 1))))
  ]

  -- A run of enqueueLiveActivities always ends, and publishes nothing or one batch; every token of
  -- the batch is locked from then on until `t`, any time less than five minutes after the locks.
  pub enqueue_live_activities-batch :
      (locked : ℕ → Bool) (w : World)
      → ((enqueue_live_activities env locked w).0 ≡ returned tt)
        × IsLockedBatch t w.trace (enqueue_live_activities env locked w).1
  unfolding enqueue_live_activities statement live_activities_batch ◌>>=◌
  enqueue_live_activities-batch locked w = elim (Option-cases (env.db_error (w.calls + 1))) [
    | inr (x, e) ↦ rw e (refl, record { batch = inl refl })
    | inl e ↦
        let (r, db) = live_activities_batch locked (env.now w.calls) (env.now (w.calls + 1)) w.db in
        rw e (lock_and_publish-batch r (record w { db = db; calls = w.calls + 1 + 1 }))
  ]
