-- ===== src/Scheduler/Enqueue/Published.antt =====
-- What enqueueAccounts publishes, with the locks that are held while it runs.
use apollo_backend.Prelude.{
  ℕ, suc, ◌+◌, ◌≤◌, ◌≡◌, refl, ◌∙◌, Bool, true, false, List, [], ◌∷◌, arith, if◌then◌else◌, any,
  Bool-cases, Option-cases, inl, inr,
}
use apollo_backend.Str.{Str, lit, str_eq}
use apollo_backend.Errors.{Result, ok, err}
use apollo_backend.Domain.Durations.{Time}
use apollo_backend.Exec.{Env, World, Event, published, returned, ◌>>=◌, statement}
use apollo_backend.Scheduler.Chunks.{chunks}
use apollo_backend.Scheduler.Locks.{lock_key, holds, is_held, lock_all}
use apollo_backend.Scheduler.Locks.Exclusion.{is_held-lock_all, held-not_taken}
use apollo_backend.Scheduler.Enqueue.{
  publish, eval_sha, publish_locked, enqueue_chunk, enqueue_chunks, enqueue_all, enqueue_accounts,
  account_ids,
}

-- How often an id was published.
unfoldable pub publications : Str → List Event → ℕ
publications id [] = 0
publications id (published q ps ∷ es) =
    let rest = publications id es in if any (str_eq id) ps then suc rest else rest
publications id (_ ∷ es) = publications id es

is_held-earlier :
    (t later : Time) (key : Str) (locks : List _)
    → t ≤ later
    → is_held later key locks ≡ true
    → is_held t key locks ≡ true
unfolding is_held
is_held-earlier t later key [] le h = h
is_held-earlier t later key (l ∷ locks) le h = elim (Bool-cases (any (holds later key) locks)) [
  | inl e ↦ ground (arith, is_held-earlier t later key locks le e)
  | inr e ↦ ground arith
]

module _ (id : Str) where
  -- The list that a run of the script gave does not have the id.
  Misses : Result (List Str) → Type 0
  Misses (ok ids) = any (str_eq id) ids ≡ false
  Misses (err e) = Unit {0}

  publish_locked-spares :
      (env : Env) (q : Str) (r : Result (List Str)) (w : World)
      → Misses r
      → ((publish_locked env q r w).0 ≡ returned tt)
        × ((publish_locked env q r w).1.locks ≡ w.locks)
        × (publications id (publish_locked env q r w).1.trace ≡ publications id w.trace)
  unfolding publish_locked publish publications Misses ◌>>=◌
  publish_locked-spares env q (err e) w m = (refl, refl, refl)
  publish_locked-spares env q (ok []) w m = (refl, refl, refl)
  publish_locked-spares env q (ok (x ∷ xs)) w m = elim (Option-cases (env.queue_error w.calls)) [
    | inl e ↦ rw e (refl, refl, rw m refl)
    | inr (x, e) ↦ rw e (refl, refl, refl)
  ]

-- After a run, the account is still locked until `end` and was not published again.
pub record Spared (end : Time) (id : Str) (sent : List Event) (after : World) : Type 0 where
  pub held : is_held end (lock_key (lit "locks:accounts") id) after.locks ≡ true
  pub same : publications id after.trace ≡ publications id sent

module _ (env : Env) (end : Time) (id : Str) (clock : (i : ℕ) → env.now i ≤ end) where
  eval_sha-spares :
      (c : List Str) (w : World)
      → is_held end (lock_key (lit "locks:accounts") id) w.locks ≡ true
      → (r : Result (List Str)) × ((eval_sha env (lit "locks:accounts") c w).0 ≡ returned r)
        × Misses id r
        × Spared end id w.trace (eval_sha env (lit "locks:accounts") c w).1
  unfolding eval_sha Misses ◌>>=◌
  eval_sha-spares c w h = elim (Option-cases (env.redis_error w.calls)) [
    | inl e ↦ rw e (
      ok (lock_all (lit "locks:accounts") (env.now (w.calls + 1)) c w.locks).0,
      refl,
      held-not_taken (lit "locks:accounts") (env.now (w.calls + 1)) id c w.locks
          (is_held-earlier _ end _ w.locks (clock _) h),
      record {
        held = is_held-lock_all (lit "locks:accounts") (env.now (w.calls + 1)) end _ c w.locks h;
        same = refl;
      },
    )
    | inr (x, e) ↦ rw e (err x, refl, tt, record { held = h; same = refl })
  ]

  enqueue_chunk-Spared :
      (c : List Str) (w : World)
      → is_held end (lock_key (lit "locks:accounts") id) w.locks ≡ true
      → ((enqueue_chunk env c w).0 ≡ returned tt) × Spared end id w.trace (enqueue_chunk env c w).1
  unfolding enqueue_chunk ◌>>=◌
  enqueue_chunk-Spared c w h =
      let (r, e, m, s) = eval_sha-spares c w h in
      let (o, l, p) =
        publish_locked-spares id env (lit "notifications") r
          (eval_sha env (lit "locks:accounts") c w).1 m in
      rw e (o, record { held = rw l s.held; same = p ∙ s.same })

  enqueue_chunks-Spared :
      (cs : List (List Str)) (w : World)
      → is_held end (lock_key (lit "locks:accounts") id) w.locks ≡ true
      → ((enqueue_chunks env cs w).0 ≡ returned tt)
        × Spared end id w.trace (enqueue_chunks env cs w).1
  unfolding enqueue_chunks ◌>>=◌
  enqueue_chunks-Spared [] w h = (refl, record { held = h; same = refl })
  enqueue_chunks-Spared (c ∷ cs) w h =
      let (e, s) = enqueue_chunk-Spared c w h in
      let (o, t) = enqueue_chunks-Spared cs (enqueue_chunk env c w).1 s.held in
      rw e (o, record { held = t.held; same = t.same ∙ s.same })

  enqueue_all-Spared :
      (r : Result (List Str)) (w : World)
      → is_held end (lock_key (lit "locks:accounts") id) w.locks ≡ true
      → ((enqueue_all env r w).0 ≡ returned tt) × Spared end id w.trace (enqueue_all env r w).1
  unfolding enqueue_all ◌>>=◌
  enqueue_all-Spared (err e) w h = (refl, record { held = h; same = refl })
  enqueue_all-Spared (ok ids) w h = enqueue_chunks-Spared (chunks ids) w h

  -- A run of enqueueAccounts always ends, whatever fails in it, and an account whose lock stands
  -- beyond every time at which the run takes locks is not published by it.
  pub enqueue_accounts-spares_locked :
      (before : Str → Str → Bool) (busy : Bool) (w : World)
      → is_held end (lock_key (lit "locks:accounts") id) w.locks ≡ true
      → ((enqueue_accounts env before busy w).0 ≡ returned tt)
        × Spared end id w.trace (enqueue_accounts env before busy w).1
  unfolding enqueue_accounts statement account_ids ◌>>=◌
  enqueue_accounts-spares_locked before true w h = (refl, record { held = h; same = refl })
  enqueue_accounts-spares_locked before false w h = elim (Option-cases (env.db_error w.calls)) [
    | inl e ↦ rw e (
        enqueue_all-Spared (account_ids before (env.now w.calls) w.db).0
          (record w { calls = w.calls + 1 }) h)
    | inr (x, e) ↦ rw e (refl, record { held = h; same = refl })
  ]
