-- ===== src/Worker/Trending/Once.antt =====
-- A device is told of a trending post once.
use apollo_backend.Prelude.{
  ℕ, ◌+◌, ◌*◌, ◌<◌, ◌≡◌, refl, ◌∙◌, true, false, none, List, ◌∷◌, ltb, lt→ltb, Bool-cases, inl, inr,
}
use apollo_backend.Str.{Str, str_eq_refl}
use apollo_backend.Domain.{Watcher, Device, is_bark}
use apollo_backend.Domain.Durations.{Time, hour}
use apollo_backend.Payload.{Payload}
use apollo_backend.Exec.{Env, World, Lock, external, returned, ◌>>=◌}
use apollo_backend.Exec.Keeps.{
  Keeps, Keeps-pure, Keeps-bind, Keeps-result, Keeps-external_locks, statement-returns,
}
use apollo_backend.Push.Delivery.{Codec, Sender, send, send_apns}
use apollo_backend.Push.Routing.{send-bark}
use apollo_backend.Reddit.Types.{Thing}
use apollo_backend.Repository.Watchers.{increment_hits, increment_hits_sql}
use apollo_backend.Scheduler.Locks.{holds, is_held, unlock}
use apollo_backend.Worker.Watching.{is_flagged, flag}
use apollo_backend.Worker.Trending.{trending_key, tell_watcher}

module _ (env : Env) where
  abbrev HasLocks : List Lock → World → Type 0
  HasLocks locks v = v.locks ≡ locks

  hits-locks : (id : ℕ) (locks : List Lock) → Keeps (HasLocks locks) (increment_hits env id)
  unfolding increment_hits
  hits-locks id locks =
      Keeps-bind (external env.now) _ (Keeps-external_locks locks env.now)
        (λ now. record { at = λ v h. (statement-returns env (increment_hits_sql id now) v).2 ∙ h })

  module _ (c : Codec) (s : Sender) where
    send-locks :
        (device : Device) (p : Payload) (locks : List Lock)
        → Keeps (HasLocks locks) (send env c s device p)
    unfolding send send_apns ◌>>=◌
    send-locks device p locks = record {
      at = λ v h. elim (Bool-cases (is_bark device)) [
        | inl e ↦ (send-bark env c s device p v e).3.locks ∙ h
        | inr e ↦ elim (Bool-cases s.has_apns) [ inl k ↦ rw (e, k) h | inr k ↦ rw (e, k) h ]
      ];
    }

  -- What flagging leaves, and what is found while the flag stands.
  flag_lem :
      (key : Str) (duration : Time) (w : World)
      → env.redis_error w.calls ≡ none
      → flag env key duration w ≡ (
        returned tt,
        record w {
          locks =
              record { key = key; expires = env.now (w.calls + 1) + duration } ∷ unlock key w.locks;
          calls = w.calls + 1 + 1;
        },
      )
  unfolding flag ◌>>=◌
  flag_lem key duration w e = rw e refl

  is_flagged_lem :
      (key : Str) (w : World)
      → env.redis_error w.calls ≡ none
      → is_flagged env key w ≡ (
        returned (is_held (env.now (w.calls + 1)) key w.locks),
        record w { calls = w.calls + 1 + 1 },
      )
  unfolding is_flagged ◌>>=◌
  is_flagged_lem key w e = rw e refl

  held :
      (now : Time) (key : Str) (l : Lock) (locks : List Lock)
      → l.key ≡ key
      → now < l.expires
      → is_held now key (l ∷ locks) ≡ true
  unfolding is_held holds
  held now key l locks same before = rw (same, str_eq_refl key, lt→ltb now l.expires before) refl

  module _ (up : (i : ℕ) → env.redis_error i ≡ none) (c : Codec) (s : Sender) where
    -- The flag of a watcher's device and a post, from the time at which the lock server is asked.
    abbrev flag_of : Watcher → Thing → World → Lock
    flag_of w post v = record {
      key = trending_key w post;
      expires = env.now (v.calls + 1 + 1 + 1) + 48 * hour;
    }

    flag_stays :
        (post : Thing) (p : Payload) (w : Watcher) (v : World)
        → ltb post.created_at w.created_at ≡ false
        → is_held (env.now (v.calls + 1)) (trending_key w post) v.locks ≡ false
        → (tell_watcher env c s post p w v).1.locks
          ≡ flag_of w post v ∷ unlock (trending_key w post) v.locks
    unfolding tell_watcher ◌>>=◌
    flag_stays post p w v young free =
        let key = trending_key w post in
        let v1 : World = record v { calls = v.calls + 1 + 1 } in
        let v2 : World = record v {
          locks = flag_of w post v ∷ unlock key v.locks;
          calls = v.calls + 1 + 1 + 1 + 1;
        } in
        let told =
          Keeps-bind {P = HasLocks v2.locks} (increment_hits env w.id) _ (hits-locks w.id v2.locks)
            (Keeps-result _ _
              (λ u. Keeps-bind _ _ (send-locks c s w.device p v2.locks) (λ r. Keeps-pure true))
              (λ e. Keeps-pure false)) in
        rw
          (
            young,
            is_flagged_lem key v (up v.calls),
            free,
            flag_lem key (48 * hour) v1 (up v1.calls),
          )
          (told.at v2 refl)

    -- Once a device has been flagged for a post, then at any later turn of a watcher of that device
    -- at that post, in this run or in another one, nothing is sent and no hit is counted, while the
    -- locks are as the flagging left them and less than 48 hours have gone by; provided that the
    -- lock server answers.
    pub tell_watcher-once :
        (post post' : Thing) (p p' : Payload) (w w' : Watcher) (v later : World)
        → post'.id ≡ post.id
        → w'.device_id ≡ w.device_id
        → ltb post.created_at w.created_at ≡ false
        → is_held (env.now (v.calls + 1)) (trending_key w post) v.locks ≡ false
        → later.locks ≡ (tell_watcher env c s post p w v).1.locks
        → env.now (later.calls + 1) < env.now (v.calls + 1 + 1 + 1) + 48 * hour
        → ((tell_watcher env c s post' p' w' later).0 ≡ returned true)
          × ((tell_watcher env c s post' p' w' later).1.trace ≡ later.trace)
          × ((tell_watcher env c s post' p' w' later).1.db ≡ later.db)
    unfolding tell_watcher ◌>>=◌
    tell_watcher-once post post' p p' w w' v later id device young free locks soon =
        let key = trending_key w post in
        let same : trending_key w' post' ≡ key = rw (id, device) refl in
        let stands : is_held (env.now (later.calls + 1)) (trending_key w' post') later.locks
            ≡ true =
          rw (same, locks, flag_stays post p w v young free)
            (held (env.now (later.calls + 1)) key (flag_of w post v) _ refl soon) in
        elim (Bool-cases (ltb post'.created_at w'.created_at)) [
          | inl old ↦ rw old (refl, refl, refl)
          | inr new ↦
              rw (new, is_flagged_lem (trending_key w' post') later (up later.calls), stands)
                (refl, refl, refl)
        ]
