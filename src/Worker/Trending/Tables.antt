-- ===== src/Worker/Trending/Tables.antt =====
-- A run of trendingConsumer.Consume and the tables.
use apollo_backend.Prelude.{◌*◌, true, false, Option, none, some, List, [], ◌∷◌, ltb}
use apollo_backend.Prelude.Int.{ℤ, ltb_ℤ}
use apollo_backend.Str.{Str}
use apollo_backend.Errors.{Result, ok, err}
use apollo_backend.Domain.{Subreddit, Watcher}
use apollo_backend.Domain.Durations.{Time, hour}
use apollo_backend.Payload.{Payload}
use apollo_backend.Schema.{Db}
use apollo_backend.Exec.{Env}
use apollo_backend.Exec.Keeps.{
  Keeps, Keeps-pure, Keeps-panic, Keeps-if, Keeps-bind, Keeps-external, Keeps-result,
}
use apollo_backend.Push.Delivery.{Codec, Sender}
use apollo_backend.Reddit.Types.{Parser, Thing, ListingResponse}
use apollo_backend.Reddit.Client.{Transport}
use apollo_backend.Repository.Subreddits
use apollo_backend.Worker.Trending.{
  is_stale, trending_key, payload_from_trending_post, tell_watcher, tell_watchers, check_trending,
  hot_listed, watch_hot, top_listed, watch_trending, trending_job, check_trending_subreddit,
  consume_trending,
}
use apollo_backend.Worker.Watching.Rest.{
  Ignores, by_type-rest, hits-rest, drawn-rest, client-rest, send-rest, hot-rest, top-rest,
  flagged-rest, flag-rest, numbered-rest, row_of-rest,
}

module _ (P : Db → Type 0) (rest : Ignores P) (env : Env) (c : Codec) (s : Sender) where
  tell_watcher-rest :
      (post : Thing) (p : Payload) (w : Watcher)
      → Keeps (λ v. P v.db) (tell_watcher env c s post p w)
  unfolding tell_watcher
  tell_watcher-rest post p w = Keeps-if (ltb post.created_at w.created_at) (Keeps-pure true) (
      Keeps-bind _ _ (flagged-rest P rest env (trending_key w post)) (λ notified.
        Keeps-if notified (Keeps-pure true) (
          Keeps-bind _ _ (flag-rest P rest env (trending_key w post) (48 * hour)) (λ u.
            Keeps-bind _ _ (hits-rest P rest env w.id) (
              Keeps-result _ _
                (λ v. Keeps-bind _ _ (send-rest P rest env c s w.device p) (λ r. Keeps-pure true))
                (λ e. Keeps-pure false))))))

  tell_watchers-rest :
      (post : Thing) (p : Payload) (ws : List Watcher)
      → Keeps (λ v. P v.db) (tell_watchers env c s post p ws)
  unfolding tell_watchers
  tell_watchers-rest post p [] = Keeps-pure true
  tell_watchers-rest post p (w ∷ ws) =
      Keeps-bind _ _ (tell_watcher-rest post p w)
        (λ goes_on. Keeps-if goes_on (tell_watchers-rest post p ws) (Keeps-pure false))

  check_trending-rest :
      (now : Time) (median : ℤ) (ws : List Watcher) (posts : List Thing)
      → Keeps (λ v. P v.db) (check_trending env c s now median ws posts)
  unfolding check_trending
  check_trending-rest now median ws [] = Keeps-pure tt
  check_trending-rest now median ws (post ∷ posts) =
      let later = check_trending-rest now median ws posts in
      Keeps-if (ltb_ℤ post.score median) later (
        Keeps-if (is_stale now post) (Keeps-pure tt) (
          Keeps-bind _ _ (tell_watchers-rest post (payload_from_trending_post post) ws)
            (λ goes_on. Keeps-if goes_on later (Keeps-pure tt))))

  hot_listed-rest :
      (median : ℤ) (ws : List Watcher) (r : Result ListingResponse)
      → Keeps (λ v. P v.db) (hot_listed env c s median ws r)
  unfolding hot_listed
  hot_listed-rest median ws (err e) = Keeps-pure tt
  hot_listed-rest median ws (ok hps) =
      Keeps-bind _ _ (Keeps-external P env.now)
        (λ now. check_trending-rest now median ws hps.children)

  module _ (t : Transport) (p : Parser) where
    watch_hot-rest :
        (sr : Subreddit) (w : Watcher) (ws : List Watcher) (median : Option ℤ)
        → Keeps (λ v. P v.db) (watch_hot env c s t p sr w ws median)
    unfolding watch_hot
    watch_hot-rest sr w ws none = Keeps-panic
    watch_hot-rest sr w ws (some median) = Keeps-bind _ _ (drawn-rest P rest env w ws) (λ watcher.
        Keeps-bind _ _ (client-rest P rest env _) (λ rac.
          Keeps-bind _ _ (hot-rest P rest env t p rac sr.name _) (hot_listed-rest median (w ∷ ws))))

    top_listed-rest :
        (sr : Subreddit) (w : Watcher) (ws : List Watcher) (r : Result ListingResponse)
        → Keeps (λ v. P v.db) (top_listed env c s t p sr w ws r)
    unfolding top_listed
    top_listed-rest sr w ws (err e) = Keeps-pure tt
    top_listed-rest sr w ws (ok tps) =
        Keeps-if (ltb tps.count 20) (Keeps-pure tt) (watch_hot-rest sr w ws _)

    watch_trending-rest :
        (sr : Subreddit) (r : Result (List Watcher))
        → Keeps (λ v. P v.db) (watch_trending env c s t p sr r)
    unfolding watch_trending
    watch_trending-rest sr (err e) = Keeps-pure tt
    watch_trending-rest sr (ok []) = Keeps-pure tt
    watch_trending-rest sr (ok (w ∷ ws)) = Keeps-bind _ _ (drawn-rest P rest env w ws) (λ watcher.
        Keeps-bind _ _ (client-rest P rest env _)
          (λ rac. Keeps-bind _ _ (top-rest P rest env t p rac sr.name _) (top_listed-rest sr w ws)))

    trending_job-rest : (r : Result Subreddit) → Keeps (λ v. P v.db) (trending_job env c s t p r)
    unfolding trending_job
    trending_job-rest (err e) = Keeps-pure tt
    trending_job-rest (ok sr) =
        Keeps-bind _ _ (by_type-rest P rest env _ _) (watch_trending-rest sr)

    pub consume_trending-rest :
        (payload : Str) → Keeps (λ v. P v.db) (consume_trending env c s t p payload)
    unfolding consume_trending check_trending_subreddit Subreddits.get_by_id_sql
    consume_trending-rest payload =
        numbered-rest P rest env _ _
          (λ id. Keeps-bind _ _ (row_of-rest P rest env _ id) trending_job-rest)
