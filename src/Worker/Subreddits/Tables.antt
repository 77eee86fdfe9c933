-- ===== src/Worker/Subreddits/Tables.antt =====
-- A run of subredditsConsumer.Consume and the tables.
use apollo_backend.Prelude.{
  ◌*◌, ℕ, zero, suc, not, ◌||◌, ◌==◌, Option, none, some, List, [], ◌∷◌, ltb,
}
use apollo_backend.Str.{Str}
use apollo_backend.Errors.{
  Error, Result, ok, err, is_oauth_revoked, not_found, invalid, oauth_revoked, timeout,
  rate_limited, subreddit_is_private, subreddit_is_quarantined, subreddit_not_found,
  too_many_requests, server_error, other,
}
use apollo_backend.Domain.{Subreddit, Watcher}
use apollo_backend.Domain.Durations.{Time, hour}
use apollo_backend.Payload.{Payload}
use apollo_backend.Schema.{Db}
use apollo_backend.Exec.{Exec, Env}
use apollo_backend.Exec.Keeps.{
  Keeps, Keeps-pure, Keeps-if, Keeps-bind, Keeps-external, Keeps-result,
}
use apollo_backend.Push.Delivery.{Codec, Sender}
use apollo_backend.Reddit.Types.{Parser, Thing, ListingResponse}
use apollo_backend.Reddit.Client.{Transport}
use apollo_backend.Repository.Subreddits
use apollo_backend.Worker.Subreddits.Posts.{Gathered, nothing_gathered, gather, matches}
use apollo_backend.Worker.Subreddits.{
  flag_key, delete_watchers, after_new_error, page_loaded, hot_loaded, collect_hits, send_hits,
  check_posts, load_new, load_hot, watch_subreddit, subreddit_job, check_subreddit,
  consume_subreddit,
}
use apollo_backend.Worker.Watching.Rest.{
  Ignores, by_type-rest, hits-rest, delete-rest, drawn-rest, client-rest, send-rest, hot-rest,
  new-rest, flagged-rest, flag-rest, numbered-rest, row_of-rest,
}

module _ (P : Db → Type 0) (rest : Ignores P) (env : Env) where
  delete_watchers-rest : (ws : List Watcher) → Keeps (λ v. P v.db) (delete_watchers env ws)
  unfolding delete_watchers
  delete_watchers-rest [] = Keeps-pure tt
  delete_watchers-rest (w ∷ ws) =
      Keeps-bind _ _ (delete-rest P rest env w.id) (λ u. delete_watchers-rest ws)

  after_new_error-rest :
      (w : Watcher) (ws : List Watcher) (e : Error)
      → Keeps (λ v. P v.db) (after_new_error env w ws e)
  unfolding after_new_error
  after_new_error-rest w ws oauth_revoked =
      Keeps-bind _ _ (delete-rest P rest env w.id) (λ u. Keeps-pure tt)
  after_new_error-rest w ws subreddit_not_found = delete_watchers-rest ws
  after_new_error-rest w ws not_found = Keeps-pure tt
  after_new_error-rest w ws invalid = Keeps-pure tt
  after_new_error-rest w ws timeout = Keeps-pure tt
  after_new_error-rest w ws rate_limited = Keeps-pure tt
  after_new_error-rest w ws subreddit_is_private = Keeps-pure tt
  after_new_error-rest w ws subreddit_is_quarantined = Keeps-pure tt
  after_new_error-rest w ws too_many_requests = Keeps-pure tt
  after_new_error-rest w ws (server_error status body) = Keeps-pure tt
  after_new_error-rest w ws (other message) = Keeps-pure tt

  page_loaded-rest :
      (now : Time) (w : Watcher) (ws : List Watcher) (next : Gathered → Exec (Option Gathered))
      (g : Gathered) (r : Result ListingResponse)
      → ((g' : Gathered) → Keeps (λ v. P v.db) (next g'))
      → Keeps (λ v. P v.db) (page_loaded env now w ws next g r)
  unfolding page_loaded
  page_loaded-rest now w ws next g (err e) k =
      Keeps-bind _ _ (after_new_error-rest w ws e) (λ u. Keeps-pure none)
  page_loaded-rest now w ws next g (ok sps) k = Keeps-if (sps.count == 0) (Keeps-pure (some g)) (
      Keeps-if (ltb sps.count 100 || (gather now g sps.children).0)
        (Keeps-pure (some (gather now g sps.children).1)) (k _))

  hot_loaded-rest :
      (now : Time) (w : Watcher) (g : Gathered) (r : Result ListingResponse)
      → Keeps (λ v. P v.db) (hot_loaded env now w g r)
  unfolding hot_loaded
  hot_loaded-rest now w g (err e) =
      Keeps-if (is_oauth_revoked e)
        (Keeps-bind _ _ (delete-rest P rest env w.id) (λ u. Keeps-pure g)) (Keeps-pure g)
  hot_loaded-rest now w g (ok sps) = Keeps-pure _

  Keeps-hits :
      {A B : Type 0} (f : A → Exec B) (n : Exec B)
      → Keeps (λ v. P v.db) n
      → ((a : A) → Keeps (λ v. P v.db) (f a))
      → (o : Option A) → Keeps (λ v. P v.db) (elim o as (λ x. Exec B) [ none ↦ n | some a ↦ f a ])
  Keeps-hits f n kn kf none = kn
  Keeps-hits f n kn kf (some a) = kf a

  collect_hits-rest :
      (post : Thing) (ws : List Watcher) → Keeps (λ v. P v.db) (collect_hits env post ws)
  unfolding collect_hits
  collect_hits-rest post [] = Keeps-pure (some [])
  collect_hits-rest post (w ∷ ws) =
      let later = collect_hits-rest post ws in
      Keeps-if (ltb post.created_at w.created_at || not (matches post w)) later (
        Keeps-bind _ _ (flagged-rest P rest env (flag_key w post)) (λ notified.
          Keeps-if notified later (
            Keeps-bind _ _ (hits-rest P rest env w.id) (
              Keeps-result _ _
                (λ u. Keeps-bind _ _ (flag-rest P rest env (flag_key w post) (24 * hour)) (λ v.
                  Keeps-bind _ _ later (Keeps-hits _ _ (Keeps-pure none) (λ notifs. Keeps-pure _))))
                (λ e. Keeps-pure none)))))

  module _ (c : Codec) (s : Sender) where
    send_hits-rest :
        (sr : Subreddit) (post : Thing) (p : Payload) (ws : List Watcher)
        → Keeps (λ v. P v.db) (send_hits env c s sr post p ws)
    unfolding send_hits
    send_hits-rest sr post p [] = Keeps-pure tt
    send_hits-rest sr post p (w ∷ ws) =
        Keeps-bind _ _ (send-rest P rest env c s w.device _) (λ r. send_hits-rest sr post _ ws)

    check_posts-rest :
        (sr : Subreddit) (ws : List Watcher) (posts : List Thing)
        → Keeps (λ v. P v.db) (check_posts env c s sr ws posts)
    unfolding check_posts
    check_posts-rest sr ws [] = Keeps-pure tt
    check_posts-rest sr ws (post ∷ posts) = Keeps-bind _ _ (collect_hits-rest post ws) (
        Keeps-hits _ _ (Keeps-pure tt) (λ notifs.
          Keeps-bind _ _ (send_hits-rest sr post _ notifs) (λ u. check_posts-rest sr ws posts)))

    module _ (t : Transport) (p : Parser) where
      load_new-rest :
          (now : Time) (sr : Subreddit) (w : Watcher) (ws : List Watcher) (n : ℕ) (g : Gathered)
          → Keeps (λ v. P v.db) (load_new env c s t p now sr w ws n g)
      unfolding load_new
      load_new-rest now sr w ws zero g = Keeps-pure (some g)
      load_new-rest now sr w ws (suc n) g = Keeps-bind _ _ (drawn-rest P rest env w ws) (λ watcher.
          Keeps-bind _ _ (client-rest P rest env _) (λ rac.
            Keeps-bind _ _ (new-rest P rest env t p rac sr.name _)
              (λ sps. page_loaded-rest now watcher (w ∷ ws) _ g sps (load_new-rest now sr w ws n))))

      load_hot-rest :
          (now : Time) (sr : Subreddit) (w : Watcher) (ws : List Watcher) (g : Gathered)
          → Keeps (λ v. P v.db) (load_hot env c s t p now sr w ws g)
      unfolding load_hot
      load_hot-rest now sr w ws g = Keeps-bind _ _ (drawn-rest P rest env w ws) (λ watcher.
          Keeps-bind _ _ (client-rest P rest env _) (λ rac.
            Keeps-bind _ _ (hot-rest P rest env t p rac sr.name _) (hot_loaded-rest now watcher g)))

      watch_subreddit-rest :
          (sr : Subreddit) (r : Result (List Watcher))
          → Keeps (λ v. P v.db) (watch_subreddit env c s t p sr r)
      unfolding watch_subreddit
      watch_subreddit-rest sr (err e) = Keeps-pure tt
      watch_subreddit-rest sr (ok []) = Keeps-pure tt
      watch_subreddit-rest sr (ok (w ∷ ws)) = Keeps-bind _ _ (Keeps-external P env.now) (λ now.
          Keeps-bind _ _ (load_new-rest now sr w ws 5 nothing_gathered) (
            Keeps-hits _ _ (Keeps-pure tt) (λ g.
              Keeps-bind _ _ (load_hot-rest now sr w ws g)
                (λ all. check_posts-rest sr (w ∷ ws) all.posts))))

      subreddit_job-rest :
          (r : Result Subreddit) → Keeps (λ v. P v.db) (subreddit_job env c s t p r)
      unfolding subreddit_job
      subreddit_job-rest (err e) = Keeps-pure tt
      subreddit_job-rest (ok sr) =
          Keeps-bind _ _ (by_type-rest P rest env _ _) (watch_subreddit-rest sr)

      pub consume_subreddit-rest :
          (payload : Str) → Keeps (λ v. P v.db) (consume_subreddit env c s t p payload)
      unfolding consume_subreddit check_subreddit Subreddits.get_by_id_sql
      consume_subreddit-rest payload =
          numbered-rest P rest env _ _
            (λ id. Keeps-bind _ _ (row_of-rest P rest env _ id) subreddit_job-rest)
