-- ===== src/Worker/Users/Tables.antt =====
-- A run of usersConsumer.Consume and the tables.
use apollo_backend.Prelude.{true, false, List, [], ◌∷◌}
use apollo_backend.Str.{Str}
use apollo_backend.Errors.{Result, ok, err}
use apollo_backend.Domain.{User, Watcher}
use apollo_backend.Payload.{Payload}
use apollo_backend.Schema.{Db}
use apollo_backend.Exec.{Env}
use apollo_backend.Exec.Keeps.{
  Keeps, Keeps-pure, Keeps-if, Keeps-bind, Keeps-statement, Keeps-result,
}
use apollo_backend.Push.Delivery.{Codec, Sender}
use apollo_backend.Reddit.Types.{Parser, Thing, ListingResponse, UserResponse}
use apollo_backend.Reddit.Client.{Transport, AuthenticatedClient}
use apollo_backend.Repository.Users
use apollo_backend.Worker.Users.{
  notify_user_watchers, notify_user_posts, posted, remove_user, look_at_posts, described, watched,
  user_job, check_user, consume_user,
}
use apollo_backend.Worker.Watching.Rest.{
  Ignores, by_type-rest, account-rest, device-rest, hits-rest, delete_by_type-rest, drawn-rest,
  client-rest, send-rest, user_posts-rest, user_about-rest, numbered-rest, row_of-rest,
}

module _ (P : Db → Type 0) (rest : Ignores P) (env : Env) (c : Codec) (s : Sender) where
  notify_user_watchers-rest :
      (p : Payload) (ws : List Watcher) → Keeps (λ v. P v.db) (notify_user_watchers env c s p ws)
  unfolding notify_user_watchers
  notify_user_watchers-rest p [] = Keeps-pure true
  notify_user_watchers-rest p (w ∷ ws) = Keeps-bind _ _ (hits-rest P rest env w.id) (
      Keeps-result _ _
        (λ u. Keeps-bind _ _ (device-rest P rest env w.device_id) (λ d.
          Keeps-bind _ _ (send-rest P rest env c s _ _) (λ r. notify_user_watchers-rest _ ws)))
        (λ e. Keeps-pure false))

  notify_user_posts-rest :
      (ws : List Watcher) (posts : List Thing)
      → Keeps (λ v. P v.db) (notify_user_posts env c s ws posts)
  unfolding notify_user_posts
  notify_user_posts-rest ws [] = Keeps-pure tt
  notify_user_posts-rest ws (post ∷ posts) =
      Keeps-bind _ _ (notify_user_watchers-rest _ _)
        (λ goes_on. Keeps-if goes_on (notify_user_posts-rest ws posts) (Keeps-pure tt))

  posted-rest :
      (ws : List Watcher) (r : Result ListingResponse) → Keeps (λ v. P v.db) (posted env c s ws r)
  unfolding posted
  posted-rest ws (err e) = Keeps-pure tt
  posted-rest ws (ok posts) = notify_user_posts-rest ws posts.children

  remove_user-rest : (user : User) → Keeps (λ v. P v.db) (remove_user env c s user)
  unfolding remove_user Users.delete Users.delete_sql
  remove_user-rest user = Keeps-bind _ _ (delete_by_type-rest P rest env _ _) (
      Keeps-result _ _
        (λ u.
          Keeps-bind _ _ (Keeps-statement P env _ (λ now db h. rest db db.watchers _ h))
            (Keeps-result _ _ (λ v. Keeps-pure true) (λ e. Keeps-pure false)))
        (λ e. Keeps-pure false))

  module _ (t : Transport) (p : Parser) where
    look_at_posts-rest :
        (user : User) (ws : List Watcher) (rac : AuthenticatedClient)
        → Keeps (λ v. P v.db) (look_at_posts env c s t p user ws rac)
    unfolding look_at_posts
    look_at_posts-rest user ws rac =
        Keeps-bind _ _ (user_posts-rest P rest env t p rac user.name []) (posted-rest ws)

    described-rest :
        (user : User) (ws : List Watcher) (rac : AuthenticatedClient) (r : Result UserResponse)
        → Keeps (λ v. P v.db) (described env c s t p user ws rac r)
    unfolding described
    described-rest user ws rac (err e) = Keeps-pure tt
    described-rest user ws rac (ok ru) =
        let look = look_at_posts-rest user ws rac in
        Keeps-if ru.accept_followers look (
          Keeps-bind _ _ (remove_user-rest user) (λ goes_on. Keeps-if goes_on look (Keeps-pure tt)))

    watched-rest :
        (user : User) (r : Result (List Watcher)) → Keeps (λ v. P v.db) (watched env c s t p user r)
    unfolding watched
    watched-rest user (err e) = Keeps-pure tt
    watched-rest user (ok []) = Keeps-pure tt
    watched-rest user (ok (w ∷ ws)) = Keeps-bind _ _ (drawn-rest P rest env w ws) (λ watcher.
        Keeps-bind _ _ (account-rest P rest env watcher.account_id) (λ acc.
          Keeps-bind _ _ (client-rest P rest env _) (λ rac.
            Keeps-bind _ _ (user_about-rest P rest env t p rac user.name)
              (described-rest user (w ∷ ws) rac))))

    user_job-rest : (r : Result User) → Keeps (λ v. P v.db) (user_job env c s t p r)
    unfolding user_job
    user_job-rest (err e) = Keeps-pure tt
    user_job-rest (ok user) = Keeps-bind _ _ (by_type-rest P rest env _ _) (watched-rest user)

    pub consume_user-rest : (payload : Str) → Keeps (λ v. P v.db) (consume_user env c s t p payload)
    unfolding consume_user check_user Users.get_by_id_sql
    consume_user-rest payload =
        numbered-rest P rest env _ _
          (λ id. Keeps-bind _ _ (row_of-rest P rest env _ id) user_job-rest)
