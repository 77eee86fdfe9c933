-- ===== src/Worker/Watching/Rest.antt =====
-- What the calls of the consumers of watchers leave as it is: every predicate of the database that
-- does not look at `watchers` and `users`.
use apollo_backend.Prelude.{ℕ, refl, Option, none, some, List, Bool-cases, Option-cases, inl, inr}
use apollo_backend.Prelude.Int.{ℤ, pos, negsuc}
use apollo_backend.Str.{Str, lit}
use apollo_backend.Errors.{Result}
use apollo_backend.Domain.{Watcher, WatcherType, Device, User, is_bark}
use apollo_backend.Domain.Durations.{Time}
use apollo_backend.Payload.{Payload}
use apollo_backend.Schema.{Db, WatcherRow}
use apollo_backend.Exec.{Exec, Env, ◌>>=◌}
use apollo_backend.Exec.Keeps.{
  keeps_rules, Keeps, Keeps-bind, Keeps-external, Keeps-statement, Keeps-same, Keeps-deferring,
}
use apollo_backend.Push.Delivery.{Codec, Sender, send}
use apollo_backend.Push.Routing.{send-bark, send-apns}
use apollo_backend.Reddit.Types.{Parser, new_listing_response, new_user_response}
use apollo_backend.Reddit.Request.{Request, RequestOption}
use apollo_backend.Reddit.Client.{
  Transport, AuthCredentials, AuthenticatedClient, ErrorMap, default_error_map, request,
  new_authenticated_client,
}
use apollo_backend.Reddit.Calls.{
  subreddit_posts, subreddit_posts_request, subreddit_hot, subreddit_top, subreddit_new, user_posts,
  user_posts_request, user_about, user_about_request,
}
use apollo_backend.Reddit.Retries.{request-db}
use apollo_backend.Repository.Accounts
use apollo_backend.Repository.Devices
use apollo_backend.Repository.Watchers.{
  by_type_and_watchee, by_type_and_watchee_sql, increment_hits, increment_hits_sql, delete_watcher,
  delete_watcher_sql, delete_by_type_and_watchee, delete_by_type_and_watchee_sql,
}
use apollo_backend.Worker.Locks.{ack}
use apollo_backend.Worker.Watching.{drawn, numbered, row_of, reject, is_flagged, flag}

-- The predicate does not look at the two tables.
abbrev pub Ignores : (Db → Type 0) → Type 0
Ignores P =
    (db : Db) (ws : List WatcherRow) (us : List User)
    → P db
    → P (record db { watchers = ws; users = us })

module _ (P : Db → Type 0) (rest : Ignores P) (env : Env) where
  pub by_type-rest :
      (typ : WatcherType) (id : ℕ) → Keeps (λ w. P w.db) (by_type_and_watchee env typ id)
  unfolding by_type_and_watchee by_type_and_watchee_sql
  by_type-rest typ id = Keeps-statement P env _ (λ now db h. h)

  pub account-rest : (id : ℕ) → Keeps (λ w. P w.db) (Accounts.get_by_id env id)
  unfolding Accounts.get_by_id Accounts.get_by_id_sql
  account-rest id = Keeps-statement P env _ (λ now db h. h)

  pub device-rest : (id : ℕ) → Keeps (λ w. P w.db) (Devices.get_by_id env id)
  unfolding Devices.get_by_id Devices.get_by_id_sql
  device-rest id = Keeps-statement P env _ (λ now db h. h)

  pub hits-rest : (id : ℕ) → Keeps (λ w. P w.db) (increment_hits env id)
  unfolding increment_hits increment_hits_sql
  hits-rest id =
      Keeps-bind _ _ (Keeps-external P env.now)
        (λ at. Keeps-statement P env _ (λ now db h. rest db _ db.users h))

  pub delete-rest : (id : ℕ) → Keeps (λ w. P w.db) (delete_watcher env id)
  unfolding delete_watcher delete_watcher_sql
  delete-rest id = Keeps-statement P env _ (λ now db h. rest db _ db.users h)

  pub delete_by_type-rest :
      (typ : WatcherType) (id : ℕ) → Keeps (λ w. P w.db) (delete_by_type_and_watchee env typ id)
  unfolding delete_by_type_and_watchee delete_by_type_and_watchee_sql
  delete_by_type-rest typ id = Keeps-statement P env _ (λ now db h. rest db _ db.users h)

  pub drawn-rest : (w : Watcher) (ws : List Watcher) → Keeps (λ w. P w.db) (drawn env w ws)
  unfolding drawn
  drawn-rest w ws = Keeps-external P _

  pub client-rest : (creds : AuthCredentials) → Keeps (λ w. P w.db) (new_authenticated_client creds)
  unfolding new_authenticated_client
  client-rest creds = search keeps_rules

  pub send-rest :
      (c : Codec) (s : Sender) (device : Device) (p : Payload)
      → Keeps (λ w. P w.db) (send env c s device p)
  send-rest c s device p = Keeps-same P (send env c s device p) (λ w.
      elim (Bool-cases (is_bark device)) [
        | inl e ↦ (send-bark env c s device p w e).3.db
        | inr e ↦ (send-apns env c s device p w e).5
      ])

  request-rest :
      {A : Type 0} (t : Transport) (p : Parser) (rac : AuthenticatedClient) (errmap : ErrorMap)
      (r : Request) (handler : p.Value → A) (empty : Option A)
      → Keeps (λ w. P w.db) (request env t p rac errmap r handler empty)
  request-rest t p rac errmap r handler empty =
      Keeps-same P (request env t p rac errmap r handler empty)
        (request-db env t p rac errmap r handler empty)

  module _ (t : Transport) (p : Parser) (rac : AuthenticatedClient) (name : Str) where
    posts_by-rest :
        (sort : Str) (opts : List RequestOption)
        → Keeps (λ w. P w.db) (subreddit_posts env t p rac name sort opts)
    unfolding subreddit_posts
    posts_by-rest sort opts =
        request-rest t p rac default_error_map (subreddit_posts_request rac name sort opts)
          (new_listing_response p) none

    pub hot-rest :
        (opts : List RequestOption) → Keeps (λ w. P w.db) (subreddit_hot env t p rac name opts)
    unfolding subreddit_hot
    hot-rest opts = posts_by-rest (lit "hot") opts

    pub top-rest :
        (opts : List RequestOption) → Keeps (λ w. P w.db) (subreddit_top env t p rac name opts)
    unfolding subreddit_top
    top-rest opts = posts_by-rest (lit "top") opts

    pub new-rest :
        (opts : List RequestOption) → Keeps (λ w. P w.db) (subreddit_new env t p rac name opts)
    unfolding subreddit_new
    new-rest opts = posts_by-rest (lit "new") opts

    pub user_posts-rest :
        (opts : List RequestOption) → Keeps (λ w. P w.db) (user_posts env t p rac name opts)
    unfolding user_posts
    user_posts-rest opts =
        request-rest t p rac default_error_map (user_posts_request rac name opts)
          (new_listing_response p) none

    pub user_about-rest : Keeps (λ w. P w.db) (user_about env t p rac name)
    unfolding user_about
    user_about-rest =
        request-rest t p rac default_error_map (user_about_request rac name) (new_user_response p)
          none

  pub flagged-rest : (key : Str) → Keeps (λ w. P w.db) (is_flagged env key)
  unfolding is_flagged ◌>>=◌
  flagged-rest key = Keeps-same P (is_flagged env key) (λ w.
      elim (Option-cases (env.redis_error w.calls)) [ inl e ↦ rw e refl | inr (x, e) ↦ rw e refl ])

  pub flag-rest : (key : Str) (duration : Time) → Keeps (λ w. P w.db) (flag env key duration)
  unfolding flag ◌>>=◌
  flag-rest key duration = Keeps-same P (flag env key duration) (λ w.
      elim (Option-cases (env.redis_error w.calls)) [ inl e ↦ rw e refl | inr (x, e) ↦ rw e refl ])

  reject-rest : Keeps (λ w. P w.db) (reject env)
  unfolding reject ◌>>=◌
  reject-rest = Keeps-same P (reject env) (λ w. elim (Option-cases (env.queue_error w.calls)) [
    | inl e ↦ rw e refl
    | inr (x, e) ↦ rw e refl
  ])

  ack-rest : Keeps (λ w. P w.db) (ack env)
  unfolding ack ◌>>=◌
  ack-rest = Keeps-same P (ack env) (λ w. elim (Option-cases (env.queue_error w.calls)) [
    | inl e ↦ rw e refl
    | inr (x, e) ↦ rw e refl
  ])

  pub numbered-rest :
      (job : ℤ → Exec (Unit {0})) (id : Option ℤ)
      → ((i : ℤ) → Keeps (λ w. P w.db) (job i))
      → Keeps (λ w. P w.db) (numbered env job id)
  unfolding numbered
  numbered-rest job none k = reject-rest
  numbered-rest job (some id) k = Keeps-deferring _ _ ack-rest (k id)

  pub row_of-rest :
      {A : Type 0} (f : ℕ → Time → Db → Result A) (id : ℤ)
      → Keeps (λ w. P w.db) (row_of env (λ i now db. (f i now db, db)) id)
  unfolding row_of
  row_of-rest f (pos id) = Keeps-statement P env _ (λ now db h. h)
  row_of-rest f (negsuc n) = Keeps-statement P env _ (λ now db h. h)
