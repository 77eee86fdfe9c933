-- ===== src/Worker/Users.antt =====
-- usersConsumer.Consume of internal/worker/users.go, cut at its early returns. A loop that a `return`
-- can leave says whether the run goes on.
pub mod Enqueued
pub mod Tables
use apollo_backend.Prelude.{Bool, true, false, not, ◌&&◌, List, [], ◌∷◌, ltb, if◌then◌else◌}
use apollo_backend.Prelude.Int.{ℤ}
use apollo_backend.Prelude.Table.{select_where}
use apollo_backend.Str.{Str, lit, str_eq, is_empty, to_lower}
use apollo_backend.Errors.{Result, ok, err}
use apollo_backend.Domain.{User, Watcher, user_watcher}
use apollo_backend.Payload.{
  Payload, text, time, alert_title, alert_body, alert_subtitle, alert_summary_arg, category, sound,
  mutable_content, custom, new_payload, ◌▹◌,
}
use apollo_backend.Exec.{Exec, Env, pure, ◌>>=◌, ◌>>◌}
use apollo_backend.Repository.Accounts
use apollo_backend.Repository.Devices
use apollo_backend.Repository.Users
use apollo_backend.Repository.Watchers.{
  by_type_and_watchee, increment_hits, delete_by_type_and_watchee,
}
use apollo_backend.Push.Delivery.{Codec, Sender, send}
use apollo_backend.Reddit.Types.{Parser, Thing, ListingResponse, UserResponse}
use apollo_backend.Reddit.Client.{Transport, AuthenticatedClient, new_authenticated_client}
use apollo_backend.Reddit.Calls.{user_about, user_posts}
use apollo_backend.Worker.Notifications.{credentials}
use apollo_backend.Worker.ParseInt.{parse_int}
use apollo_backend.Worker.Watching.{zero_account, zero_device, value_or, drawn, numbered, row_of}

unfoldable pub payload_from_user_post : Thing → Payload
payload_from_user_post post =
    new_payload
    ▹ alert_body post.title
    ▹ alert_subtitle post.author
    ▹ alert_summary_arg post.author
    ▹ category (lit "user-watch")
    ▹ custom (lit "post_title") (text post.title)
    ▹ custom (lit "post_id") (text post.id)
    ▹ custom (lit "subreddit") (text post.subreddit)
    ▹ custom (lit "author") (text post.author)
    ▹ custom (lit "post_age") (time post.created_at)
    ▹ mutable_content
    ▹ sound (lit "traloop.wav")

-- The three `continue`s of the loop over the watchers.
unfoldable pub wants_user_post : Thing → Watcher → Bool
unfolding is_empty str_eq to_lower
wants_user_post post w =
    if ltb post.created_at w.created_at
    then false
    else if ltb post.created_at w.last_notified_at
    then false
    else if not (is_empty w.subreddit) && not (str_eq (to_lower post.subreddit) w.subreddit)
    then false
    else true

unfoldable pub is_private_post : Thing → Bool
unfolding str_eq
is_private_post post = str_eq post.subreddit_type (lit "private")

-- `notifs`; none for a post in a private subreddit
unfoldable pub post_watchers : List Watcher → Thing → List Watcher
unfolding wants_user_post select_where is_private_post
post_watchers watchers post =
    if is_private_post post then [] else select_where (wants_user_post post) watchers

-- The emoji of an astronaut, a space and the label.
unfoldable pub user_title : Watcher → Str
user_title w = 240 ∷ 159 ∷ 145 ∷ 168 ∷ 226 ∷ 128 ∷ 141 ∷ 240 ∷ 159 ∷ 154 ∷ 128 ∷ b' ' ∷ w.label

module _ (env : Env) (c : Codec) (s : Sender) where
  unfoldable pub notify_user_watchers : Payload → List Watcher → Exec Bool
  unfolding user_title value_or
  notify_user_watchers payload [] = pure true
  notify_user_watchers payload (w ∷ ws) = do
    hit ← increment_hits env w.id
    elim hit [
      | err e ↦ pure false
      | ok u ↦ do
        device ← Devices.get_by_id env w.device_id
        send env c s (value_or zero_device device) (payload ▹ alert_title (user_title w))
        notify_user_watchers (payload ▹ alert_title (user_title w)) ws
    ]

  unfoldable pub notify_user_posts : List Watcher → List Thing → Exec (Unit {0})
  unfolding notify_user_watchers post_watchers payload_from_user_post
  notify_user_posts watchers [] = pure tt
  notify_user_posts watchers (post ∷ posts) = do
    goes_on ← notify_user_watchers (payload_from_user_post post) (post_watchers watchers post)
    if goes_on then notify_user_posts watchers posts else pure tt

  unfoldable pub posted : List Watcher → Result ListingResponse → Exec (Unit {0})
  unfolding notify_user_posts
  posted watchers (err e) = pure tt
  posted watchers (ok posts) = notify_user_posts watchers posts.children

  -- The rows of a user who disabled followers go; whether the run goes on.
  unfoldable pub remove_user : User → Exec Bool
  remove_user user = do
    gone ← delete_by_type_and_watchee env user_watcher user.id
    elim gone [
      | err e ↦ pure false
      | ok u ↦ do
        removed ← Users.delete env user.id
        elim removed [ err e ↦ pure false | ok v ↦ pure true ]
    ]

  module _ (t : Transport) (p : Parser) where
    unfoldable pub look_at_posts : User → List Watcher → AuthenticatedClient → Exec (Unit {0})
    unfolding posted
    look_at_posts user watchers rac = user_posts env t p rac user.name [] >>= posted watchers

    unfoldable pub described :
        User → List Watcher → AuthenticatedClient → Result UserResponse → Exec (Unit {0})
    unfolding remove_user look_at_posts
    described user watchers rac (err e) = pure tt
    described user watchers rac (ok ru) =
        if ru.accept_followers
        then look_at_posts user watchers rac
        else (remove_user user
            >>= (λ goes_on. if goes_on then look_at_posts user watchers rac else pure tt))

    unfoldable pub watched : User → Result (List Watcher) → Exec (Unit {0})
    unfolding described value_or credentials
    watched user (err e) = pure tt
    watched user (ok []) = pure tt
    watched user (ok (w ∷ ws)) = do
      watcher ← drawn env w ws
      acc ← Accounts.get_by_id env watcher.account_id
      rac ← new_authenticated_client (credentials (value_or zero_account acc))
      ru ← user_about env t p rac user.name
      described user (w ∷ ws) rac ru

    unfoldable pub user_job : Result User → Exec (Unit {0})
    unfolding watched
    user_job (err e) = pure tt
    user_job (ok user) = by_type_and_watchee env user_watcher user.id >>= watched user

    unfoldable pub check_user : ℤ → Exec (Unit {0})
    unfolding user_job row_of
    check_user id = row_of env Users.get_by_id_sql id >>= user_job

    unfoldable pub consume_user : Str → Exec (Unit {0})
    unfolding check_user numbered parse_int
    consume_user payload = numbered env check_user (parse_int payload)
