-- ===== src/Worker/Subreddits.antt =====
-- subredditsConsumer.Consume of internal/worker/subreddits.go, cut at its early returns. A stage that
-- a `return` can leave gives no result then.
pub mod Posts
pub mod Matches
pub mod Gathering
pub mod Tables
use apollo_backend.Prelude.{
  ℕ, zero, suc, ◌+◌, ◌*◌, Bool, true, false, not, ◌&&◌, ◌||◌, Option, none, some, List, [], ◌∷◌,
  ◌++◌, ltb, ◌==◌, if◌then◌else◌, any,
}
use apollo_backend.Prelude.Int.{ℤ, pos, ltb_ℤ}
use apollo_backend.Str.{Str, lit, str_eq, is_empty}
use apollo_backend.Errors.{
  Error, oauth_revoked, subreddit_not_found, Result, ok, err, is_oauth_revoked,
}
use apollo_backend.Domain.{Subreddit, Watcher, subreddit_watcher}
use apollo_backend.Domain.Durations.{Time, hour}
use apollo_backend.Payload.{Payload, alert_title, alert_body, ◌▹◌}
use apollo_backend.Exec.{Exec, Env, pure, external, ◌>>=◌, ◌>>◌}
use apollo_backend.Repository.Subreddits
use apollo_backend.Repository.Watchers.{by_type_and_watchee, increment_hits, delete_watcher}
use apollo_backend.Push.Delivery.{Codec, Sender, send}
use apollo_backend.Reddit.Types.{Parser, Thing, ListingResponse}
use apollo_backend.Reddit.Request.{RequestOption, with_query}
use apollo_backend.Reddit.Client.{Transport, new_authenticated_client}
use apollo_backend.Reddit.Calls.{subreddit_new, subreddit_hot}
use apollo_backend.Scheduler.Enqueue.{format_int}
use apollo_backend.Worker.Messages.{opening_quote, closing_quote}
use apollo_backend.Worker.Notifications.{credentials}
use apollo_backend.Worker.ParseInt.{parse_int}
use apollo_backend.Worker.Subreddits.Posts.{
  Gathered, nothing_gathered, gather, matches, payload_from_post,
}
use apollo_backend.Worker.Watching.{drawn, numbered, row_of, is_flagged, flag}

abbrev pub flag_key : Watcher → Thing → Str
flag_key w post = lit "watcher:" ++ (format_int w.device_id ++ b':' ∷ post.id)

unfoldable pub subreddit_title : Watcher → Str
subreddit_title w =
    240 ∷ 159 ∷ 147 ∷ 163 ∷ b' ' ∷ (opening_quote ++ (w.label ++ (closing_quote ++ lit " Watcher")))

unfoldable pub subreddit_body : Subreddit → Thing → Str
subreddit_body subreddit post =
    lit "r/" ++ (subreddit.name ++ (lit ": " ++ (opening_quote ++ (post.title ++ closing_quote))))

-- `before` is empty in every round.
unfoldable pub new_options : List RequestOption
unfolding with_query is_empty
new_options =
    with_query (lit "before") []
    ∷ with_query (lit "limit") (lit "100")
    ∷ with_query (lit "show") (lit "all")
    ∷ with_query (lit "always_show_media") (lit "1")
    ∷ []

unfoldable pub hot_options : List RequestOption
unfolding with_query is_empty
hot_options =
    with_query (lit "limit") (lit "100")
    ∷ with_query (lit "show") (lit "all")
    ∷ with_query (lit "always_show_media") (lit "1")
    ∷ []

module _ (env : Env) where
  unfoldable pub delete_watchers : List Watcher → Exec (Unit {0})
  delete_watchers [] = pure tt
  delete_watchers (w ∷ ws) = delete_watcher env w.id >> delete_watchers ws

  -- The switch on the error of a page.
  unfoldable pub after_new_error : Watcher → List Watcher → Error → Exec (Unit {0})
  unfolding delete_watchers
  after_new_error watcher watchers oauth_revoked = delete_watcher env watcher.id >> pure tt
  after_new_error watcher watchers subreddit_not_found = delete_watchers watchers
  after_new_error watcher watchers e = pure tt

  unfoldable pub page_loaded :
      (now : Time)
      → (watcher : Watcher) → (watchers : List Watcher) → (next : Gathered → Exec (Option Gathered))
      → Gathered
      → Result ListingResponse
      → Exec (Option Gathered)
  unfolding after_new_error gather
  page_loaded now watcher watchers next g (err e) = after_new_error watcher watchers e >> pure none
  page_loaded now watcher watchers next g (ok sps) =
      let (old, g') = gather now g sps.children in
      if sps.count == 0
      then pure (some g)
      else if ltb sps.count 100 || old
      then pure (some g')
      else next g'

  unfoldable pub hot_loaded : Time → Watcher → Gathered → Result ListingResponse → Exec Gathered
  unfolding gather is_oauth_revoked
  hot_loaded now watcher g (err e) =
      if is_oauth_revoked e then delete_watcher env watcher.id >> pure g else pure g
  hot_loaded now watcher g (ok sps) = pure (gather now g sps.children).1

  -- `notifs`: the watchers that the post is a hit of and whose device was not told of it.
  unfoldable pub collect_hits : Thing → List Watcher → Exec (Option (List Watcher))
  unfolding matches is_flagged flag format_int
  collect_hits post [] = pure (some [])
  collect_hits post (w ∷ ws) =
      if ltb post.created_at w.created_at || not (matches post w)
      then collect_hits post ws
      else is_flagged env (flag_key w post) >>= λ notified.
          if notified
          then collect_hits post ws
          else increment_hits env w.id >>= λ hit. elim hit [
            | err e ↦ pure none
            | ok u ↦ do
              flag env (flag_key w post) (24 * hour)
              rest ← collect_hits post ws
              elim rest [ none ↦ pure none | some notifs ↦ pure (some (w ∷ notifs)) ]
          ]

  module _ (c : Codec) (s : Sender) where
    unfoldable pub send_hits : Subreddit → Thing → Payload → List Watcher → Exec (Unit {0})
    unfolding subreddit_title subreddit_body
    send_hits subreddit post payload [] = pure tt
    send_hits subreddit post payload (w ∷ ws) =
        let p =
          payload ▹ alert_title (subreddit_title w) ▹ alert_body (subreddit_body subreddit post) in
        send env c s w.device p >> send_hits subreddit post p ws

    unfoldable pub check_posts : Subreddit → List Watcher → List Thing → Exec (Unit {0})
    unfolding collect_hits send_hits payload_from_post
    check_posts subreddit watchers [] = pure tt
    check_posts subreddit watchers (post ∷ posts) = do
      hits ← collect_hits post watchers
      elim hits [
        | none ↦ pure tt
        | some notifs ↦ do
          send_hits subreddit post (payload_from_post post) notifs
          check_posts subreddit watchers posts
      ]

    module _ (t : Transport) (p : Parser) where
      -- The loop over the pages, with the rounds that are left.
      unfoldable pub load_new :
          Time → Subreddit → Watcher → List Watcher → ℕ → Gathered → Exec (Option Gathered)
      unfolding page_loaded new_options credentials
      load_new now subreddit w ws zero g = pure (some g)
      load_new now subreddit w ws (suc pages) g = do
        watcher ← drawn env w ws
        rac ← new_authenticated_client (credentials watcher.account)
        sps ← subreddit_new env t p rac subreddit.name new_options
        page_loaded now watcher (w ∷ ws) (load_new now subreddit w ws pages) g sps

      unfoldable pub load_hot : Time → Subreddit → Watcher → List Watcher → Gathered → Exec Gathered
      unfolding hot_loaded hot_options credentials
      load_hot now subreddit w ws g = do
        watcher ← drawn env w ws
        rac ← new_authenticated_client (credentials watcher.account)
        sps ← subreddit_hot env t p rac subreddit.name hot_options
        hot_loaded now watcher g sps

      unfoldable pub watch_subreddit : Subreddit → Result (List Watcher) → Exec (Unit {0})
      unfolding load_new load_hot check_posts
      watch_subreddit subreddit (err e) = pure tt
      watch_subreddit subreddit (ok []) = pure tt
      watch_subreddit subreddit (ok (w ∷ ws)) = do
        now ← external env.now
        new ← load_new now subreddit w ws 5 nothing_gathered
        elim new [
          | none ↦ pure tt
          | some g ↦ do
            all ← load_hot now subreddit w ws g
            check_posts subreddit (w ∷ ws) all.posts
        ]

      unfoldable pub subreddit_job : Result Subreddit → Exec (Unit {0})
      unfolding watch_subreddit
      subreddit_job (err e) = pure tt
      subreddit_job (ok subreddit) =
          by_type_and_watchee env subreddit_watcher subreddit.id >>= watch_subreddit subreddit

      unfoldable pub check_subreddit : ℤ → Exec (Unit {0})
      unfolding subreddit_job row_of
      check_subreddit id = row_of env Subreddits.get_by_id_sql id >>= subreddit_job

      unfoldable pub consume_subreddit : Str → Exec (Unit {0})
      unfolding check_subreddit numbered parse_int
      consume_subreddit payload = numbered env check_subreddit (parse_int payload)
