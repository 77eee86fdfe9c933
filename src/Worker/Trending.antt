-- ===== src/Worker/Trending.antt =====
-- trendingConsumer.Consume of internal/worker/trending.go, cut at its early returns. A loop that a
-- `return` can leave says whether the run goes on.
pub mod Median
pub mod Once
pub mod Tables
use apollo_backend.Prelude.{
  ◌+◌, ◌*◌, ◌/◌, Bool, true, false, Option, none, some, List, [], ◌∷◌, ◌++◌, ltb, if◌then◌else◌,
  get_elem?,
}
use apollo_backend.Prelude.Int.{ℤ, ltb_ℤ}
use apollo_backend.Str.{Str, lit, is_empty}
use apollo_backend.Errors.{Result, ok, err}
use apollo_backend.Domain.{Subreddit, Watcher, trending_watcher}
use apollo_backend.Domain.Durations.{Time, hour}
use apollo_backend.Payload.{
  Payload, text, time, alert_title, alert_body, alert_summary_arg, category, thread_id, sound,
  mutable_content, custom, new_payload, ◌▹◌,
}
use apollo_backend.Exec.{Exec, Env, pure, panic, external, ◌>>=◌, ◌>>◌}
use apollo_backend.Repository.Subreddits
use apollo_backend.Repository.Watchers.{by_type_and_watchee, increment_hits}
use apollo_backend.Push.Delivery.{Codec, Sender, send}
use apollo_backend.Reddit.Types.{Parser, Thing, ListingResponse}
use apollo_backend.Reddit.Request.{RequestOption, with_query}
use apollo_backend.Reddit.Client.{Transport, new_authenticated_client}
use apollo_backend.Reddit.Calls.{subreddit_top, subreddit_hot}
use apollo_backend.Scheduler.Enqueue.{format_int}
use apollo_backend.Worker.Notifications.{credentials}
use apollo_backend.Worker.ParseInt.{parse_int}
use apollo_backend.Worker.Subreddits.Posts.{with_thumbnail}
use apollo_backend.Worker.Watching.{drawn, numbered, row_of, is_flagged, flag}

-- sort.SliceStable with the code's test: the higher scores first, equal ones in their order.
unfoldable pub insert_by_score : Thing → List Thing → List Thing
insert_by_score post [] = post ∷ []
insert_by_score post (p ∷ ps) =
    let later = p ∷ insert_by_score post ps in
    if ltb_ℤ post.score p.score then later else post ∷ p ∷ ps

unfoldable pub sort_by_score : List Thing → List Thing
unfolding insert_by_score
sort_by_score [] = []
sort_by_score (p ∷ ps) = insert_by_score p (sort_by_score ps)

abbrev pub score_of : Option Thing → Option ℤ
score_of none = none
score_of (some post) = some post.score

-- No score where the index is out of range.
unfoldable pub median_score : ListingResponse → Option ℤ
unfolding sort_by_score
median_score tps = score_of (get_elem? (sort_by_score tps.children) (tps.count / 2))

abbrev pub trending_key : Watcher → Thing → Str
trending_key w post = lit "watcher:trending:" ++ (format_int w.device_id ++ b':' ∷ post.id)

-- `post.CreatedAt.Before(threshold)`
abbrev pub is_stale : Time → Thing → Bool
is_stale now post = ltb (post.created_at + 48 * hour) now

unfoldable pub trending_title : Thing → Str
trending_title post = 240 ∷ 159 ∷ 148 ∷ 165 ∷ (lit " r/" ++ (post.subreddit ++ lit " Trending"))

unfoldable pub payload_from_trending_post : Thing → Payload
unfolding is_empty trending_title
payload_from_trending_post post = with_thumbnail post (
    new_payload
    ▹ alert_title (trending_title post)
    ▹ alert_body post.title
    ▹ alert_summary_arg post.subreddit
    ▹ category (lit "trending-post")
    ▹ custom (lit "post_title") (text post.title)
    ▹ custom (lit "post_id") (text post.id)
    ▹ custom (lit "subreddit") (text post.subreddit)
    ▹ custom (lit "author") (text post.author)
    ▹ custom (lit "post_age") (time post.created_at)
    ▹ thread_id (lit "trending-post")
    ▹ mutable_content
    ▹ sound (lit "traloop.wav"))

unfoldable pub top_options : List RequestOption
unfolding with_query is_empty
top_options =
    with_query (lit "t") (lit "week")
    ∷ with_query (lit "show") (lit "all")
    ∷ with_query (lit "limit") (lit "25")
    ∷ []

unfoldable pub trending_hot_options : List RequestOption
unfolding with_query is_empty
trending_hot_options =
    with_query (lit "show") (lit "all") ∷ with_query (lit "always_show_media") (lit "1") ∷ []

module _ (env : Env) (c : Codec) (s : Sender) where
  -- One watcher of one post: whether the run goes on.
  unfoldable pub tell_watcher : Thing → Payload → Watcher → Exec Bool
  unfolding is_flagged flag format_int
  tell_watcher post p w =
      if ltb post.created_at w.created_at
      then pure true
      else is_flagged env (trending_key w post) >>= λ notified. if notified then pure true else do
        flag env (trending_key w post) (48 * hour)
        hit ← increment_hits env w.id
        elim hit [ err e ↦ pure false | ok u ↦ send env c s w.device p >> pure true ]

  unfoldable pub tell_watchers : Thing → Payload → List Watcher → Exec Bool
  unfolding tell_watcher
  tell_watchers post p [] = pure true
  tell_watchers post p (w ∷ ws) = do
    goes_on ← tell_watcher post p w
    if goes_on then tell_watchers post p ws else pure false

  unfoldable pub check_trending : Time → ℤ → List Watcher → List Thing → Exec (Unit {0})
  unfolding tell_watchers payload_from_trending_post
  check_trending now median watchers [] = pure tt
  check_trending now median watchers (post ∷ posts) =
      if ltb_ℤ post.score median
      then check_trending now median watchers posts
      else if is_stale now post
      then pure tt
      else tell_watchers post (payload_from_trending_post post) watchers >>= λ goes_on.
          if goes_on then check_trending now median watchers posts else pure tt

  unfoldable pub hot_listed : ℤ → List Watcher → Result ListingResponse → Exec (Unit {0})
  unfolding check_trending
  hot_listed median watchers (err e) = pure tt
  hot_listed median watchers (ok hps) =
      external env.now >>= λ now. check_trending now median watchers hps.children

  module _ (t : Transport) (p : Parser) where
    unfoldable pub watch_hot : Subreddit → Watcher → List Watcher → Option ℤ → Exec (Unit {0})
    unfolding hot_listed trending_hot_options credentials
    watch_hot subreddit w ws none = panic
    watch_hot subreddit w ws (some median) = do
      watcher ← drawn env w ws
      rac ← new_authenticated_client (credentials watcher.account)
      hps ← subreddit_hot env t p rac subreddit.name trending_hot_options
      hot_listed median (w ∷ ws) hps

    unfoldable pub top_listed :
        Subreddit → Watcher → List Watcher → Result ListingResponse → Exec (Unit {0})
    unfolding watch_hot median_score
    top_listed subreddit w ws (err e) = pure tt
    top_listed subreddit w ws (ok tps) =
        if ltb tps.count 20 then pure tt else watch_hot subreddit w ws (median_score tps)

    unfoldable pub watch_trending : Subreddit → Result (List Watcher) → Exec (Unit {0})
    unfolding top_listed top_options credentials
    watch_trending subreddit (err e) = pure tt
    watch_trending subreddit (ok []) = pure tt
    watch_trending subreddit (ok (w ∷ ws)) = do
      watcher ← drawn env w ws
      rac ← new_authenticated_client (credentials watcher.account)
      tps ← subreddit_top env t p rac subreddit.name top_options
      top_listed subreddit w ws tps

    unfoldable pub trending_job : Result Subreddit → Exec (Unit {0})
    unfolding watch_trending
    trending_job (err e) = pure tt
    trending_job (ok subreddit) =
        by_type_and_watchee env trending_watcher subreddit.id >>= watch_trending subreddit

    unfoldable pub check_trending_subreddit : ℤ → Exec (Unit {0})
    unfolding trending_job row_of
    check_trending_subreddit id = row_of env Subreddits.get_by_id_sql id >>= trending_job

    unfoldable pub consume_trending : Str → Exec (Unit {0})
    unfolding check_trending_subreddit numbered parse_int
    consume_trending payload = numbered env check_trending_subreddit (parse_int payload)
