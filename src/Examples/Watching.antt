-- ===== src/Examples/Watching.antt =====
-- Runs of the consumers of watchers on small worlds.
use apollo_backend.Prelude.{◌*◌, ◌/◌, ◌≡◌, ◌↔◌, refl, true, false, All, [], ◌∷◌, take, drop, arith}
use apollo_backend.Prelude.Int.{pos, ◌≤ℤ◌}
use apollo_backend.Prelude.Keys.{Unique}
use apollo_backend.Str.{Str, lit, is_empty}
use apollo_backend.Push.Json.{Json}
use apollo_backend.Domain.{Subreddit, Watcher, subreddit_watcher}
use apollo_backend.Domain.Durations.{hour}
use apollo_backend.Payload.{new_payload}
use apollo_backend.Exec.{Env, World, HttpReply, returned, ◌>>=◌}
use apollo_backend.Reddit.Types.{Parser, Thing, ListingResponse, new_thing}
use apollo_backend.Reddit.Client.{new_authenticated_client}
use apollo_backend.Reddit.Calls.{subreddit_new, subreddit_hot}
use apollo_backend.Worker.Watching.{drawn}
use apollo_backend.Scheduler.Locks.{is_held}
use apollo_backend.Worker.ParseInt.{parse_int}
use apollo_backend.Worker.Subreddits.Posts.{Gathered, is_old}
use apollo_backend.Worker.Subreddits.{consume_subreddit, load_new, load_hot}
use apollo_backend.Worker.Subreddits.Gathering.{load-IsGathered}
use apollo_backend.Worker.Users.{consume_user}
use apollo_backend.Worker.Trending.{consume_trending, sort_by_score, median_score, tell_watcher}
use apollo_backend.Worker.Trending.Median.{median_score-IsMedian}
use apollo_backend.Worker.Trending.Once.{tell_watcher-once}
use apollo_backend.Worker.Watching.Settled.{IsSettled, consume-IsSettled}
use apollo_backend.Worker.Watching.Tables.{other_tables, consume-other_tables}
use apollo_backend.Examples.Worlds.{
  env_at, empty_db, world, account, phone, codec, sender, transport, parser, message,
}

abbrev pub post : Str → Thing
post id = record (message id (lit "ann")) { created_at = 100 * hour; title = lit "Some news" }

abbrev watcher : Watcher
watcher = record {
  id = 9;
  created_at = 0;
  last_notified_at = 0;
  label = lit "news";
  device_id = 1;
  account_id = 1;
  type = subreddit_watcher;
  watchee_id = 5;
  watchee_label = lit "pics";
  author = [];
  subreddit = [];
  upvotes = pos 0;
  keyword = lit "news";
  flair = [];
  domain = [];
  hits = 0;
  device = phone;
  account = account;
}

consume-IsSettled_example :
    IsSettled
      (parse_int (lit "5"))
      (consume_user (env_at 1) codec sender transport parser (lit "5") (world empty_db [])).1
    × IsSettled
        (parse_int (lit "5"))
        (consume_subreddit (env_at 1) codec sender transport parser (lit "5") (world empty_db [])).1
    × IsSettled
        (parse_int (lit "5"))
        (consume_trending (env_at 1) codec sender transport parser (lit "5") (world empty_db [])).1
consume-IsSettled_example =
    consume-IsSettled (env_at 1) (λ i. refl) codec sender transport parser (lit "5")
      (world empty_db [])

consume-other_tables_example :
    (other_tables
        (consume_user (env_at 1) codec sender transport parser (lit "5") (world empty_db [])).1.db
      ≡ other_tables empty_db)
    × (other_tables
          (consume_subreddit
            (env_at 1)
            codec
            sender
            transport
            parser
            (lit "5")
            (world empty_db [])).1.db
        ≡ other_tables empty_db)
    × (other_tables
          (consume_trending
            (env_at 1)
            codec
            sender
            transport
            parser
            (lit "5")
            (world empty_db [])).1.db
        ≡ other_tables empty_db)
consume-other_tables_example =
    consume-other_tables (env_at 1) codec sender transport parser (lit "5") (world empty_db [])

-- The run that tells the phone of the post.
abbrev told : World
told =
    (tell_watcher (env_at (101 * hour)) codec sender (post (lit "a")) new_payload watcher
      (world empty_db [])).1

tell_watcher-once_example :
    ((tell_watcher (env_at (101 * hour)) codec sender (post (lit "a")) new_payload watcher told).0
      ≡ returned true)
    × ((tell_watcher
          (env_at (101 * hour))
          codec
          sender
          (post (lit "a"))
          new_payload
          watcher
          told).1.trace
        ≡ told.trace)
    × ((tell_watcher
          (env_at (101 * hour))
          codec
          sender
          (post (lit "a"))
          new_payload
          watcher
          told).1.db
        ≡ told.db)
unfolding is_held
tell_watcher-once_example =
    tell_watcher-once (env_at (101 * hour)) (λ i. refl) codec sender (post (lit "a"))
      (post (lit "a")) new_payload new_payload watcher watcher (world empty_db []) told refl refl
      refl refl refl (omega arith)

-- Three scores, which are not in order.
abbrev pub scored : ListingResponse
scored = record {
  count = 3;
  children =
      record (post (lit "a")) { score = pos 5 }
      ∷ record (post (lit "b")) { score = pos 9 }
      ∷ record (post (lit "c")) { score = pos 7 }
      ∷ [];
  after = [];
  before = [];
}

median_score-IsMedian_example :
    All (λ q. pos 7 ≤ℤ q.score) (take (3 / 2) (sort_by_score scored.children))
    × All (λ q. q.score ≤ℤ pos 7) (drop (3 / 2) (sort_by_score scored.children))
    × ((P : Thing → Type 0) → All P scored.children ↔ All P (sort_by_score scored.children))
unfolding median_score
median_score-IsMedian_example = median_score-IsMedian scored (pos 7) refl

-- Every page has one post, twice.
abbrev pages : Parser
pages = record parser {
  string_at = λ k v. b'1' ∷ [];
  unix_at = λ k v. 360_000;
  array_at = λ k v. Json.null ∷ Json.null ∷ [];
}

abbrev paging : Env
paging = record (env_at (101 * hour)) { http = λ i r. HttpReply.reply 200 [] }

abbrev subreddit : Subreddit
subreddit = record { id = 5; next_check_at = 0; subreddit_id = lit "2qh0u"; name = lit "pics" }

-- The one post that the pages have.
abbrev one_post : Gathered
one_post = record { posts = new_thing pages Json.null ∷ []; seen = lit "1" ∷ [] }

load-IsGathered_example :
    Unique (λ p. p.id) one_post.posts × All (λ p. is_old (101 * hour) p ≡ false) one_post.posts
unfolding load_new load_hot new_thing is_empty ◌>>=◌ drawn new_authenticated_client subreddit_new
    subreddit_hot
load-IsGathered_example =
    load-IsGathered paging codec sender transport pages (101 * hour) subreddit watcher [] one_post
      one_post (world empty_db []) (world empty_db []) refl refl
