-- ===== src/Worker/Subreddits/Posts.antt =====
-- internal/worker/subreddits.go: the posts that the pages give, each once, and which watchers a post
-- is a hit of.
use apollo_backend.Prelude.{
  Bool, true, false, not, ◌&&◌, List, [], ◌∷◌, ◌++◌, ◌+◌, ◌*◌, ltb, if◌then◌else◌, any,
}
use apollo_backend.Prelude.Int.{pos, ltb_ℤ}
use apollo_backend.Str.{Str, lit, str_eq, is_empty, to_lower, contains}
use apollo_backend.Domain.{Watcher}
use apollo_backend.Domain.Durations.{Time, hour}
use apollo_backend.Domain.Keywords.{keyword_matches}
use apollo_backend.Payload.{
  Payload, text, time, alert_summary_arg, category, thread_id, sound, mutable_content, custom,
  new_payload, ◌▹◌,
}
use apollo_backend.Reddit.Types.{Thing}

-- `posts` and the keys of `seenPosts`
pub record Gathered : Type 0 where
  pub posts : List Thing
  pub seen : List Str

abbrev pub nothing_gathered : Gathered
nothing_gathered = record { posts = []; seen = [] }

unfoldable pub add_post : Gathered → Thing → Gathered
unfolding str_eq
add_post g post =
    if any (str_eq post.id) g.seen
    then g
    else record { posts = g.posts ++ post ∷ []; seen = post.id ∷ g.seen }

-- `post.CreatedAt.Before(threshold)`
abbrev pub is_old : Time → Thing → Bool
is_old now post = ltb (post.created_at + 24 * hour) now

-- The loop over a page, up to the first old post: whether there is one, and what is gathered.
unfoldable pub gather : Time → Gathered → List Thing → Bool × Gathered
unfolding add_post
gather now g [] = (false, g)
gather now g (post ∷ posts) =
    let rest = gather now (add_post g post) posts in if is_old now post then (true, g) else rest

-- `matched`, as the tests in turn leave it
unfoldable pub matches : Thing → Watcher → Bool
unfolding keyword_matches to_lower str_eq is_empty contains
matches post w =
    let keyword = keyword_matches w (to_lower post.title) in
    let author =
      if not (is_empty w.author) && not (str_eq (to_lower post.author) w.author)
      then false
      else keyword in
    let upvotes = if ltb_ℤ (pos 0) w.upvotes && ltb_ℤ post.score w.upvotes then false else author in
    let flair =
      if not (is_empty w.flair) && not (contains (to_lower post.flair) w.flair)
      then false
      else upvotes in
    if not (is_empty w.domain) && not (contains (to_lower post.url) w.domain) then false else flair

abbrev pub with_thumbnail : Thing → Payload → Payload
with_thumbnail post payload =
    if not (is_empty post.thumbnail) && not post.over18
    then payload ▹ custom (lit "thumbnail") (text post.thumbnail)
    else payload

unfoldable pub payload_from_post : Thing → Payload
unfolding is_empty
payload_from_post post = with_thumbnail post (
    new_payload
    ▹ alert_summary_arg post.subreddit
    ▹ category (lit "subreddit-watcher")
    ▹ custom (lit "post_title") (text post.title)
    ▹ custom (lit "post_id") (text post.id)
    ▹ custom (lit "subreddit") (text post.subreddit)
    ▹ custom (lit "author") (text post.author)
    ▹ custom (lit "post_age") (time post.created_at)
    ▹ thread_id (lit "subreddit-watcher")
    ▹ mutable_content
    ▹ sound (lit "traloop.wav"))
