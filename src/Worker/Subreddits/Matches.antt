-- ===== src/Worker/Subreddits/Matches.antt =====
-- Which posts a subreddit watcher matches.
use apollo_backend.Prelude.{◌≡◌, Bool, true, false, not, ◌&&◌, ◌||◌, if◌then◌else◌}
use apollo_backend.Prelude.Int.{pos, ltb_ℤ}
use apollo_backend.Str.{str_eq, is_empty, to_lower, contains}
use apollo_backend.Domain.{Watcher}
use apollo_backend.Domain.Keywords.{keyword_matches}
use apollo_backend.Reddit.Types.{Thing}

-- Each criterion is left out or met: the keywords by the title, the author by name, the flair and
-- the domain as a part of the post's, all of the post in lower case; and the score reaches the votes.
pub record MeetsCriteria (post : Thing) (w : Watcher) : Type 0 where
  pub keyword : keyword_matches w (to_lower post.title) ≡ true
  pub author : (is_empty w.author || str_eq (to_lower post.author) w.author) ≡ true
  pub upvotes : (not (ltb_ℤ (pos 0) w.upvotes) || not (ltb_ℤ post.score w.upvotes)) ≡ true
  pub flair : (is_empty w.flair || contains (to_lower post.flair) w.flair) ≡ true
  pub domain : (is_empty w.domain || contains (to_lower post.url) w.domain) ≡ true

-- `matched` behind the first tests.
abbrev after_author : Thing → Watcher → Bool
after_author post w =
    if not (is_empty w.author) && not (str_eq (to_lower post.author) w.author)
    then false
    else keyword_matches w (to_lower post.title)

abbrev after_upvotes : Thing → Watcher → Bool
after_upvotes post w =
    if ltb_ℤ (pos 0) w.upvotes && ltb_ℤ post.score w.upvotes then false else after_author post w

abbrev after_flair : Thing → Watcher → Bool
after_flair post w =
    if not (is_empty w.flair) && not (contains (to_lower post.flair) w.flair)
    then false
    else after_upvotes post w
