-- ===== src/Worker/Subreddits/Gathering.antt =====
-- What a subreddit's run gathers before it looks for hits.
use apollo_backend.Prelude.{
  ℕ, zero, suc, ◌≡◌, refl, sym, ◌∙◌, ap, true, false, ◌||◌, Option, none, some, List, [], ◌∷◌, ltb,
  ◌==◌, any, All, All-append, arith, Bool-cases, inl, inr,
}
use apollo_backend.Prelude.Keys.{Unique, Unique-append, Absent}
use apollo_backend.Str.{Str, str_eq, str_eq_refl}
use apollo_backend.Errors.{Result, ok, err, is_oauth_revoked}
use apollo_backend.Domain.{Subreddit, Watcher}
use apollo_backend.Domain.Durations.{Time}
use apollo_backend.Exec.{Exec, Env, World, returned}
use apollo_backend.Exec.Ensures.{Ensures, Ensures-pure, Ensures-if, Ensures-bind}
use apollo_backend.Push.Delivery.{Codec, Sender}
use apollo_backend.Reddit.Types.{Parser, Thing, ListingResponse}
use apollo_backend.Reddit.Client.{Transport}
use apollo_backend.Worker.Subreddits.Posts.{Gathered, nothing_gathered, add_post, is_old, gather}
use apollo_backend.Worker.Subreddits.{page_loaded, hot_loaded, load_new, load_hot}

-- Every post once by its number, none older than a day, and `seenPosts` has the numbers of them all.
pub record IsGathered (now : Time) (g : Gathered) : Type 0 where
  pub once : Unique (λ post. post.id) g.posts
  pub recent : All (λ post. is_old now post ≡ false) g.posts
  pub seen : All (λ post. any (str_eq post.id) g.seen ≡ true) g.posts

nothing-IsGathered : (now : Time) → IsGathered now nothing_gathered
nothing-IsGathered now = record { once = tt; recent = tt; seen = tt }

-- A number that was not seen is none of the posts'.
unseen :
    (id : Str) (seen : List Str) (posts : List Thing)
    → any (str_eq id) seen ≡ false
    → All (λ post. any (str_eq post.id) seen ≡ true) posts
    → Absent (λ post. post.id) id posts
unseen id seen [] e h = tt
unseen id seen (post ∷ posts) e (k, h) = (
  (λ same.
      let x : any (str_eq id) seen ≡ true = ap (λ i. any (str_eq i) seen) (sym same) ∙ k in cc),
  unseen id seen posts e h,
)

see_more :
    (id : Str) (seen : List Str) (posts : List Thing)
    → All (λ post. any (str_eq post.id) seen ≡ true) posts
    → All (λ post. any (str_eq post.id) (id ∷ seen) ≡ true) posts
see_more id seen [] h = tt
see_more id seen (post ∷ posts) (k, h) = (ground (arith, k), see_more id seen posts h)

add_post-IsGathered :
    (now : Time) (g : Gathered) (post : Thing)
    → IsGathered now g
    → is_old now post ≡ false
    → IsGathered now (add_post g post)
unfolding add_post
add_post-IsGathered now g post h young = elim (Bool-cases (any (str_eq post.id) g.seen)) [
  | inl e ↦ rw e h
  | inr e ↦ rw e (record {
    once = Unique-append (λ p. p.id) g.posts post (unseen post.id g.seen g.posts e h.seen) h.once;
    recent = All-append _ g.posts (post ∷ []) h.recent (young, tt);
    seen =
        All-append _ g.posts (post ∷ []) (see_more post.id g.seen g.posts h.seen)
          (rw (str_eq_refl post.id) refl, tt);
  })
]

gather-IsGathered :
    (now : Time) (posts : List Thing) (g : Gathered)
    → IsGathered now g
    → IsGathered now (gather now g posts).1
unfolding gather
gather-IsGathered now [] g h = h
gather-IsGathered now (post ∷ posts) g h = elim (Bool-cases (is_old now post)) [
  | inl e ↦ rw e h
  | inr e ↦
      rw e (gather-IsGathered now posts (add_post g post) (add_post-IsGathered now g post h e))
]

-- A stage that may end the run, and what it gathers if it does not.
IsStage : Time → Option Gathered → World → Type 0
IsStage now none w = Unit
IsStage now (some g) w = IsGathered now g

module _ (env : Env) where
  page_loaded-IsStage :
      (now : Time) (watcher : Watcher) (watchers : List Watcher)
      (next : Gathered → Exec (Option Gathered)) (g : Gathered) (r : Result ListingResponse)
      → ((g' : Gathered) → IsGathered now g' → Ensures (IsStage now) (next g'))
      → IsGathered now g
      → Ensures (IsStage now) (page_loaded env now watcher watchers next g r)
  unfolding page_loaded IsStage
  page_loaded-IsStage now watcher watchers next g (err e) k h =
      Ensures-bind _ _ (λ u. Ensures-pure none (λ w. tt))
  page_loaded-IsStage now watcher watchers next g (ok sps) k h =
      let h' = gather-IsGathered now sps.children g h in
      Ensures-if (sps.count == 0) (Ensures-pure (some g) (λ w. h)) (
        Ensures-if (ltb sps.count 100 || (gather now g sps.children).0)
          (Ensures-pure (some (gather now g sps.children).1) (λ w. h')) (k _ h'))

  hot_loaded-IsGathered :
      (now : Time) (watcher : Watcher) (g : Gathered) (r : Result ListingResponse)
      → IsGathered now g
      → Ensures (λ g' w. IsGathered now g') (hot_loaded env now watcher g r)
  unfolding hot_loaded
  hot_loaded-IsGathered now watcher g (err e) h =
      Ensures-if (is_oauth_revoked e) (Ensures-bind _ _ (λ u. Ensures-pure g (λ w. h)))
        (Ensures-pure g (λ w. h))
  hot_loaded-IsGathered now watcher g (ok sps) h =
      Ensures-pure _ (λ w. gather-IsGathered now sps.children g h)

  module _ (c : Codec) (s : Sender) (t : Transport) (p : Parser) where
    load_new-IsStage :
        (now : Time) (sr : Subreddit) (w : Watcher) (ws : List Watcher) (pages : ℕ) (g : Gathered)
        → IsGathered now g
        → Ensures (IsStage now) (load_new env c s t p now sr w ws pages g)
    unfolding load_new IsStage
    load_new-IsStage now sr w ws zero g h = Ensures-pure (some g) (λ v. h)
    load_new-IsStage now sr w ws (suc pages) g h = Ensures-bind _ _ (λ watcher.
        Ensures-bind _ _ (λ rac. Ensures-bind _ _ (λ sps.
          page_loaded-IsStage now watcher (w ∷ ws) (load_new env c s t p now sr w ws pages) g sps
            (λ g' h'. load_new-IsStage now sr w ws pages g' h') h)))

    load_hot-IsGathered :
        (now : Time) (sr : Subreddit) (w : Watcher) (ws : List Watcher) (g : Gathered)
        → IsGathered now g
        → Ensures (λ g' v. IsGathered now g') (load_hot env c s t p now sr w ws g)
    unfolding load_hot
    load_hot-IsGathered now sr w ws g h = Ensures-bind _ _ (λ watcher.
        Ensures-bind _ _
          (λ rac. Ensures-bind _ _ (λ sps. hot_loaded-IsGathered now watcher g sps h)))

    -- Whatever Reddit answers to the pages of new posts and to the hot posts, the posts that a run
    -- then looks at are each there once, by their numbers, and none of them is older than a day.
    pub load-IsGathered :
        (now : Time) (sr : Subreddit) (w : Watcher) (ws : List Watcher) (new all : Gathered)
        (before between : World)
        → (load_new env c s t p now sr w ws 5 nothing_gathered before).0 ≡ returned (some new)
        → (load_hot env c s t p now sr w ws new between).0 ≡ returned all
        → Unique (λ post. post.id) all.posts × All (λ post. is_old now post ≡ false) all.posts
    unfolding IsStage
    load-IsGathered now sr w ws new all before between e1 e2 =
        let h1 =
          (load_new-IsStage now sr w ws 5 nothing_gathered (nothing-IsGathered now)).at before
            (some new) e1 in
        let h2 = (load_hot-IsGathered now sr w ws new h1).at between all e2 in (h2.once, h2.recent)
