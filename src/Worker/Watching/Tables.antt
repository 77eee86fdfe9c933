-- ===== src/Worker/Watching/Tables.antt =====
-- The runs of the consumers of watchers and the tables that are not theirs.
use apollo_backend.Prelude.{◌≡◌, refl, []}
use apollo_backend.Str.{Str}
use apollo_backend.Schema.{Db}
use apollo_backend.Exec.{Env, World}
use apollo_backend.Push.Delivery.{Codec, Sender}
use apollo_backend.Reddit.Types.{Parser}
use apollo_backend.Reddit.Client.{Transport}
use apollo_backend.Worker.Users.{consume_user}
use apollo_backend.Worker.Subreddits.{consume_subreddit}
use apollo_backend.Worker.Trending.{consume_trending}
use apollo_backend.Worker.Watching.Rest.{Ignores}
use apollo_backend.Worker.Users.Tables.{consume_user-rest}
use apollo_backend.Worker.Subreddits.Tables.{consume_subreddit-rest}
use apollo_backend.Worker.Trending.Tables.{consume_trending-rest}

-- The database but for `watchers` and `users`.
abbrev pub other_tables : Db → Db
other_tables db = record db { watchers = []; users = [] }

module _ (env : Env) (c : Codec) (s : Sender) (t : Transport) (p : Parser) where
  -- The runs of the three consumers of watchers change no table but `watchers` and `users`, whatever
  -- the answers to their sends and requests are: no device and no account is ever removed by them.
  pub consume-other_tables :
      (payload : Str) (w : World)
      → (other_tables (consume_user env c s t p payload w).1.db ≡ other_tables w.db)
        × (other_tables (consume_subreddit env c s t p payload w).1.db ≡ other_tables w.db)
        × (other_tables (consume_trending env c s t p payload w).1.db ≡ other_tables w.db)
  consume-other_tables payload w =
      let Same : Db → Type 0 = λ db. other_tables db ≡ other_tables w.db in
      let rest : Ignores Same = λ db ws us h. h in
      (
        (consume_user-rest Same rest env c s t p payload).at w refl,
        (consume_subreddit-rest Same rest env c s t p payload).at w refl,
        (consume_trending-rest Same rest env c s t p payload).at w refl,
      )
