-- ===== src/Worker/Watching/Settled.antt =====
-- The deliveries of the consumers whose payload is a row's number.
use apollo_backend.Prelude.{ℕ, ◌≡◌, refl, Option, none, some, List, ◌∷◌}
use apollo_backend.Prelude.Int.{ℤ}
use apollo_backend.Str.{Str}
use apollo_backend.Exec.{Exec, Env, World, Event, acked, rejected, ◌>>=◌, deferring}
use apollo_backend.Push.Delivery.{Codec, Sender}
use apollo_backend.Reddit.Types.{Parser}
use apollo_backend.Reddit.Client.{Transport}
use apollo_backend.Worker.ParseInt.{parse_int}
use apollo_backend.Worker.Notifications.Release.{ack-acked}
use apollo_backend.Worker.Watching.{numbered, reject}
use apollo_backend.Worker.Users.{consume_user}
use apollo_backend.Worker.Subreddits.{consume_subreddit}
use apollo_backend.Worker.Trending.{consume_trending}

-- How a delivery with a payload is settled.
unfoldable pub settlement : Option ℤ → Event
settlement none = rejected
settlement (some id) = acked

-- The last event of a run is the one that settles its delivery.
pub record IsSettled (id : Option ℤ) (after : World) : Type 0 where
  pub before : List Event
  pub trace : after.trace ≡ settlement id ∷ before

module _ (env : Env) (up : (i : ℕ) → env.queue_error i ≡ none) where
  reject-rejected : (w : World) → (reject env w).1.trace ≡ rejected ∷ w.trace
  unfolding reject ◌>>=◌
  reject-rejected w = rw (up w.calls) refl

  numbered-IsSettled :
      (job : ℤ → Exec (Unit {0})) (id : Option ℤ) (w : World)
      → IsSettled id (numbered env job id w).1
  unfolding numbered deferring settlement
  numbered-IsSettled job none w = record { before = w.trace; trace = reject-rejected w }
  numbered-IsSettled job (some id) w = record {
    before = (job id w).1.trace;
    trace = (ack-acked env (job id w).1 (up (job id w).1.calls)).0;
  }

  -- While the queue answers, every delivery of the three consumers of watchers is settled, by the
  -- last event of the run: a payload that is no number is rejected, and any other delivery is
  -- acknowledged, whatever happens to its job, a panic included.
  pub consume-IsSettled :
      (c : Codec) (s : Sender) (t : Transport) (p : Parser) (payload : Str) (w : World)
      → IsSettled (parse_int payload) (consume_user env c s t p payload w).1
        × IsSettled (parse_int payload) (consume_subreddit env c s t p payload w).1
        × IsSettled (parse_int payload) (consume_trending env c s t p payload w).1
  unfolding consume_user consume_subreddit consume_trending
  consume-IsSettled c s t p payload w =
      (numbered-IsSettled _ _ w, numbered-IsSettled _ _ w, numbered-IsSettled _ _ w)
