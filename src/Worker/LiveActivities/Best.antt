-- ===== src/Worker/LiveActivities/Best.antt =====
-- The comment that an update of a live activity shows, by sort.Slice and the code's test.
use apollo_backend.Prelude.{◌/◌, ◌≡◌, ◌↔◌, Bool, true, false, List, [], ◌∷◌, All}
use apollo_backend.Prelude.Int.{◌≤ℤ◌}
use apollo_backend.Domain.Durations.{second}
use apollo_backend.Payload.{DynamicIslandNotification}
use apollo_backend.Reddit.Types.{Thing}
use apollo_backend.Worker.LiveActivities.{Sort}

-- A test that sort.Slice can sort by: a strict weak order.
pub record IsWeakOrder (less : Thing → Thing → Bool) : Type 0 where
  pub asymmetric : (a b : Thing) → less a b ≡ true → less b a ≡ false
  pub transitive : (a b c : Thing) → less b a ≡ false → less c b ≡ false → less c a ≡ false

-- No thing stands behind one that it comes before.
abbrev pub InOrder : (Thing → Thing → Bool) → List Thing → Type 0
InOrder less [] = Unit
InOrder less (t ∷ ts) = All (λ u. less u t ≡ false) ts × InOrder less ts

-- sort.Slice as it is documented: the same things, in the order of the test.
pub record Sorts (sorted : Sort) : Type 1 where
  pub same :
      (less : Thing → Thing → Bool) (P : Thing → Type 0) (things : List Thing)
      → All P things ↔ All P (sorted less things)
  pub in_order :
      (less : Thing → Thing → Bool)
      → IsWeakOrder less
      → (things : List Thing) → InOrder less (sorted less things)

-- The update shows one of the things, all of it, and none has a better score.
pub record ShowsBest (things : List Thing) (din : DynamicIslandNotification) : Type 1 where
  pub comment : Thing
  pub among : (P : Thing → Type 0) → All P things → P comment
  pub best : All (λ c. c.score ≤ℤ comment.score) things
  pub id : din.comment_id ≡ comment.id
  pub author : din.comment_author ≡ comment.author
  pub body : din.comment_body ≡ comment.body
  pub age : din.comment_age ≡ comment.created_at / second
  pub score : din.comment_score ≡ comment.score
