-- ===== src/Worker/Notifications/Newest.antt =====
-- Which message of an inbox an account is set to.
use apollo_backend.Prelude.{
  ◌≡◌, refl, Bool, not, none, some, List, [], ◌∷◌, ◌++◌, Bool-cases, inl, inr,
}
use apollo_backend.Prelude.Table.{select_where, first}
use apollo_backend.Str.{Str, lit, str_eq}
use apollo_backend.Reddit.Types.{Thing, is_deleted}
use apollo_backend.Worker.Notifications.{newest}

-- A thing that is there: a deleted one has the author "[deleted]".
abbrev pub stands : Thing → Bool
stands t = not (str_eq t.author (lit "[deleted]"))

-- The name of the first message that stands, or what is said if there is none.
unfoldable pub name_of_standing : Str → List Thing → Str
unfolding select_where first
name_of_standing otherwise things = elim (first (select_where stands things)) [
  | none ↦ otherwise
  | some t ↦ t.kind ++ b'_' ∷ t.id
]

pub newest-stands : (things : List Thing) → newest things ≡ first (select_where stands things)
unfolding newest is_deleted select_where first
newest-stands [] = refl
newest-stands (t ∷ ts) = elim (Bool-cases (str_eq t.author (lit "[deleted]"))) [
  | inl e ↦ rw e (newest-stands ts)
  | inr e ↦ rw e refl
]
