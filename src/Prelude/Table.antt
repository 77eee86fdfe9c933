-- ===== src/Prelude/Table.antt =====
-- Tables of a relational database as lists of rows: the WHERE, UPDATE and DELETE of the
-- repository's statements, and keys that are unique.
use mathlib.Core.Path.{◌≡◌}
use mathlib.Core.Logic.{inl, inr}
use mathlib.Core.Bool.{Bool, true}
use mathlib.Core.List.{List, [], ◌∷◌, ◌++◌}
use mathlib.Core.Option.{Option, none, some}
use apollo_backend.Prelude.Tests.{if◌then◌else◌, Bool-cases}
use apollo_backend.Prelude.Lists.{All}

module _ {ℓ} {A : Type ℓ} where
  -- SELECT … WHERE p
  unfoldable pub select_where : (A → Bool) → List A → List A
  select_where p [] = []
  select_where p (r ∷ rs) = let rest = select_where p rs in if p r then r ∷ rest else rest

  -- UPDATE … SET f WHERE p
  unfoldable pub update_where : (A → Bool) → (A → A) → List A → List A
  update_where p f [] = []
  update_where p f (r ∷ rs) = (if p r then f r else r) ∷ update_where p f rs

  -- DELETE … WHERE p
  unfoldable pub delete_where : (A → Bool) → List A → List A
  delete_where p [] = []
  delete_where p (r ∷ rs) = let rest = delete_where p rs in if p r then rest else r ∷ rest

  -- the first row that `rows.Next` reads
  unfoldable pub first : List A → Option A
  first [] = none
  first (r ∷ rs) = some r

  -- Every row that is selected meets the test, and the rows' own property.
  pub select_where-All {κ} :
      (P : A → Type κ) (p : A → Bool) (rs : List A)
      → ((r : A) → p r ≡ true → P r)
      → All P (select_where p rs)
  unfolding select_where
  select_where-All P p [] h = tt
  select_where-All P p (r ∷ rs) h = elim (Bool-cases (p r)) [
    | inl e ↦ rw e (h r e, select_where-All P p rs h)
    | inr e ↦ rw e (select_where-All P p rs h)
  ]

  pub All-delete_where {κ} :
      (P : A → Type κ) (p : A → Bool) (rs : List A) → All P rs → All P (delete_where p rs)
  unfolding delete_where
  All-delete_where P p [] h = tt
  All-delete_where P p (r ∷ rs) (k, h) = elim (Bool-cases (p r)) [
    | inl e ↦ rw e (All-delete_where P p rs h)
    | inr e ↦ rw e (k, All-delete_where P p rs h)
  ]

  pub All-update_where {κ} :
      (P : A → Type κ) (p : A → Bool) (f : A → A) (rs : List A)
      → ((r : A) → p r ≡ true → P r → P (f r))
      → All P rs
      → All P (update_where p f rs)
  unfolding update_where
  All-update_where P p f [] k h = tt
  All-update_where P p f (r ∷ rs) k (x, h) = elim (Bool-cases (p r)) [
    | inl e ↦ rw e (k r e x, All-update_where P p f rs k h)
    | inr e ↦ rw e (x, All-update_where P p f rs k h)
  ]

-- INNER JOIN: the rows of the right table that go with each row of the left one.
unfoldable pub join {ℓ κ} : {A : Type ℓ} {B : Type κ} → (A → List B) → List A → List B
join f [] = []
join f (r ∷ rs) = f r ++ join f rs
