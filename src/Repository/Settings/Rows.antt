-- ===== src/Repository/Settings/Rows.antt =====
-- The first row that passes a test, behind the statements that change a table by another test.
use apollo_backend.Prelude.{
  ◌≡◌, refl, Bool, true, false, Option, none, some, List, [], ◌∷◌, ◌++◌, any, arith, Bool-cases,
  inl, inr,
}
use apollo_backend.Prelude.Table.{select_where, update_where, delete_where, first}

module _ {A : Type 0} (p q : A → Bool) where
  pub delete-same :
      (rows : List A) → ((r : A) → q r ≡ p r) → first (select_where p (delete_where q rows)) ≡ none
  unfolding select_where delete_where first
  delete-same [] h = refl
  delete-same (r ∷ rows) h = elim (Bool-cases (p r)) [
    | inl e ↦ rw (h r, e) (delete-same rows h)
    | inr e ↦ rw (h r, e, e) (delete-same rows h)
  ]

  pub delete-apart :
      (rows : List A)
      → ((r : A) → q r ≡ true → p r ≡ false)
      → first (select_where p (delete_where q rows)) ≡ first (select_where p rows)
  unfolding select_where delete_where first
  delete-apart [] h = refl
  delete-apart (r ∷ rows) h = elim (Bool-cases (q r)) [
    | inl e ↦ rw (e, h r e) (delete-apart rows h)
    | inr e ↦ elim (Bool-cases (p r)) [
      | inl k ↦ rw (e, k) refl
      | inr k ↦ rw (e, k) (delete-apart rows h)
    ]
  ]

  module _ (f : A → A) (seen : (r : A) → p (f r) ≡ p r) where
    abbrev pub changed : Option A → Option A
    changed none = none
    changed (some r) = some (f r)

    pub update-same :
        (rows : List A)
        → ((r : A) → q r ≡ p r)
        → first (select_where p (update_where q f rows)) ≡ changed (first (select_where p rows))
    unfolding select_where update_where first
    update-same [] h = refl
    update-same (r ∷ rows) h = elim (Bool-cases (p r)) [
      | inl e ↦ rw (h r, e, seen r, e) refl
      | inr e ↦ rw (h r, e, e) (update-same rows h)
    ]

    pub update-apart :
        (rows : List A)
        → ((r : A) → q r ≡ true → p r ≡ false)
        → first (select_where p (update_where q f rows)) ≡ first (select_where p rows)
    unfolding select_where update_where first
    update-apart [] h = refl
    update-apart (r ∷ rows) h = elim (Bool-cases (q r)) [
      | inl e ↦ rw (e, seen r, h r e) (update-apart rows h)
      | inr e ↦ elim (Bool-cases (p r)) [
        | inl k ↦ rw (e, k) refl
        | inr k ↦ rw (e, k) (update-apart rows h)
      ]
    ]

module _ {A : Type 0} (p : A → Bool) where
  pub append-free :
      (rows : List A) (r : A)
      → any p rows ≡ false
      → p r ≡ true
      → first (select_where p (rows ++ r ∷ [])) ≡ some r
  unfolding select_where first
  append-free [] r h k = rw k refl
  append-free (x ∷ rows) r h k = elim (Bool-cases (p x)) [
    | inl e ↦ ground arith
    | inr e ↦ rw e (append-free rows r (ground arith) k)
  ]

  pub append-apart :
      (rows : List A) (r : A)
      → p r ≡ false
      → first (select_where p (rows ++ r ∷ [])) ≡ first (select_where p rows)
  unfolding select_where first
  append-apart [] r k = rw k refl
  append-apart (x ∷ rows) r k = elim (Bool-cases (p x)) [
    | inl e ↦ rw e refl
    | inr e ↦ rw e (append-apart rows r k)
  ]

  pub any-first :
      (rows : List A) → any p rows ≡ true → (r : A) × (first (select_where p rows) ≡ some r)
  unfolding select_where first
  any-first [] h = ground arith
  any-first (x ∷ rows) h = elim (Bool-cases (p x)) [
    | inl e ↦ rw e (x, refl)
    | inr e ↦ rw e (any-first rows (ground arith))
  ]

  pub none-first : (rows : List A) → any p rows ≡ false → first (select_where p rows) ≡ none
  unfolding select_where first
  none-first [] h = refl
  none-first (x ∷ rows) h = elim (Bool-cases (p x)) [
    | inl e ↦ ground arith
    | inr e ↦ rw e (none-first rows (ground arith))
  ]
