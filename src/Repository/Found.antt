-- ===== src/Repository/Found.antt =====
-- What `rows.Next` reads first, after an INSERT or an UPDATE of the rows that are selected.
use apollo_backend.Prelude.{
  ◌≡◌, refl, ap, sym, ◌∙◌, Bool, true, none, some, List, [], ◌∷◌, ◌++◌, arith, Bool-cases, inl, inr,
}
use apollo_backend.Prelude.Table.{select_where, update_where, first}
use apollo_backend.Errors.{ok}
use apollo_backend.Repository.Accounts.{first_or_not_found}

module _ {A : Type 0} (p : A → Bool) where
  -- The first row that is selected, after an update that the selection does not see.
  pub first-update_where :
      (f : A → A) (rows : List A) (row : A)
      → ((r : A) → p (f r) ≡ p r)
      → first (select_where p rows) ≡ some row
      → first (select_where p (update_where p f rows)) ≡ some (f row)
  unfolding select_where update_where first
  first-update_where f [] row same h = cc
  first-update_where f (r ∷ rows) row same h = elim (Bool-cases (p r)) [
    | inl e ↦ let k : r ≡ row = ground arith in rw (e, same r, e) (ap (λ x. some (f x)) k)
    | inr e ↦
        let k : first (select_where p rows) ≡ some row = ground arith in
        rw (e, e) (first-update_where f rows row same k)
  ]

  pub first-selected :
      (rows : List A) (row : A) → first (select_where p rows) ≡ some row → p row ≡ true
  unfolding select_where first
  first-selected [] row h = cc
  first-selected (r ∷ rows) row h = elim (Bool-cases (p r)) [
    | inl e ↦ let k : r ≡ row = ground arith in ap p (sym k) ∙ e
    | inr e ↦ first-selected rows row (ground arith)
  ]

  pub first-insert :
      (rows : List A) (row : A)
      → p row ≡ true
      → first (select_where p rows) ≡ none
      → first (select_where p (rows ++ row ∷ [])) ≡ some row
  unfolding select_where first
  first-insert [] row q h = rw q refl
  first-insert (r ∷ rows) row q h = elim (Bool-cases (p r)) [
    | inl e ↦ ground arith
    | inr e ↦
        let k : first (select_where p rows) ≡ none = ground arith in
        rw e (first-insert rows row q k)
  ]

pub found_lem :
    {A : Type 0} (rows : List A) (row : A)
    → first rows ≡ some row
    → first_or_not_found rows ≡ ok row
unfolding first first_or_not_found
found_lem [] row h = cc
found_lem (r ∷ rows) row h = ground arith

pub first_lem :
    {A : Type 0} (rows : List A) (row : A)
    → first_or_not_found rows ≡ ok row
    → first rows ≡ some row
unfolding first first_or_not_found
first_lem [] row h = cc
first_lem (r ∷ rows) row h = ground arith
