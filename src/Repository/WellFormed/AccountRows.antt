-- ===== src/Repository/WellFormed/AccountRows.antt =====
-- The rows of `accounts` under an INSERT and an UPDATE.
use apollo_backend.Prelude.{
  ℕ, ◌+◌, ◌<◌, ◌≡◌, ◌≢◌, refl, Bool, false, List, [], ◌∷◌, ◌++◌, arith, any, All, All-append,
  All-map_pred,
}
use apollo_backend.Prelude.Table.{update_where, All-update_where}
use apollo_backend.Prelude.Keys.{
  Absent, Unique, Unique-append, Unique-update_where, Absent-of_any, update_where_none, IsFree,
  Unique-update_key,
}
use apollo_backend.Str.{str_eq_iff}
use apollo_backend.Domain.{Account}
use apollo_backend.Domain.Durations.{Time}
use apollo_backend.Schema.{AccountRow}
use apollo_backend.Repository.Accounts.{has_username, has_id, name_taken, inserted}
use apollo_backend.Repository.WellFormed.{AccountsOk}

-- A number that the sequence has not given out yet is new.
pub Absent-of_below :
    {A : Type 0} (number : A → ℕ) (seq : ℕ) (rs : List A)
    → All (λ r. number r < seq) rs
    → Absent number seq rs
Absent-of_below number seq rs h =
    All-map_pred (λ r. number r < seq) (λ r. number r ≢ seq) (λ r k. omega arith) rs h

pub below_suc :
    {A : Type 0} (number : A → ℕ) (seq : ℕ) (rs : List A)
    → All (λ r. number r < seq) rs
    → All (λ r. number r < seq + 1) rs
below_suc number seq rs h =
    All-map_pred (λ r. number r < seq) (λ r. number r < seq + 1) (λ r k. omega arith) rs h

module _ {rows : List AccountRow} {seq : ℕ} (ok_rows : AccountsOk rows seq) where
  -- An update that leaves names and identifiers.
  pub same_keys-AccountsOk :
      (p : AccountRow → Bool) (f : AccountRow → AccountRow)
      → ((r : AccountRow) → (f r).account.username ≡ r.account.username)
      → ((r : AccountRow) → (f r).account.id ≡ r.account.id)
      → AccountsOk (update_where p f rows) seq
  same_keys-AccountsOk p f names numbers = record {
    usernames =
        Unique-update_where (λ r. r.account.username) p f rows (λ r _. names r) ok_rows.usernames;
    ids = Unique-update_where (λ r. r.account.id) p f rows (λ r _. numbers r) ok_rows.ids;
    below =
        All-update_where (λ r. r.account.id < seq) p f rows (λ r _ h. rw numbers h) ok_rows.below;
  }

  pub skip-AccountsOk : AccountsOk rows (seq + 1)
  skip-AccountsOk = record {
    usernames = ok_rows.usernames;
    ids = ok_rows.ids;
    below = below_suc (λ r. r.account.id) seq rows ok_rows.below;
  }

module _ (acc : Account) {rows : List AccountRow} {seq : ℕ} (ok_rows : AccountsOk rows seq) where
  pub insert-AccountsOk :
      (next stuck : Time)
      → any (has_username acc.username) rows ≡ false
      → AccountsOk (rows ++ inserted acc seq next stuck ∷ []) (seq + 1)
  unfolding inserted
  insert-AccountsOk next stuck e = record {
    usernames =
        Unique-append (λ r. r.account.username) rows (inserted acc seq next stuck)
          (Absent-of_any (λ r. r.account.username) acc.username (has_username acc.username) rows
            (λ r x. (str_eq_iff _ _).1 x) e)
          ok_rows.usernames;
    ids =
        Unique-append (λ r. r.account.id) rows (inserted acc seq next stuck)
          (Absent-of_below (λ r. r.account.id) seq rows ok_rows.below) ok_rows.ids;
    below =
        All-append (λ r. r.account.id < seq + 1) rows (inserted acc seq next stuck ∷ [])
          (below_suc (λ r. r.account.id) seq rows ok_rows.below) (omega arith, tt);
  }

  IsFree-name :
      (rs : List AccountRow)
      → any (name_taken acc) rs ≡ false
      → IsFree
          (λ r. r.account.username)
          (λ r. r.account.id)
          acc.id
          acc.username
          (λ row. record row { account = acc })
          (λ r. refl)
          rs
  IsFree-name [] e = tt
  IsFree-name (r ∷ rs) e = (
    (λ other same. ground (arith, str_eq_iff r.account.username acc.username)),
    IsFree-name rs (ground arith),
  )

  given_id :
      (rs : List AccountRow)
      → Unique (λ r. r.account.id) rs
      → Unique
          (λ r. r.account.id)
          (update_where (has_id acc.id) (λ row. record row { account = acc }) rs)
  given_id rs u =
      Unique-update_where (λ r. r.account.id) (has_id acc.id) (λ row. record row { account = acc })
        rs (λ r e. ground arith) u

  pub update-AccountsOk :
      any (name_taken acc) rows ≡ false
      → AccountsOk (update_where (has_id acc.id) (λ row. record row { account = acc }) rows) seq
  update-AccountsOk e = record {
    usernames =
        Unique-update_key (λ r. r.account.username) (λ r. r.account.id) acc.id acc.username
          (λ row. record row { account = acc }) (λ r. refl) rows (IsFree-name rows e) ok_rows.ids
          ok_rows.usernames;
    ids = given_id rows ok_rows.ids;
    below =
        All-update_where (λ r. r.account.id < seq) (has_id acc.id)
          (λ row. record row { account = acc }) rows (λ r t h. ground arith) ok_rows.below;
  }

  pub absent-AccountsOk :
      any (has_id acc.id) rows ≡ false
      → AccountsOk (update_where (has_id acc.id) (λ row. record row { account = acc }) rows) seq
  absent-AccountsOk e =
      rw (update_where_none (has_id acc.id) (λ row. record row { account = acc }) rows e) ok_rows
