-- ===== src/Repository/WellFormed/ActivityRows.antt =====
-- The rows of `live_activities` under the statements.
use apollo_backend.Prelude.{
  ℕ, ◌+◌, ◌<◌, ◌≡◌, refl, Bool, false, List, [], ◌∷◌, ◌++◌, arith, any, All-append,
}
use apollo_backend.Prelude.Table.{update_where, delete_where, All-delete_where, All-update_where}
use apollo_backend.Prelude.Keys.{
  Unique-append, Unique-update_where, Unique-delete_where, Absent-of_any,
}
use apollo_backend.Str.{str_eq_iff}
use apollo_backend.Domain.{LiveActivity}
use apollo_backend.Repository.LiveActivities.{has_token, extended}
use apollo_backend.Repository.WellFormed.{ActivitiesOk}
use apollo_backend.Repository.WellFormed.AccountRows.{Absent-of_below, below_suc}

module _ (la : LiveActivity) {rows : List LiveActivity} {seq : ℕ}
    (ok_rows : ActivitiesOk rows seq) where
  pub insert-ActivitiesOk :
      any (has_token la.apns_token) rows ≡ false
      → ActivitiesOk (rows ++ record la { id = seq } ∷ []) (seq + 1)
  insert-ActivitiesOk e = record {
    tokens =
        Unique-append (λ x. x.apns_token) rows (record la { id = seq })
          (Absent-of_any (λ x. x.apns_token) la.apns_token (has_token la.apns_token) rows
            (λ r x. (str_eq_iff _ _).1 x) e)
          ok_rows.tokens;
    ids =
        Unique-append (λ x. x.id) rows (record la { id = seq })
          (Absent-of_below (λ x. x.id) seq rows ok_rows.below) ok_rows.ids;
    below =
        All-append (λ x. x.id < seq + 1) rows (record la { id = seq } ∷ [])
          (below_suc (λ x. x.id) seq rows ok_rows.below) (omega arith, tt);
  }

  -- The sequence moves on also where the token is known.
  pub extend-ActivitiesOk :
      (p : LiveActivity → Bool) → ActivitiesOk (update_where p (extended la) rows) (seq + 1)
  unfolding extended
  extend-ActivitiesOk p = record {
    tokens =
        Unique-update_where (λ x. x.apns_token) p (extended la) rows (λ r _. refl) ok_rows.tokens;
    ids = Unique-update_where (λ x. x.id) p (extended la) rows (λ r _. refl) ok_rows.ids;
    below =
        below_suc (λ x. x.id) seq _
          (All-update_where (λ x. x.id < seq) p (extended la) rows (λ r _ h. h) ok_rows.below);
  }

pub delete-ActivitiesOk :
    (p : LiveActivity → Bool) {rows : List LiveActivity} {seq : ℕ}
    → ActivitiesOk rows seq
    → ActivitiesOk (delete_where p rows) seq
delete-ActivitiesOk p {rows} {seq} h = record {
  tokens = Unique-delete_where (λ x. x.apns_token) p rows h.tokens;
  ids = Unique-delete_where (λ x. x.id) p rows h.ids;
  below = All-delete_where (λ x. x.id < seq) p rows h.below;
}
