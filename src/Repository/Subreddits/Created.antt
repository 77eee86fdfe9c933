-- ===== src/Repository/Subreddits/Created.antt =====
-- What CreateOrUpdate of a subreddit leaves, and what it does to one that is there.
use apollo_backend.Prelude.{
  ℕ, ◌+◌, ◌≡◌, refl, Bool, true, false, none, some, List, [], ◌∷◌, ◌++◌, any, arith,
}
use apollo_backend.Prelude.Table.{first}
use apollo_backend.Prelude.Keys.{any-append}
use apollo_backend.Str.{Str, str_eq, str_eq_refl, to_lower}
use apollo_backend.Errors.{ok, err}
use apollo_backend.Domain.{Subreddit}
use apollo_backend.Domain.Validation.{Rules, validate_subreddit}
use apollo_backend.Exec.{Env, World, returned, statement}
use apollo_backend.Repository.Accounts.{first_or_not_found}
use apollo_backend.Repository.Settings.Rows.{append-free}
use apollo_backend.Repository.Subreddits.{
  no_rows, has_name, added, insert_sql, get_by_name_sql, get_by_name, create_or_update,
}

first_found :
    {A : Type 0} (rows : List A) (r : A) → first rows ≡ some r → first_or_not_found rows ≡ ok r
unfolding first first_or_not_found
first_found [] r e = ground arith
first_found (x ∷ rows) r e = ground arith

module _ (env : Env) (up : (i : ℕ) → env.db_error i ≡ none) (v : Rules) (sr : Subreddit)
    (valid : validate_subreddit v sr ≡ true) where
  abbrev same_id : Subreddit → Bool
  same_id r = str_eq r.subreddit_id sr.subreddit_id

  -- The world with the new row.
  abbrev created : World → World
  created w = record w {
    db = record (w.db) {
      subreddits = w.db.subreddits ++ added sr w.db.subreddits_seq (env.now w.calls) ∷ [];
      subreddits_seq = w.db.subreddits_seq + 1;
    };
    calls = w.calls + 1;
  }

  create_lem :
      (w : World)
      → any same_id w.db.subreddits ≡ false
      → create_or_update env v sr w
        ≡ (returned (ok (record sr { id = w.db.subreddits_seq })), created w)
  unfolding create_or_update insert_sql statement
  create_lem w free = rw (valid, up w.calls, free, statement) refl

  again_lem :
      (w : World)
      → any same_id w.db.subreddits ≡ true
      → (create_or_update env v sr w).0 ≡ returned (err no_rows)
  unfolding create_or_update insert_sql statement
  again_lem w there = rw (valid, up w.calls, there, statement) refl

  -- A subreddit whose number and name are new is stored under its lower-case name, due at once, and
  -- found by every spelling of that name; but CreateOrUpdate of one that is there, which means to
  -- leave it, answers with an error. The database answers here, and the subreddit is valid.
  pub create_or_update-again :
      (name : Str) (w : World)
      → to_lower name ≡ to_lower sr.name
      → any same_id w.db.subreddits ≡ false
      → any (has_name (to_lower sr.name)) w.db.subreddits ≡ false
      → ((create_or_update env v sr w).0 ≡ returned (ok (record sr { id = w.db.subreddits_seq })))
        × ((get_by_name env name (create_or_update env v sr w).1).0
            ≡ returned (
                ok (record {
                  id = w.db.subreddits_seq;
                  next_check_at = env.now w.calls;
                  subreddit_id = sr.subreddit_id;
                  name = to_lower sr.name;
                })))
        × ((create_or_update env v sr (create_or_update env v sr w).1).0 ≡ returned (err no_rows))
  unfolding get_by_name get_by_name_sql statement added
  create_or_update-again name w spelled free unnamed =
      let row = added sr w.db.subreddits_seq (env.now w.calls) in
      let named : has_name (to_lower sr.name) row ≡ true = str_eq_refl (to_lower sr.name) in
      let there : any same_id (created w).db.subreddits ≡ true =
        rw (any-append same_id w.db.subreddits (row ∷ []), free, str_eq_refl sr.subreddit_id)
          refl in
      rw (create_lem w free) (
        refl,
        rw
            (
              up (w.calls + 1),
              spelled,
              first_found _ row
                  (append-free (has_name (to_lower sr.name)) w.db.subreddits row unnamed named),
              statement,
            )
            refl,
        again_lem (created w) there,
      )
