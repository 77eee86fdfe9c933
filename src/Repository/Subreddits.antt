-- ===== src/Repository/Subreddits.antt =====
-- internal/repository/postgres_subreddit.go. The statement of CreateOrUpdate returns no row on a conflict,
-- and reading the number of no row is an error.
pub mod Created
use apollo_backend.Prelude.{ℕ, ◌+◌, Bool, [], ◌∷◌, ◌++◌, ◌==◌, if◌then◌else◌, any}
use apollo_backend.Prelude.Table.{select_where}
use apollo_backend.Str.{Str, lit, str_eq, to_lower}
use apollo_backend.Errors.{Error, invalid, other, Result, ok, err}
use apollo_backend.Domain.{Subreddit}
use apollo_backend.Domain.Validation.{Rules, validate_subreddit}
use apollo_backend.Domain.Durations.{Time}
use apollo_backend.Schema.{Db}
use apollo_backend.Exec.{Exec, Env, pure, statement}
use apollo_backend.Repository.Accounts.{first_or_not_found}

abbrev pub no_rows : Error
no_rows = other (lit "no rows in result set")

abbrev pub has_id : ℕ → Subreddit → Bool
has_id id row = row.id == id

abbrev pub has_name : Str → Subreddit → Bool
has_name name row = str_eq row.name name

unfoldable pub get_by_id_sql : ℕ → Time → Db → Result Subreddit × Db
unfolding select_where first_or_not_found
get_by_id_sql id now db = (first_or_not_found (select_where (has_id id) db.subreddits), db)

unfoldable pub get_by_name_sql : Str → Time → Db → Result Subreddit × Db
unfolding select_where first_or_not_found
get_by_name_sql name now db =
    (first_or_not_found (select_where (has_name (to_lower name)) db.subreddits), db)

-- The row is stored under the lower-case name and is due at once.
unfoldable pub added : Subreddit → ℕ → Time → Subreddit
added row id now = record row { id = id; name = to_lower row.name; next_check_at = now }

-- ON CONFLICT(subreddit_id) DO NOTHING
unfoldable pub insert_sql : Subreddit → Time → Db → Result Subreddit × Db
unfolding added
insert_sql row now db =
    if any (λ r. str_eq r.subreddit_id row.subreddit_id) db.subreddits
    then (err no_rows, record db { subreddits_seq = db.subreddits_seq + 1 })
    else (
      ok (record row { id = db.subreddits_seq }),
      record db {
        subreddits = db.subreddits ++ added row db.subreddits_seq now ∷ [];
        subreddits_seq = db.subreddits_seq + 1;
      },
    )

module _ (env : Env) where
  unfoldable pub get_by_id : ℕ → Exec (Result Subreddit)
  get_by_id id = statement env (get_by_id_sql id)

  unfoldable pub get_by_name : Str → Exec (Result Subreddit)
  get_by_name name = statement env (get_by_name_sql name)

  unfoldable pub create_or_update : Rules → Subreddit → Exec (Result Subreddit)
  create_or_update v sr =
      if validate_subreddit v sr then statement env (insert_sql sr) else pure (err invalid)
