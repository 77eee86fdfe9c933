-- ===== src/Repository/Users.antt =====
-- internal/repository/postgres_user.go. The statement of CreateOrUpdate returns no row on a conflict,
-- and reading the number of no row is an error.
use apollo_backend.Prelude.{
  ℕ, ◌+◌, Bool, not, Option, none, some, [], ◌∷◌, ◌++◌, ◌==◌, if◌then◌else◌, any,
}
use apollo_backend.Prelude.Table.{select_where, delete_where}
use apollo_backend.Str.{Str, str_eq, to_lower}
use apollo_backend.Errors.{Error, invalid, Result, ok, err}
use apollo_backend.Domain.{User}
use apollo_backend.Domain.Validation.{Rules, validate_user}
use apollo_backend.Domain.Durations.{Time}
use apollo_backend.Schema.{Db}
use apollo_backend.Exec.{Exec, Env, pure, statement}
use apollo_backend.Repository.Accounts.{first_or_not_found}
use apollo_backend.Repository.Subreddits.{no_rows}

abbrev pub has_id : ℕ → User → Bool
has_id id row = row.id == id

abbrev pub has_name : Str → User → Bool
has_name name row = str_eq row.name name

unfoldable pub get_by_id_sql : ℕ → Time → Db → Result User × Db
unfolding select_where first_or_not_found
get_by_id_sql id now db = (first_or_not_found (select_where (has_id id) db.users), db)

unfoldable pub get_by_name_sql : Str → Time → Db → Result User × Db
unfolding select_where first_or_not_found
get_by_name_sql name now db =
    (first_or_not_found (select_where (has_name (to_lower name)) db.users), db)

-- The row is stored under the lower-case name and is due at once.
unfoldable pub added : User → ℕ → Time → User
added row id now = record row { id = id; name = to_lower row.name; next_check_at = now }

-- ON CONFLICT(user_id) DO NOTHING
unfoldable pub insert_sql : User → Time → Db → Result User × Db
unfolding added
insert_sql row now db =
    if any (λ r. str_eq r.user_id row.user_id) db.users
    then (err no_rows, record db { users_seq = db.users_seq + 1 })
    else (
      ok (record row { id = db.users_seq }),
      record db {
        users = db.users ++ added row db.users_seq now ∷ [];
        users_seq = db.users_seq + 1;
      },
    )

unfoldable pub delete_sql : ℕ → Time → Db → Result (Unit {0}) × Db
unfolding delete_where
delete_sql id now db = (ok tt, record db { users = delete_where (has_id id) db.users })

module _ (env : Env) where
  unfoldable pub get_by_id : ℕ → Exec (Result User)
  get_by_id id = statement env (get_by_id_sql id)

  unfoldable pub get_by_name : Str → Exec (Result User)
  get_by_name name = statement env (get_by_name_sql name)

  -- The statement has two placeholders and is given three arguments; `accepts` is what pgx makes of
  -- such counts.
  unfoldable pub create_or_update :
      (accepts : (placeholders arguments : ℕ) → Option Error) → Rules → User → Exec (Result User)
  create_or_update accepts v u =
      if not (validate_user v u) then pure (err invalid) else elim (accepts 2 3) [
        | some e ↦ statement env (λ now db. (err e, db))
        | none ↦ statement env (insert_sql u)
      ]

  unfoldable pub delete : ℕ → Exec (Result (Unit {0}))
  delete id = statement env (delete_sql id)
