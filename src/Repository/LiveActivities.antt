-- ===== src/Repository/LiveActivities.antt =====
-- internal/repository/postgres_live_activity.go
pub mod Registration
use apollo_backend.Prelude.{◌+◌, Bool, none, some, [], ◌∷◌, ◌++◌, ltb}
use apollo_backend.Prelude.Table.{select_where, update_where, delete_where, first}
use apollo_backend.Str.{Str, str_eq}
use apollo_backend.Errors.{Result, ok}
use apollo_backend.Domain.{LiveActivity}
use apollo_backend.Domain.Durations.{Time, live_activity_duration}
use apollo_backend.Schema.{Db}
use apollo_backend.Exec.{Exec, Env, external, ◌>>=◌, statement}
use apollo_backend.Repository.Accounts.{first_or_not_found}

abbrev pub has_token : Str → LiveActivity → Bool
has_token token la = str_eq la.apns_token token

unfoldable pub get_sql : Str → Time → Db → Result LiveActivity × Db
unfolding select_where first_or_not_found
get_sql token now db = (first_or_not_found (select_where (has_token token) db.live_activities), db)

-- The lifetime that a registration at `now` gives.
unfoldable pub scheduled : Time → LiveActivity → LiveActivity
scheduled now la = record la { next_check_at = now; expires_at = now + live_activity_duration }

-- DO UPDATE SET expires_at, next_check_at
unfoldable pub extended : LiveActivity → LiveActivity → LiveActivity
extended la row = record row { next_check_at = la.next_check_at; expires_at = la.expires_at }

unfoldable pub upsert_sql : LiveActivity → Time → Db → Result LiveActivity × Db
unfolding extended update_where select_where first
upsert_sql la now db = elim (first (select_where (has_token la.apns_token) db.live_activities)) [
  | none ↦ (
    ok (record la { id = db.live_activities_seq }),
    record db {
      live_activities = db.live_activities ++ record la { id = db.live_activities_seq } ∷ [];
      live_activities_seq = db.live_activities_seq + 1;
    },
  )
  | some row ↦ (
    ok (record la { id = row.id }),
    record db {
      live_activities = update_where (has_token la.apns_token) (extended la) db.live_activities;
      live_activities_seq = db.live_activities_seq + 1;
    },
  )
]

unfoldable pub remove_stale_sql : Time → Time → Db → Result (Unit {0}) × Db
unfolding delete_where
remove_stale_sql before now db = (
  ok tt,
  record db { live_activities = delete_where (λ la. ltb la.expires_at before) db.live_activities },
)

unfoldable pub delete_sql : Str → Time → Db → Result (Unit {0}) × Db
unfolding delete_where
delete_sql token now db =
    (ok tt, record db { live_activities = delete_where (has_token token) db.live_activities })

module _ (env : Env) where
  unfoldable pub get : Str → Exec (Result LiveActivity)
  get token = statement env (get_sql token)

  unfoldable pub create : LiveActivity → Exec (Result LiveActivity)
  unfolding scheduled
  create la = do now ← external env.now; statement env (upsert_sql (scheduled now la))

  unfoldable pub remove_stale : Time → Exec (Result (Unit {0}))
  remove_stale before = statement env (remove_stale_sql before)

  unfoldable pub delete : Str → Exec (Result (Unit {0}))
  delete token = statement env (delete_sql token)
