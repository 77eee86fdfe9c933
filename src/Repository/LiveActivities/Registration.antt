-- ===== src/Repository/LiveActivities/Registration.antt =====
-- What a registration of a live activity stores.
use apollo_backend.Prelude.{
  ℕ, ◌+◌, ◌*◌, ◌≡◌, refl, none, List, [], ◌∷◌, arith, Option-cases, inl, inr,
}
use apollo_backend.Prelude.Table.{select_where, first}
use apollo_backend.Str.{str_eq_refl}
use apollo_backend.Errors.{Result, not_found, ok, err}
use apollo_backend.Domain.{LiveActivity}
use apollo_backend.Domain.Durations.{Time, minute}
use apollo_backend.Schema.{Db}
use apollo_backend.Exec.{Env, World, returned, ◌>>=◌, statement}
use apollo_backend.Repository.Accounts.{first_or_not_found}
use apollo_backend.Repository.Found.{first-update_where, first-insert, found_lem}
use apollo_backend.Repository.LiveActivities.{
  has_token, get_sql, scheduled, extended, upsert_sql, get, create,
}

-- The row that a registration at `now` leaves, by what the token had before: a new one holds all that
-- was registered, and a known one is due and expires later.
abbrev pub registered :
    (la : LiveActivity) (now : Time) (id : ℕ) → Result LiveActivity → LiveActivity
registered la now id (err e) = record {
  id = id;
  apns_token = la.apns_token;
  reddit_account_id = la.reddit_account_id;
  thread_id = la.thread_id;
  subreddit = la.subreddit;
  next_check_at = now;
  expires_at = now + 75 * minute;
  development = la.development;
}
registered la now id (ok row) = record row { next_check_at = now; expires_at = now + 75 * minute }

none_lem :
    {A : Type 0} (rows : List A) → first rows ≡ none → first_or_not_found rows ≡ err not_found
unfolding first first_or_not_found
none_lem [] h = refl
none_lem (r ∷ rows) h = ground arith

upsert-get :
    (la : LiveActivity) (at now t : Time) (db : Db)
    → (r : LiveActivity) × ((upsert_sql (scheduled at la) now db).0 ≡ ok r)
      × ((get_sql la.apns_token t (upsert_sql (scheduled at la) now db).1).0
          ≡ ok (registered la at r.id (get_sql la.apns_token now db).0))
unfolding upsert_sql get_sql extended scheduled
upsert-get la at now t db =
    elim (Option-cases (first (select_where (has_token la.apns_token) db.live_activities))) [
      | inl e ↦
          let new : LiveActivity = record (scheduled at la) { id = db.live_activities_seq } in
          rw (e, upsert_sql)
            (
              new,
              refl,
              rw
                  (
                    none_lem _ e,
                    found_lem _ new (
                        first-insert (has_token la.apns_token) db.live_activities new
                          (str_eq_refl la.apns_token) e),
                  )
                  refl,
            )
      | inr (row, e) ↦
          let la' = scheduled at la in
          rw (e, upsert_sql)
            (
              record la' { id = row.id },
              refl,
              rw
                  (
                    found_lem _ row e,
                    found_lem _ (extended la' row) (
                        first-update_where (has_token la.apns_token) (extended la')
                          db.live_activities row (λ r. refl) e),
                  )
                  refl,
            )
    ]

-- While the database answers, a registration is what the next look-up of its token finds: a token
-- that was not there has all the fields that were registered, under the number that was returned;
-- one that was keeps its row and its number. Either is due at once and expires 75 minutes after the
-- registration.
pub create-get :
    (env : Env) (la : LiveActivity) (w : World)
    → ((i : ℕ) → env.db_error i ≡ none)
    → (r : LiveActivity) × ((create env la w).0 ≡ returned (ok r))
      × ((get env la.apns_token (create env la w).1).0
          ≡ returned (
              ok (
                registered la
                  (env.now w.calls)
                  r.id
                  (get_sql la.apns_token (env.now (w.calls + 1)) w.db).0)))
unfolding create get statement ◌>>=◌
create-get env la w fine =
    let now = env.now (w.calls + 1) in
    let (r, o, g) = upsert-get la (env.now w.calls) now (env.now (w.calls + 1 + 1)) w.db in
    rw (fine (w.calls + 1), o, fine (w.calls + 1 + 1), g) (r, refl, refl)
