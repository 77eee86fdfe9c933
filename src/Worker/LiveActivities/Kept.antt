-- ===== src/Worker/LiveActivities/Kept.antt =====
-- The job of liveActivitiesConsumer.Consume and predicates of the database that it keeps.
use apollo_backend.Prelude.{refl, Option, none, some}
use apollo_backend.Str.{Str}
use apollo_backend.Errors.{Error, Result, ok, err}
use apollo_backend.Domain.{Account, LiveActivity}
use apollo_backend.Domain.Durations.{Time}
use apollo_backend.Schema.{Db}
use apollo_backend.Exec.{
  Exec, Env, Event, ApnsReply, failed, reply, ActivityNotification, Gateway, emit, ◌>>=◌,
}
use apollo_backend.Exec.Keeps.{
  Keeps, keeps_rules, Keeps-pure, Keeps-panic, Keeps-if, Keeps-bind, Keeps-external,
  Keeps-statement, Keeps-same,
}
use apollo_backend.Repository.Accounts
use apollo_backend.Repository.Accounts.{has_id, name_taken, first_or_not_found, live_accounts}
use apollo_backend.Repository.LiveActivities
use apollo_backend.Repository.LiveActivities.{has_token}
use apollo_backend.Reddit.Types.{
  Parser, ThreadResponse, RefreshTokenResponse, new_thread_response, new_refresh_token_response,
}
use apollo_backend.Reddit.Client.{
  Transport, AuthenticatedClient, AuthCredentials, default_error_map, refresh_error_map,
  refresh_request, refresh_tokens, new_authenticated_client,
}
use apollo_backend.Reddit.Calls.{top_level_comments, comments_request, checked}
use apollo_backend.Reddit.Retries.{request-db}
use apollo_backend.Worker.Notifications.{renewed}
use apollo_backend.Worker.LiveActivities.{
  ActivitySender, Sort, drop_row, after_push, push_activity, end_expired, drop_if_revoked, announce,
  commented, look, look_refreshed, look_as,
}

-- Actions of the job, for a predicate of the database that a deletion of the activity's row keeps.
module _ (env : Env) (at : Str) (R : Db → Type 0)
    (dropping : (now : Time) (db : Db) → R db → R (LiveActivities.delete_sql at now db).1) where
  abbrev IsKept : {A : Type 0} → Exec A → Type 0
  IsKept m = Keeps (λ w. R w.db) m

  checked-IsKept : {A : Type 0} (r : Result (Option A)) → IsKept (checked r)
  unfolding checked
  checked-IsKept (err e) = Keeps-pure (err e)
  checked-IsKept (ok none) = Keeps-panic
  checked-IsKept (ok (some a)) = Keeps-pure (ok a)

  pub drop_row-IsKept : IsKept (drop_row env at)
  unfolding LiveActivities.delete
  drop_row-IsKept = Keeps-bind _ _ (Keeps-statement R env _ dropping) (λ r. Keeps-pure tt)

  after_push-IsKept : (r : ApnsReply) → IsKept (after_push env at r)
  unfolding after_push
  after_push-IsKept (failed e) = drop_row-IsKept
  after_push-IsKept (reply sent status reason) = Keeps-if sent (Keeps-pure tt) (drop_row-IsKept)

  emit-IsKept : (e : Event) → IsKept (emit e)
  unfolding ◌>>=◌
  emit-IsKept e = Keeps-same R (emit e) (λ w. refl)

  push_activity-IsKept :
      (g : Gateway) (n : ActivityNotification) → IsKept (push_activity env at g n)
  unfolding push_activity
  push_activity-IsKept g n =
      Keeps-bind _ _ (emit-IsKept _) (λ u. Keeps-bind _ _ (Keeps-external R _) (after_push-IsKept))

  end_expired-IsKept : (now : Time) (la : LiveActivity) → IsKept (end_expired env at now la)
  unfolding end_expired
  end_expired-IsKept now la = Keeps-if _ (drop_row-IsKept) (Keeps-pure tt)

  drop_if_revoked-IsKept : (e : Error) → IsKept (drop_if_revoked env at e)
  unfolding drop_if_revoked
  drop_if_revoked-IsKept e = Keeps-if _ (drop_row-IsKept) (Keeps-pure tt)

  client-IsKept : (creds : AuthCredentials) → IsKept (new_authenticated_client creds)
  unfolding new_authenticated_client
  client-IsKept creds = search keeps_rules

  module _ (s : ActivitySender) (sorted : Sort) where
    commented-IsKept :
        (now : Time) (la : LiveActivity) (r : Result ThreadResponse)
        → IsKept (commented env s sorted at now la r)
    unfolding commented announce
    commented-IsKept now la (err e) = drop_if_revoked-IsKept e
    commented-IsKept now la (ok tr) = Keeps-if _ (Keeps-pure tt) (
        Keeps-if _ (Keeps-pure tt)
          (Keeps-bind _ _ (push_activity-IsKept _ _) (λ u. end_expired-IsKept now la)))

    module _ (t : Transport) (p : Parser) where
      comments-IsKept :
          (rac : AuthenticatedClient) (subreddit thread : Str)
          → IsKept (top_level_comments env t p rac subreddit thread)
      unfolding top_level_comments checked
      comments-IsKept rac subreddit thread =
          Keeps-bind _ _
            (Keeps-same R _ (
              request-db env t p rac default_error_map (comments_request rac subreddit thread)
                (new_thread_response p) none))
            checked-IsKept

      look-IsKept :
          (now : Time) (la : LiveActivity) (rac : AuthenticatedClient)
          → IsKept (look env s sorted t p at now la rac)
      unfolding look
      look-IsKept now la rac = Keeps-bind _ _ (comments-IsKept rac _ _) (commented-IsKept now la)

      -- For an account whose new tokens keep it too.
      module _ (account : Account)
          (updating : (now at : Time) (tokens : RefreshTokenResponse) (db : Db)
            → R db
            → R (Accounts.update_sql (renewed at tokens account) now db).1) where
        look_refreshed-IsKept :
            (now : Time) (la : LiveActivity) (r : Result RefreshTokenResponse)
            → IsKept (look_refreshed env s sorted t p at now la account r)
        unfolding look_refreshed Accounts.update
        look_refreshed-IsKept now la (err e) = drop_if_revoked-IsKept e
        look_refreshed-IsKept now la (ok tokens) =
            Keeps-bind _ _ (Keeps-statement R env _ (λ n db h. updating n now tokens db h))
              (λ u. Keeps-bind _ _ (client-IsKept _) (look-IsKept now la))

        pub look_as-IsKept :
            (now : Time) (la : LiveActivity)
            → IsKept (look_as env s sorted t p at now la (ok account))
        unfolding look_as refresh_tokens
        look_as-IsKept now la = Keeps-bind _ _ (client-IsKept _) (λ rac.
            Keeps-if _
              (Keeps-bind _ _
                (Keeps-bind _ _
                  (Keeps-same R _ (
                    request-db env t p rac refresh_error_map (refresh_request t rac)
                      (new_refresh_token_response p) none))
                  (λ r. Keeps-pure _))
                (look_refreshed-IsKept now la))
              (look-IsKept now la rac))
