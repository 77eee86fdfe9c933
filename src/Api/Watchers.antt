-- ===== src/Api/Watchers.antt =====
-- internal/api/watcher.go. `accepts` is what pgx makes of the arguments of a statement, as in
-- Repository.Users.
pub mod Requests
pub mod Ownership
pub mod UserWatchers
use apollo_backend.Prelude.{
  ℕ, Bool, true, false, not, ◌&&◌, ◌||◌, Option, none, some, List, [], ◌∷◌, map, if◌then◌else◌,
}
use apollo_backend.Prelude.Int.{ℤ, pos, negsuc}
use apollo_backend.Str.{Str, lit, str_eq, to_lower}
use apollo_backend.Errors.{Error, not_found, invalid, subreddit_is_private, other, Result, ok, err}
use apollo_backend.Domain.{
  Account, Device, Subreddit, Watcher, WatcherType, subreddit_watcher, user_watcher,
  trending_watcher, watcher_type_string,
}
use apollo_backend.Domain.Validation.{Rules}
use apollo_backend.Domain.Durations.{Time}
use apollo_backend.Exec.{Exec, Env, pure, panic, ◌>>=◌, ◌>>◌, statement}
use apollo_backend.Repository.Accounts
use apollo_backend.Repository.Devices
use apollo_backend.Repository.Subreddits
use apollo_backend.Repository.Users
use apollo_backend.Repository.Watchers.{
  watcher_by_id_sql, by_device_and_account, create_watcher, update_watcher, delete_watcher,
}
use apollo_backend.Reddit.Types.{Parser, SubredditResponse, UserResponse}
use apollo_backend.Reddit.Client.{Transport, new_authenticated_client}
use apollo_backend.Reddit.Calls.{subreddit_about, user_about}
use apollo_backend.Worker.Notifications.{credentials}
use apollo_backend.Worker.ParseInt.{parse_int}
use apollo_backend.Worker.Watching.{zero_account, zero_device, row_of}
use apollo_backend.Api.Watchers.Requests.{
  WatcherCriteria, CreateWatcherRequest, is_type, names_subreddit, validate_request, no_account,
  not_associated, followers_disabled, unknown_type, not_a_number, wrong_device, last_account,
  requested_watcher, typed, edited_watcher, WatcherItem, watcher_item, number_or_zero,
}
use apollo_backend.Api.Responses.{Response, success, failure, or_fail, done}

module _ (env : Env) where
  -- The watcher of the path, if it is one of the device's.
  unfoldable pub with_watcher :
      {A : Type 0} → (wid apns : Str) → (ℤ → Watcher → Exec (Response A)) → Exec (Response A)
  unfolding or_fail row_of parse_int str_eq
  with_watcher wid apns next = elim (parse_int wid) [
    | none ↦ pure (failure 422 not_a_number)
    | some id ↦ row_of env watcher_by_id_sql id >>= λ found. or_fail 422 found (λ w.
        if str_eq w.device.apns_token apns then next id w else pure (failure 422 wrong_device))
  ]

  unfoldable pub delete_row : ℤ → Exec (Response (Unit {0}))
  delete_row (pos id) = delete_watcher env id >> pure (success tt)
  delete_row (negsuc n) = statement env (λ now db. (ok tt, db)) >> pure (success tt)

  unfoldable pub delete_watcher_handler : (wid apns : Str) → Exec (Response (Unit {0}))
  unfolding with_watcher delete_row
  delete_watcher_handler wid apns = with_watcher wid apns (λ id w. delete_row id)

  unfoldable pub list_watchers : (apns rid : Str) → Exec (Response (List WatcherItem))
  unfolding or_fail watcher_item
  list_watchers apns rid = by_device_and_account env apns rid >>= λ found.
      or_fail 400 found (λ watchers. pure (success (map watcher_item watchers)))

  -- The account of the device that the path names.
  unfoldable pub with_account :
      {A : Type 0} → (apns rid : Str) → (Account → Exec (Response A)) → Exec (Response A)
  unfolding or_fail last_account
  with_account apns rid next = Accounts.get_by_apns_token env apns >>= λ found.
      or_fail 422 found (λ accs. elim accs [
        | [] ↦ pure (failure 422 no_account)
        | acc ∷ rest ↦ elim (last_account rid (acc ∷ rest)) [
          | none ↦ pure (failure 401 not_associated)
          | some account ↦ next account
        ]
      ])

  module _ (v : Rules) where
    -- The row of a subreddit, which is added when it is new; a failure to add it leaves number 0.
    unfoldable pub known_subreddit :
        {A : Type 0}
        → SubredditResponse
        → Result Subreddit
        → (ℕ → Exec (Response A))
        → Exec (Response A)
    known_subreddit srr (ok sr) next = next sr.id
    known_subreddit srr (err not_found) next =
        Subreddits.create_or_update env v
          (record { id = 0; next_check_at = 0; subreddit_id = srr.id; name = srr.name })
        >>= λ added. next (number_or_zero added)
    known_subreddit srr (err e) next = pure (failure 500 e)

    unfoldable pub store_watcher : Watcher → Exec (Response ℕ)
    unfolding or_fail
    store_watcher w = create_watcher env v w >>= λ made. or_fail 422 made (λ x. pure (success x.id))

    unfoldable pub save_watcher : Watcher → Exec (Response (Unit {0}))
    unfolding or_fail done
    save_watcher w = update_watcher env v w >>= λ saved. or_fail 500 saved done

    module _ (t : Transport) (p : Parser) where
      -- The branch on the error behind the test of `Public` is never taken: `err` is nil there.
      unfoldable pub watch_found :
          CreateWatcherRequest → Watcher → SubredditResponse → Exec (Response ℕ)
      unfolding known_subreddit store_watcher typed
      watch_found cwr w srr =
          if not srr.public
          then pure (failure 403 subreddit_is_private)
          else Subreddits.get_by_name env cwr.subreddit >>= λ sr.
              known_subreddit srr sr
                (λ id. store_watcher (record (typed cwr w) { watchee_id = id }))

      unfoldable pub create_subreddit_watcher :
          CreateWatcherRequest → Watcher → Account → Exec (Response ℕ)
      unfolding or_fail watch_found credentials
      create_subreddit_watcher cwr w account = do
        ac ← new_authenticated_client (credentials account)
        srr ← subreddit_about env t p ac cwr.subreddit
        or_fail 500 srr (watch_found cwr w)

      module _ (accepts : (placeholders arguments : ℕ) → Option Error) where
        unfoldable pub watch_user : Watcher → UserResponse → Exec (Response ℕ)
        unfolding or_fail store_watcher
        watch_user w urr =
            if not urr.accept_followers
            then pure (failure 403 followers_disabled)
            else Users.create_or_update env accepts v
                (record { id = 0; next_check_at = 0; user_id = urr.id; name = urr.name })
              >>= λ stored.
                  or_fail 500 stored
                    (λ u. store_watcher (record w { type = user_watcher; watchee_id = u.id }))

        unfoldable pub create_user_watcher :
            CreateWatcherRequest → Watcher → Account → Exec (Response ℕ)
        unfolding or_fail watch_user credentials
        create_user_watcher cwr w account = do
          ac ← new_authenticated_client (credentials account)
          urr ← user_about env t p ac cwr.user
          or_fail 500 urr (watch_user w)

        unfoldable pub create_of_type : CreateWatcherRequest → Device → Account → Exec (Response ℕ)
        unfolding create_subreddit_watcher create_user_watcher requested_watcher str_eq
        create_of_type cwr dev account =
            if names_subreddit cwr
            then create_subreddit_watcher cwr (requested_watcher cwr dev account) account
            else if is_type (lit "user") cwr
            then create_user_watcher cwr (requested_watcher cwr dev account) account
            else pure (failure 422 unknown_type)

        unfoldable pub create_watcher_handler :
            Result CreateWatcherRequest → (apns rid : Str) → Exec (Response ℕ)
        unfolding or_fail with_account create_of_type validate_request
        create_watcher_handler body apns rid = or_fail 500 body (λ cwr.
            if not (validate_request v cwr)
            then pure (failure 422 invalid)
            else Devices.get_by_apns_token env apns >>= λ dev.
                or_fail 422 dev (λ d. with_account apns rid (create_of_type cwr d)))

      -- `srr.Public` is read before the error, so that an error panics.
      unfoldable pub rewatch : Watcher → Result SubredditResponse → Exec (Response (Unit {0}))
      unfolding known_subreddit save_watcher to_lower
      rewatch w (err e) = panic
      rewatch w (ok srr) =
          if not srr.public
          then pure (failure 403 subreddit_is_private)
          else Subreddits.get_by_name env (to_lower w.subreddit) >>= λ sr.
              known_subreddit srr sr (λ id. save_watcher (record w { watchee_id = id }))

      unfoldable pub move_watcher : (apns rid : Str) → Watcher → Exec (Response (Unit {0}))
      unfolding with_account rewatch credentials to_lower
      move_watcher apns rid w = with_account apns rid (λ account. do
        ac ← new_authenticated_client (credentials account)
        srr ← subreddit_about env t p ac (to_lower w.subreddit)
        rewatch w srr)

      abbrev is_subreddit_type : WatcherType → Bool
      is_subreddit_type subreddit_watcher = true
      is_subreddit_type _ = false

      unfoldable pub change_watcher : (apns rid : Str) → Watcher → Exec (Response (Unit {0}))
      unfolding move_watcher save_watcher str_eq to_lower
      change_watcher apns rid w =
          if is_subreddit_type w.type && not (str_eq w.watchee_label (to_lower w.subreddit))
          then move_watcher apns rid w
          else save_watcher w

      unfoldable pub edit_watcher_handler :
          Result CreateWatcherRequest → (apns rid wid : Str) → Exec (Response (Unit {0}))
      unfolding or_fail with_watcher change_watcher edited_watcher
      edit_watcher_handler body apns rid wid =
          with_watcher wid apns
            (λ id w. or_fail 500 body (λ ewr. change_watcher apns rid (edited_watcher ewr w)))
