-- ===== src/Examples/Api.antt =====
-- Requests to the API on small worlds, and what the repositories keep of them.
use apollo_backend.Prelude.{ℕ, ◌≡◌, refl, true, false, any, none, some, List, [], ◌∷◌, arith}
use apollo_backend.Prelude.Int.{pos}
use apollo_backend.Str.{lit, to_lower, str_eq, is_empty}
use apollo_backend.Errors.{Error, other, ok, err}
use apollo_backend.Domain.{Subreddit, Account, Device}
use apollo_backend.Domain.Validation.{validate_subreddit, validate_user}
use apollo_backend.Schema.{Db}
use apollo_backend.Exec.{Env, HttpReply, returned, statement, ◌>>=◌}
use apollo_backend.Repository.Accounts
use apollo_backend.Repository.Accounts.{links, first_or_not_found, live_accounts}
use apollo_backend.Repository.Devices
use apollo_backend.Repository.Subreddits.{no_rows, get_by_name, create_or_update}
use apollo_backend.Repository.Subreddits.Created.{create_or_update-again}
use apollo_backend.Repository.Devices.Upserted.{create_or_update-get}
use apollo_backend.Repository.Settings.{SettingsOp, link, set, run_ops, settings_of, spec_ops}
use apollo_backend.Repository.Settings.Refines.{run_ops-refines}
use apollo_backend.Api.Responses.{success, failure}
use apollo_backend.Api.Registration.{RegistrationRequest, filled, lacks_credentials}
use apollo_backend.Api.Registration.Precedence.{first_set, filled-precedence}
use apollo_backend.Api.Accounts.{
  AccountNotificationsRequest, notifications_account, get_notifications_account, register_filled,
}
use apollo_backend.Api.Accounts.Notifications.{notifications_account-get}
use apollo_backend.Api.Accounts.Registered.{register_filled-linked}
use apollo_backend.Api.Watchers.Requests.{CreateWatcherRequest}
use apollo_backend.Api.Watchers.{create_watcher_handler, delete_watcher_handler}
use apollo_backend.Api.Watchers.Ownership.{IsSpared, delete_watcher_handler-spares_others}
use apollo_backend.Api.Watchers.UserWatchers.{is_success, create_user_watcher-refused}
use apollo_backend.Repository.Users
use apollo_backend.Reddit.Client.{new_authenticated_client, refresh_tokens, message_inbox}
use apollo_backend.Reddit.Calls.{me, user_about}
use apollo_backend.Reddit.Types.{Parser}
use apollo_backend.Examples.Worlds.{
  bark_phone, watcher_row, watched, env_at, empty_db, world, account, phone, rules, transport,
  parser,
}

abbrev request : RegistrationRequest
request = record {
  username = lit "someone";
  access_token = lit "access";
  refresh_token = lit "refresh";
  client_id = lit "own";
  client_secret = [];
  redirect_uri = [];
  user_agent = [];
  development = false;
}

filled-precedence_example : filled (λ k. lit "header") (λ k. lit "env") request ≡ record request {
  client_id = lit "own";
  client_secret = lit "header";
  redirect_uri = lit "header";
  user_agent = lit "header";
}
unfolding first_set is_empty
filled-precedence_example = filled-precedence (λ k. lit "header") (λ k. lit "env") request

abbrev pictures : Subreddit
pictures = record { id = 0; next_check_at = 0; subreddit_id = lit "2qh0u"; name = lit "Pics" }

create_or_update-again_example :
    ((create_or_update (env_at 1) rules pictures (world empty_db [])).0
      ≡ returned (ok (record pictures { id = 1 })))
    × ((get_by_name
          (env_at 1)
          (lit "PICS")
          (create_or_update (env_at 1) rules pictures (world empty_db [])).1).0
        ≡ returned (
            ok (record {
              id = 1;
              next_check_at = 1;
              subreddit_id = lit "2qh0u";
              name = to_lower (lit "Pics");
            })))
    × ((create_or_update
          (env_at 1)
          rules
          pictures
          (create_or_update (env_at 1) rules pictures (world empty_db [])).1).0
        ≡ returned (err no_rows))
unfolding validate_subreddit is_empty to_lower
create_or_update-again_example =
    create_or_update-again (env_at 1) (λ i. refl) rules pictures refl (lit "PICS")
      (world empty_db []) refl refl refl

-- An account and a phone that are not linked.
abbrev unlinked : Db
unlinked = record empty_db {
  accounts = record { account = account; is_deleted = false } ∷ [];
  devices = phone ∷ [];
}

abbrev settings_ops : List SettingsOp
settings_ops = link account phone ∷ set account phone (false, true, false) ∷ []

run_ops-refines_example :
    settings_of 1 (run_ops 1 settings_ops unlinked) account phone
    ≡ spec_ops settings_ops (λ x y. none) 1 1
unfolding Devices.get_notifiable_sql
run_ops-refines_example =
    run_ops-refines 1 settings_ops unlinked (λ x y. none) ((refl, refl), (tt, tt)) (λ x y. refl)
      account phone

abbrev linked : Db
linked = record unlinked {
  devices_accounts =
      record {
        account_id = 1;
        device_id = 1;
        watcher_notifiable = true;
        inbox_notifiable = true;
        global_mute = false;
      }
      ∷ [];
}

abbrev muted : AccountNotificationsRequest
muted = record { inbox_notifications = false; watcher_notifications = true; global_mute = true }

notifications_account-get_example :
    ((notifications_account (env_at 1) (ok muted) (lit "token") (lit "abc") (world linked [])).0
      ≡ returned (success tt))
    × ((get_notifications_account
          (env_at 1)
          (lit "token")
          (lit "abc")
          (notifications_account
            (env_at 1)
            (ok muted)
            (lit "token")
            (lit "abc")
            (world linked [])).1).0
        ≡ returned (success muted))
unfolding Devices.get_by_apns_token_sql Accounts.get_by_reddit_id_sql str_eq
notifications_account-get_example =
    notifications_account-get (env_at 1) (λ i. refl) muted (lit "token") (lit "abc")
      (world linked []) phone account refl refl refl

abbrev watch_someone : CreateWatcherRequest
watch_someone = record {
  type = lit "user";
  user = lit "someone";
  subreddit = [];
  label = lit "posts";
  criteria = record {
    author = [];
    subreddit = [];
    upvotes = pos 0;
    keyword = [];
    flair = [];
    domain = [];
  };
}

abbrev two_for_three : Error
two_for_three = other (lit "mismatched param and argument count")

-- Reddit answers with a text for each string and a yes for each question.
abbrev willing : Env
willing = record (env_at 1) { http = λ i r. HttpReply.reply 200 [] }

abbrev agreeing : Parser
agreeing = record parser { string_at = λ k v. lit "someone"; bool_at = λ k v. true }

create_user_watcher-refused_example : is_success {A = ℕ} (failure 500 two_for_three) ≡ false
unfolding create_watcher_handler str_eq is_empty ◌>>=◌ statement Devices.get_by_apns_token
    Devices.get_by_apns_token_sql Accounts.get_by_apns_token Accounts.get_by_apns_token_sql
    new_authenticated_client user_about Users.create_or_update validate_user
create_user_watcher-refused_example =
    create_user_watcher-refused willing rules (λ m n. some two_for_three) two_for_three refl
      transport agreeing watch_someone (lit "token") (lit "abc") (world linked [])
      (failure 500 two_for_three) refl refl

-- The account as it is registered.
abbrev registered : Account
registered = record account {
  account_id = lit "someone";
  access_token = lit "someone";
  refresh_token = lit "someone";
  token_expires_at = 1;
  reddit_client_id = lit "own";
  reddit_client_secret = lit "header";
  reddit_redirect_uri = lit "header";
  reddit_user_agent = lit "header";
  check_count = 0;
}

register_filled-linked_example :
    (any
        (links 1 1)
        (register_filled willing transport agreeing
          (λ k. lit "header")
          (λ k. lit "env")
          request
          phone
          (world unlinked [])).1.db.devices_accounts
      ≡ true)
    × (lacks_credentials (filled (λ k. lit "header") (λ k. lit "env") request) ≡ false)
unfolding register_filled ◌>>=◌ statement new_authenticated_client refresh_tokens me message_inbox
    Accounts.create_or_update Accounts.create_or_update_sql Accounts.associate
    Accounts.associate_sql
register_filled-linked_example =
    register_filled-linked willing transport agreeing (λ k. lit "header") (λ k. lit "env") request
      phone (world unlinked []) registered refl

-- A watcher on each of two devices.
abbrev both_watched : Db
both_watched = record watched {
  devices = phone ∷ bark_phone ∷ [];
  watchers = watcher_row ∷ record watcher_row { id = 10; device_id = 2 } ∷ [];
}

delete_watcher_handler-spares_others_example :
    IsSpared
      (lit "token")
      both_watched
      (delete_watcher_handler (env_at 1) (lit "9") (lit "token") (world both_watched [])).1.db
delete_watcher_handler-spares_others_example =
    delete_watcher_handler-spares_others (env_at 1) (lit "token") (lit "9") (world both_watched [])
      (((λ e. ground arith), tt), (tt, tt))

-- The phone, as a client without transports registers it.
abbrev old_client : Device
old_client = record phone { id = 0; transport = [] }

create_or_update-get_example :
    (r : Device) × ((Devices.create_or_update (env_at 1) old_client (world watched [])).0
      ≡ returned (ok r))
    × ((Devices.get_by_apns_token
          (env_at 1)
          (lit "token")
          (Devices.create_or_update (env_at 1) old_client (world watched [])).1).0
        ≡ returned (ok r))
    × (record r { id = 0 } ≡ record phone { id = 0 })
    × ((old : Device)
        → (Devices.get_by_apns_token (env_at 1) (lit "token") (world watched [])).0
          ≡ returned (ok old)
        → r.id ≡ old.id)
unfolding Devices.normalize_transport
create_or_update-get_example =
    create_or_update-get (env_at 1) old_client (world watched []) (λ i. refl)
