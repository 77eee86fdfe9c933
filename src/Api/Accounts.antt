-- ===== src/Api/Accounts.antt =====
-- internal/api/accounts.go: the handlers. `ranged` is the order in which `range` goes through a map.
pub mod Registered
pub mod Notifications
use apollo_backend.Prelude.{◌+◌, Bool, not, List, [], ◌∷◌, ◌==◌, if◌then◌else◌}
use apollo_backend.Prelude.Table.{delete_where}
use apollo_backend.Str.{Str, lit, str_eq, to_lower}
use apollo_backend.Errors.{Error, other, Result}
use apollo_backend.Domain.{Account, Device, normalized_username}
use apollo_backend.Exec.{Exec, Env, pure, panic, external, ◌>>=◌, ◌>>◌}
use apollo_backend.Repository.Accounts
use apollo_backend.Repository.Devices
use apollo_backend.Domain.Durations.{Time}
use apollo_backend.Reddit.Types.{
  Parser, ListingResponse, MeResponse, RefreshTokenResponse, full_name,
}
use apollo_backend.Reddit.Request.{with_query}
use apollo_backend.Reddit.Client.{
  Transport, AuthCredentials, AuthenticatedClient, new_authenticated_client, refresh_tokens,
  message_inbox,
}
use apollo_backend.Reddit.Calls.{me}
use apollo_backend.Api.Responses.{Response, success, failure, or_fail, done}
use apollo_backend.Api.Registration.{
  RegistrationRequest, RegistrationJson, unmarshal_registration, filled, lacks_credentials,
  to_account,
}

pub record AccountNotificationsRequest : Type 0 where
  pub inbox_notifications : Bool
  pub watcher_notifications : Bool
  pub global_mute : Bool

abbrev pub wrong_user : Error
wrong_user = other (lit "wrong user")

abbrev pub missing_credentials : Error
missing_credentials = other (lit "missing required credentials in request body")

-- reddit.SkipRateLimiting
abbrev pub skip_rate_limiting : Str
skip_rate_limiting = lit "<SKIP_RATE_LIMITING>"

unfoldable pub registration_credentials : Account → AuthCredentials
registration_credentials acct = record {
  reddit_id = skip_rate_limiting;
  refresh_token = acct.refresh_token;
  access_token = acct.access_token;
  client_id = acct.reddit_client_id;
  client_secret = acct.reddit_client_secret;
  user_agent = acct.reddit_user_agent;
}

-- accsMap[acc.NormalizedUsername()] = acc
unfoldable pub put_account : Account → List Account → List Account
unfolding normalized_username str_eq
put_account acc [] = acc ∷ []
put_account acc (a ∷ as') =
    let later = a ∷ put_account acc as' in
    if str_eq (normalized_username a) (normalized_username acc) then acc ∷ as' else later

unfoldable pub accounts_map : List Account → List Account → List Account
unfolding put_account
accounts_map [] m = m
accounts_map (acc ∷ accs) m = accounts_map accs (put_account acc m)

-- delete(accsMap, strings.ToLower(req.Username))
unfoldable pub drop_account : Str → List Account → List Account
unfolding delete_where normalized_username str_eq to_lower
drop_account username m = delete_where (λ a. str_eq (normalized_username a) (to_lower username)) m

module _ (env : Env) where
  -- The device and the account that a path names.
  unfoldable pub with_device_and_account :
      {A : Type 0} → (apns rid : Str) → (Device → Account → Exec (Response A)) → Exec (Response A)
  unfolding or_fail
  with_device_and_account apns rid next = Devices.get_by_apns_token env apns >>= λ dev.
      or_fail 500 dev
        (λ d. Accounts.get_by_reddit_id env rid >>= λ acct. or_fail 500 acct (λ a. next d a))

  unfoldable pub notifications_account :
      Result AccountNotificationsRequest → (apns rid : Str) → Exec (Response (Unit {0}))
  unfolding or_fail done with_device_and_account
  notifications_account body apns rid = or_fail 500 body (λ anr.
      with_device_and_account apns rid (λ d a.
        Devices.set_notifiable env d a anr.inbox_notifications anr.watcher_notifications
          anr.global_mute
        >>= λ set. or_fail 500 set done))

  unfoldable pub notifications_of : Bool × Bool × Bool → AccountNotificationsRequest
  notifications_of (inbox, watchers, global) = record {
    inbox_notifications = inbox;
    watcher_notifications = watchers;
    global_mute = global;
  }

  unfoldable pub get_notifications_account :
      (apns rid : Str) → Exec (Response AccountNotificationsRequest)
  unfolding or_fail with_device_and_account notifications_of
  get_notifications_account apns rid = with_device_and_account apns rid (λ d a.
      Devices.get_notifiable env d a >>= λ flags.
      or_fail 500 flags (λ f. pure (success (notifications_of f))))

  unfoldable pub disassociate_account : (apns rid : Str) → Exec (Response (Unit {0}))
  unfolding or_fail done with_device_and_account
  disassociate_account apns rid =
      with_device_and_account apns rid
        (λ d a. Accounts.disassociate env a d >>= λ gone. or_fail 500 gone done)

  unfoldable pub store : Device → Account → Exec (Response Account)
  unfolding or_fail
  store dev acct = Accounts.create_or_update env acct >>= λ stored.
      or_fail 422 stored
        (λ a. Accounts.associate env a dev >>= λ linked. or_fail 422 linked (λ u. pure (success a)))

  -- The newest message becomes the last one; `mi.Children[0]` of none panics.
  unfoldable pub with_inbox : Device → Account → ListingResponse → Exec (Response Account)
  unfolding store full_name
  with_inbox dev acct mi = if mi.count == 0 then store dev acct else elim mi.children [
    | [] ↦ panic
    | msg ∷ msgs ↦ store dev (record acct { last_message_id = full_name msg; check_count = 1 })
  ]

  module _ (t : Transport) (p : Parser) where
    unfoldable pub identified :
        Device → Account → AuthenticatedClient → MeResponse → Exec (Response Account)
    unfolding or_fail with_inbox with_query to_lower str_eq normalized_username
    identified dev acct rac who =
        if not (str_eq (to_lower who.name) (normalized_username acct))
        then pure (failure 401 wrong_user)
        else message_inbox env t p rac (with_query (lit "limit") (lit "1") ∷ []) >>= λ mi.
            or_fail 500 mi (with_inbox dev (record acct { account_id = who.id }))

    unfoldable pub with_tokens : Time → RefreshTokenResponse → Account → Account
    with_tokens now tokens acct = record acct {
      token_expires_at = now + tokens.expiry;
      refresh_token = tokens.refresh_token;
      access_token = tokens.access_token;
    }

    unfoldable pub identify : Device → Account → Exec (Response Account)
    unfolding or_fail identified registration_credentials
    identify dev acct = do
      rac ← new_authenticated_client (registration_credentials acct)
      who ← me env t p rac
      or_fail 500 who (identified dev acct rac)

    unfoldable pub register_account : RegistrationRequest → Device → Exec (Response Account)
    unfolding or_fail identify with_tokens registration_credentials to_account
    register_account req dev = do
      rac ← new_authenticated_client (registration_credentials (to_account req))
      tokens ← refresh_tokens env t p rac
      or_fail 422 tokens
          (λ tk. do now ← external env.now; identify dev (with_tokens now tk (to_account req)))

    module _ (header getenv : Str → Str) where
      unfoldable pub register_filled : RegistrationRequest → Device → Exec (Response Account)
      unfolding register_account filled lacks_credentials
      register_filled req dev =
          if lacks_credentials (filled header getenv req)
          then pure (failure 422 missing_credentials)
          else register_account (filled header getenv req) dev

      unfoldable pub answer_registration : Response Account → Exec (Response (Unit {0}))
      answer_registration (success acct) = pure (success tt)
      answer_registration (failure status e) = pure (failure status e)

      unfoldable pub upsert_account :
          Result RegistrationJson → (apns : Str) → Exec (Response (Unit {0}))
      unfolding or_fail register_filled answer_registration unmarshal_registration
      upsert_account body apns = or_fail 422 body (λ req.
          Devices.get_by_apns_token env apns >>= λ dev.
          or_fail 500 dev
            (λ d. register_filled (unmarshal_registration req) d >>= answer_registration))

      unfoldable pub disassociate_each : Device → List Account → Exec (Response (Unit {0}))
      disassociate_each dev [] = pure (success tt)
      disassociate_each dev (acc ∷ accs) =
          Accounts.disassociate env acc dev >> disassociate_each dev accs

      module _ (ranged : List Account → List Account) where
        -- The loop over the requests, with the accounts that none of them named.
        unfoldable pub register_each :
            Device → List RegistrationJson → List Account → Exec (Response (Unit {0}))
        unfolding register_filled drop_account disassociate_each unmarshal_registration
        register_each dev [] others = disassociate_each dev (ranged others)
        register_each dev (req ∷ reqs) others = do
          r ← register_filled (unmarshal_registration req) dev
          elim r [
            | failure status e ↦ pure (failure status e)
            | success a ↦ register_each dev reqs (drop_account req.request.username others)
          ]

        unfoldable pub upsert_accounts :
            Result (List RegistrationJson) → (apns : Str) → Exec (Response (Unit {0}))
        unfolding or_fail register_each accounts_map
        upsert_accounts body apns = Devices.get_by_apns_token env apns >>= λ dev.
            or_fail 422 dev (λ d. Accounts.get_by_apns_token env apns >>= λ laccs.
            or_fail 422 laccs
              (λ accs. or_fail 422 body (λ reqs. register_each d reqs (accounts_map accs []))))
