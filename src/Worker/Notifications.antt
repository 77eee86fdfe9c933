-- ===== src/Worker/Notifications.antt =====
-- notificationsConsumer.Consume and deleteAccount of internal/worker/notifications.go, cut at its
-- early returns. Metrics, traces and logs are left out.
pub mod Delivery
pub mod FirstCheck
pub mod Newest
pub mod Release
use apollo_backend.Prelude.{
  ℕ, ◌+◌, ◌*◌, Bool, true, false, not, Option, none, some, List, [], ◌∷◌, ◌++◌, reverse, ltb, ◌==◌,
  if◌then◌else◌,
}
use apollo_backend.Str.{Str, lit, is_empty}
use apollo_backend.Errors.{Error, Result, ok, err, is_oauth_revoked}
use apollo_backend.Domain.{Account, Device}
use apollo_backend.Domain.Durations.{Time, minute}
use apollo_backend.Exec.{Exec, Env, pure, external, ◌>>=◌, ◌>>◌, deferring}
use apollo_backend.Repository.Accounts
use apollo_backend.Repository.Devices
use apollo_backend.Push.Delivery.{Codec, Sender, Sent, send}
use apollo_backend.Reddit.Types.{
  Parser, Thing, ListingResponse, RefreshTokenResponse, full_name, is_deleted,
}
use apollo_backend.Reddit.Request.{RequestOption, with_query}
use apollo_backend.Reddit.Client.{
  Transport, AuthCredentials, AuthenticatedClient, new_authenticated_client, refresh_tokens,
  message_inbox,
}
use apollo_backend.Scheduler.Locks.{lock_key}
use apollo_backend.Worker.Locks.{pttl, del, ack, is_zero}
use apollo_backend.Worker.Messages.{payload_from_message}

unfoldable pub credentials : Account → AuthCredentials
credentials account = record {
  reddit_id = account.account_id;
  refresh_token = account.refresh_token;
  access_token = account.access_token;
  client_id = account.reddit_client_id;
  client_secret = account.reddit_client_secret;
  user_agent = account.reddit_user_agent;
}

unfoldable pub renewed : Time → RefreshTokenResponse → Account → Account
renewed now tokens account = record account {
  access_token = tokens.access_token;
  refresh_token = tokens.refresh_token;
  token_expires_at = now + tokens.expiry;
}

unfoldable pub inbox_options : Account → List RequestOption
unfolding is_empty
inbox_options account =
    with_query (lit "limit") (lit "10")
    ∷ (if is_empty account.last_message_id
        then []
        else with_query (lit "before") account.last_message_id ∷ [])

-- The newest message that is not deleted.
unfoldable pub newest : List Thing → Option Thing
unfolding is_deleted
newest [] = none
newest (msg ∷ msgs) = let rest = newest msgs in if is_deleted msg then rest else some msg

module _ (env : Env) where
  unfoldable pub disassociate_all : Account → List Device → Exec (Result (Unit {0}))
  disassociate_all account [] = pure (ok tt)
  disassociate_all account (dev ∷ devs) = do
    r ← Accounts.disassociate env account dev
    elim r [ err e ↦ pure (err e) | ok u ↦ disassociate_all account devs ]

  unfoldable pub delete_account : Account → Exec (Result (Unit {0}))
  unfolding disassociate_all
  delete_account account = do
    devs ← Devices.get_by_account_id env account.id
    elim devs [
      | err e ↦ pure (err e)
      | ok ds ↦ do
        r ← disassociate_all account ds
        elim r [ err e ↦ pure (err e) | ok u ↦ Accounts.delete env account.id ]
    ]

  -- After an error of Reddit: a revoked account is deleted, anything else is only logged.
  unfoldable pub after_error : Account → Error → Exec (Unit {0})
  unfolding delete_account is_oauth_revoked
  after_error account e = if is_oauth_revoked e then delete_account account >> pure tt else pure tt

  -- The loop that stores the newest message's name.
  unfoldable pub remember : Account → Option Thing → Exec Account
  remember account none = pure account
  remember account (some msg) =
      let account' = record account { last_message_id = full_name msg } in
      Accounts.update env account' >> pure account'

  module _ (c : Codec) (s : Sender) where
    -- `if res.ShouldUnregister`
    unfoldable pub clean_up : Device → Sent → Exec (Unit {0})
    clean_up device r =
        if r.0.should_unregister then Devices.delete env device.apns_token >> pure tt else pure tt

    unfoldable pub notify_devices : Account → Thing → ℕ → List Device → Exec (Unit {0})
    unfolding clean_up
    notify_devices account msg count [] = pure tt
    notify_devices account msg count (device ∷ devices) = do
      r ← send env c s device (payload_from_message account msg count)
      clean_up device r
      notify_devices account msg count devices

    -- The loop over the messages, the oldest first.
    unfoldable pub notify_messages : Account → ℕ → List Device → List Thing → Exec (Unit {0})
    unfolding notify_devices is_deleted
    notify_messages account count devices [] = pure tt
    notify_messages account count devices (msg ∷ msgs) = do
      if is_deleted msg then pure tt else notify_devices account msg count devices
      notify_messages account count devices msgs

    unfoldable pub notify : Account → ListingResponse → Result (List Device) → Exec (Unit {0})
    unfolding notify_messages
    notify account msgs (err e) = pure tt
    notify account msgs (ok []) = pure tt
    notify account msgs (ok (d ∷ ds)) =
        notify_messages account msgs.count (d ∷ ds) (reverse msgs.children)

    -- What is done with a listing that has messages.
    unfoldable pub received : Account → ListingResponse → Exec (Unit {0})
    unfolding remember newest notify
    received account msgs = do
      current ← remember account (newest msgs.children)
      if current.check_count == 0
          then Accounts.update env (record current { check_count = 1 }) >> pure tt
          else Devices.get_inbox_notifiable_by_account_id env current.id >>= notify current msgs

    unfoldable pub answered : Account → Result ListingResponse → Exec (Unit {0})
    unfolding received after_error
    answered account (err e) = after_error account e
    answered account (ok msgs) = if msgs.count == 0 then pure tt else received account msgs

    module _ (t : Transport) (p : Parser) where
      unfoldable pub check_inbox : Account → AuthenticatedClient → Exec (Unit {0})
      unfolding answered inbox_options
      check_inbox account rac = do
        msgs ← message_inbox env t p rac (inbox_options account)
        answered account msgs

      unfoldable pub refreshed : Time → Account → Result RefreshTokenResponse → Exec (Unit {0})
      unfolding check_inbox renewed credentials after_error
      refreshed now account (err e) = after_error account e
      refreshed now account (ok tokens) = do
        Accounts.update env (renewed now tokens account)
        rac ← new_authenticated_client (credentials (renewed now tokens account))
        check_inbox (renewed now tokens account) rac

      unfoldable pub check_account : Time → Result Account → Exec (Unit {0})
      unfolding refreshed check_inbox credentials
      check_account now (err e) = pure tt
      check_account now (ok account) = do
        rac ← new_authenticated_client (credentials account)
        if ltb account.token_expires_at (now + 5 * minute)
            then refresh_tokens env t p rac >>= refreshed now account
            else check_inbox account rac

      unfoldable pub process : Time → Str → Exec (Unit {0})
      unfolding check_account
      process now id = do account ← Accounts.get_by_reddit_id env id; check_account now account

      -- The delivery's payload is the account's id at Reddit.
      unfoldable pub consume : Str → Exec (Unit {0})
      unfolding process
      consume id = do
        now ← external env.now
        deferring (ack env) (do
          ttl ← pttl env (lock_key (lit "locks:accounts") id)
          if is_zero ttl
              then pure tt
              else deferring (del env (lock_key (lit "locks:accounts") id)) (process now id))
