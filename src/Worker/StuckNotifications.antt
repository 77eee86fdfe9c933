-- ===== src/Worker/StuckNotifications.antt =====
-- stuckNotificationsConsumer.Consume of internal/worker/stuck_notifications.go, cut at its early
-- returns: whether the last message of an account is still there, and the reset when it is not.
pub mod Messages
pub mod Moves
use apollo_backend.Prelude.{
  Bool, true, false, not, Option, none, some, List, [], ◌∷◌, ltb, if◌then◌else◌, any, take, length,
}
use apollo_backend.Prelude.Int.{ℤ, pos, negsuc}
use apollo_backend.Str.{Str, lit, str_eq, is_empty}
use apollo_backend.Errors.{not_found, Result, ok, err}
use apollo_backend.Domain.{Account}
use apollo_backend.Exec.{
  Exec, Env, pure, panic, external, emit, rejected, ◌>>=◌, ◌>>◌, deferring, statement,
}
use apollo_backend.Repository.Accounts
use apollo_backend.Reddit.Types.{Parser, Thing, ListingResponse, full_name, is_deleted}
use apollo_backend.Reddit.Client.{
  Transport, AuthenticatedClient, new_authenticated_client, message_inbox, about_info,
}
use apollo_backend.Worker.Locks.{ack}
use apollo_backend.Worker.ParseInt.{parse_int}
use apollo_backend.Worker.Notifications.{credentials, newest}

abbrev pub is_last : Account → Thing → Bool
is_last account thing = str_eq (full_name thing) account.last_message_id

abbrev pub name_of : Option Thing → Str
name_of none = []
name_of (some thing) = full_name thing

unfoldable pub restarted : Account → ListingResponse → Account
unfolding newest
restarted account things = record account { last_message_id = name_of (newest things.children) }

-- The kind is the first two bytes of the name.
abbrev pub is_message : Account → Bool
is_message account = str_eq (take 2 account.last_message_id) (lit "t4")

-- Whether a thing that exists has left the inbox; after an error the run ends.
unfoldable pub has_left : Account → Result ListingResponse → Bool
has_left account (err e) = false
has_left account (ok things) = not (any (is_last account) things.children)

module _ (env : Env) (t : Transport) (p : Parser) where
  -- The loop over the things: whether the run goes on to the reset.
  unfoldable pub is_gone : Account → AuthenticatedClient → List Thing → Exec Bool
  unfolding has_left is_deleted str_eq
  is_gone account rac [] = pure true
  is_gone account rac (thing ∷ things) =
      if not (is_last account thing)
      then is_gone account rac things
      else if is_deleted thing
      then pure true
      else if is_message account
      then pure false
      else message_inbox env t p rac [] >>= (λ r. pure (has_left account r))

  unfoldable pub restart : Account → Result ListingResponse → Exec (Unit {0})
  unfolding restarted
  restart account (err e) = pure tt
  restart account (ok things) = Accounts.update env (restarted account things) >> pure tt

  unfoldable pub reset : Account → AuthenticatedClient → ListingResponse → Exec (Unit {0})
  unfolding restart str_eq
  reset account rac things =
      if is_message account
      then restart account (ok things)
      else message_inbox env t p rac [] >>= restart account

  unfoldable pub examined : Account → AuthenticatedClient → Result ListingResponse → Exec (Unit {0})
  unfolding is_gone reset
  examined account rac (err e) = pure tt
  examined account rac (ok things) = do
    gone ← is_gone account rac things.children
    if gone then reset account rac things else pure tt

  -- LastMessageID[:2] panics on a shorter name.
  unfoldable pub examine : Account → AuthenticatedClient → Exec (Unit {0})
  unfolding examined str_eq
  examine account rac =
      if ltb (length account.last_message_id) 2
      then panic
      else if is_message account
      then message_inbox env t p rac [] >>= examined account rac
      else about_info env t p rac account.last_message_id >>= examined account rac

  unfoldable pub check_last : Result Account → Exec (Unit {0})
  unfolding examine is_empty
  check_last (err e) = pure tt
  check_last (ok account) =
      if is_empty account.last_message_id
      then pure tt
      else new_authenticated_client (credentials account) >>= examine account

  -- No row has a negative number.
  unfoldable pub account_of : ℤ → Exec (Result Account)
  account_of (pos id) = Accounts.get_by_id env id
  account_of (negsuc n) = statement env (λ now db. (err not_found, db))

  unfoldable pub reject : Exec (Unit {0})
  reject = do e ← external env.queue_error; elim e [ some x ↦ pure tt | none ↦ emit rejected ]

  unfoldable pub run_check : Option ℤ → Exec (Unit {0})
  unfolding check_last account_of reject
  run_check none = reject
  run_check (some id) = deferring (ack env) (account_of id >>= check_last)

  unfoldable pub consume_stuck : Str → Exec (Unit {0})
  unfolding run_check parse_int
  consume_stuck payload = run_check (parse_int payload)
