-- ===== src/Worker/StuckNotifications/Messages.antt =====
-- What the consumer does to an account whose last message is a private message.
use apollo_backend.Prelude.{
  ◌≡◌, refl, Bool, true, not, none, some, List, [], ◌∷◌, if◌then◌else◌, Bool-cases, Option-cases,
  inl, inr,
}
use apollo_backend.Prelude.Table.{select_where, first}
use apollo_backend.Errors.{ok}
use apollo_backend.Domain.{Account}
use apollo_backend.Exec.{Env, World, returned, ◌>>=◌}
use apollo_backend.Exec.Keeps.{statement-returns}
use apollo_backend.Repository.Accounts
use apollo_backend.Reddit.Types.{Parser, Thing, ListingResponse, is_deleted, full_name}
use apollo_backend.Reddit.Client.{Transport, AuthenticatedClient}
use apollo_backend.Worker.Notifications.Newest.{stands, name_of_standing, newest-stands}
use apollo_backend.Worker.StuckNotifications.{
  is_last, is_message, is_gone, restarted, restart, reset, examined,
}

-- The first thing with the last message's name is missing or deleted.
unfoldable pub is_missing : Account → List Thing → Bool
unfolding select_where first
is_missing account things = elim (first (select_where (is_last account) things)) [
  | none ↦ true
  | some thing ↦ not (stands thing)
]

restarted_lem :
    (account : Account) (things : ListingResponse)
    → restarted account things
      ≡ record account { last_message_id = name_of_standing [] things.children }
unfolding restarted name_of_standing full_name
restarted_lem account things = elim (Option-cases (first (select_where stands things.children))) [
  | inl e ↦ rw (newest-stands things.children, e, name_of_standing) refl
  | inr (t, e) ↦ rw (newest-stands things.children, e, name_of_standing) refl
]

module _ (env : Env) (t : Transport) (p : Parser) (account : Account) (rac : AuthenticatedClient)
    (private : is_message account ≡ true) where
  is_gone-returns :
      (things : List Thing) (w : World)
      → is_gone env t p account rac things w ≡ (returned (is_missing account things), w)
  unfolding is_gone is_missing select_where first ◌>>=◌
  is_gone-returns [] w = refl
  is_gone-returns (thing ∷ things) w = elim (Bool-cases (is_last account thing)) [
    | inr e ↦ rw (e, is_missing) (is_gone-returns things w)
    | inl e ↦ elim (Bool-cases (is_deleted thing)) [
      | inl d ↦ rw (e, is_missing, d) refl
      | inr d ↦ rw (e, is_missing, d, private) refl
    ]
  ]

  -- Where the last message is a private one, an inbox in which it is missing or deleted restarts
  -- the account at the newest message that is not deleted, and at none if there is none; with any
  -- other inbox the account is left alone. Nothing is pushed or asked of Reddit.
  pub examined-private :
      (things : ListingResponse) (w : World)
      → ((examined env t p account rac (ok things) w).0 ≡ returned tt)
        × ((examined env t p account rac (ok things) w).1.trace ≡ w.trace)
        × ((examined env t p account rac (ok things) w).1.db ≡ (
            if is_missing account things.children
            then (Accounts.update env
                (record account { last_message_id = name_of_standing [] things.children })
                w).1.db
            else w.db))
  unfolding examined reset restart Accounts.update ◌>>=◌
  examined-private things w = elim (Bool-cases (is_missing account things.children)) [
    | inl e ↦
        let to : Account = record account {
          last_message_id = name_of_standing [] things.children;
        } in
        let ((x, o), v, l) = statement-returns env (Accounts.update_sql to) w in
        rw (is_gone-returns things.children w, e, private, restarted_lem account things, o)
          (refl, v, refl)
    | inr e ↦ rw (is_gone-returns things.children w, e) (refl, refl, refl)
  ]
