-- ===== src/Api/Accounts/Registered.antt =====
-- What a successful registration of an account leaves.
use apollo_backend.Prelude.{
  ℕ, ◌≡◌, refl, sym, ◌∙◌, Bool, true, false, not, ◌&&◌, List, [], ◌∷◌, ◌==◌, any, arith, Bool-cases,
  inl, inr,
}
use apollo_backend.Prelude.Keys.{any-append}
use apollo_backend.Str.{Str, str_eq, to_lower}
use apollo_backend.Errors.{Result, ok, err}
use apollo_backend.Domain.{Account, Device, normalized_username}
use apollo_backend.Domain.Durations.{Time}
use apollo_backend.Schema.{Db}
use apollo_backend.Exec.{Env, World, pure, panic, returned, ◌>>=◌}
use apollo_backend.Exec.Ensures.{
  Ensures, Ensures-pure, Ensures-panic, Ensures-if, Ensures-bind, Ensures-bind_from,
  Ensures-statement,
}
use apollo_backend.Repository.Accounts
use apollo_backend.Repository.Accounts.{links, has_id, fresh_link}
use apollo_backend.Reddit.Types.{Parser, Thing, ListingResponse, MeResponse, full_name}
use apollo_backend.Reddit.Client.{Transport, AuthenticatedClient}
use apollo_backend.Api.Responses.{Response, success, failure, or_fail}
use apollo_backend.Api.Registration.{RegistrationRequest, filled, lacks_credentials, to_account}
use apollo_backend.Api.Accounts.{
  wrong_user, missing_credentials, store, with_inbox, identified, with_tokens, identify,
  register_account, register_filled,
}

-- Whether the account of a success and the device are linked.
abbrev is_linked : Device → Account → Db → Bool
is_linked dev a db = any (links a.id dev.id) db.devices_accounts

Linked : Device → Response Account → World → Type 0
Linked dev (success a) w = is_linked dev a w.db ≡ true
Linked dev (failure status e) w = Unit

-- What `Associate` leaves.
abbrev LinkedBy : Device → Account → Result (Unit {0}) → Db → Type 0
LinkedBy dev a (ok u) db = is_linked dev a db ≡ true
LinkedBy dev a (err e) db = Unit

fresh_linked : (a d : ℕ) → links a d (fresh_link a d) ≡ true
fresh_linked a d = ground arith

associate_sql-LinkedBy :
    (dev : Device) (a : Account) (now : Time) (db : Db)
    → LinkedBy dev a (Accounts.associate_sql a dev now db).0 (Accounts.associate_sql a dev now db).1
unfolding Accounts.associate_sql
associate_sql-LinkedBy dev a now db = elim (Bool-cases (is_linked dev a db)) [
  | inl there ↦ rw there there
  | inr free ↦
      elim (Bool-cases (any (has_id a.id) db.accounts && any (λ d. d.id == dev.id) db.devices)) [
        | inl known ↦
            rw
              (
                free,
                known,
                any-append (links a.id dev.id) db.devices_accounts _,
                fresh_linked a.id dev.id,
                free,
              )
              refl
        | inr unknown ↦ rw (free, unknown) tt
      ]
]

or_fail-Linked :
    {A : Type 0} (dev : Device) (status : ℕ) (r : Result A)
    (next : A → apollo_backend.Exec.Exec (Response Account))
    → ((a : A) → Ensures (Linked dev) (next a))
    → Ensures (Linked dev) (or_fail status r next)
unfolding or_fail Linked
or_fail-Linked dev status (ok a) next k = k a
or_fail-Linked dev status (err e) next k = Ensures-pure (failure status e) (λ w. tt)

returned-Linked :
    (dev : Device) (w : World) (x y : Response Account)
    → Linked dev x w
    → returned x ≡ returned y
    → Linked dev y w
returned-Linked dev w x y h e = ground (arith, h)

module _ (env : Env) where
  stored-Linked :
      (dev : Device) (a : Account) (r : Result (Unit {0})) (w : World)
      → LinkedBy dev a r w.db
      → (x : Response Account) → (or_fail 422 r (λ u. pure (success a)) w).0 ≡ returned x
      → Linked dev x (or_fail 422 r (λ u. pure (success a)) w).1
  unfolding or_fail ◌>>=◌ Linked
  stored-Linked dev a (ok u) w h x e = returned-Linked dev w (success a) x h e
  stored-Linked dev a (err f) w h x e = returned-Linked dev w (failure 422 f) x tt e

  store-Linked : (dev : Device) (acct : Account) → Ensures (Linked dev) (store env dev acct)
  unfolding store Accounts.associate
  store-Linked dev acct = Ensures-bind _ _ (λ stored. or_fail-Linked dev 422 stored _ (λ a.
      Ensures-bind_from (λ r w. LinkedBy dev a r w.db) (Linked dev) _ _
        (Ensures-statement (LinkedBy dev a) env (Accounts.associate_sql a dev)
          (associate_sql-LinkedBy dev a) (λ e db. tt))
        (λ r w h x e. stored-Linked dev a r w h x e)))

  with_inbox-Linked :
      (dev : Device) (acct : Account) (mi : ListingResponse)
      → Ensures (Linked dev) (with_inbox env dev acct mi)
  unfolding with_inbox
  with_inbox-Linked dev acct mi =
      Ensures-if (mi.count == 0) (store-Linked dev acct) (newest_stored mi.children)
    where
      newest_stored :
          (msgs : List Thing)
          → Ensures (Linked dev) (elim msgs [
            | [] ↦ panic
            | msg ∷ rest ↦
                store env dev (record acct { last_message_id = full_name msg; check_count = 1 })
          ])
      newest_stored [] = Ensures-panic
      newest_stored (msg ∷ rest) = store-Linked dev _

  module _ (t : Transport) (p : Parser) where
    identified-Linked :
        (dev : Device) (acct : Account) (rac : AuthenticatedClient) (who : MeResponse)
        → Ensures (Linked dev) (identified env t p dev acct rac who)
    unfolding identified Linked
    identified-Linked dev acct rac who =
        Ensures-if (not (str_eq (to_lower who.name) (normalized_username acct)))
          (Ensures-pure (failure 401 wrong_user) (λ w. tt))
          (Ensures-bind _ _ (λ mi. or_fail-Linked dev 500 mi _ (with_inbox-Linked dev _)))

    identify-Linked :
        (dev : Device) (acct : Account) → Ensures (Linked dev) (identify env t p dev acct)
    unfolding identify
    identify-Linked dev acct = Ensures-bind _ _ (λ rac.
        Ensures-bind _ _ (λ who. or_fail-Linked dev 500 who _ (identified-Linked dev acct rac)))

    register-Linked :
        (req : RegistrationRequest) (dev : Device)
        → Ensures (Linked dev) (register_account env t p req dev)
    unfolding register_account
    register-Linked req dev = Ensures-bind _ _ (λ rac. Ensures-bind _ _ (λ tokens.
        or_fail-Linked dev 422 tokens _ (λ tk.
          Ensures-bind _ _
            (λ now. identify-Linked dev (with_tokens env t p now tk (to_account req))))))

    filled-Linked :
        (header getenv : Str → Str) (req : RegistrationRequest) (dev : Device)
        → Ensures (Linked dev) (register_filled env t p header getenv req dev)
    unfolding register_filled Linked
    filled-Linked header getenv req dev =
        Ensures-if (lacks_credentials (filled header getenv req))
          (Ensures-pure (failure 422 missing_credentials) (λ w. tt))
          (register-Linked (filled header getenv req) dev)

    refused :
        (header getenv : Str → Str) (req : RegistrationRequest) (dev : Device) (w : World)
        → lacks_credentials (filled header getenv req) ≡ true
        → (register_filled env t p header getenv req dev w).0
          ≡ returned (failure 422 missing_credentials)
    unfolding register_filled ◌>>=◌
    refused header getenv req dev w e = rw e refl

    -- Whatever Reddit and the database answer, where a registration succeeds, the account that it
    -- returns and the device are linked, and the request had the credentials that the guard asks for,
    -- once the headers and the environment had filled it.
    pub register_filled-linked :
        (header getenv : Str → Str) (req : RegistrationRequest) (dev : Device) (w : World)
        (acct : Account)
        → (register_filled env t p header getenv req dev w).0 ≡ returned (success acct)
        → (any
              (links acct.id dev.id)
              (register_filled env t p header getenv req dev w).1.db.devices_accounts
            ≡ true)
          × (lacks_credentials (filled header getenv req) ≡ false)
    unfolding Linked
    register_filled-linked header getenv req dev w acct e = (
      (filled-Linked header getenv req dev).at w (success acct) e,
      elim (Bool-cases (lacks_credentials (filled header getenv req))) [
        | inl lacks ↦
            let no : returned (failure 422 missing_credentials) ≡ returned (success acct) =
              sym (refused header getenv req dev w lacks) ∙ e in
            ground arith
        | inr has ↦ has
      ],
    )
