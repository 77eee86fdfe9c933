-- ===== src/Api/Watchers/UserWatchers.antt =====
-- Requests for a watcher of a user, where pgx refuses a statement with too many arguments.
use apollo_backend.Prelude.{
  ℕ, ◌≡◌, refl, Bool, true, false, not, Option, none, some, List, [], ◌∷◌, arith,
}
use apollo_backend.Str.{Str, lit, str_eq, str_eq_iff}
use apollo_backend.Errors.{Error, invalid, Result, ok, err}
use apollo_backend.Domain.{Account, Device, User, Watcher}
use apollo_backend.Domain.Validation.{Rules, validate_user}
use apollo_backend.Schema.{Db}
use apollo_backend.Exec.{Exec, Env, World, pure, returned, ◌>>=◌}
use apollo_backend.Exec.Ensures.{
  Ensures, Ensures-pure, Ensures-if, Ensures-bind, Ensures-bind_from, Ensures-statement,
}
use apollo_backend.Repository.Users
use apollo_backend.Reddit.Types.{Parser, UserResponse}
use apollo_backend.Reddit.Client.{Transport}
use apollo_backend.Api.Responses.{Response, success, failure, or_fail}
use apollo_backend.Api.Watchers.Requests.{
  CreateWatcherRequest, is_type, validate_request, no_account, not_associated, followers_disabled,
  requested_watcher, last_account,
}
use apollo_backend.Api.Watchers.{
  with_account, watch_user, create_user_watcher, create_of_type, create_watcher_handler,
}

abbrev pub is_success : {A : Type 0} → Response A → Bool
is_success (success a) = true
is_success (failure status e) = false

Fails : {A : Type 0} → Response A → World → Type 0
Fails r w = is_success r ≡ false

or_fail-Fails :
    {A B : Type 0} (status : ℕ) (r : Result A) (next : A → Exec (Response B))
    → ((a : A) → Ensures Fails (next a))
    → Ensures Fails (or_fail status r next)
unfolding or_fail Fails
or_fail-Fails status (ok a) next k = k a
or_fail-Fails status (err e) next k = Ensures-pure (failure status e) (λ w. refl)

still_fails :
    {A : Type 0} (x y : Response A)
    → is_success x ≡ false
    → returned x ≡ returned y
    → is_success y ≡ false
still_fails x y h k = ground arith

-- A result that is none.
abbrev NoResult : {A : Type 0} → Result A → Db → Type 0
NoResult (ok a) db = true ≡ false
NoResult (err e) db = Unit

module _ (env : Env) (v : Rules) (accepts : (placeholders arguments : ℕ) → Option Error) (e : Error)
    (refuses : accepts 2 3 ≡ some e) where
  no_user : (u : User) → Ensures (λ r w. NoResult r w.db) (Users.create_or_update env accepts v u)
  unfolding Users.create_or_update
  no_user u = rw refuses (
      Ensures-if (not (validate_user v u)) (Ensures-pure (err invalid) (λ w. tt))
        (Ensures-statement NoResult env (λ now db. (err e, db)) (λ now db. tt) (λ x db. tt)))

  or_fail-none :
      {A B : Type 0} (status : ℕ) (r : Result A) (next : A → Exec (Response B)) (w : World)
      → NoResult r w.db
      → (x : Response B) → (or_fail status r next w).0 ≡ returned x
      → Fails x (or_fail status r next w).1
  unfolding or_fail ◌>>=◌ Fails
  or_fail-none status (ok a) next w h x k = ground arith
  or_fail-none status (err f) next w h x k = still_fails (failure status f) x refl k

  module _ (t : Transport) (p : Parser) where
    watch_user-Fails :
        (w : Watcher) (urr : UserResponse) → Ensures Fails (watch_user env v t p accepts w urr)
    unfolding watch_user Fails
    watch_user-Fails w urr =
        Ensures-if (not urr.accept_followers)
          (Ensures-pure (failure 403 followers_disabled) (λ u. refl))
          (Ensures-bind_from (λ r u. NoResult r u.db) Fails _ _ (no_user _)
            (λ r u h x k. or_fail-none 500 r _ u h x k))

    create_user-Fails :
        (cwr : CreateWatcherRequest) (w : Watcher) (account : Account)
        → Ensures Fails (create_user_watcher env v t p accepts cwr w account)
    unfolding create_user_watcher
    create_user-Fails cwr w account =
        Ensures-bind _ _
          (λ ac. Ensures-bind _ _ (λ urr. or_fail-Fails 500 urr _ (watch_user-Fails w)))

    create_of_type-Fails :
        (cwr : CreateWatcherRequest) (dev : Device) (account : Account)
        → is_type (lit "user") cwr ≡ true
        → Ensures Fails (create_of_type env v t p accepts cwr dev account)
    unfolding create_of_type str_eq
    create_of_type-Fails cwr dev account user =
        let typ : cwr.type ≡ lit "user" = (str_eq_iff cwr.type (lit "user")).0 user in
        rw typ (create_user-Fails cwr (requested_watcher cwr dev account) account)

    with_account-Fails :
        (apns rid : Str) (next : Account → Exec (Response ℕ))
        → ((a : Account) → Ensures Fails (next a))
        → Ensures Fails (with_account env apns rid next)
    unfolding with_account Fails
    with_account-Fails apns rid next k =
        Ensures-bind _ _ (λ found. or_fail-Fails 422 found _ (λ accs. picked accs))
      where
        account :
            (o : Option Account)
            → Ensures (Fails {A = ℕ}) (elim o as (λ x. Exec (Response ℕ)) [
              | none ↦ pure (failure 401 not_associated)
              | some a ↦ next a
            ])
        account none = Ensures-pure (failure 401 not_associated) (λ w. refl)
        account (some a) = k a

        picked :
            (accs : List Account)
            → Ensures (Fails {A = ℕ}) (elim accs as (λ x. Exec (Response ℕ)) [
              | [] ↦ pure (failure 422 no_account)
              | acc ∷ rest ↦ elim (last_account rid (acc ∷ rest)) as (λ x. Exec (Response ℕ)) [
                | none ↦ pure (failure 401 not_associated)
                | some a ↦ next a
              ]
            ])
        picked [] = Ensures-pure (failure 422 no_account) (λ w. refl)
        picked (acc ∷ rest) = account (last_account rid (acc ∷ rest))

    -- Where pgx refuses a statement whose arguments are more than its placeholders, no request for a
    -- watcher of a user is ever granted, whatever Reddit and the database answer.
    pub create_user_watcher-refused :
        (cwr : CreateWatcherRequest) (apns rid : Str) (w : World) (r : Response ℕ)
        → is_type (lit "user") cwr ≡ true
        → (create_watcher_handler env v t p accepts (ok cwr) apns rid w).0 ≡ returned r
        → is_success r ≡ false
    unfolding create_watcher_handler or_fail Fails
    create_user_watcher-refused cwr apns rid w r user k =
        (Ensures-if {Q = Fails} (not (validate_request v cwr))
            (Ensures-pure (failure 422 invalid) (λ u. refl))
            (Ensures-bind _ _ (λ dev. or_fail-Fails 422 dev _ (λ d.
              with_account-Fails apns rid (create_of_type env v t p accepts cwr d)
                (λ a. create_of_type-Fails cwr d a user))))).at
          w r k
