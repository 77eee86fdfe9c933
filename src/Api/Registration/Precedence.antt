-- ===== src/Api/Registration/Precedence.antt =====
-- Where the credentials of a registration come from.
use apollo_backend.Prelude.{◌≡◌, refl, List, [], ◌∷◌, if◌then◌else◌}
use apollo_backend.Str.{Str, lit, is_empty}
use apollo_backend.Api.Registration.{
  RegistrationRequest, backfilled, fill_reddit_creds_from_header, fill_reddit_creds_from_env,
  filled,
}

-- The first text that is not empty.
unfoldable pub first_set : List Str → Str
first_set [] = []
first_set (s ∷ ss) = let rest = first_set ss in if is_empty s then rest else s

-- The text of the body, of a header and of a variable of the environment, in this order.
abbrev pub sources : (body header variable : Str) → List Str
sources body header variable = body ∷ header ∷ variable ∷ []

backfilled_twice : (a b c : Str) → backfilled (backfilled a b) c ≡ first_set (a ∷ b ∷ c ∷ [])
unfolding backfilled first_set is_empty
backfilled_twice [] [] [] = refl
backfilled_twice [] [] (c ∷ cs) = refl
backfilled_twice [] (b ∷ bs) c = refl
backfilled_twice (a ∷ as') b c = refl

-- Each of the four credentials of the app is the one of the body if there is one, else that of the
-- X-Apollo-Reddit header, else that of the environment; nothing else of the request changes.
pub filled-precedence :
    (header getenv : Str → Str) (r : RegistrationRequest)
    → filled header getenv r ≡ record r {
      client_id = first_set (
          sources r.client_id
            (header (lit "X-Apollo-Reddit-Client-Id"))
            (getenv (lit "REDDIT_CLIENT_ID")));
      client_secret = first_set (
          sources r.client_secret
            (header (lit "X-Apollo-Reddit-Client-Secret"))
            (getenv (lit "REDDIT_CLIENT_SECRET")));
      redirect_uri = first_set (
          sources r.redirect_uri
            (header (lit "X-Apollo-Reddit-Redirect-Uri"))
            (getenv (lit "REDDIT_REDIRECT_URI")));
      user_agent = first_set (
          sources r.user_agent
            (header (lit "X-Apollo-Reddit-User-Agent"))
            (getenv (lit "REDDIT_USER_AGENT")));
    }
unfolding filled fill_reddit_creds_from_header fill_reddit_creds_from_env
filled-precedence header getenv r =
    rw
      (
        backfilled_twice r.client_id _ _,
        backfilled_twice r.client_secret _ _,
        backfilled_twice r.redirect_uri _ _,
        backfilled_twice r.user_agent _ _,
      )
      refl
