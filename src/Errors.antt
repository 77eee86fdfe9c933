-- ===== src/Errors.antt =====
-- internal/domain/errors.go and internal/reddit/errors.go: the errors that the program tells apart,
-- and results that may be one.
use apollo_backend.Prelude.{ℕ, ◌≡◌, refl, Bool, true, false, ◌⊎◌, inl, inr}
use apollo_backend.Str.{Str}

pub data Error : Type 0 where
  -- domain; `invalid` is the error of a Validate method
  not_found invalid : Error
  -- reddit
  oauth_revoked timeout rate_limited subreddit_is_private subreddit_is_quarantined : Error
  subreddit_not_found too_many_requests : Error
  server_error : (status : ℕ) (body : Str) → Error
  -- any other error, with its message
  other : (message : Str) → Error

pub data Result {ℓ} (A : Type ℓ) : Type ℓ where
  ok : A → Result A
  err : Error → Result A

pub Result-cases {ℓ} :
    {A : Type ℓ} (r : Result A) → ((a : A) × (r ≡ ok a)) ⊎ ((e : Error) × (r ≡ err e))
Result-cases (ok a) = inl (a, refl)
Result-cases (err e) = inr (e, refl)

-- `err == reddit.ErrOauthRevoked`
unfoldable pub is_oauth_revoked : Error → Bool
is_oauth_revoked oauth_revoked = true
is_oauth_revoked _ = false

unfoldable pub is_rate_limited : Error → Bool
is_rate_limited rate_limited = true
is_rate_limited _ = false

unfoldable pub is_subreddit_not_found : Error → Bool
is_subreddit_not_found subreddit_not_found = true
is_subreddit_not_found _ = false
