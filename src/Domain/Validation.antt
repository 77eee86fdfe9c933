-- ===== src/Domain/Validation.antt =====
-- The Validate methods of internal/domain. The rules are those of the ozzo-validation package, which
-- is an interface here, as is net/url's Parse. A validation passes or fails; its message is left out.
use apollo_backend.Prelude.{
  ℕ, ◌<◌, ◌≡◌, Bool, true, false, not, ◌&&◌, ◌||◌, Option, none, some, List, [], ◌∷◌, leb, ◌==◌,
  if◌then◌else◌, length, all, any,
}
use apollo_backend.Str.{Str, lit, str_eq, is_empty}
use apollo_backend.Domain.Types.{
  Account, Device, LiveActivity, Subreddit, User, Watcher, device_transport_apns,
  device_transport_bark, is_bark,
}

-- What the rules `Required`, `Length` and `In` document: all but `Required` accept an empty value,
-- and a maximum of 0 is no maximum.
pub record Rules : Type 0 where
  pub required : Str → Bool
  pub length_in : ℕ → ℕ → Str → Bool
  pub one_of : List Str → Str → Bool
  pub required_lem : (s : Str) → required s ≡ not (is_empty s)
  pub length_in_lem :
      (lo hi : ℕ) (s : Str)
      → 0 < lo
      → length_in lo hi s ≡ (is_empty s || (leb lo (length s) && (hi == 0 || leb (length s) hi)))
  pub one_of_lem :
      (options : List Str) (s : Str) → one_of options s ≡ (is_empty s || any (str_eq s) options)

-- The parts of a parsed address that the program reads.
pub record Url : Type 0 where
  pub scheme : Str
  pub host : Str

-- `validPrefix` accepts what does not begin with `u_`.
unfoldable pub valid_prefix : Str → Bool
valid_prefix [] = true
valid_prefix (a ∷ []) = true
valid_prefix (a ∷ b ∷ s) = not (b == b'_') || not (a == b'u')

abbrev is_alnum : ℕ → Bool
is_alnum c = leb b'a' c && leb c b'z' || leb b'A' c && leb c b'Z' || leb b'0' c && leb c b'9'

abbrev is_word : ℕ → Bool
is_word c = is_alnum c || c == b'_'

-- ^[a-zA-Z0-9]\w*$
unfoldable pub name_pattern : Str → Bool
name_pattern [] = false
name_pattern (c ∷ s) = is_alnum c && all is_word s

module _ (v : Rules) where
  unfoldable pub validate_account : Account → Bool
  validate_account acct =
      (v.required acct.username && v.length_in 3 32 acct.username)
      && (v.required acct.account_id && v.length_in 4 9 acct.account_id)
      && v.required acct.reddit_client_id
      && v.required acct.reddit_user_agent

  unfoldable pub validate_live_activity : LiveActivity → Bool
  validate_live_activity la =
      (v.required la.apns_token && v.length_in 64 0 la.apns_token)
      && v.required la.reddit_account_id
      && v.required la.thread_id
      && v.required la.subreddit

  unfoldable pub validate_subreddit : Subreddit → Bool
  unfolding valid_prefix name_pattern
  validate_subreddit sr =
      (v.required sr.name
        && v.length_in 2 21 sr.name
        && valid_prefix sr.name
        && name_pattern sr.name)
      && (v.required sr.subreddit_id && v.length_in 4 9 sr.subreddit_id)

  unfoldable pub validate_user : User → Bool
  validate_user u =
      (v.required u.name && v.length_in 3 20 u.name)
      && (v.required u.user_id && v.length_in 4 9 u.user_id)

  -- `Type` is one of the three by its type here; the label and the watchee are required.
  unfoldable pub validate_watcher : Watcher → Bool
  validate_watcher w = (v.required w.label && v.length_in 1 64 w.label) && not (w.watchee_id == 0)

  module _ (parse_url : Str → Option Url) where
    -- the rule on `TransportEndpoint`
    unfoldable pub endpoint_ok : Device → Bool
    unfolding is_bark
    endpoint_ok dev = if not (is_bark dev) then true else elim (parse_url dev.transport_endpoint) [
      | none ↦ false
      | some u ↦
          (str_eq u.scheme (lit "http") || str_eq u.scheme (lit "https")) && not (is_empty u.host)
    ]

    unfoldable pub validate_device : Device → Bool
    unfolding endpoint_ok
    validate_device dev =
        (v.required dev.apns_token && v.length_in 64 200 dev.apns_token)
        && v.one_of (device_transport_apns ∷ device_transport_bark ∷ []) dev.transport
        && endpoint_ok dev
