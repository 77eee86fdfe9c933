-- ===== src/Api/LiveActivities.antt =====
-- internal/api/live_activities.go
use apollo_backend.Prelude.{Bool, not, ◌||◌, if◌then◌else◌}
use apollo_backend.Str.{Str, lit, is_empty, trim_prefix}
use apollo_backend.Errors.{Error, invalid, other, Result, ok, err}
use apollo_backend.Domain.{Account, LiveActivity}
use apollo_backend.Domain.Validation.{Rules, validate_live_activity}
use apollo_backend.Exec.{Exec, Env, pure, ◌>>=◌}
use apollo_backend.Repository.Accounts
use apollo_backend.Repository.LiveActivities
use apollo_backend.Api.Responses.{Response, failure, or_fail, done}
use apollo_backend.Api.Registration.{backfilled}
use apollo_backend.Api.Devices.{sandbox_override, bark_only}

pub record LiveActivityRequest : Type 0 where
  pub apns_token : Str
  pub reddit_account_id : Str
  pub access_token : Str
  pub refresh_token : Str
  pub thread_id : Str
  pub subreddit : Str
  pub development : Bool
  pub sandbox_receipt : Str

-- What json.Unmarshal reads, with the two camelCase keys.
pub record LiveActivityJson : Type 0 where
  pub request : LiveActivityRequest
  pub access_token_camel : Str
  pub refresh_token_camel : Str

unfoldable pub unmarshal_live_activity : LiveActivityJson → LiveActivityRequest
unfolding backfilled
unmarshal_live_activity aux = record (aux.request) {
  access_token = backfilled aux.request.access_token aux.access_token_camel;
  refresh_token = backfilled aux.request.refresh_token aux.refresh_token_camel;
}

abbrev pub unknown_account : Error
unknown_account = other (lit "account not registered with this backend")

unfoldable pub bare_id : LiveActivityRequest → Str
unfolding trim_prefix
bare_id req = trim_prefix req.reddit_account_id (lit "t2_")

unfoldable pub requested_activity : (getenv : Str → Str) → LiveActivityRequest → LiveActivity
unfolding bare_id sandbox_override is_empty
requested_activity getenv req = record {
  id = 0;
  apns_token = req.apns_token;
  development = sandbox_override getenv (req.development || not (is_empty req.sandbox_receipt));
  reddit_account_id = bare_id req;
  thread_id = req.thread_id;
  subreddit = req.subreddit;
  next_check_at = 0;
  expires_at = 0;
}

module _ (env : Env) (v : Rules) (has_apns : Bool) (getenv : Str → Str) where
  unfoldable pub store_activity : LiveActivity → Exec (Response (Unit {0}))
  unfolding or_fail done
  store_activity la =
      if not (validate_live_activity v la)
      then pure (failure 422 invalid)
      else LiveActivities.create env la >>= λ stored. or_fail 500 stored done

  unfoldable pub answer_account : LiveActivityRequest → Result Account → Exec (Response (Unit {0}))
  unfolding store_activity requested_activity
  answer_account req (err e) = pure (failure 422 unknown_account)
  answer_account req (ok acct) = store_activity (requested_activity getenv req)

  unfoldable pub request_activity : LiveActivityRequest → Exec (Response (Unit {0}))
  unfolding answer_account bare_id
  request_activity req =
      if not has_apns
      then pure (failure 422 bark_only)
      else Accounts.get_by_reddit_id env (bare_id req) >>= answer_account req

  unfoldable pub create_live_activity : Result LiveActivityJson → Exec (Response (Unit {0}))
  unfolding or_fail request_activity unmarshal_live_activity
  create_live_activity body =
      or_fail 400 body (λ aux. request_activity (unmarshal_live_activity aux))
