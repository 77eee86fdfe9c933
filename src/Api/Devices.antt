-- ===== src/Api/Devices.antt =====
-- internal/api/devices.go, and generateNotificationTester of internal/api/notifications.go. `series`
-- is OxfordWordSeries of go-humanize with the conjunction "and".
use apollo_backend.Prelude.{
  Bool, not, ◌&&◌, ◌||◌, Option, none, some, List, [], ◌∷◌, ◌++◌, map, if◌then◌else◌,
}
use apollo_backend.Str.{Str, lit, str_eq, is_empty, to_lower}
use apollo_backend.Errors.{Error, invalid, other, Result}
use apollo_backend.Domain.{Account, Device, device_transport_apns, is_bark}
use apollo_backend.Domain.Validation.{Rules, Url, validate_device}
use apollo_backend.Payload.{
  Payload, text, alert_title, alert_body, category, sound, mutable_content, custom, new_payload,
  ◌▹◌,
}
use apollo_backend.Exec.{Exec, Env, pure, ◌>>=◌, ◌>>◌}
use apollo_backend.Repository.Accounts
use apollo_backend.Repository.Devices
use apollo_backend.Push.Delivery.{Codec, Sender, Sent, send}
use apollo_backend.Api.Responses.{Response, success, failure, or_fail, done}

-- `v == "1" || strings.EqualFold(v, "true")`, where the variable is set
unfoldable pub sandbox_override : (getenv : Str → Str) → Bool → Bool
unfolding is_empty str_eq to_lower
sandbox_override getenv flag =
    let v = getenv (lit "APPLE_APNS_SANDBOX") in
    if is_empty v then flag else str_eq v (lit "1") || str_eq (to_lower v) (lit "true")

-- The headers win; an endpoint without a transport is not read.
unfoldable pub with_transport_headers : (header : Str → Str) → Device → Device
unfolding is_empty
with_transport_headers header d =
    let t = header (lit "X-Apollo-Transport") in
    let e = header (lit "X-Apollo-Transport-Endpoint") in
    if is_empty t then d else record d {
      transport = t;
      transport_endpoint = if is_empty e then d.transport_endpoint else e;
    }

unfoldable pub with_default_transport : Device → Device
unfolding is_empty
with_default_transport d =
    if is_empty d.transport then record d { transport = device_transport_apns } else d

unfoldable pub requested_device : (header getenv : Str → Str) → Device → Device
unfolding sandbox_override with_transport_headers with_default_transport
requested_device header getenv d =
    with_default_transport
      (with_transport_headers header (record d { sandbox = sandbox_override getenv d.sandbox }))

abbrev pub bark_only : Error
bark_only = other (lit "this backend runs in Bark-only mode")

abbrev pub not_sent : Error
not_sent = other (lit "error sending notification")

-- strings.Join(users, ",")
unfoldable pub join_commas : List Str → Str
join_commas [] = []
join_commas (s ∷ []) = s
join_commas (s ∷ t ∷ ts) = s ++ b',' ∷ join_commas (t ∷ ts)

unfoldable pub test_payload : (series : List Str → Str) → List Str → Payload
unfolding join_commas
test_payload series users =
    new_payload
    ▹ category (lit "test-notification")
    ▹ custom (lit "test_accounts") (text (join_commas users))
    ▹ alert_title (240 ∷ 159 ∷ 147 ∷ 163 ∷ lit " Hello, is this thing on?")
    ▹ alert_body (lit "Active usernames are: " ++ (series users ++ lit ". Tap me for more info!"))
    ▹ mutable_content
    ▹ sound (lit "traloop.wav")

-- What the two kinds of test answer for a send.
unfoldable pub send_response : Sent → Response (Unit {0})
send_response (result, some e) = failure 500 e
send_response (result, none) = if result.sent then success tt else failure 422 not_sent

module _ (env : Env) where
  unfoldable pub disassociate_accounts : Device → List Account → Exec (Unit {0})
  disassociate_accounts dev [] = pure tt
  disassociate_accounts dev (acc ∷ accs) =
      Accounts.disassociate env acc dev >> disassociate_accounts dev accs

  unfoldable pub delete_device : (apns : Str) → Exec (Response (Unit {0}))
  unfolding or_fail disassociate_accounts
  delete_device apns = Devices.get_by_apns_token env apns >>= λ dev. or_fail 500 dev (λ d.
      Accounts.get_by_apns_token env apns >>= λ found.
      or_fail 500 found
        (λ accs. do disassociate_accounts d accs; Devices.delete env apns; pure (success tt)))

  -- `has_apns` is whether the APNs key is there.
  module _ (v : Rules) (parse_url : Str → Option Url) (has_apns : Bool)
      (header getenv : Str → Str) where
    unfoldable pub store_device : Device → Exec (Response (Unit {0}))
    unfolding or_fail done is_bark
    store_device d =
        if not (validate_device v parse_url d)
        then pure (failure 422 invalid)
        else if not (is_bark d) && not has_apns
        then pure (failure 422 bark_only)
        else Devices.create_or_update env d >>= λ stored. or_fail 500 stored done

    unfoldable pub upsert_device : Result Device → Exec (Response (Unit {0}))
    unfolding or_fail store_device requested_device
    upsert_device body = or_fail 500 body (λ d. store_device (requested_device header getenv d))

  module _ (c : Codec) (s : Sender) where
    unfoldable pub test_device :
        (series : List Str → Str) → (apns : Str) → Exec (Response (Unit {0}))
    unfolding or_fail test_payload send_response
    test_device series apns = Devices.get_by_apns_token env apns >>= λ dev. or_fail 500 dev (λ d.
        Accounts.get_by_apns_token env apns >>= λ found. or_fail 500 found (λ accs. do
          r ← send env c s d (test_payload series (map (λ a. a.username) accs))
          pure (send_response r)))

    -- `fun` is one of the generators of sample notifications.
    unfoldable pub test_notification :
        (fun : Payload → Payload) → (apns : Str) → Exec (Response (Unit {0}))
    unfolding or_fail send_response
    test_notification fun apns = Devices.get_by_apns_token env apns >>= λ dev. or_fail 500 dev (λ d.
        do
          r ← send env c s d (fun (new_payload ▹ mutable_content ▹ sound (lit "traloop.wav")))
          pure (send_response r))
