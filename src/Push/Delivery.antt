-- ===== src/Push/Delivery.antt =====
-- Sender.Send, sendAPNS and sendBark of internal/push. The encodings are parameters: the apns2
-- payload's JSON, encoding/json, and the URL check of http.NewRequest.
use apollo_backend.Prelude.{
  ℕ, Bool, true, false, not, ◌&&◌, ◌||◌, Option, none, some, [], ◌∷◌, reverse, ◌==◌, leb,
  if◌then◌else◌, take,
}
use apollo_backend.Str.{Str, lit, is_empty}
use apollo_backend.Errors.{Error, other, Result, ok, err}
use apollo_backend.Domain.{Device, is_bark}
use apollo_backend.Payload.{Payload}
use apollo_backend.Exec.{
  Exec, Env, HttpRequest, HttpReply, failed, reply, document, ApnsNotification, ApnsReply, Gateway,
  production, development, http_sent, apns_sent, pure, external, emit, ◌>>=◌, ◌>>◌,
}
use apollo_backend.Push.Json.{Fields}
use apollo_backend.Push.Bark.{BarkRequest, bark_request}

pub record PushResult : Type 0 where
  pub sent : Bool
  pub should_unregister : Bool
  pub status : ℕ
  pub reason : Str

abbrev pub no_result : PushResult
no_result = record { sent = false; should_unregister = false; status = 0; reason = [] }

-- Whether the APNs clients are there, and what the sender was made with.
pub record Sender : Type 0 where
  pub has_apns : Bool
  pub topic : Str
  pub bark_default_icon : Str

abbrev pub default_bark_icon : Str
default_bark_icon =
    lit
      "https://raw.githubusercontent.com/Apollo-Reborn/Apollo-Reborn/main/assets/bark-icons/default.png"

-- `icon` is the value of BARK_DEFAULT_ICON, `key` whether there is a signing token.
unfoldable pub new_sender : (key : Bool) (topic icon : Str) → Sender
unfolding is_empty
new_sender key topic icon = record {
  has_apns = key;
  topic = topic;
  bark_default_icon = if is_empty icon then default_bark_icon else icon;
}

pub record Codec : Type 0 where
  pub payload_map : Payload → Result Fields
  pub encode : BarkRequest → Result Str
  -- `code` and `message` of a reply; zero values for what is missing or no JSON
  pub decode : Str → ℕ × Str
  pub url_error : Str → Option Error

-- A send has a result and maybe an error, and callers read both.
abbrev pub Sent : Type 0
Sent = PushResult × Option Error

abbrev pub not_configured : Error
not_configured = other (lit "APNs not configured (Bark-only mode); cannot deliver to APNs device")

abbrev pub status_ok : ℕ
status_ok = 200

-- strings.TrimSpace, for ASCII
abbrev is_space : ℕ → Bool
is_space c = c == 32 || leb 9 c && leb c 13

unfoldable pub trim_left : Str → Str
trim_left [] = []
trim_left (c ∷ s) = let rest = trim_left s in if is_space c then rest else c ∷ s

unfoldable pub trim_space : Str → Str
unfolding trim_left
trim_space s = reverse (trim_left (reverse (trim_left s)))

abbrev pub gateway_of : Device → Gateway
gateway_of device = if device.sandbox then development else production

unfoldable pub apns_result : ApnsReply → Sent
apns_result (failed e) = (record no_result { should_unregister = true }, some e)
apns_result (reply true status reason) = (record no_result { sent = true; status = status }, none)
apns_result (reply false status reason) =
    (record { sent = false; should_unregister = true; status = status; reason = reason }, none)

unfoldable pub bark_result : Codec → ℕ → Str → PushResult
unfolding trim_space is_empty
bark_result c status body =
    let (code, message) = c.decode (take 4096 body) in
    if not (status == status_ok) || not (code == status_ok)
    then record no_result {
      status = status;
      reason = if is_empty message then trim_space (take 4096 body) else message;
    }
    else record no_result { sent = true; status = status }

unfoldable pub bark_reply : Codec → HttpReply → Sent
unfolding bark_result
bark_reply c (failed message) = (no_result, some (other message))
bark_reply c (reply status body) = (bark_result c status body, none)

unfoldable pub with_icon : Sender → BarkRequest → BarkRequest
unfolding is_empty
with_icon s req = if is_empty req.icon then record req { icon = s.bark_default_icon } else req

unfoldable pub bark_http : Device → Str → HttpRequest
bark_http device body = record {
  method = lit "POST";
  url = device.transport_endpoint;
  query = [];
  headers = (lit "Content-Type", lit "application/json; charset=utf-8") ∷ [];
  body = document body;
}

-- The request that Bark is sent, or the error before anything goes out.
unfoldable pub bark_document : Codec → Sender → Device → Payload → Result HttpRequest
unfolding bark_request with_icon bark_http
bark_document c s device p = elim (c.payload_map p) [
  | err e ↦ err e
  | ok m ↦ elim (c.encode (with_icon s (bark_request m))) [
    | err e ↦ err e
    | ok body ↦ elim (c.url_error device.transport_endpoint) [
      | some e ↦ err e
      | none ↦ ok (bark_http device body)
    ]
  ]
]

module _ (env : Env) (c : Codec) (s : Sender) where
  unfoldable pub send_apns : Device → Payload → Exec Sent
  unfolding apns_result
  send_apns device p = if not s.has_apns then pure (no_result, some not_configured) else do
    let n : ApnsNotification = record {
      device_token = device.apns_token;
      topic = s.topic;
      payload = p;
    }
    emit (apns_sent (gateway_of device) n)
    r ← external (λ i. env.apns i (gateway_of device) n)
    pure (apns_result r)

  -- What happens once the request is made, or is not.
  unfoldable pub post : Result HttpRequest → Exec Sent
  unfolding bark_reply
  post (err e) = pure (no_result, some e)
  post (ok req) = do emit (http_sent req); r ← external (λ i. env.http i req); pure (bark_reply c r)

  unfoldable pub send_bark : Device → Payload → Exec Sent
  unfolding bark_document post
  send_bark device p = post (bark_document c s device p)

  unfoldable pub send : Device → Payload → Exec Sent
  unfolding send_bark send_apns is_bark
  send device p = if is_bark device then send_bark device p else send_apns device p

unfoldable pub sent_metric : Device → Str
unfolding is_bark
sent_metric device =
    if is_bark device then lit "bark.notification.sent" else lit "apns.notification.sent"

unfoldable pub errors_metric : Device → Str
unfolding is_bark
errors_metric device =
    if is_bark device then lit "bark.notification.errors" else lit "apns.notification.errors"
