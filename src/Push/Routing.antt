-- ===== src/Push/Routing.antt =====
-- What a send does, and when it asks for the device to be removed.
use apollo_backend.Prelude.{
  ℕ, ◌≡◌, refl, ◌⊎◌, inl, inr, Bool, true, false, not, ◌&&◌, Option, none, some, ◌∷◌, arith,
  if◌then◌else◌, Bool-cases,
}
use apollo_backend.Str.{Str}
use apollo_backend.Errors.{Result, ok, err}
use apollo_backend.Domain.{Device, is_bark}
use apollo_backend.Payload.{Payload}
use apollo_backend.Exec.{
  Env, World, HttpRequest, HttpReply, ApnsNotification, ApnsReply, Gateway, production, development,
  http_sent, apns_sent, returned, ◌>>=◌,
}
use apollo_backend.Push.Delivery.{
  Sent, Sender, Codec, not_configured, no_result, apns_result, bark_reply, bark_result,
  bark_document, send_apns, send_bark, post, send,
}

abbrev pub notification : Sender → Device → Payload → ApnsNotification
notification s device p = record { device_token = device.apns_token; topic = s.topic; payload = p }

abbrev has_error : {A : Type 0} → Option A → Bool
has_error none = false
has_error (some e) = true

bark_result-keeps : (c : Codec) (n : ℕ) (b : Str) → (bark_result c n b).should_unregister ≡ false
unfolding bark_result
bark_result-keeps c n b = ground arith

bark_reply-keeps : (c : Codec) (r : HttpReply) → (bark_reply c r).0.should_unregister ≡ false
unfolding bark_reply
bark_reply-keeps c (HttpReply.failed m) = refl
bark_reply-keeps c (HttpReply.reply n b) = bark_result-keeps c n b

-- APNs took the notification.
abbrev pub is_taken : ApnsReply → Bool
is_taken (ApnsReply.failed e) = false
is_taken (ApnsReply.reply sent status reason) = sent

-- A result tells of a send what APNs said of it, and asks for the removal where it was not taken.
apns_result-told :
    (r : ApnsReply)
    → ((apns_result r).0.sent ≡ is_taken r)
      × ((apns_result r).0.should_unregister ≡ not (is_taken r))
unfolding apns_result
apns_result-told (ApnsReply.failed e) = (refl, refl)
apns_result-told (ApnsReply.reply true n b) = (refl, refl)
apns_result-told (ApnsReply.reply false n b) = (refl, refl)

-- What one send to a Bark device may add to the trace: one POST to its push URL.
pub record IsBarkSend (device : Device) (before after : World) : Type 0 where
  pub db : after.db ≡ before.db
  pub locks : after.locks ≡ before.locks
  pub trace :
      (after.trace ≡ before.trace)
      ⊎ ((req : HttpRequest) × (after.trace ≡ http_sent req ∷ before.trace)
          × (req.url ≡ device.transport_endpoint))

module _ (env : Env) (c : Codec) (s : Sender) where
  bark_document-url :
      (device : Device) (p : Payload) (req : HttpRequest)
      → bark_document c s device p ≡ ok req
      → req.url ≡ device.transport_endpoint
  unfolding bark_document
  bark_document-url device p req e = ground arith

  -- What `post` returns and leaves, for a request that names the device's push URL.
  post-bark :
      (device : Device) (d : Result HttpRequest)
      → ((req : HttpRequest) → d ≡ ok req → req.url ≡ device.transport_endpoint)
      → (w : World)
      → (r : Sent) × ((post env c s d w).0 ≡ returned r)
        × (r.0.should_unregister ≡ false)
        × IsBarkSend device w (post env c s d w).1
  unfolding post ◌>>=◌
  post-bark device (err e) names w =
      ((no_result, some e), refl, refl, record { db = refl; locks = refl; trace = inl refl })
  post-bark device (ok req) names w = (
    bark_reply c (env.http w.calls req),
    refl,
    bark_reply-keeps c (env.http w.calls req),
    record { db = refl; locks = refl; trace = inr (req, refl, names req refl) },
  )

  pub send-bark :
      (device : Device) (p : Payload) (w : World)
      → is_bark device ≡ true
      → (r : Sent) × ((send env c s device p w).0 ≡ returned r)
        × (r.0.should_unregister ≡ false)
        × IsBarkSend device w (send env c s device p w).1
  unfolding send send_bark
  send-bark device p w e =
      rw e (post-bark device (bark_document c s device p) (bark_document-url device p) w)

  -- A send to an APNs device: without a key nothing goes out, the send fails and the device stays;
  -- with one, one notification goes to the development gateway if the device is a sandbox and to the
  -- production one if not, `sent` is what APNs answers, and the result asks for the device to be
  -- removed exactly when APNs did not take the notification.
  pub send-apns :
      (device : Device) (p : Payload) (w : World)
      → is_bark device ≡ false
      → let gateway : Gateway = if device.sandbox then development else production in
        let taken = is_taken (env.apns w.calls gateway (notification s device p)) in
        (r : Sent) × ((send env c s device p w).0 ≡ returned r)
        × (r.0.sent ≡ (s.has_apns && taken))
        × (r.0.should_unregister ≡ (s.has_apns && not taken))
        × ((send env c s device p w).1.trace ≡ (
            if s.has_apns then apns_sent gateway (notification s device p) ∷ w.trace else w.trace))
        × ((send env c s device p w).1.db ≡ w.db)
  unfolding send send_apns ◌>>=◌
  send-apns device p w e =
      let gateway : Gateway = if device.sandbox then development else production in
      let r = env.apns w.calls gateway (notification s device p) in
      let (sent, removed) = apns_result-told r in
      elim (Bool-cases s.has_apns) [
        | inl k ↦ rw (e, k) (apns_result r, refl, sent, removed, refl, refl)
        | inr k ↦ rw (e, k) ((no_result, some not_configured), refl, refl, refl, refl, refl)
      ]
