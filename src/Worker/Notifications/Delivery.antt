-- ===== src/Worker/Notifications/Delivery.antt =====
-- The pushes that notificationsConsumer.Consume sends for a listing.
use apollo_backend.Prelude.{
  ℕ, ◌≡◌, refl, ap, ◌∙◌, sym, true, false, List, [], ◌∷◌, ◌++◌, reverse, if◌then◌else◌, All,
  Bool-cases, inl, inr,
}
use mathlib.Core.List.{reverse-cons}
use apollo_backend.Errors.{ok}
use apollo_backend.Domain.{Account, Device, is_bark}
use apollo_backend.Exec.{Env, World, Event, apns_sent, returned, ◌>>=◌}
use apollo_backend.Exec.Keeps.{statement-returns}
use apollo_backend.Repository.Devices
use apollo_backend.Push.Delivery.{Codec, Sender, Sent, send, gateway_of}
use apollo_backend.Push.Routing.{send-apns, notification}
use apollo_backend.Reddit.Types.{Thing, ListingResponse, is_deleted}
use apollo_backend.Worker.Messages.{payload_from_message}
use apollo_backend.Worker.Notifications.{clean_up, notify_devices, notify_messages, notify}

module _ (s : Sender) (account : Account) (count : ℕ) where
  -- The trace after one message went to each of the devices.
  unfoldable pub to_each : Thing → List Device → List Event → List Event
  to_each msg [] events = events
  to_each msg (d ∷ ds) events = to_each msg ds (
      apns_sent (gateway_of d) (notification s d (payload_from_message account msg count)) ∷ events)

  -- The trace after a listing, whose first message is its newest, so its last one on the trace.
  unfoldable pub notices : List Device → List Thing → List Event → List Event
  unfolding to_each is_deleted
  notices devices [] events = events
  notices devices (msg ∷ older) events =
      let before = notices devices older events in
      if is_deleted msg then before else to_each msg devices before

  -- The same, from the oldest message on.
  forwards : List Device → List Thing → List Event → List Event
  unfolding is_deleted
  forwards devices [] events = events
  forwards devices (msg ∷ newer) events =
      let skipped = forwards devices newer events in
      let sent = forwards devices newer (to_each msg devices events) in
      if is_deleted msg then skipped else sent

  forwards-append :
      (devices : List Device) (xs : List Thing) (x : Thing) (events : List Event)
      → forwards devices (xs ++ x ∷ []) events
        ≡ notices devices (x ∷ []) (forwards devices xs events)
  unfolding forwards notices
  forwards-append devices [] x events = refl
  forwards-append devices (y ∷ ys) x events = elim (Bool-cases (is_deleted y)) [
    | inl e ↦ rw e (forwards-append devices ys x events)
    | inr e ↦ rw e (forwards-append devices ys x (to_each y devices events))
  ]

  forwards-reverse :
      (devices : List Device) (msgs : List Thing) (events : List Event)
      → forwards devices (reverse msgs) events ≡ notices devices msgs events
  unfolding forwards notices
  forwards-reverse devices [] events = refl
  forwards-reverse devices (x ∷ older) events =
      ap (λ l. forwards devices l events) (reverse-cons x older)
      ∙ forwards-append devices (reverse older) x events
      ∙ ap (λ l. notices devices (x ∷ []) l) (forwards-reverse devices older events)

  no_devices : (msgs : List Thing) (events : List Event) → notices [] msgs events ≡ events
  unfolding notices
  no_devices [] events = refl
  no_devices (msg ∷ older) events = elim (Bool-cases (is_deleted msg)) [
    | inl e ↦ rw e (no_devices older events)
    | inr e ↦ rw e (no_devices older events)
  ]

clean_up-quiet :
    (env : Env) (c : Codec) (s : Sender) (d : Device) (r : Sent) (w : World)
    → ((clean_up env c s d r w).0 ≡ returned tt) × ((clean_up env c s d r w).1.trace ≡ w.trace)
unfolding clean_up ◌>>=◌ Devices.delete
clean_up-quiet env c s d r w = elim (Bool-cases r.0.should_unregister) [
  | inl e ↦
      let ((x, o), t, l) = statement-returns env (Devices.delete_sql d.apns_token) w in
      rw (e, o) (refl, t)
  | inr e ↦ rw e (refl, refl)
]

module _ (env : Env) (c : Codec) (s : Sender) (keyed : s.has_apns ≡ true) where
  notify_devices-sends :
      (account : Account) (msg : Thing) (count : ℕ) (devices : List Device) (w : World)
      → All (λ d. is_bark d ≡ false) devices
      → ((notify_devices env c s account msg count devices w).0 ≡ returned tt)
        × ((notify_devices env c s account msg count devices w).1.trace
            ≡ to_each s account count msg devices w.trace)
  unfolding notify_devices to_each ◌>>=◌
  notify_devices-sends account msg count [] w h = (refl, refl)
  notify_devices-sends account msg count (d ∷ ds) w (h, hs) =
      let payload = payload_from_message account msg count in
      let (r, o, sent, u, e, db) = send-apns env c s d payload w h in
      let (x, y) = clean_up-quiet env c s d r (send env c s d payload w).1 in
      let (z, q) =
        notify_devices-sends account msg count ds
          (clean_up env c s d r (send env c s d payload w).1).1 hs in
      let event = apns_sent (gateway_of d) (notification s d payload) in
      let once : (send env c s d payload w).1.trace ≡ event ∷ w.trace = e ∙ rw keyed refl in
      rw (o, x) (z, q ∙ ap (λ l. to_each s account count msg ds l) (y ∙ once))

  notify_messages-sends :
      (account : Account) (count : ℕ) (devices : List Device) (msgs : List Thing) (w : World)
      → All (λ d. is_bark d ≡ false) devices
      → ((notify_messages env c s account count devices msgs w).0 ≡ returned tt)
        × ((notify_messages env c s account count devices msgs w).1.trace
            ≡ forwards s account count devices msgs w.trace)
  unfolding notify_messages forwards ◌>>=◌
  notify_messages-sends account count devices [] w h = (refl, refl)
  notify_messages-sends account count devices (msg ∷ msgs) w h =
      elim (Bool-cases (is_deleted msg)) [
        | inl e ↦ rw e (notify_messages-sends account count devices msgs w h)
        | inr e ↦
            let (o, t) = notify_devices-sends account msg count devices w h in
            let (z, q) =
              notify_messages-sends account count devices msgs
                (notify_devices env c s account msg count devices w).1 h in
            rw (e, o) (z, q ∙ ap (λ l. forwards s account count devices msgs l) t)
      ]

  -- With an APNs key, and only APNs devices, every message of the listing that is not deleted goes
  -- to every device once and nothing else goes out, the oldest message first; whether devices are
  -- unregistered on the way, or that fails, makes no difference.
  pub notify-sends_in_order :
      (account : Account) (msgs : ListingResponse) (devices : List Device) (w : World)
      → All (λ d. is_bark d ≡ false) devices
      → ((notify env c s account msgs (ok devices) w).0 ≡ returned tt)
        × ((notify env c s account msgs (ok devices) w).1.trace
            ≡ notices s account msgs.count devices msgs.children w.trace)
  unfolding notify ◌>>=◌
  notify-sends_in_order account msgs [] w h =
      (refl, sym (no_devices s account msgs.count msgs.children w.trace))
  notify-sends_in_order account msgs (d ∷ ds) w h =
      let (o, t) = notify_messages-sends account msgs.count (d ∷ ds) (reverse msgs.children) w h in
      (o, t ∙ forwards-reverse s account msgs.count (d ∷ ds) msgs.children w.trace)
