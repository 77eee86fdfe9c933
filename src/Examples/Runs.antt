-- ===== src/Examples/Runs.antt =====
-- The theorems at small worlds.
use apollo_backend.Prelude.{
  ℕ, ◌+◌, ◌*◌, ◌≤◌, ◌<◌, ◌≡◌, refl, true, false, ◌&&◌, not, none, List, [], ◌∷◌, arith,
  if◌then◌else◌, any, All, length, concat,
}
use apollo_backend.Str.{lit, str_eq, split}
use apollo_backend.Errors.{ok}
use apollo_backend.Domain.{is_bark}
use apollo_backend.Domain.Durations.{Time}
use apollo_backend.Exec.{production, World, Event, HttpReply, returned}
use apollo_backend.Push.Json.{Fields, end, field, Json}
use apollo_backend.Push.Link.{click_url}
use apollo_backend.Push.Link.Laws.{link_parts, split-click_url}
use apollo_backend.Push.Bark.{bark_request}
use apollo_backend.Push.Contents.{IsDeliverable, bark_request-IsDeliverable}
use apollo_backend.Push.Delivery.{Sent, send, new_sender, with_icon}
use apollo_backend.Push.Routing.{notification, send-apns}
use apollo_backend.Scheduler.Chunks.{chunks, chunks-split}
use apollo_backend.Scheduler.Locks.{lock_key, lock_all, is_held, unlock}
use apollo_backend.Scheduler.Locks.Exclusion.{after_runs, lock_all-exclusive, lock_all-released}
use apollo_backend.Scheduler.Batches.{batch}
use apollo_backend.Scheduler.Batches.Fairness.{IsFairBatch, batch-IsFairBatch}
use apollo_backend.Scheduler.Enqueue.{enqueue_accounts}
use apollo_backend.Scheduler.Enqueue.Published.{Spared, enqueue_accounts-spares_locked}
use apollo_backend.Reddit.Client.{request, reply_result, default_error_map, inbox_request}
use apollo_backend.Reddit.Retries.{http_of, sent_as, tries_again, IsSent, request-attempts}
use apollo_backend.Repository.WellFormed.{WellFormed}
use apollo_backend.Repository.WellFormed.Operations.{
  Operation, upsert_account, upsert_device, associate, delete_device, run_all, run_all-keeps_tables,
}
use apollo_backend.Worker.Notifications.{notify, consume}
use apollo_backend.Worker.Notifications.Delivery.{notices, notify-sends_in_order}
use apollo_backend.Worker.Notifications.Release.{IsReleased, consume-releases}
use apollo_backend.Examples.Worlds.{
  env_at, empty_db, world, account, phone, codec, sender, transport, parser, listing, client, rules,
}

notify-sends_in_order_example :
    ((notify (env_at 1) codec sender account listing (ok (phone ∷ [])) (world empty_db [])).0
      ≡ returned tt)
    × ((notify
          (env_at 1)
          codec
          sender
          account
          listing
          (ok (phone ∷ []))
          (world empty_db [])).1.trace
        ≡ notices sender account 3 (phone ∷ []) listing.children [])
unfolding is_bark str_eq
notify-sends_in_order_example =
    notify-sends_in_order (env_at 1) codec sender refl account listing (phone ∷ [])
      (world empty_db []) (refl, tt)

abbrev locked_world : World
locked_world =
    world empty_db (record { key = lit "locks:accounts:abc"; expires = 5_000_000_000 } ∷ [])

consume-releases_example :
    IsReleased
      (env_at 1)
      (lock_key (lit "locks:accounts") (lit "abc"))
      1
      locked_world
      (consume (env_at 1) codec sender transport parser (lit "abc") locked_world).1
consume-releases_example =
    consume-releases (env_at 1) codec sender transport parser (lit "abc") locked_world 1 (λ i. refl)
      (λ i. refl)

enqueue_accounts-spares_locked_example :
    ((enqueue_accounts (env_at 1) (λ a b. true) false locked_world).0 ≡ returned tt)
    × Spared 2 (lit "abc") [] (enqueue_accounts (env_at 1) (λ a b. true) false locked_world).1
unfolding is_held lock_key str_eq
enqueue_accounts-spares_locked_example =
    enqueue_accounts-spares_locked (env_at 1) 2 (lit "abc") (λ i. omega arith) (λ a b. true) false
      locked_world refl

send-apns_example :
    (r : Sent) × ((send (env_at 1) codec sender phone [] (world empty_db [])).0 ≡ returned r)
    × (r.0.sent ≡ true)
    × (r.0.should_unregister ≡ false)
    × ((send (env_at 1) codec sender phone [] (world empty_db [])).1.trace
        ≡ Event.apns_sent production (notification sender phone []) ∷ [])
    × ((send (env_at 1) codec sender phone [] (world empty_db [])).1.db ≡ empty_db)
unfolding is_bark str_eq
send-apns_example = send-apns (env_at 1) codec sender phone [] (world empty_db []) refl

request-attempts_example :
    (n : ℕ) × (1 ≤ n)
    × (n ≤ (
        if tries_again
          (sent_as client (inbox_request client []))
          (reply_result default_error_map (HttpReply.reply 500 []))
        then 5
        else 1))
    × IsSent
        (http_of (sent_as client (inbox_request client [])))
        n
        (world empty_db [])
        (request
          (env_at 1)
          transport
          parser
          client
          default_error_map
          (inbox_request client [])
          (λ v. tt)
          none
          (world empty_db [])).1
request-attempts_example =
    request-attempts (env_at 1) transport parser client default_error_map (inbox_request client [])
      (λ v. tt) none (world empty_db []) refl

lock_all-exclusive_example :
    All
      (λ id.
        any
          (str_eq id)
          (lock_all (lit "l") 200 (lit "a" ∷ lit "b" ∷ []) (
            after_runs
              ((lit "l", 150, lit "b" ∷ []) ∷ [])
              (lock_all (lit "l") 100 (lit "a" ∷ []) []).1)).0
        ≡ false)
      (lock_all (lit "l") 100 (lit "a" ∷ []) []).0
lock_all-exclusive_example =
    lock_all-exclusive (lit "l") 100 200 (lit "a" ∷ []) (lit "a" ∷ lit "b" ∷ []) []
      ((lit "l", 150, lit "b" ∷ []) ∷ []) (omega arith)

lock_all-released_example :
    (any (str_eq (lit "a")) (lock_all (lit "l") 5 (lit "b" ∷ lit "a" ∷ []) []).0 ≡ (
      any (str_eq (lit "a")) (lit "b" ∷ lit "a" ∷ [])
      && not (is_held 5 (lock_key (lit "l") (lit "a")) [])))
    × (any
          (str_eq (lit "a"))
          (lock_all
            (lit "l")
            5
            (lit "b" ∷ lit "a" ∷ [])
            (unlock (lock_key (lit "l") (lit "a")) [])).0
        ≡ any (str_eq (lit "a")) (lit "b" ∷ lit "a" ∷ []))
lock_all-released_example = lock_all-released (lit "l") 5 (lit "a") (lit "b" ∷ lit "a" ∷ []) []

-- Rows of a number and a time.
abbrev Row : Type 0
Row = ℕ × Time

abbrev rows : List Row
rows = (1, 30) ∷ (2, 10) ∷ (3, 20) ∷ []

abbrev put_off : Time → Row → Row
put_off t r = (r.0, t)

batch-IsFairBatch_example :
    IsFairBatch {R = Row}
      (λ r. r.0)
      (λ r. r.1)
      put_off
      25
      99
      (λ n. false)
      1
      rows
      (batch {R = Row} (λ r. r.0) (λ r. r.1) put_off 25 99 (λ n. false) 1 rows).0
      (batch {R = Row} (λ r. r.0) (λ r. r.1) put_off 25 99 (λ n. false) 1 rows).1
batch-IsFairBatch_example =
    batch-IsFairBatch {R = Row} (λ r. r.0) (λ r. r.1) put_off (λ t r. refl) (λ t r. refl) 25 99
      (λ n. false) 1 rows

abbrev three : List ℕ
three = 1 ∷ 2 ∷ 3 ∷ []

chunks-split_example :
    (length (chunks three) ≡ 60)
    × (concat (chunks three) ≡ three)
    × All (λ c. length c * 60 < 3 + 60) (chunks three)
chunks-split_example = chunks-split three

abbrev customs : Fields
customs =
    field (lit "subreddit") (Json.text (lit "a/b"))
      (field (lit "post_id") (Json.text (lit "xyz")) end)

split-click_url_example : split b'/' (click_url customs) ≡ link_parts customs
split-click_url_example = split-click_url customs

bark_request-IsDeliverable_example :
    IsDeliverable (with_icon (new_sender false (lit "app") []) (bark_request customs))
bark_request-IsDeliverable_example = bark_request-IsDeliverable false (lit "app") [] customs

abbrev operations : List Operation
operations =
    upsert_account account
    ∷ upsert_device phone
    ∷ associate account phone
    ∷ delete_device (lit "token")
    ∷ []

empty_db-WellFormed : WellFormed empty_db
empty_db-WellFormed = record {
  accounts = record { usernames = tt; ids = tt; below = tt };
  devices = record { tokens = tt; ids = tt; below = tt };
  linked = record { to_accounts = tt; to_devices = tt; pairs = tt };
  live = record { tokens = tt; ids = tt; below = tt };
}

run_all-keeps_tables_example :
    WellFormed (run_all (env_at 1) rules (λ s. none) operations (world empty_db [])).1.db
run_all-keeps_tables_example =
    run_all-keeps_tables (env_at 1) rules (λ s. none) operations (world empty_db [])
      empty_db-WellFormed
