-- ===== src/Examples/Activities.antt =====
-- Runs of the consumer of live activities on small worlds.
use apollo_backend.Prelude.{
  ◌/◌, ◌≡◌, refl, Bool, true, not, ◌||◌, ltb, if◌then◌else◌, List, [], ◌∷◌,
}
use apollo_backend.Str.{lit}
use apollo_backend.Domain.Durations.{second}
use apollo_backend.Exec.{World, production, development, returned, activity_sent}
use apollo_backend.Reddit.Types.{Thing, ThreadResponse}
use apollo_backend.Scheduler.Locks.{lock_key}
use apollo_backend.Worker.Notifications.Release.{IsReleased}
use apollo_backend.Worker.LiveActivities.{
  ActivitySender, Sort, comes_first, content_state, announce, consume_activity,
}
use apollo_backend.Worker.LiveActivities.Release.{consume_activity-releases}
use apollo_backend.Worker.LiveActivities.Touches.{IsTouched, consume_activity-touches}
use apollo_backend.Worker.LiveActivities.Updates.{is_delivered, without_row, announce-updates}
use apollo_backend.Examples.Worlds.{active, env_at, world, transport, parser, live_activity}
use apollo_backend.Examples.Watching.{post, scored}

-- An insertion sort by a test.
inserted : (Thing → Thing → Bool) → Thing → List Thing → List Thing
inserted less t [] = t ∷ []
inserted less t (u ∷ us) =
    let later = u ∷ inserted less t us in if less u t then later else t ∷ u ∷ us

insertion_sort : Sort
insertion_sort less [] = []
insertion_sort less (t ∷ ts) = inserted less t (insertion_sort less ts)

abbrev activity_sender : ActivitySender
activity_sender = record { has_apns = true; topic = lit "app" }

abbrev thread : ThreadResponse
thread = record { post = post (lit "p"); children = scored.children }

abbrev run : World
run =
    (announce (env_at 1) activity_sender insertion_sort (lit "activity") 1 live_activity thread
      scored.children (world active [])).1

announce-updates_example :
    ((announce
        (env_at 1)
        activity_sender
        insertion_sort
        (lit "activity")
        1
        live_activity
        thread
        scored.children
        (world active [])).0
      ≡ returned tt)
    × (run.trace
        ≡ activity_sent (if live_activity.development then development else production) (record {
          device_token = live_activity.apns_token;
          topic = lit "app";
          payload = record {
            content_state = content_state thread.post (insertion_sort comes_first scored.children);
            dismissal_date = live_activity.expires_at / second;
            event = if ltb live_activity.expires_at 1 then lit "end" else lit "update";
            timestamp = 1 / second;
          };
        })
          ∷ [])
    × (run.db ≡ (
        if ltb live_activity.expires_at 1 || not true
        then without_row (lit "activity") active
        else active))
unfolding is_delivered
announce-updates_example =
    announce-updates (env_at 1) (λ i. refl) (lit "activity") activity_sender insertion_sort 1
      live_activity thread scored.children (world active [])

consume_activity-releases_example :
    IsReleased
      (env_at 1)
      (lock_key (lit "locks:live-activities") (lit "activity"))
      2
      (world active [])
      (consume_activity
        (env_at 1)
        activity_sender
        insertion_sort
        transport
        parser
        (lit "activity")
        (world active [])).1
consume_activity-releases_example =
    consume_activity-releases (env_at 1) activity_sender insertion_sort transport parser
      (lit "activity") (world active []) 2 (λ i. refl) (λ i. refl)

consume_activity-touches_example :
    IsTouched live_activity.apns_token active
      (consume_activity
        (env_at 1)
        activity_sender
        insertion_sort
        transport
        parser
        live_activity.apns_token
        (world active [])).1.db
consume_activity-touches_example =
    consume_activity-touches (env_at 1) activity_sender insertion_sort transport parser
      live_activity.apns_token (world active []) tt
