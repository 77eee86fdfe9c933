-- ===== src/Domain/Durations.antt =====
-- The durations of internal/domain in nanoseconds, as time.Duration counts them. A time is the
-- number of nanoseconds since the Unix epoch.
use apollo_backend.Prelude.{ℕ, ◌*◌}

abbrev pub Time : Type 0
Time = ℕ

abbrev pub second : ℕ
second = 1_000_000_000

abbrev pub minute : ℕ
minute = 60_000_000_000

abbrev pub hour : ℕ
hour = 3_600_000_000_000

abbrev pub notification_check_interval : ℕ
notification_check_interval = 60 * second

abbrev pub notification_check_timeout : ℕ
notification_check_timeout = 5 * minute

abbrev pub stuck_notification_check_interval : ℕ
stuck_notification_check_interval = 2 * minute

abbrev pub stale_token_threshold : ℕ
stale_token_threshold = 2 * hour

abbrev pub live_activity_duration : ℕ
live_activity_duration = 75 * minute

abbrev pub live_activity_check_interval : ℕ
live_activity_check_interval = 30 * second

abbrev pub subreddit_check_interval : ℕ
subreddit_check_interval = 2 * minute
