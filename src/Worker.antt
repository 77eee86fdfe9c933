-- ===== src/Worker.antt =====
-- internal/worker: the consumers of the queues.
pub mod Locks
pub mod Messages
pub mod Notifications
pub mod ParseInt
pub mod LiveActivities
pub mod Watching
pub mod Users
pub mod Subreddits
pub mod Trending
pub mod StuckNotifications
