-- ===== src/Repository.antt =====
-- internal/repository: each method is one SQL statement on the tables of `Schema`, run by
-- `statement`. A SELECT returns its rows in the table's order; an INSERT takes a number of its
-- sequence also when it runs into a conflict.
pub mod Accounts
pub mod Found
pub mod Devices
pub mod LiveActivities
pub mod Watchers
pub mod Subreddits
pub mod Users
pub mod WellFormed
pub mod Settings
