-- ===== src/Reddit.antt =====
-- internal/reddit: the client of Reddit's API.
pub mod Ids
pub mod Types
pub mod Request
pub mod Client
pub mod Retries
pub mod Calls
