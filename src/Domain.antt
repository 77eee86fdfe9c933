-- ===== src/Domain.antt =====
-- internal/domain: the records that the services share, and their validation.
mod Types
pub mod Validation
pub mod Keywords
pub mod Durations
unfoldable pub use Types.*
