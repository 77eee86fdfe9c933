-- ===== src/Api.antt =====
-- internal/api: the handlers. A handler has the decoded body of its request, which encoding/json
-- gives, the variables of its path, and the request's headers and the process's environment as
-- functions.
pub mod Responses
pub mod Registration
pub mod Accounts
pub mod Devices
pub mod LiveActivities
pub mod Watchers
