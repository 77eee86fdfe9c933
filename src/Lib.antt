-- ===== src/Lib.antt =====
-- Verification of apollo-backend, the server that watches Reddit for the users of the Apollo app
-- and pushes what is new to their devices.
--
-- The parts and how they interact. The scheduler (internal/cmd/scheduler.go) looks every few
-- seconds which rows of the database are due and publishes their ids on queues; accounts and live
-- activities are first locked in Redis, so that no two workers check one at a time. The workers
-- (internal/worker) take ids from the queues, ask Reddit (internal/reddit) what is new with the
-- account's own credentials, and send notifications to the account's devices through the push
-- package (internal/push), over APNs or, for devices without it, as an HTTP POST to a Bark server.
-- The app registers accounts, devices, watchers and live activities over HTTP (internal/api).
-- Accounts, devices and their links live in PostgreSQL behind the repositories
-- (internal/repository); the structs and their validations are in internal/domain.
--
-- Which file models what:
--   Str, Errors, Payload, Prelude     strings as bytes, the program's errors, the apns2 payload
--                                     builder as a list of calls; shared lists, tables and tests
--   Domain/*                          internal/domain/*.go: the structs, durations, Validate
--                                     methods and KeywordMatches
--   Schema                            docs/schema.sql: the tables as lists of rows
--   Exec                              a call of the program as an action on a world: the tables,
--                                     the locks, the number of calls so far and the trace of
--                                     effects; a panic is an outcome
--   Repository/{Accounts,Devices,LiveActivities,Watchers,Users,Subreddits}
--                                     internal/repository/postgres_*.go: `…_sql` is the statement
--                                     and the method is a call of it that may fail
--   Repository/{WellFormed,Found}      what holds of the rows of all tables; the first row that is read
--   Repository/Settings               the notification settings of linked pairs as an abstract map
--   Push/*                            push.go and bark.go: Send, sendAPNS, sendBark, the Bark
--                                     request, clickURL
--   Reddit/*                          client.go, request.go, types.go: requests and their options,
--                                     retries, responses, the calls of an authenticated client
--   Scheduler/*                       scheduler.go: the chunks, the Lua script, the batch
--                                     statement and the tasks
--   Worker/{Notifications,Messages,Locks}
--                                     notifications.go: Consume, deleteAccount, payloadFromMessage
--   Worker/{StuckNotifications,ParseInt}
--                                     stuck_notifications.go: Consume
--   Worker/LiveActivities             live_activities.go: Consume
--   Worker/Watching                   what the next three have in common: the settling of a
--                                     delivery, flags in Redis, the credentials of a watcher
--   Worker/{Users,Subreddits,Trending}
--                                     users.go, subreddits.go, trending.go: Consume, the matching
--                                     of posts, the median and the payloads
--   Api/*                             internal/api/*.go: a handler is an action that answers with a
--                                     value or with a status and an error
--   Examples/*                        runs on small concrete inputs
--
-- State. A Go method on a shared pool or client is a function on `World`. `Env` gives the answers
-- of everything outside: the clock, failures of PostgreSQL, Redis and the queue, the replies to
-- HTTP requests and to APNs notifications. It answers by the number of the call, so that answers
-- can differ from call to call and a theorem over every `Env` is one over every behaviour of the
-- outside. A failed statement changes nothing. Times are nanoseconds.
--
-- Bounds and fuel. Loops over slices are structural recursion; the retries recurse on the backoff
-- schedule, the chunks on the 60 rounds and the pages of new posts on the five rounds that are left.
-- Only the digits of a number are on fuel, one more than the number, which is more than its digits.
--
-- Parameters. fastjson (`Parser`), base64 and the URL check of net/http (`Transport`), the JSON of
-- an apns2 payload and encoding/json (`Codec`), the rules of ozzo-validation with what they
-- document (`Rules`), net/url's Parse, the collation of the database, sort.Slice (`sorted`,
-- which takes the code's test), the order of a range over a map (`ranged`), the check
-- of pgx on the number of arguments (`accepts`), go-humanize's series of words (`series`), rand.Intn
-- (`random` of `Env`). A request comes as its path variables, its decoded body, a `header` function
-- and the environment `getenv`.
--
-- Not modelled: metrics, logs and traces, which decide nothing; contexts and their cancellation;
-- the set-up of processes, queues and routes (the workers make their Reddit client without default
-- options); the health check, the handlers that answer with a constant, the texts of the sample
-- notifications; the Reddit calls without an account. The goroutines of enqueueAccounts wait for
-- their second and run in its order.
pub mod Prelude
pub mod Str
pub mod Errors
pub mod Domain
pub mod Payload
pub mod Schema
pub mod Exec
pub mod Repository
pub mod Push
pub mod Scheduler
pub mod Reddit
pub mod Worker
pub mod Api
pub mod Examples
