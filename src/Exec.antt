-- ===== src/Exec.antt =====
-- The services as actions on a world: the database, the lock server, the number of calls that have
-- gone out, and the effects that they had, the last one first. What comes from outside (times,
-- failures of the database, replies over HTTP and from APNs) is given by `Env`, which answers each
-- call by its number, so that two calls can have different answers. A Go panic is an outcome.
pub mod Keeps
pub mod Ensures
use apollo_backend.Prelude.{ℕ, ◌+◌, ◌≡◌, refl, Bool, true, false, Option, none, some, List, [], ◌∷◌}
use apollo_backend.Str.{Str}
use apollo_backend.Errors.{Error, Result, ok, err}
use apollo_backend.Domain.{Device}
use apollo_backend.Domain.Durations.{Time}
use apollo_backend.Payload.{Payload, ActivityPayload}
use apollo_backend.Schema.{Db}

abbrev pub Values : Type 0
Values = List (Str × Str)

-- A form is encoded by url.Values, a document stands as it is.
pub data Body : Type 0 where
  form : Values → Body
  document : Str → Body

pub record HttpRequest : Type 0 where
  pub method : Str
  pub url : Str
  pub query : Values
  pub headers : Values
  pub body : Body

pub data HttpReply : Type 0 where
  failed : Str → HttpReply
  reply : (status : ℕ) (body : Str) → HttpReply

pub record ApnsNotification : Type 0 where
  pub device_token : Str
  pub topic : Str
  pub payload : Payload

-- A push of type "liveactivity".
pub record ActivityNotification : Type 0 where
  pub device_token : Str
  pub topic : Str
  pub payload : ActivityPayload

pub data ApnsReply : Type 0 where
  failed : Error → ApnsReply
  reply : (sent : Bool) (status : ℕ) (reason : Str) → ApnsReply

pub data Gateway : Type 0 where
  production development : Gateway

pub data Event : Type 0 where
  http_sent : HttpRequest → Event
  apns_sent : Gateway → ApnsNotification → Event
  activity_sent : Gateway → ActivityNotification → Event
  acked rejected : Event
  published : (queue : Str) (payloads : List Str) → Event

-- A key of the lock server, and the time at which it expires.
pub record Lock : Type 0 where
  pub key : Str
  pub expires : Time

pub record World : Type 0 where
  pub db : Db
  pub locks : List Lock
  pub calls : ℕ
  pub trace : List Event

pub record Env : Type 0 where
  pub now : ℕ → Time
  -- an error of the database at a call, which then changes nothing
  pub db_error : ℕ → Option Error
  -- an error of the lock server or of the queue at a call
  pub redis_error : ℕ → Option Error
  pub queue_error : ℕ → Option Error
  pub http : ℕ → HttpRequest → HttpReply
  pub apns : ℕ → Gateway → ApnsNotification → ApnsReply
  pub activity : ℕ → Gateway → ActivityNotification → ApnsReply
  -- the random number that a call draws, before it is cut to its range
  pub random : ℕ → ℕ

pub data Outcome (A : Type 0) : Type 0 where
  returned : A → Outcome A
  panicked : Outcome A

abbrev pub Exec : Type 0 → Type 0
Exec A = World → Outcome A × World

module _ {A : Type 0} where
  pub pure : A → Exec A
  pure a w = (returned a, w)

  pub panic : Exec A
  panic w = (panicked, w)

  pub gets : (World → A) → Exec A
  gets f w = (returned (f w), w)

  -- A call to the outside, whose answer depends on the number of the call.
  pub external : (ℕ → A) → Exec A
  external f w = (returned (f w.calls), record w { calls = w.calls + 1 })

pub emit : Event → Exec (Unit {0})
emit e w = (returned tt, record w { trace = e ∷ w.trace })

pub set_locks : List Lock → Exec (Unit {0})
set_locks l w = (returned tt, record w { locks = l })

module _ {A B : Type 0} where
  abbrev pub mapped : (A → B) → Outcome A → Outcome B
  mapped f (returned a) = returned (f a)
  mapped f panicked = panicked

  abbrev pub continue : Outcome A → (A → Exec B) → Exec B
  continue (returned a) f w = f a w
  continue panicked f w = (panicked, w)

  infixl 10 ◌>>=◌ ◌>>◌
  -- Opening this opens the simple actions too.
  unfoldable pub ◌>>=◌ : Exec A → (A → Exec B) → Exec B
  unfolding pure panic gets external emit set_locks
  ◌>>=◌ m f w = let (o, w') = m w in continue o f w'

  abbrev pub ◌>>◌ : Exec A → Exec B → Exec B
  m >> n = m >>= λ _. n

-- `defer`: the clean-up runs after a return and after a panic.
unfoldable pub deferring : {A : Type 0} → Exec (Unit {0}) → Exec A → Exec A
unfolding pure panic gets external emit set_locks
deferring clean m w = let (o, w') = m w in (o, (clean w').1)

-- A statement runs, or fails and changes nothing.
module _ (env : Env) {A : Type 0} where
  ran : Option Error → (Time → Db → Result A × Db) → World → Outcome (Result A) × World
  ran (some e) f w = (returned (err e), record w { calls = w.calls + 1 })
  ran none f w =
      let (r, db) = f (env.now w.calls) w.db in
      (returned r, record w { db = db; calls = w.calls + 1 })

  -- The statement has the server's time, its NOW().
  unfoldable pub statement : (Time → Db → Result A × Db) → Exec (Result A)
  unfolding ran
  statement f w = ran (env.db_error w.calls) f w
