-- ===== src/Worker/Users/Enqueued.antt =====
-- The payloads of enqueueUsers, and what the users consumer makes of them.
use apollo_backend.Prelude.{ℕ, ◌<◌, ◌≡◌, ◌⊎◌, Bool, true, List, [], ◌∷◌, ◌==◌, any, All}
use apollo_backend.Prelude.Table.{select_where}
use apollo_backend.Str.{Str, lit}
use apollo_backend.Domain.{User}
use apollo_backend.Domain.Durations.{Time}
use apollo_backend.Exec.{Env, World, Event, published, statement, ◌>>=◌, deferring}
use apollo_backend.Push.Delivery.{Codec, Sender}
use apollo_backend.Reddit.Types.{Parser}
use apollo_backend.Reddit.Client.{Transport}
use apollo_backend.Repository.Users
use apollo_backend.Scheduler.Batches.{is_eligible}
use apollo_backend.Worker.Locks.{ack}
use apollo_backend.Worker.Users.{user_job, consume_user}

abbrev IsListed : List User → User → Type 0
IsListed rows u = any (λ r. r.id == u.id) rows ≡ true

module _ (env : Env) (c : Codec) (s : Sender) (t : Transport) (p : Parser) where
  -- What a payload means to the consumer: the job of one due user of the table, whose row it reads.
  pub record IsDelivery (now : Time) (rows : List User) (payload : Str) : Type 0 where
    pub user : User
    pub due : user.next_check_at < now
    pub there : any (λ r. r.id == user.id) rows ≡ true
    pub read :
        (w : World)
        → consume_user env c s t p payload w
          ≡ deferring
              (ack env)
              (statement env (Users.get_by_id_sql user.id) >>= user_job env c s t p)
              w

  -- The payloads of a batch of users, or that none is due.
  pub record IsUsersBatch (locked : ℕ → Bool) (now : Time) (rows : List User)
      (before after : List Event) : Type 0 where
    pub payloads : List Str
    pub meant : All (IsDelivery now rows) payloads
    pub trace :
        ((after ≡ before)
          × (select_where (is_eligible (λ u. u.id) (λ u. u.next_check_at) now locked) rows ≡ []))
        ⊎ (after ≡ published (lit "users") payloads ∷ before)
