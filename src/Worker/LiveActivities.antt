-- ===== src/Worker/LiveActivities.antt =====
-- liveActivitiesConsumer.Consume of internal/worker/live_activities.go, cut at its early returns.
-- Metrics, traces and logs are left out. `sorted` is sort.Slice, which takes the code's test and need
-- not be stable.
pub mod Best
pub mod Kept
pub mod Release
pub mod Touches
pub mod Updates
use apollo_backend.Prelude.{ℕ, ◌+◌, ◌*◌, ◌/◌, Bool, not, ◌&&◌, List, [], ◌∷◌, ltb, if◌then◌else◌}
use apollo_backend.Prelude.Int.{pos, ltb_ℤ}
use apollo_backend.Str.{Str, lit}
use apollo_backend.Errors.{Error, Result, ok, err, is_oauth_revoked}
use apollo_backend.Domain.{Account, LiveActivity}
use apollo_backend.Domain.Durations.{Time, second, minute, live_activity_check_interval}
use apollo_backend.Payload.{DynamicIslandNotification}
use apollo_backend.Prelude.Table.{select_where}
use apollo_backend.Exec.{
  Exec, Env, ApnsReply, failed, reply, ActivityNotification, Gateway, production, development,
  activity_sent, pure, external, emit, ◌>>=◌, ◌>>◌, deferring,
}
use apollo_backend.Repository.Accounts
use apollo_backend.Repository.LiveActivities
use apollo_backend.Reddit.Types.{Parser, Thing, ThreadResponse, RefreshTokenResponse}
use apollo_backend.Reddit.Client.{
  Transport, AuthenticatedClient, new_authenticated_client, refresh_tokens,
}
use apollo_backend.Reddit.Calls.{top_level_comments}
use apollo_backend.Scheduler.Locks.{lock_key}
use apollo_backend.Worker.Locks.{pttl, del, ack, is_zero}
use apollo_backend.Worker.Notifications.{credentials, renewed}

-- Whether the APNs clients are there, and the topic.
pub record ActivitySender : Type 0 where
  pub has_apns : Bool
  pub topic : Str

-- `t.CreatedAt.After(now.Add(-n * LiveActivityCheckInterval))`
abbrev pub is_fresh : Time → ℕ → Thing → Bool
is_fresh now n t = ltb now (t.created_at + n * live_activity_check_interval)

-- The first window, counted in check intervals, with a comment in it.
unfoldable pub widen : Time → List ℕ → List Thing → List Thing
unfolding select_where
widen now [] children = []
widen now (n ∷ ns) children =
    let wider = widen now ns children in
    elim (select_where (is_fresh now n) children) [ [] ↦ wider | t ∷ ts ↦ t ∷ ts ]

unfoldable pub candidates : Time → List Thing → List Thing
unfolding widen
candidates now children = widen now (1 ∷ 2 ∷ 4 ∷ []) children

-- `candidates[i].Score > candidates[j].Score`
unfoldable pub comes_first : Thing → Thing → Bool
comes_first a b = ltb_ℤ b.score a.score

-- sort.Slice, by its test
abbrev pub Sort : Type 0
Sort = (Thing → Thing → Bool) → List Thing → List Thing

unfoldable pub content_state : Thing → List Thing → DynamicIslandNotification
content_state post [] = record {
  post_comment_count = post.num_comments;
  post_score = post.score;
  comment_id = [];
  comment_author = [];
  comment_body = [];
  comment_age = 0;
  comment_score = pos 0;
}
content_state post (comment ∷ others) = record {
  post_comment_count = post.num_comments;
  post_score = post.score;
  comment_id = comment.id;
  comment_author = comment.author;
  comment_body = comment.body;
  comment_age = comment.created_at / second;
  comment_score = comment.score;
}

abbrev pub has_expired : Time → LiveActivity → Bool
has_expired now la = ltb la.expires_at now

abbrev pub is_running : Time → LiveActivity → Bool
is_running now la = ltb now la.expires_at

unfoldable pub event_of : Time → LiveActivity → Str
event_of now la = if has_expired now la then lit "end" else lit "update"

unfoldable pub activity_notification :
    Str → Time → LiveActivity → DynamicIslandNotification → ActivityNotification
unfolding event_of
activity_notification topic now la din = record {
  device_token = la.apns_token;
  topic = topic;
  payload = record {
    content_state = din;
    dismissal_date = la.expires_at / second;
    event = event_of now la;
    timestamp = now / second;
  };
}

unfoldable pub activity_gateway : LiveActivity → Gateway
activity_gateway la = if la.development then development else production

abbrev is_none_of : List Thing → Bool
is_none_of [] = Bool.true
is_none_of (t ∷ ts) = Bool.false

module _ (env : Env) where
  abbrev pub drop_row : Str → Exec (Unit {0})
  drop_row at = LiveActivities.delete env at >> pure tt

  unfoldable pub after_push : Str → ApnsReply → Exec (Unit {0})
  after_push at (failed e) = drop_row at
  after_push at (reply sent status reason) = if sent then pure tt else drop_row at

  unfoldable pub push_activity : Str → Gateway → ActivityNotification → Exec (Unit {0})
  unfolding after_push
  push_activity at gateway n = do
    emit (activity_sent gateway n)
    r ← external (λ i. env.activity i gateway n)
    after_push at r

  unfoldable pub end_expired : Str → Time → LiveActivity → Exec (Unit {0})
  end_expired at now la = if has_expired now la then drop_row at else pure tt

  -- After an error of Reddit: a revoked account's activity goes.
  unfoldable pub drop_if_revoked : Str → Error → Exec (Unit {0})
  unfolding is_oauth_revoked
  drop_if_revoked at e = if is_oauth_revoked e then drop_row at else pure tt

  module _ (s : ActivitySender) (sorted : Sort) where
    unfoldable pub announce :
        Str → Time → LiveActivity → ThreadResponse → List Thing → Exec (Unit {0})
    unfolding push_activity end_expired content_state activity_notification activity_gateway
        comes_first
    announce at now la tr fresh = do
      push_activity at (activity_gateway la)
          (activity_notification s.topic now la (content_state tr.post (sorted comes_first fresh)))
      end_expired at now la

    unfoldable pub commented : Str → Time → LiveActivity → Result ThreadResponse → Exec (Unit {0})
    unfolding announce candidates drop_if_revoked
    commented at now la (err e) = drop_if_revoked at e
    commented at now la (ok tr) =
        if is_none_of tr.children && is_running now la
        then pure tt
        else if is_none_of (candidates now tr.children) && is_running now la
        then pure tt
        else announce at now la tr (candidates now tr.children)

    module _ (t : Transport) (p : Parser) where
      unfoldable pub look : Str → Time → LiveActivity → AuthenticatedClient → Exec (Unit {0})
      unfolding commented
      look at now la rac =
          top_level_comments env t p rac la.subreddit la.thread_id >>= commented at now la

      unfoldable pub look_refreshed :
          Str → Time → LiveActivity → Account → Result RefreshTokenResponse → Exec (Unit {0})
      unfolding look drop_if_revoked renewed credentials
      look_refreshed at now la account (err e) = drop_if_revoked at e
      look_refreshed at now la account (ok tokens) = do
        Accounts.update env (renewed now tokens account)
        rac ← new_authenticated_client (credentials (renewed now tokens account))
        look at now la rac

      unfoldable pub look_as : Str → Time → LiveActivity → Result Account → Exec (Unit {0})
      unfolding look_refreshed look credentials
      look_as at now la (err e) = drop_row at
      look_as at now la (ok account) = do
        rac ← new_authenticated_client (credentials account)
        if ltb account.token_expires_at (now + 5 * minute)
            then refresh_tokens env t p rac >>= look_refreshed at now la account
            else look at now la rac

      unfoldable pub found : Str → Time → Result LiveActivity → Exec (Unit {0})
      unfolding look_as
      found at now (err e) = pure tt
      found at now (ok la) =
          Accounts.get_by_reddit_id env la.reddit_account_id >>= look_as at now la

      unfoldable pub update_activity : Time → Str → Exec (Unit {0})
      unfolding found
      update_activity now at =
          if not s.has_apns then drop_row at else LiveActivities.get env at >>= found at now

      -- The delivery's payload is the activity's token.
      unfoldable pub consume_activity : Str → Exec (Unit {0})
      unfolding update_activity
      consume_activity at = do
        now ← external env.now
        deferring (ack env) (do
          ttl ← pttl env (lock_key (lit "locks:live-activities") at)
          if is_zero ttl
              then pure tt
              else deferring (del env (lock_key (lit "locks:live-activities") at))
                  (update_activity now at))
