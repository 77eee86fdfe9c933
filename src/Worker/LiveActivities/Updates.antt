-- ===== src/Worker/LiveActivities/Updates.antt =====
-- What a live activity is sent, and which rows go then.
use apollo_backend.Prelude.{
  ℕ, ◌+◌, ◌/◌, ◌≡◌, ltb, ◌∙◌, ap, refl, Bool, true, false, not, ◌||◌, none, List, [], ◌∷◌,
  if◌then◌else◌, Bool-cases, inl, inr,
}
use apollo_backend.Schema.{Db}
use apollo_backend.Prelude.Table.{delete_where}
use apollo_backend.Str.{Str, lit}
use apollo_backend.Domain.{LiveActivity}
use apollo_backend.Domain.Durations.{Time, second}
use apollo_backend.Exec.{
  Env, World, ActivityNotification, ApnsReply, failed, reply, Gateway, production, development,
  activity_sent, returned, ◌>>=◌, statement,
}
use apollo_backend.Repository.LiveActivities.{has_token, delete_sql}
use apollo_backend.Repository.LiveActivities
use apollo_backend.Reddit.Types.{Thing, ThreadResponse}
use apollo_backend.Worker.LiveActivities.{
  ActivitySender, Sort, comes_first, drop_row, content_state, has_expired, activity_notification,
  activity_gateway, after_push, push_activity, end_expired, announce,
}

-- APNs took the push.
unfoldable pub is_delivered : ApnsReply → Bool
is_delivered (failed e) = false
is_delivered (reply sent status reason) = sent

delete_twice :
    {A : Type 0} (p : A → Bool) (rows : List A)
    → delete_where p (delete_where p rows) ≡ delete_where p rows
unfolding delete_where
delete_twice p [] = refl
delete_twice p (r ∷ rows) = elim (Bool-cases (p r)) [
  | inl e ↦ rw e (delete_twice p rows)
  | inr e ↦ rw (e, e) (ap (λ rest. r ∷ rest) (delete_twice p rows))
]

abbrev pub without_row : Str → Db → Db
without_row at db = record db { live_activities = delete_where (has_token at) db.live_activities }

module _ (env : Env) (up : (i : ℕ) → env.db_error i ≡ none) (at : Str) where
  -- The world without the activity's row.
  abbrev dropped : World → World
  dropped w = record w { db = without_row at w.db; calls = w.calls + 1 }

  abbrev dropped_if : Bool → World → World
  dropped_if b w = if b then dropped w else w

  drop_row_lem : (w : World) → drop_row env at w ≡ (returned tt, dropped w)
  unfolding LiveActivities.delete statement delete_where delete_sql ◌>>=◌
  drop_row_lem w = rw (up w.calls, statement) refl

  after_push_lem :
      (r : ApnsReply) (w : World)
      → after_push env at r w ≡ (returned tt, dropped_if (not (is_delivered r)) w)
  unfolding after_push is_delivered ◌>>=◌
  after_push_lem (failed e) w = drop_row_lem w
  after_push_lem (reply true status reason) w = refl
  after_push_lem (reply false status reason) w = drop_row_lem w

  end_expired_lem :
      (now : Time) (la : LiveActivity) (w : World)
      → end_expired env at now la w ≡ (returned tt, dropped_if (has_expired now la) w)
  unfolding end_expired ◌>>=◌
  end_expired_lem now la w = elim (Bool-cases (has_expired now la)) [
    | inl e ↦ rw e (drop_row_lem w)
    | inr e ↦ rw e refl
  ]

  both :
      (b d : Bool) (w : World)
      → ((dropped_if b (dropped_if d w)).trace ≡ w.trace)
        × ((dropped_if b (dropped_if d w)).db ≡ (dropped_if (b || d) w).db)
  both true true w = (
    refl,
    ap (λ rows. record (w.db) { live_activities = rows })
        (delete_twice (has_token at) w.db.live_activities),
  )
  both true false w = (refl, refl)
  both false true w = (refl, refl)
  both false false w = (refl, refl)

  db_of : (b : Bool) (w : World) → (dropped_if b w).db ≡ (if b then without_row at w.db else w.db)
  db_of true w = refl
  db_of false w = refl

  -- A run of the activity pushes once, to the development gateway if the activity is of a development
  -- build and to the production one if not, with the event "end" if it has expired and "update" if
  -- not; and its row goes, and nothing else of the database, exactly if APNs did not take the push or
  -- the activity has expired. The database answers here.
  pub announce-updates :
      (s : ActivitySender) (sorted : Sort) (now : Time) (la : LiveActivity) (tr : ThreadResponse)
      (fresh : List Thing) (w : World)
      → let expired = ltb la.expires_at now in
        let gateway : Gateway = if la.development then development else production in
        let n : ActivityNotification = record {
          device_token = la.apns_token;
          topic = s.topic;
          payload = record {
            content_state = content_state tr.post (sorted comes_first fresh);
            dismissal_date = la.expires_at / second;
            event = if expired then lit "end" else lit "update";
            timestamp = now / second;
          };
        } in
        ((announce env s sorted at now la tr fresh w).0 ≡ returned tt)
        × ((announce env s sorted at now la tr fresh w).1.trace ≡ activity_sent gateway n ∷ w.trace)
        × ((announce env s sorted at now la tr fresh w).1.db ≡ (
            if expired || not (is_delivered (env.activity w.calls gateway n))
            then without_row at w.db
            else w.db))
  unfolding announce push_activity activity_notification activity_gateway ◌>>=◌
  announce-updates s sorted now la tr fresh w =
      let n =
        activity_notification s.topic now la (content_state tr.post (sorted comes_first fresh)) in
      let gateway = activity_gateway la in
      let r = env.activity w.calls gateway n in
      let sent : World = record w {
        trace = activity_sent gateway n ∷ w.trace;
        calls = w.calls + 1;
      } in
      let (trace, db) = both (has_expired now la) (not (is_delivered r)) sent in
      rw (after_push_lem r sent, end_expired_lem now la (dropped_if (not (is_delivered r)) sent))
        (refl, trace, db ∙ db_of (has_expired now la || not (is_delivered r)) sent)
