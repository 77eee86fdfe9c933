-- ===== src/Api/Watchers/Ownership.antt =====
-- deleteWatcherHandler and the watchers of other devices.
use apollo_backend.Prelude.{
  ℕ, ◌+◌, ◌≡◌, refl, Bool, true, false, not, ◌&&◌, Bool-cases, Option-cases, inl, inr, List, [],
  ◌∷◌, ◌==◌, ==_iff, and-true, any, All, All-append, if◌then◌else◌, arith,
}
use apollo_backend.Prelude.Int.{pos, negsuc}
use apollo_backend.Prelude.Keys.{Unique, Absent}
use apollo_backend.Prelude.Table.{select_where, delete_where, join, select_where-All}
use apollo_backend.Str.{Str, str_eq}
use apollo_backend.Domain.{Watcher}
use apollo_backend.Schema.{Db, WatcherRow}
use apollo_backend.Exec.{Env, World, pure, statement, ◌>>=◌}
use apollo_backend.Repository.Accounts.{first_or_not_found}
use apollo_backend.Repository.Watchers.{
  watchers_where, to_watcher, watcher_by_id_sql, delete_watcher, delete_watcher_sql,
}
use apollo_backend.Repository.Watchers.Notifiable.{All-map}
use apollo_backend.Worker.ParseInt.{parse_int}
use apollo_backend.Worker.Watching.{row_of}
use apollo_backend.Api.Responses.{or_fail, failure}
use apollo_backend.Api.Watchers.Requests.{wrong_device}
use apollo_backend.Api.Watchers.{with_watcher, delete_row, delete_watcher_handler}

All-weaken :
    {A : Type 0} (P R : A → Type 0) → ((a : A) → P a → R a) → (l : List A) → All P l → All R l
All-weaken P R f [] h = tt
All-weaken P R f (a ∷ l) (k, h) = (f a k, All-weaken P R f l h)

module _ {A B : Type 0} (Q : B → Type 0) where
  -- What a join finds is found by one of the rows.
  found_by :
      (g : A → Bool) (f : A → List B) (rows : List A)
      → ((r : A) → All (λ x. Q x → g r ≡ true) (f r))
      → All (λ x. Q x → any g rows ≡ true) (join f rows)
  unfolding join
  found_by g f [] h = tt
  found_by g f (r ∷ rows) h =
      All-append (λ x. Q x → any g (r ∷ rows) ≡ true) (f r) (join f rows)
        (All-weaken _ _ (λ x k q. let e = k q in ground arith) (f r) (h r))
        (All-weaken _ _ (λ x k q. let e = k q in ground arith) (join f rows) (found_by g f rows h))

picked_any :
    {A : Type 0} (b : Bool) (sel tok : A → Bool) (rows : List A)
    → any (λ r. b && tok r) (select_where sel rows) ≡ true
    → (b && any (λ r. sel r && tok r) rows) ≡ true
unfolding select_where
picked_any b sel tok [] h = ground arith
picked_any b sel tok (r ∷ rows) h = ground (arith, picked_any b sel tok rows)

no_match :
    (id : ℕ) (rows : List WatcherRow)
    → Absent (λ r. r.id) id rows
    → (delete_where (λ r. r.id == id) rows ≡ rows)
      × ((g : WatcherRow → Bool) → any (λ r. r.id == id && g r) rows ≡ false)
unfolding delete_where
no_match id [] a = (refl, λ g. refl)
no_match id (r ∷ rows) (n, a) = elim (Bool-cases (r.id == id)) [
  | inl e ↦ absurd (n ((==_iff _ _).0 e))
  | inr e ↦ let (kept, rest) = no_match id rows a in rw (e, kept) (refl, λ g. rest g)
]

-- Where the row with the number is one of the device's, the rows that are not are left.
spared :
    (id : ℕ) (own : WatcherRow → Bool) (rows : List WatcherRow)
    → Unique (λ r. r.id) rows
    → any (λ r. r.id == id && own r) rows ≡ true
    → select_where (λ r. not (own r)) (delete_where (λ r. r.id == id) rows)
      ≡ select_where (λ r. not (own r)) rows
unfolding select_where delete_where
spared id own [] u h = refl
spared id own (r ∷ rows) (a, u) h = elim (Bool-cases (r.id == id)) [
  | inl e ↦
      let (kept, none_left) = no_match id rows (rw (← (==_iff _ _).0 e) a) in
      let rest : any (λ x. x.id == id && own x) rows ≡ false = none_left own in
      let owned : own r ≡ true = ground arith in rw (e, owned, kept) refl
  | inr e ↦ rw (e, spared id own rows u (ground arith)) refl
]

-- The device of the path owns the row.
abbrev pub owned_by : Str → Db → WatcherRow → Bool
owned_by apns db row = any (λ d. d.id == row.device_id && str_eq d.apns_token apns) db.devices

-- What the look-up of a number finds for the device is a row of the device's.
found-owned :
    (apns : Str) (id : ℕ) (db : Db)
    → All
        (λ w.
          str_eq w.device.apns_token apns ≡ true
          → any (λ row. row.id == id && owned_by apns db row) db.watchers ≡ true)
        (watchers_where (λ row d a. row.id == id) db)
unfolding watchers_where to_watcher
found-owned apns id db =
    let Q : Watcher → Type 0 = λ w. str_eq w.device.apns_token apns ≡ true in
    found_by Q (λ row. row.id == id && owned_by apns db row) _ db.watchers
      (λ row.
        All-weaken
          (λ w.
            Q w
            → any (λ d. row.id == id && str_eq d.apns_token apns)
                (select_where (λ d. d.id == row.device_id) db.devices)
              ≡ true)
          _
          (λ w k q.
            picked_any (row.id == id) (λ d. d.id == row.device_id) (λ d. str_eq d.apns_token apns)
              db.devices (k q))
          _
          (found_by Q (λ d. row.id == id && str_eq d.apns_token apns) _ _
            (λ d. All-map _ _ _ (
              select_where-All _ _ db.accounts (λ a k q.
                let (same_account, same_row) = and-true (a.account.id == row.account_id) _ k in
                rw (same_row, q) refl)))))

-- All but the watchers of the device is as it was.
abbrev pub IsSpared : (apns : Str) (before after : Db) → Type 0
IsSpared apns before after =
    (record after { watchers = [] } ≡ record before { watchers = [] })
    × (select_where (λ row. not (owned_by apns before row)) after.watchers
        ≡ select_where (λ row. not (owned_by apns before row)) before.watchers)

module _ (env : Env) (apns : Str) where
  delete_row-IsSpared :
      (id : ℕ) (w : World)
      → Unique (λ r. r.id) w.db.watchers
      → any (λ row. row.id == id && owned_by apns w.db row) w.db.watchers ≡ true
      → IsSpared apns w.db (delete_row env (pos id) w).1.db
  unfolding delete_row delete_watcher delete_watcher_sql statement ◌>>=◌
  delete_row-IsSpared id w u h = elim (Option-cases (env.db_error w.calls)) [
    | inl e ↦ rw e (refl, spared id (owned_by apns w.db) w.db.watchers u h)
    | inr (x, e) ↦ rw e (refl, refl)
  ]

  matched-IsSpared :
      (id : ℕ) (ws : List Watcher) (w : World)
      → Unique (λ r. r.id) w.db.watchers
      → All
          (λ x.
            str_eq x.device.apns_token apns ≡ true
            → any (λ row. row.id == id && owned_by apns w.db row) w.db.watchers ≡ true)
          ws
      → IsSpared apns w.db
          (or_fail 422
            (first_or_not_found ws)
            (λ x.
              if str_eq x.device.apns_token apns
              then delete_row env (pos id)
              else pure (failure 422 wrong_device))
            w).1.db
  unfolding or_fail first_or_not_found ◌>>=◌
  matched-IsSpared id [] w u h = (refl, refl)
  matched-IsSpared id (x ∷ ws) w u (k, h) = elim (Bool-cases (str_eq x.device.apns_token apns)) [
    | inl e ↦ rw e (delete_row-IsSpared id w u (k e))
    | inr e ↦ rw e (refl, refl)
  ]

  -- Whatever number the path of a deletion names and whichever statements fail, the watchers of
  -- all devices but those with the token of the path stay as they were, in their order, and no other
  -- table changes; the numbers of the watchers are unique here.
  pub delete_watcher_handler-spares_others :
      (wid : Str) (w : World)
      → Unique (λ r. r.id) w.db.watchers
      → IsSpared apns w.db (delete_watcher_handler env wid apns w).1.db
  unfolding delete_watcher_handler with_watcher row_of watcher_by_id_sql statement ◌>>=◌
  delete_watcher_handler-spares_others wid w u = elim (Option-cases (parse_int wid)) [
    | inl i ↦ rw (i, delete_watcher_handler, with_watcher) (refl, refl)
    | inr (negsuc n, i) ↦ elim (Option-cases (env.db_error w.calls)) [
      | inl e ↦ rw (i, e, delete_watcher_handler, with_watcher, row_of, statement) (refl, refl)
      | inr (x, e) ↦ rw (i, e, delete_watcher_handler, with_watcher, row_of, statement) (refl, refl)
    ]
    | inr (pos id, i) ↦ elim (Option-cases (env.db_error w.calls)) [
      | inl e ↦
          rw (i, e, delete_watcher_handler, with_watcher, row_of, statement)
            (matched-IsSpared id (watchers_where (λ row d a. row.id == id) w.db)
              (record w { calls = w.calls + 1 }) u (found-owned apns id w.db))
      | inr (x, e) ↦ rw (i, e, delete_watcher_handler, with_watcher, row_of, statement) (refl, refl)
    ]
  ]
