-- ===== src/Repository/Watchers/Notifiable.antt =====
-- Whom the watchers of a subreddit or a user are looked up for.
use apollo_backend.Prelude.{
  ℕ, ◌≡◌, ◌∙◌, ap, refl, Bool, true, not, ◌&&◌, List, [], ◌∷◌, map, ◌==◌, arith, and-true, any, All,
  All-append,
}
use apollo_backend.Prelude.Keys.{any-append}
use apollo_backend.Prelude.Table.{select_where, select_where-All, join}
use apollo_backend.Domain.{
  Account, Device, Watcher, WatcherType, subreddit_watcher, user_watcher, trending_watcher,
}
use apollo_backend.Domain.Durations.{Time}
use apollo_backend.Errors.{ok}
use apollo_backend.Schema.{Db, DeviceAccountRow, WatcherRow}
use apollo_backend.Repository.Watchers.{
  watchers_where, to_watcher, joined_account, by_type_and_watchee_sql, same_type, is_open,
}

-- A property of every joined row is one of the join.
All-join :
    {A B : Type 0} (P : B → Type 0) (f : A → List B) (rows : List A)
    → All (λ r. All P (f r)) rows
    → All P (join f rows)
unfolding join
All-join P f [] h = tt
All-join P f (r ∷ rows) (k, h) = All-append P (f r) (join f rows) k (All-join P f rows h)

pub All-map :
    {A B : Type 0} (P : B → Type 0) (f : A → B) (rows : List A)
    → All (λ r. P (f r)) rows
    → All P (map f rows)
All-map P f [] h = tt
All-map P f (r ∷ rows) (k, h) = (k, All-map P f rows h)

All-of_each : {A : Type 0} (P : A → Type 0) (rows : List A) → ((r : A) → P r) → All P rows
All-of_each P [] h = tt
All-of_each P (r ∷ rows) h = (h r, All-of_each P rows h)

same_type-eq : (a b : WatcherType) → same_type a b ≡ true → a ≡ b
unfolding same_type
same_type-eq subreddit_watcher subreddit_watcher h = refl
same_type-eq subreddit_watcher user_watcher h = cc
same_type-eq subreddit_watcher trending_watcher h = cc
same_type-eq user_watcher subreddit_watcher h = cc
same_type-eq user_watcher user_watcher h = refl
same_type-eq user_watcher trending_watcher h = cc
same_type-eq trending_watcher subreddit_watcher h = cc
same_type-eq trending_watcher user_watcher h = cc
same_type-eq trending_watcher trending_watcher h = refl

-- A link of the device and the account with watcher notifications on and no mute.
abbrev pub wants : (device account : ℕ) → DeviceAccountRow → Bool
wants device account l =
    l.device_id == device && l.account_id == account && l.watcher_notifiable && not l.global_mute

-- A watcher of the type and the watchee, on a device that is linked to the account, with watcher
-- notifications on and no mute.
pub record IsNotified (db : Db) (typ : WatcherType) (id : ℕ) (w : Watcher) : Type 0 where
  pub type : w.type ≡ typ
  pub watchee : w.watchee_id ≡ id
  pub device : w.device.id ≡ w.device_id
  pub account : w.account.id ≡ w.account_id
  pub link : any (wants w.device.id w.account.id) db.devices_accounts ≡ true

joined-IsNotified :
    (db : Db) (typ : WatcherType) (id : ℕ) (row : WatcherRow) (d : Device) (a : Account)
    → (d.id == row.device_id) ≡ true
    → ((a.id == row.account_id)
        && (same_type row.type typ
            && row.watchee_id == id
            && any (is_open d a) db.devices_accounts))
      ≡ true
    → IsNotified db typ id (to_watcher db row d a)
unfolding to_watcher joined_account
joined-IsNotified db typ id row d a e k =
    let reached : Bool = any (is_open d a) db.devices_accounts in
    let right : Bool = same_type row.type typ && row.watchee_id == id && reached in
    let (same_account, rest) = and-true (a.id == row.account_id) right k in
    let (both, o) = and-true (same_type row.type typ && row.watchee_id == id) reached rest in
    record {
      type =
          same_type-eq row.type typ
            (and-true (same_type row.type typ) (row.watchee_id == id) both).0;
      watchee = ground arith;
      device = ground arith;
      account = ground arith;
      link = o;
    }

module _ {A : Type 0} where
  any_ext : (p q : A → Bool) (rows : List A) → ((r : A) → p r ≡ q r) → any p rows ≡ any q rows
  any_ext p q [] e = refl
  any_ext p q (r ∷ rows) e = rw (e r, any_ext p q rows e) refl

  any-select_where :
      (q p : A → Bool) (rows : List A) → any q (select_where p rows) ≡ any (λ r. p r && q r) rows
  unfolding select_where
  any-select_where q p [] = refl
  any-select_where q p (r ∷ rows) = ground (arith, any-select_where q p rows)

  -- What does not turn on the row stands outside.
  any_factor :
      (b c : Bool) (p h : A → Bool) (rows : List A)
      → any (λ r. (p r && (c && h r)) && b) rows ≡ ((b && c) && any (λ r. p r && h r) rows)
  any_factor b c p h [] = ground arith
  any_factor b c p h (r ∷ rows) = ground (arith, any_factor b c p h rows)

  any_factor_right :
      (b : Bool) (p h : A → Bool) (rows : List A)
      → any (λ r. p r && (b && h r)) rows ≡ (b && any (λ r. p r && h r) rows)
  any_factor_right b p h [] = ground arith
  any_factor_right b p h (r ∷ rows) = ground (arith, any_factor_right b p h rows)

module _ {A B : Type 0} (q : B → Bool) where
  any-map : (f : A → B) (rows : List A) → any q (map f rows) ≡ any (λ r. q (f r)) rows
  any-map f [] = refl
  any-map f (r ∷ rows) = rw (any-map f rows) refl

  any-join : (f : A → List B) (rows : List A) → any q (join f rows) ≡ any (λ r. any q (f r)) rows
  unfolding join
  any-join f [] = refl
  any-join f (r ∷ rows) = rw (any-append q (f r) (join f rows), any-join f rows) refl

and_assoc : (a b c : Bool) → ((a && b) && c) ≡ (a && (b && c))
and_assoc a b c = ground arith

abbrev pub type_number : WatcherType → ℕ
type_number subreddit_watcher = 0
type_number user_watcher = 1
type_number trending_watcher = 2

same_type_lem : (a b : WatcherType) → same_type a b ≡ (type_number a == type_number b)
unfolding same_type
same_type_lem subreddit_watcher subreddit_watcher = refl
same_type_lem subreddit_watcher user_watcher = refl
same_type_lem subreddit_watcher trending_watcher = refl
same_type_lem user_watcher subreddit_watcher = refl
same_type_lem user_watcher user_watcher = refl
same_type_lem user_watcher trending_watcher = refl
same_type_lem trending_watcher subreddit_watcher = refl
same_type_lem trending_watcher user_watcher = refl
same_type_lem trending_watcher trending_watcher = refl

-- A row is due to be told: it is of the type and watchee, and its device and its account are there,
-- with a link that wants watcher notifications.
abbrev pub is_due : Db → WatcherType → ℕ → WatcherRow → Bool
is_due db typ id row =
    (type_number row.type == type_number typ && row.watchee_id == id)
    && any
        (λ d.
          d.id == row.device_id
          && any
              (λ a.
                a.account.id == row.account_id && any (wants d.id a.account.id) db.devices_accounts)
              db.accounts)
        db.devices

found_exactly :
    (typ : WatcherType) (id i : ℕ) (db : Db)
    → any
        (λ w. w.id == i)
        (watchers_where
          (λ row d a.
            same_type row.type typ && row.watchee_id == id && any (is_open d a) db.devices_accounts)
          db)
      ≡ any (λ row. row.id == i && is_due db typ id row) db.watchers
unfolding watchers_where to_watcher
found_exactly typ id i db =
    let q : Watcher → Bool = λ w. w.id == i in
    any-join q _ db.watchers
    ∙ any_ext _ _ db.watchers (λ row.
      let c : Bool = same_type row.type typ && row.watchee_id == id in
      any-join q _ (select_where (λ d. d.id == row.device_id) db.devices)
      ∙ any-select_where _ _ db.devices
      ∙ any_ext _ _ db.devices (λ d.
        ap (λ b. d.id == row.device_id && b)
          (any-map q (λ a. to_watcher db row d a.account)
              (select_where
                (λ a.
                  a.account.id == row.account_id
                  && (c && any (is_open d a.account) db.devices_accounts))
                db.accounts)
            ∙ any-select_where (λ a. row.id == i) _ db.accounts
            ∙ any_factor (row.id == i) c (λ a. a.account.id == row.account_id)
                (λ a. any (is_open d a.account) db.devices_accounts) db.accounts))
      ∙ any_factor_right (row.id == i && c) (λ d. d.id == row.device_id) _ db.devices
      ∙ rw (same_type_lem row.type typ) (and_assoc (row.id == i) _ _))

-- Every watcher that a lookup by type and watchee returns is of that type and watchee, comes with
-- its own device and account, and these are linked with watcher notifications on and no mute; and
-- the lookup returns a watcher of a number exactly if a row of that number is such a one.
pub by_type_and_watchee-IsNotified :
    (typ : WatcherType) (id : ℕ) (now : Time) (db : Db)
    → (ws : List Watcher) × ((by_type_and_watchee_sql typ id now db).0 ≡ ok ws)
      × All (IsNotified db typ id) ws
      × ((i : ℕ)
          → any (λ w. w.id == i) ws ≡ any (λ row. row.id == i && is_due db typ id row) db.watchers)
unfolding by_type_and_watchee_sql watchers_where to_watcher joined_account
by_type_and_watchee-IsNotified typ id now db = (
  _,
  refl,
  All-join (IsNotified db typ id) _ db.watchers (
      All-of_each _ db.watchers (λ row. All-join (IsNotified db typ id) _ _ (
        select_where-All _ _ db.devices (λ d e. All-map (IsNotified db typ id) _ _ (
          select_where-All _ _ db.accounts
            (λ a k. joined-IsNotified db typ id row d a.account e k)))))),
  λ i. found_exactly typ id i db,
)
