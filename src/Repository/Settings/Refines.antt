-- ===== src/Repository/Settings/Refines.antt =====
-- The statements on the links implement the map of settings.
use apollo_backend.Prelude.{
  ℕ, ◌≡◌, refl, sym, ap, ◌∙◌, Bool, true, false, ◌&&◌, Option, none, some, List, [], ◌∷◌, ◌++◌,
  ◌==◌, any, All, arith, Bool-cases, Option-cases, inl, inr, ==_self,
}
use apollo_backend.Prelude.Table.{select_where, first}
use apollo_backend.Errors.{Result, ok, err}
use apollo_backend.Domain.{Account, Device}
use apollo_backend.Domain.Durations.{Time}
use apollo_backend.Schema.{Db, DeviceAccountRow}
use apollo_backend.Repository.Accounts.{links, has_id, fresh_link, associate_sql, disassociate_sql}
use apollo_backend.Repository.Devices.{with_flags, set_notifiable_sql, get_notifiable_sql}
use apollo_backend.Repository.Settings.{
  Flags, Settings, SettingsOp, link, unlink, set, run_op, run_ops, found_flags, settings_of,
  replaced_flags, spec_op, spec_ops, IsKnown,
}
use apollo_backend.Repository.Settings.Rows.{
  delete-same, delete-apart, changed, update-same, update-apart, append-free, append-apart,
  any-first, none-first,
}

abbrev flags_of : Option DeviceAccountRow → Option Flags
flags_of none = none
flags_of (some l) = some (l.inbox_notifiable, l.watcher_notifiable, l.global_mute)

-- The settings as the first link's flags.
settings_lem :
    (now : Time) (db : Db) (x : Account) (y : Device)
    → settings_of now db x y ≡ flags_of (first (select_where (links x.id y.id) db.devices_accounts))
unfolding get_notifiable_sql
settings_lem now db x y =
    elim (Option-cases (first (select_where (links x.id y.id) db.devices_accounts))) [
      | inl e ↦ rw (e, get_notifiable_sql) refl
      | inr (l, e) ↦ rw (e, get_notifiable_sql) refl
    ]

links_kept :
    (inbox watcher global : Bool) (x y : ℕ) (l : DeviceAccountRow)
    → links x y (with_flags inbox watcher global l) ≡ links x y l
unfolding with_flags
links_kept inbox watcher global x y l = refl

set_flags :
    (inbox watcher global : Bool) (o : Option DeviceAccountRow)
    → flags_of (changed (λ l. true) (λ l. true) (with_flags inbox watcher global) (λ l. refl) o)
      ≡ replaced_flags (inbox, watcher, global) (flags_of o)
unfolding with_flags
set_flags inbox watcher global none = refl
set_flags inbox watcher global (some l) = refl

-- Links of the same pair, and of different ones.
same_link :
    (a d x y : ℕ) (l : DeviceAccountRow) → (a == x && d == y) ≡ true → links a d l ≡ links x y l
same_link a d x y l e = ground arith

apart_link :
    (a d x y : ℕ) (l : DeviceAccountRow)
    → (a == x && d == y) ≡ false
    → links a d l ≡ true
    → links x y l ≡ false
apart_link a d x y l e h = ground arith

unlink-refines :
    (now : Time) (a : Account) (d : Device) (db : Db) (x : Account) (y : Device) (m : Settings)
    → settings_of now db x y ≡ m x.id y.id
    → settings_of now (run_op now (unlink a d) db) x y ≡ spec_op (unlink a d) m x.id y.id
unfolding disassociate_sql
unlink-refines now a d db x y m h = elim (Bool-cases (a.id == x.id && d.id == y.id)) [
  | inl e ↦
      rw (e, settings_lem now (run_op now (unlink a d) db) x y)
        (ap flags_of (
          delete-same (links x.id y.id) (links a.id d.id) db.devices_accounts
            (λ l. same_link a.id d.id x.id y.id l e)))
  | inr e ↦
      rw (e, settings_lem now (run_op now (unlink a d) db) x y)
        (ap flags_of (
            delete-apart (links x.id y.id) (links a.id d.id) db.devices_accounts
              (λ l. apart_link a.id d.id x.id y.id l e))
          ∙ sym (settings_lem now db x y)
          ∙ h)
]

set-refines :
    (now : Time) (a : Account) (d : Device) (f : Flags) (db : Db) (x : Account) (y : Device)
    (m : Settings)
    → settings_of now db x y ≡ m x.id y.id
    → settings_of now (run_op now (set a d f) db) x y ≡ spec_op (set a d f) m x.id y.id
unfolding set_notifiable_sql
set-refines now a d (inbox, watcher, global) db x y m h =
    let p = links x.id y.id in
    let op = set a d (inbox, watcher, global) in
    let seen : (l : DeviceAccountRow) → p (with_flags inbox watcher global l) ≡ p l =
      λ l. links_kept inbox watcher global x.id y.id l in
    let before = sym (settings_lem now db x y) ∙ h in
    elim (Bool-cases (a.id == x.id && d.id == y.id)) [
      | inl e ↦
          rw (e, settings_lem now (run_op now op db) x y)
            (ap flags_of (
                update-same p (links a.id d.id) (with_flags inbox watcher global) seen
                  db.devices_accounts (λ l. same_link a.id d.id x.id y.id l e))
              ∙ set_flags inbox watcher global (first (select_where p db.devices_accounts))
              ∙ ap (replaced_flags (inbox, watcher, global)) before)
      | inr e ↦
          rw (e, settings_lem now (run_op now op db) x y)
            (ap flags_of (
                update-apart p (links a.id d.id) (with_flags inbox watcher global) seen
                  db.devices_accounts (λ l. apart_link a.id d.id x.id y.id l e))
              ∙ before)
    ]

fresh-links : (a d : ℕ) → links a d (fresh_link a d) ≡ true
fresh-links a d = ground arith

fresh-apart : (a d x y : ℕ) → (a == x && d == y) ≡ false → links x y (fresh_link a d) ≡ false
fresh-apart a d x y e = ground arith

associate-there :
    (now : Time) (a : Account) (d : Device) (db : Db)
    → any (links a.id d.id) db.devices_accounts ≡ true
    → run_op now (link a d) db ≡ db
unfolding associate_sql
associate-there now a d db there = rw (there, run_op) refl

associate-free :
    (now : Time) (a : Account) (d : Device) (db : Db)
    → any (links a.id d.id) db.devices_accounts ≡ false
    → any (has_id a.id) db.accounts ≡ true
    → any (λ r. r.id == d.id) db.devices ≡ true
    → run_op now (link a d) db
      ≡ record db { devices_accounts = db.devices_accounts ++ fresh_link a.id d.id ∷ [] }
unfolding associate_sql
associate-free now a d db free known_a known_d = rw (free, known_a, known_d, run_op) refl

same_ids : (a d x y : ℕ) → (a == x && d == y) ≡ true → (a ≡ x) × (d ≡ y)
same_ids a d x y e = ground arith

link-refines :
    (now : Time) (a : Account) (d : Device) (db : Db) (x : Account) (y : Device) (m : Settings)
    → IsKnown db (link a d)
    → settings_of now db x y ≡ m x.id y.id
    → settings_of now (run_op now (link a d) db) x y ≡ spec_op (link a d) m x.id y.id
link-refines now a d db x y m (known_a, known_d) h =
    let p = links x.id y.id in
    let rows = db.devices_accounts in
    let added : Db = record db { devices_accounts = rows ++ fresh_link a.id d.id ∷ [] } in
    let before = sym (settings_lem now db x y) ∙ h in
    elim (Bool-cases (any (links a.id d.id) rows)) [
      | inl there ↦ elim (Bool-cases (a.id == x.id && d.id == y.id)) [
        | inl e ↦
            let (ax, dy) = same_ids a.id d.id x.id y.id e in
            let there' : any p rows ≡ true = rw (sym ax, sym dy) there in
            let (l, k) = any-first p rows there' in
            let some_flags : m x.id y.id ≡ flags_of (some l) = sym before ∙ ap flags_of k in
            rw (associate-there now a d db there, e, some_flags)
              (settings_lem now db x y ∙ ap flags_of k)
        | inr e ↦ rw (associate-there now a d db there, e) h
      ]
      | inr free ↦
          rw (associate-free now a d db free known_a known_d, settings_lem now added x y)
            (elim (Bool-cases (a.id == x.id && d.id == y.id)) [
              | inl e ↦
                  let (ax, dy) = same_ids a.id d.id x.id y.id e in
                  let free' : any p rows ≡ false = rw (sym ax, sym dy) free in
                  let linked : p (fresh_link a.id d.id) ≡ true =
                    rw (ax, dy) (fresh-links x.id y.id) in
                  let no_flags : m x.id y.id ≡ none =
                    sym before ∙ ap flags_of (none-first p rows free') in
                  rw (e, no_flags)
                    (ap flags_of (append-free p rows (fresh_link a.id d.id) free' linked))
              | inr e ↦ rw e (
                  ap flags_of
                    (append-apart p rows (fresh_link a.id d.id) (fresh-apart a.id d.id x.id y.id e))
                  ∙ before)
            ])
    ]

op-refines :
    (now : Time) (op : SettingsOp) (db : Db) (x : Account) (y : Device) (m : Settings)
    → IsKnown db op
    → settings_of now db x y ≡ m x.id y.id
    → settings_of now (run_op now op db) x y ≡ spec_op op m x.id y.id
op-refines now (link a d) db x y m k h = link-refines now a d db x y m k h
op-refines now (unlink a d) db x y m k h = unlink-refines now a d db x y m h
op-refines now (set a d f) db x y m k h = set-refines now a d f db x y m h

-- No operation on the links touches the accounts and the devices.
op-rows :
    (now : Time) (op : SettingsOp) (db : Db)
    → IsKnown db op
    → ((run_op now op db).accounts ≡ db.accounts) × ((run_op now op db).devices ≡ db.devices)
unfolding disassociate_sql set_notifiable_sql
op-rows now (link a d) db (known_a, known_d) =
    elim (Bool-cases (any (links a.id d.id) db.devices_accounts)) [
      | inl there ↦ rw (associate-there now a d db there) (refl, refl)
      | inr free ↦ rw (associate-free now a d db free known_a known_d) (refl, refl)
    ]
op-rows now (unlink a d) db k = (refl, refl)
op-rows now (set a d (inbox, watcher, global)) db k = (refl, refl)

IsKnown-after :
    (db db' : Db)
    → (db'.accounts ≡ db.accounts) × (db'.devices ≡ db.devices)
    → (ops : List SettingsOp) → All (IsKnown db) ops
    → All (IsKnown db') ops
IsKnown-after db db' same [] k = tt
IsKnown-after db db' (sa, sd) (link a d ∷ ops) ((ka, kd), k) =
    ((rw sa ka, rw sd kd), IsKnown-after db db' (sa, sd) ops k)
IsKnown-after db db' same (unlink a d ∷ ops) (u, k) = (tt, IsKnown-after db db' same ops k)
IsKnown-after db db' same (set a d f ∷ ops) (u, k) = (tt, IsKnown-after db db' same ops k)

-- Any sequence of associations, disassociations and changes of settings, for accounts and devices
-- that have their rows, does to what GetNotifiable finds for a pair exactly what it does to an
-- abstract map from pairs to flags: an association adds the default flags where there are none, a
-- disassociation takes the entry away, and a change replaces an entry that is there.
pub run_ops-refines :
    (now : Time) (ops : List SettingsOp) (db : Db) (m : Settings)
    → All (IsKnown db) ops
    → ((x : Account) (y : Device) → settings_of now db x y ≡ m x.id y.id)
    → (x : Account) (y : Device)
    → settings_of now (run_ops now ops db) x y ≡ spec_ops ops m x.id y.id
run_ops-refines now [] db m k h x y = h x y
run_ops-refines now (op ∷ ops) db m (k, ks) h x y =
    run_ops-refines now ops (run_op now op db) (spec_op op m)
      (IsKnown-after db (run_op now op db) (op-rows now op db k) ops ks)
      (λ x' y'. op-refines now op db x' y' m k (h x' y')) x y

flags_found : (r : Result Flags) (f : Flags) → found_flags r ≡ some f → r ≡ ok f
flags_found (ok g) f e = ground arith
flags_found (err x) f e = ground arith

set_now :
    (now t : Time) (a : Account) (d : Device) (f : Flags) (db : Db)
    → run_op now (set a d f) db ≡ run_op t (set a d f) db
unfolding set_notifiable_sql
set_now now t a d (inbox, watcher, global) db = refl

set_entry :
    (a : Account) (d : Device) (f g : Flags)
    → (a.id == a.id && d.id == d.id) ≡ true
    → spec_op (set a d f) (λ x y. some g) a.id d.id ≡ some f
set_entry a d f g same = rw same refl

-- Behind a change of a pair that is linked, GetNotifiable finds the flags that were set.
pub set-found :
    (now t : Time) (a : Account) (d : Device) (f : Flags) (db : Db)
    → any (links a.id d.id) db.devices_accounts ≡ true
    → (get_notifiable_sql d a t (run_op now (set a d f) db)).0 ≡ ok f
set-found now t a d f db linked =
    let (l, k) = any-first (links a.id d.id) db.devices_accounts linked in
    let m : Settings = λ x y. flags_of (some l) in
    let h : settings_of t db a d ≡ m a.id d.id = settings_lem t db a d ∙ ap flags_of k in
    let same : (a.id == a.id && d.id == d.id) ≡ true = rw (==_self a.id, ==_self d.id) refl in
    flags_found _ f (
      ap (λ db'. settings_of t db' a d) (set_now now t a d f db)
      ∙ set-refines t a d f db a d m h
      ∙ set_entry a d f (l.inbox_notifiable, l.watcher_notifiable, l.global_mute) same)
