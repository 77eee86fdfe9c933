-- ===== src/Repository/Settings.antt =====
-- The notification settings of internal/repository as an abstract map: what Associate and
-- Disassociate of postgres_account.go and SetNotifiable and GetNotifiable of postgres_device.go do to
-- the links of `devices_accounts`, seen as flags for an account and a device.
pub mod Rows
pub mod Refines
use apollo_backend.Prelude.{
  ℕ, ◌≡◌, refl, sym, ap, ◌∙◌, Bool, true, false, ◌&&◌, Option, none, some, List, [], ◌∷◌, ◌++◌,
  ◌==◌, if◌then◌else◌, any, All, arith, Bool-cases, Option-cases, inl, inr,
}
use apollo_backend.Prelude.Table.{select_where, update_where, delete_where, first}
use apollo_backend.Errors.{Result, ok, err}
use apollo_backend.Domain.{Account, Device}
use apollo_backend.Domain.Durations.{Time}
use apollo_backend.Schema.{Db, DeviceAccountRow}
use apollo_backend.Repository.Accounts.{links, has_id, fresh_link, associate_sql, disassociate_sql}
use apollo_backend.Repository.Devices.{with_flags, set_notifiable_sql, get_notifiable_sql}

-- inbox, watcher and global mute
abbrev pub Flags : Type 0
Flags = Bool × Bool × Bool

-- The flags of an account and a device, by their numbers.
abbrev pub Settings : Type 0
Settings = ℕ → ℕ → Option Flags

pub data SettingsOp : Type 0 where
  link unlink : (account : Account) (device : Device) → SettingsOp
  set : (account : Account) (device : Device) (flags : Flags) → SettingsOp

-- The statement behind an operation.
abbrev pub run_op : Time → SettingsOp → Db → Db
run_op now (link a d) db = (associate_sql a d now db).1
run_op now (unlink a d) db = (disassociate_sql a d now db).1
run_op now (set a d (inbox, watcher, global)) db =
    (set_notifiable_sql d a inbox watcher global now db).1

abbrev pub run_ops : Time → List SettingsOp → Db → Db
run_ops now [] db = db
run_ops now (op ∷ ops) db = run_ops now ops (run_op now op db)

-- What GetNotifiable finds.
abbrev pub found_flags : Result Flags → Option Flags
found_flags (ok f) = some f
found_flags (err e) = none

abbrev pub settings_of : Time → Db → Account → Device → Option Flags
settings_of now db a d = found_flags (get_notifiable_sql d a now db).0

abbrev pub default_flags : Option Flags → Option Flags
default_flags none = some (true, true, false)
default_flags (some f) = some f

abbrev pub replaced_flags : Flags → Option Flags → Option Flags
replaced_flags f none = none
replaced_flags f (some g) = some f

-- The operation on the map: only the entry of its account and device changes.
abbrev pub at_entry : Account → Device → (Option Flags → Option Flags) → Settings → Settings
at_entry a d f m x y = if a.id == x && d.id == y then f (m x y) else m x y

abbrev pub spec_op : SettingsOp → Settings → Settings
spec_op (link a d) m = at_entry a d default_flags m
spec_op (unlink a d) m = at_entry a d (λ o. none) m
spec_op (set a d f) m = at_entry a d (replaced_flags f) m

abbrev pub spec_ops : List SettingsOp → Settings → Settings
spec_ops [] m = m
spec_ops (op ∷ ops) m = spec_ops ops (spec_op op m)

-- The account and the device of the operation have their rows.
abbrev pub IsKnown : Db → SettingsOp → Type 0
IsKnown db (link a d) =
    (any (has_id a.id) db.accounts ≡ true) × (any (λ r. r.id == d.id) db.devices ≡ true)
IsKnown db (unlink a d) = Unit
IsKnown db (set a d f) = Unit
