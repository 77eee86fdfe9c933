-- ===== src/Scheduler/Locks.antt =====
-- evalScript of internal/cmd/scheduler.go: the script that takes, for each argument, the key
-- `prefix:argument` for five minutes, and returns the arguments whose key was free. A key of the
-- lock server is there until its expiry.
pub mod Exclusion
use apollo_backend.Prelude.{
  ℕ, suc, ◌+◌, ◌≤◌, ◌<◌, ◌≡◌, ◌≢◌, ◌∙◌, refl, sym, ap, Bool, true, false, not, ◌&&◌, ◌||◌, List, [],
  ◌∷◌, ◌++◌, arith, ltb, if◌then◌else◌, any, All, Bool-cases, inl, inr,
}
use apollo_backend.Str.{Str, str_eq, str_eq_iff, str_eq_refl}
use apollo_backend.Domain.Durations.{Time, notification_check_timeout}
use apollo_backend.Exec.{Lock}

-- KEYS[1] .. ":" .. ARGV[i]
unfoldable pub lock_key : Str → Str → Str
lock_key prefix id = prefix ++ b':' ∷ id

unfoldable pub holds : Time → Str → Lock → Bool
holds now key l = str_eq l.key key && ltb now l.expires

unfoldable pub is_held : Time → Str → List Lock → Bool
unfolding holds
is_held now key locks = any (holds now key) locks

abbrev pub lock_until : Time → Str → Lock
lock_until now key = record { key = key; expires = now + notification_check_timeout }

-- The script, with the arguments left: what it returns and what it leaves.
unfoldable pub lock_all : Str → Time → List Str → List Lock → List Str × List Lock
unfolding lock_key is_held
lock_all prefix now [] locks = ([], locks)
lock_all prefix now (id ∷ ids) locks =
    let skip = lock_all prefix now ids locks in
    let (taken, after) = lock_all prefix now ids (lock_until now (lock_key prefix id) ∷ locks) in
    let took : List Str × List Lock = (id ∷ taken, after) in
    if is_held now (lock_key prefix id) locks then skip else took

-- DEL key
unfoldable pub unlock : Str → List Lock → List Lock
unlock key [] = []
unlock key (l ∷ ls) = let rest = unlock key ls in if str_eq l.key key then rest else l ∷ rest
