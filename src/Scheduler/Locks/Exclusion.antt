-- ===== src/Scheduler/Locks/Exclusion.antt =====
-- The locks are exclusive: an id that was handed out is not handed out again before its lock expires
-- or is deleted.
use apollo_backend.Prelude.{
  ◌+◌, ◌<◌, ◌≡◌, refl, true, false, not, ◌&&◌, ◌++◌, List, [], ◌∷◌, arith, lt→ltb, any, All,
  All-map_pred, Bool-cases, inl, inr,
}
use apollo_backend.Str.{Str, str_eq, str_eq_iff, str_eq_refl}
use apollo_backend.Domain.Durations.{Time, notification_check_timeout}
use apollo_backend.Exec.{Lock}
use apollo_backend.Scheduler.Locks.{lock_key, is_held, lock_until, lock_all, unlock}

held_at_once :
    (now t : Time) (key : Str) (locks : List Lock)
    → t < now + notification_check_timeout
    → is_held t key (lock_until now key ∷ locks) ≡ true
unfolding is_held
held_at_once now t key locks h = rw (str_eq_refl key, lt→ltb _ _ h) refl

is_held-cons :
    (t : Time) (key : Str) (l : Lock) (locks : List Lock)
    → is_held t key locks ≡ true
    → is_held t key (l ∷ locks) ≡ true
unfolding is_held
is_held-cons t key l locks h = ground arith

-- Locks that are held stay held when a key is taken, and until they expire.
module _ (prefix : Str) (now : Time) where
  pub is_held-lock_all :
      (t : Time) (key : Str) (ids : List Str) (locks : List Lock)
      → is_held t key locks ≡ true
      → is_held t key (lock_all prefix now ids locks).1 ≡ true
  unfolding lock_all
  is_held-lock_all t key [] locks h = h
  is_held-lock_all t key (id ∷ ids) locks h =
      elim (Bool-cases (is_held now (lock_key prefix id) locks)) [
        | inl e ↦ rw e (is_held-lock_all t key ids locks h)
        | inr e ↦ rw e (
            is_held-lock_all t key ids (lock_until now (lock_key prefix id) ∷ locks)
              (is_held-cons t key _ locks h))
      ]

  -- What was returned was free, and is held for five minutes from now on.
  pub taken-held :
      (t : Time) (ids : List Str) (locks : List Lock)
      → t < now + notification_check_timeout
      → All
          (λ id. is_held t (lock_key prefix id) (lock_all prefix now ids locks).1 ≡ true)
          (lock_all prefix now ids locks).0
  unfolding lock_all
  taken-held t [] locks h = tt
  taken-held t (id ∷ ids) locks h = elim (Bool-cases (is_held now (lock_key prefix id) locks)) [
    | inl e ↦ rw e (taken-held t ids locks h)
    | inr e ↦ rw e (
      is_held-lock_all t (lock_key prefix id) ids (lock_until now (lock_key prefix id) ∷ locks)
          (held_at_once now t (lock_key prefix id) locks h),
      taken-held t ids (lock_until now (lock_key prefix id) ∷ locks) h,
    )
  ]

  -- An id whose key is held is not returned.
  pub held-not_taken :
      (id : Str) (ids : List Str) (locks : List Lock)
      → is_held now (lock_key prefix id) locks ≡ true
      → any (str_eq id) (lock_all prefix now ids locks).0 ≡ false
  unfolding lock_all
  held-not_taken id [] locks h = refl
  held-not_taken id (x ∷ ids) locks h = elim (Bool-cases (is_held now (lock_key prefix x) locks)) [
    | inl e ↦ rw e (held-not_taken id ids locks h)
    | inr e ↦ elim (Bool-cases (str_eq id x)) [
      | inl s ↦ cc ((str_eq_iff id x).0 s)
      | inr s ↦
          rw (e, s)
            (held-not_taken id ids (lock_until now (lock_key prefix x) ∷ locks)
              (is_held-cons now (lock_key prefix id) _ locks h))
    ]
  ]

-- Further runs of the script: prefixes, times and arguments.
pub after_runs : List (Str × Time × List Str) → List Lock → List Lock
after_runs [] locks = locks
after_runs ((prefix, now, ids) ∷ runs) locks = after_runs runs (lock_all prefix now ids locks).1

is_held-after_runs :
    (t : Time) (key : Str) (runs : List (Str × Time × List Str)) (locks : List Lock)
    → is_held t key locks ≡ true
    → is_held t key (after_runs runs locks) ≡ true
unfolding after_runs
is_held-after_runs t key [] locks h = h
is_held-after_runs t key ((prefix, now, ids) ∷ runs) locks h =
    is_held-after_runs t key runs _ (is_held-lock_all prefix now t key ids locks h)

-- Whatever the script is run with in between, at whatever times, an id that it returned at `now` is
-- not returned again by a run under the same prefix at a time before `now` plus five minutes.
pub lock_all-exclusive :
    (prefix : Str) (now t : Time) (ids again : List Str) (locks : List Lock)
    (runs : List (Str × Time × List Str))
    → t < now + notification_check_timeout
    → All
        (λ id.
          any
            (str_eq id)
            (lock_all prefix t again (after_runs runs (lock_all prefix now ids locks).1)).0
          ≡ false)
        (lock_all prefix now ids locks).0
lock_all-exclusive prefix now t ids again locks runs h =
    All-map_pred (λ id. is_held t (lock_key prefix id) (lock_all prefix now ids locks).1 ≡ true)
      (λ id.
        any (str_eq id)
          (lock_all prefix t again (after_runs runs (lock_all prefix now ids locks).1)).0
        ≡ false)
      (λ id k.
        held-not_taken prefix t id again _ (is_held-after_runs t (lock_key prefix id) runs _ k))
      (lock_all prefix now ids locks).0 (taken-held prefix now t ids locks h)

-- A key that was deleted is free.
pub is_held-unlock :
    (t : Time) (key : Str) (locks : List Lock) → is_held t key (unlock key locks) ≡ false
unfolding is_held unlock
is_held-unlock t key [] = refl
is_held-unlock t key (l ∷ locks) = elim (Bool-cases (str_eq l.key key)) [
  | inl e ↦ rw e (is_held-unlock t key locks)
  | inr e ↦ rw (e, e) (is_held-unlock t key locks)
]

str_eq-append : (p s t : Str) → str_eq (p ++ s) (p ++ t) ≡ str_eq s t
unfolding str_eq
str_eq-append [] s t = refl
str_eq-append (c ∷ p) s t = ground (arith, str_eq-append p s t)

str_eq-apart : (a b : Str) → str_eq a b ≡ false → str_eq b a ≡ false
str_eq-apart a b h = elim (Bool-cases (str_eq b a)) [
  | inl e ↦ let t : str_eq a b ≡ true = rw ((str_eq_iff b a).0 e) (str_eq_refl a) in ground arith
  | inr e ↦ e
]

-- The key of another id is as it was.
is_held-other :
    (prefix : Str) (now : Time) (id x : Str) (locks : List Lock)
    → str_eq x id ≡ false
    → is_held now (lock_key prefix id) (lock_until now (lock_key prefix x) ∷ locks)
      ≡ is_held now (lock_key prefix id) locks
unfolding is_held lock_key str_eq
is_held-other prefix now id x locks h = rw (str_eq-append prefix (b':' ∷ x) (b':' ∷ id)) (rw h refl)

handed_out :
    (prefix : Str) (now : Time) (id : Str) (ids : List Str) (locks : List Lock)
    → any (str_eq id) (lock_all prefix now ids locks).0
      ≡ (any (str_eq id) ids && not (is_held now (lock_key prefix id) locks))
unfolding lock_all
handed_out prefix now id [] locks = refl
handed_out prefix now id (x ∷ ids) locks =
    let after : List Lock = lock_until now (lock_key prefix x) ∷ locks in
    elim (Bool-cases (is_held now (lock_key prefix x) locks)) [
      | inl e ↦ elim (Bool-cases (str_eq id x)) [
        | inl s ↦
            let held : is_held now (lock_key prefix id) locks ≡ true =
              rw ((str_eq_iff id x).0 s) e in
            rw (e, s, held) (held-not_taken prefix now id ids locks held)
        | inr s ↦ rw (e, s) (handed_out prefix now id ids locks)
      ]
      | inr e ↦ elim (Bool-cases (str_eq id x)) [
        | inl s ↦
            let free : is_held now (lock_key prefix id) locks ≡ false =
              rw ((str_eq_iff id x).0 s) e in
            rw (e, s, free) refl
        | inr s ↦
            rw
              (
                e,
                s,
                handed_out prefix now id ids after,
                is_held-other prefix now id x locks (str_eq-apart id x s),
              )
              refl
      ]
    ]

-- Whatever ids the script is run with, it hands out an id exactly when that is one of them and its key
-- is free; so it does after the id's lock was deleted, whoever holds the others.
pub lock_all-released :
    (prefix : Str) (now : Time) (id : Str) (ids : List Str) (locks : List Lock)
    → (any (str_eq id) (lock_all prefix now ids locks).0
        ≡ (any (str_eq id) ids && not (is_held now (lock_key prefix id) locks)))
      × (any (str_eq id) (lock_all prefix now ids (unlock (lock_key prefix id) locks)).0
          ≡ any (str_eq id) ids)
unfolding lock_all
lock_all-released prefix now id ids locks = (
  handed_out prefix now id ids locks,
  rw (handed_out prefix now id ids _, is_held-unlock now (lock_key prefix id) locks) (ground arith),
)
