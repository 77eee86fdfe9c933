-- ===== src/Exec/Keeps.antt =====
-- Invariants of actions, one rule for each way to build one.
use apollo_backend.Prelude.{
  ℕ, List, inl, inr, Option-cases, ◌≡◌, refl, Bool, true, false, if◌then◌else◌,
}
use apollo_backend.Errors.{Error, Result, ok, err}
use apollo_backend.Domain.Durations.{Time}
use apollo_backend.Schema.{Db}
use apollo_backend.Exec.{
  Exec, World, Env, Lock, Outcome, returned, panicked, pure, panic, gets, external, continue, ◌>>=◌,
  deferring, statement,
}

-- `m` keeps `P`, whether it returns or panics.
pub record Keeps {A : Type 0} (P : World → Type 0) (m : Exec A) : Type 0 where
  pub at : (w : World) → P w → P (m w).1

module _ {A : Type 0} {P : World → Type 0} where
  pub Keeps-pure : (a : A) → Keeps P (pure a)
  unfolding pure
  Keeps-pure a = record { at = λ w h. h }

  pub Keeps-panic : Keeps P (panic {A = A})
  unfolding panic
  Keeps-panic = record { at = λ w h. h }

  pub Keeps-gets : (f : World → A) → Keeps P (gets f)
  unfolding gets
  Keeps-gets f = record { at = λ w h. h }

  pub Keeps-if : (b : Bool) {m n : Exec A} → Keeps P m → Keeps P n → Keeps P (if b then m else n)
  Keeps-if true km kn = km
  Keeps-if false km kn = kn

module _ {A B : Type 0} {P : World → Type 0} where
  Keeps-continue :
      (f : A → Exec B) (kf : (a : A) → Keeps P (f a)) (o : Outcome A) (w : World)
      → P w
      → P (continue o f w).1
  Keeps-continue f kf (returned a) w h = (kf a).at w h
  Keeps-continue f kf panicked w h = h

  pub Keeps-bind :
      (m : Exec A) (f : A → Exec B) → Keeps P m → ((a : A) → Keeps P (f a)) → Keeps P (m >>= f)
  unfolding ◌>>=◌
  Keeps-bind m f km kf = record {
    at = λ w h. let (o, w') = m w in Keeps-continue f kf o w' (km.at w h);
  }

module _ {A : Type 0} {P : World → Type 0} where
  pub Keeps-deferring :
      (clean : Exec (Unit {0})) (m : Exec A)
      → Keeps P clean
      → Keeps P m
      → Keeps P (deferring clean m)
  unfolding deferring
  Keeps-deferring clean m kc km = record { at = λ w h. kc.at (m w).1 (km.at w h) }

-- A statement keeps what every run of it keeps, and what does not turn on the number of calls.
pub Keeps-statement :
    {A : Type 0} (P : Db → Type 0) (env : Env) (f : Time → Db → Result A × Db)
    → ((now : Time) (db : Db) → P db → P (f now db).1)
    → Keeps (λ w. P w.db) (statement env f)
unfolding statement
Keeps-statement P env f k = record {
  at = λ w h. elim (Option-cases (env.db_error w.calls)) [
    | inl e ↦ rw (e, statement) (k (env.now w.calls) w.db h)
    | inr (x, e) ↦ rw (e, statement) h
  ];
}

-- Predicates of the database do not see what else changes.
pub Keeps-external : {A : Type 0} (P : Db → Type 0) (f : ℕ → A) → Keeps (λ w. P w.db) (external f)
unfolding external
Keeps-external P f = record { at = λ w h. h }

-- Nor does the lock server see a question to the outside.
pub Keeps-external_locks :
    {A : Type 0} (locks : List Lock) (f : ℕ → A) → Keeps (λ w. w.locks ≡ locks) (external f)
unfolding external
Keeps-external_locks locks f = record { at = λ w h. h }

pub ruleset keeps_rules =
    (Keeps-pure, Keeps-panic, Keeps-gets, Keeps-if, Keeps-bind, Keeps-deferring)

-- A statement returns and leaves no trace.
pub statement-returns :
    {A : Type 0} (env : Env) (f : Time → Db → Result A × Db) (w : World)
    → ((x : Result A) × ((statement env f w).0 ≡ returned x))
      × ((statement env f w).1.trace ≡ w.trace)
      × ((statement env f w).1.locks ≡ w.locks)
unfolding statement
statement-returns env f w = elim (Option-cases (env.db_error w.calls)) [
  | inl e ↦ rw (e, statement) (((f (env.now w.calls) w.db).0, refl), refl, refl)
  | inr (x, e) ↦ rw (e, statement) ((err x, refl), refl, refl)
]

-- What leaves the tables as they are keeps every predicate of them.
pub Keeps-same :
    {A : Type 0} (P : Db → Type 0) (m : Exec A)
    → ((w : World) → (m w).1.db ≡ w.db)
    → Keeps (λ w. P w.db) m
Keeps-same P m same = record { at = λ w h. rw (same w) h }

-- Both outcomes of a statement.
pub Keeps-result :
    {A B : Type 0} {P : World → Type 0} (f : A → Exec B) (g : Error → Exec B)
    → ((a : A) → Keeps P (f a))
    → ((e : Error) → Keeps P (g e))
    → (r : Result A) → Keeps P (elim r as (λ x. Exec B) [ ok a ↦ f a | err e ↦ g e ])
Keeps-result f g kf kg (ok a) = kf a
Keeps-result f g kf kg (err e) = kg e
