-- ===== src/Exec/Ensures.antt =====
-- What an action's result meets, whenever it returns; one rule for each way to build an action.
use apollo_backend.Errors.{Error, Result, err}
use apollo_backend.Domain.Durations.{Time}
use apollo_backend.Schema.{Db}
use apollo_backend.Prelude.{
  Option-cases, inl, inr, ◌≡◌, refl, Bool, true, false, if◌then◌else◌, arith,
}
use apollo_backend.Exec.{
  Exec, World, Outcome, returned, panicked, pure, panic, continue, ◌>>=◌, Env, statement,
}

-- Where `m` returns, its result meets `Q` in the world that it leaves.
pub record Ensures {A : Type 0} (Q : A → World → Type 0) (m : Exec A) : Type 0 where
  pub at : (w : World) (a : A) → (m w).0 ≡ returned a → Q a (m w).1

module _ {A : Type 0} {Q : A → World → Type 0} where
  pub Ensures-pure : (a : A) → ((w : World) → Q a w) → Ensures Q (pure a)
  unfolding pure
  Ensures-pure a q = record { at = λ w b e. ground (arith, q w) }

  pub Ensures-panic : Ensures Q (panic {A = A})
  unfolding panic
  Ensures-panic = record { at = λ w b e. ground arith }

  pub Ensures-if :
      (b : Bool) {m n : Exec A} → Ensures Q m → Ensures Q n → Ensures Q (if b then m else n)
  Ensures-if true km kn = km
  Ensures-if false km kn = kn

module _ {A B : Type 0} {Q : B → World → Type 0} where
  Ensures-continue :
      (f : A → Exec B) (kf : (a : A) → Ensures Q (f a)) (o : Outcome A) (w : World) (b : B)
      → (continue o f w).0 ≡ returned b
      → Q b (continue o f w).1
  Ensures-continue f kf (returned a) w b e = (kf a).at w b e
  Ensures-continue f kf panicked w b e = ground arith

  pub Ensures-bind :
      (m : Exec A) (f : A → Exec B) → ((a : A) → Ensures Q (f a)) → Ensures Q (m >>= f)
  unfolding ◌>>=◌
  Ensures-bind m f kf = record { at = λ w b e. let (o, w') = m w in Ensures-continue f kf o w' b e }

module _ {A B : Type 0} (R : A → World → Type 0) (Q : B → World → Type 0) where
  continue_from :
      (f : A → Exec B)
      (kf : (a : A) (w : World) → R a w → (b : B) → (f a w).0 ≡ returned b → Q b (f a w).1)
      (o : Outcome A) (w : World) (b : B)
      → ((a : A) → o ≡ returned a → R a w)
      → (continue o f w).0 ≡ returned b
      → Q b (continue o f w).1
  continue_from f kf (returned a) w b r e = kf a w (r a refl) b e
  continue_from f kf panicked w b r e = ground arith

  -- What the first action ensures is there for the second.
  pub Ensures-bind_from :
      (m : Exec A) (f : A → Exec B)
      → Ensures R m
      → ((a : A) (w : World) → R a w → (b : B) → (f a w).0 ≡ returned b → Q b (f a w).1)
      → Ensures Q (m >>= f)
  unfolding ◌>>=◌
  Ensures-bind_from m f km kf = record {
    at = λ w b e. let (o, w') = m w in continue_from f kf o w' b (λ a k. km.at w a k) e;
  }

module _ {A : Type 0} (R : Result A → Db → Type 0) where
  returned_as :
      (x : Result A) (db : Db) → R x db → (r : Result A) → returned x ≡ returned r → R r db
  returned_as x db h r e = ground (arith, h)

  -- A statement ensures what each run of it does, and what an error leaves.
  pub Ensures-statement :
      (env : Env) (f : Time → Db → Result A × Db)
      → ((now : Time) (db : Db) → R (f now db).0 (f now db).1)
      → ((e : Error) (db : Db) → R (err e) db)
      → Ensures (λ r w. R r w.db) (statement env f)
  unfolding statement
  Ensures-statement env f k failed = record {
    at = λ w. elim (Option-cases (env.db_error w.calls)) [
      | inl e ↦ rw (e, statement) (returned_as _ _ (k (env.now w.calls) w.db))
      | inr (x, e) ↦ rw (e, statement) (returned_as _ _ (failed x w.db))
    ];
  }
