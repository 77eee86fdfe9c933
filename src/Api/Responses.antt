-- ===== src/Api/Responses.antt =====
-- internal/api/errors.go: what a handler answers. `failure` is errorResponse; of an error that
-- fmt.Errorf wraps, the wrapped one is kept.
use apollo_backend.Prelude.{ℕ}
use apollo_backend.Errors.{Error, Result, ok, err}
use apollo_backend.Exec.{Exec, pure}

pub data Response (A : Type 0) : Type 0 where
  success : A → Response A
  failure : (status : ℕ) (error : Error) → Response A

-- `if err != nil { a.errorResponse(w, r, status, err); return }`
unfoldable pub or_fail : {A B : Type 0} → ℕ → Result A → (A → Exec (Response B)) → Exec (Response B)
or_fail status (ok a) next = next a
or_fail status (err e) next = pure (failure status e)

unfoldable pub done : {A : Type 0} → A → Exec (Response (Unit {0}))
done a = pure (success tt)
