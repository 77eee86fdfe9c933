-- ===== src/Prelude/Keys.antt =====
-- Keys of a table: rows with different keys, preserved by the statements of `Table`.
use apollo_backend.Prelude.Table.{select_where, update_where, delete_where, first, All-delete_where}
use Prim.Native.Nat.{ℕ}
use mathlib.Core.Path.{◌≡◌, refl, ap, sym, ◌∙◌}
use mathlib.Core.Logic.{◌≢◌, inl, inr}
use mathlib.Core.Bool.{Bool, true, false, ◌||◌, ◌&&◌}
use mathlib.Core.List.{List, [], ◌∷◌, ◌++◌}
use mathlib.Core.Option.{none}
use native.Mathlib.Omega.{arith}
use apollo_backend.Prelude.Tests.{Bool-cases, ◌==◌, ==_iff}
use apollo_backend.Prelude.Lists.{All, any, All-append}

-- The key `k` stands in no row; no two rows have one key.
abbrev pub Absent {ℓ κ} : {A : Type ℓ} {K : Type κ} → (A → K) → K → List A → Type κ
Absent key k rs = All (λ r. key r ≢ k) rs

abbrev pub Unique {ℓ κ} : {A : Type ℓ} {K : Type κ} → (A → K) → List A → Type κ
Unique key [] = Unit
Unique key (r ∷ rs) = Absent key (key r) rs × Unique key rs

module _ {ℓ κ} {A : Type ℓ} {K : Type κ} (key : A → K) where
  pub Unique-append :
      (rs : List A) (r : A) → Absent key (key r) rs → Unique key rs → Unique key (rs ++ r ∷ [])
  Unique-append [] r a u = (tt, tt)
  Unique-append (x ∷ rs) r (n, a) (b, u) =
      (All-append (λ y. key y ≢ key x) rs (r ∷ []) b ((λ e. n (sym e)), tt), Unique-append rs r a u)

  pub Absent-update_where :
      (k : K) (p : A → Bool) (f : A → A) (rs : List A)
      → ((r : A) → p r ≡ true → key (f r) ≡ key r)
      → Absent key k rs
      → Absent key k (update_where p f rs)
  unfolding update_where
  Absent-update_where k p f [] s a = tt
  Absent-update_where k p f (r ∷ rs) s (n, a) = elim (Bool-cases (p r)) [
    | inl e ↦ rw e ((λ x. n (sym (s r e) ∙ x)), Absent-update_where k p f rs s a)
    | inr e ↦ rw e (n, Absent-update_where k p f rs s a)
  ]

  -- An update that leaves the key alone.
  pub Unique-update_where :
      (p : A → Bool) (f : A → A) (rs : List A)
      → ((r : A) → p r ≡ true → key (f r) ≡ key r)
      → Unique key rs
      → Unique key (update_where p f rs)
  unfolding update_where
  Unique-update_where p f [] s u = tt
  Unique-update_where p f (r ∷ rs) s (a, u) = elim (Bool-cases (p r)) [
    | inl e ↦
        rw e (rw (s r e) (Absent-update_where (key r) p f rs s a), Unique-update_where p f rs s u)
    | inr e ↦ rw e (Absent-update_where (key r) p f rs s a, Unique-update_where p f rs s u)
  ]

  pub Unique-delete_where :
      (p : A → Bool) (rs : List A) → Unique key rs → Unique key (delete_where p rs)
  unfolding delete_where
  Unique-delete_where p [] u = tt
  Unique-delete_where p (r ∷ rs) (a, u) = elim (Bool-cases (p r)) [
    | inl e ↦ rw e (Unique-delete_where p rs u)
    | inr e ↦ rw e (All-delete_where (λ x. key x ≢ key r) p rs a, Unique-delete_where p rs u)
  ]

  -- No row that passes the test of a key means that the key is absent.
  pub Absent-of_any :
      (k : K) (p : A → Bool) (rs : List A)
      → ((r : A) → key r ≡ k → p r ≡ true)
      → any p rs ≡ false
      → Absent key k rs
  Absent-of_any k p [] t e = tt
  Absent-of_any k p (r ∷ rs) t e =
      ((λ x. let y : p r ≡ true = t r x in ground arith), Absent-of_any k p rs t (ground arith))

module _ {ℓ} {A : Type ℓ} where
  pub any_of_first-none :
      (p : A → Bool) (rs : List A) → first (select_where p rs) ≡ none → any p rs ≡ false
  unfolding first select_where
  any_of_first-none p [] e = refl
  any_of_first-none p (r ∷ rs) e = ground (arith, any_of_first-none p rs)

  -- Some row passes `q` after an update that keeps `q`.
  pub any-update_where :
      (q p : A → Bool) (f : A → A) (rs : List A)
      → ((r : A) → p r ≡ true → q (f r) ≡ q r)
      → any q (update_where p f rs) ≡ any q rs
  unfolding update_where
  any-update_where q p f [] s = refl
  any-update_where q p f (r ∷ rs) s = ground (arith, s r, any-update_where q p f rs s)

  pub any-append : (q : A → Bool) (rs ts : List A) → any q (rs ++ ts) ≡ (any q rs || any q ts)
  any-append q [] ts = refl
  any-append q (r ∷ rs) ts = ground (arith, any-append q rs ts)

  -- A row that no deleted row is stays.
  pub any-delete_where :
      (q p : A → Bool) (rs : List A)
      → any (λ r. p r && q r) rs ≡ false
      → any q (delete_where p rs) ≡ any q rs
  unfolding delete_where
  any-delete_where q p [] e = refl
  any-delete_where q p (r ∷ rs) e = ground (arith, any-delete_where q p rs)

module _ {ℓ} {A : Type ℓ} where
  pub update_where_none :
      (p : A → Bool) (f : A → A) (rs : List A) → any p rs ≡ false → update_where p f rs ≡ rs
  unfolding update_where
  update_where_none p f [] e = refl
  update_where_none p f (r ∷ rs) e = elim (Bool-cases (p r)) [
    | inl t ↦ ground arith
    | inr t ↦ rw t (ap (λ l. r ∷ l) (update_where_none p f rs (ground arith)))
  ]

-- An update of the row with one number that gives it a new key.
module _ {ℓ κ} {A : Type ℓ} {K : Type κ} (key : A → K) (number : A → ℕ) (i : ℕ) (k : K) (f : A → A)
    (gives : (r : A) → key (f r) ≡ k) where
  update_where-Absent :
      (rs : List A) → Absent number i rs → update_where (λ r. number r == i) f rs ≡ rs
  unfolding update_where
  update_where-Absent [] a = refl
  update_where-Absent (r ∷ rs) (n, a) = elim (Bool-cases (number r == i)) [
    | inl e ↦ absurd (n ((==_iff _ _).0 e))
    | inr e ↦ rw e (ap (λ l. r ∷ l) (update_where-Absent rs a))
  ]

  -- Every other row has another key than the new one.
  abbrev pub IsFree : List A → Type κ
  IsFree rs = All (λ r. (number r == i) ≡ false → key r ≢ k) rs

  Absent-of_free : (rs : List A) → Absent number i rs → IsFree rs → Absent key k rs
  Absent-of_free [] a h = tt
  Absent-of_free (r ∷ rs) (n, a) (x, h) = elim (Bool-cases (number r == i)) [
    | inl e ↦ absurd (n ((==_iff _ _).0 e))
    | inr e ↦ (x e, Absent-of_free rs a h)
  ]

  Absent-given :
      (j : K) (rs : List A)
      → k ≢ j
      → Absent key j rs
      → Absent key j (update_where (λ r. number r == i) f rs)
  unfolding update_where
  Absent-given j [] n a = tt
  Absent-given j (r ∷ rs) n (x, a) = elim (Bool-cases (number r == i)) [
    | inl e ↦ rw e ((λ y. n (sym (gives r) ∙ y)), Absent-given j rs n a)
    | inr e ↦ rw e (x, Absent-given j rs n a)
  ]

  pub Unique-update_key :
      (rs : List A)
      → IsFree rs
      → Unique number rs
      → Unique key rs
      → Unique key (update_where (λ r. number r == i) f rs)
  unfolding update_where
  Unique-update_key [] h v u = tt
  Unique-update_key (r ∷ rs) (x, h) (b, v) (a, u) = elim (Bool-cases (number r == i)) [
    | inl e ↦
        let alone : Absent number i rs = rw (← (==_iff _ _).0 e) b in
        rw (e, update_where-Absent rs alone, gives r) (Absent-of_free rs alone h, u)
    | inr e ↦ rw e (Absent-given (key r) rs (λ y. x e (sym y)) a, Unique-update_key rs h v u)
  ]
