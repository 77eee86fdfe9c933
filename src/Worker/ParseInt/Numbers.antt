-- ===== src/Worker/ParseInt/Numbers.antt =====
-- The payload that the scheduler makes of a row's number is read back by the workers.
use apollo_backend.Prelude.{
  ℕ, zero, suc, ◌+◌, ◌*◌, ◌/◌, ◌%◌, ◌-◌, ◌^◌, ◌≤◌, ◌<◌, ◌≡◌, refl, ◌∙◌, sym, ap, true, false, ◌&&◌,
  Option, none, some, [], ◌∷◌, ◌++◌, arith, ltb, leb, ◌==◌, ltb→lt, lt→ltb, Bool-cases, inl, inr,
}
use apollo_backend.Prelude.Int.{pos}
use apollo_backend.Str.{Str}
use apollo_backend.Scheduler.Enqueue.{digits, format_int}
use apollo_backend.Worker.ParseInt.{digits_from, natural, parse_int}

-- The number that digits continue.
and_then : (Option ℕ) → Str → Option ℕ
unfolding digits_from
and_then none s = none
and_then (some n) s = digits_from n s

digits_from-append :
    (acc : ℕ) (s t : Str) → digits_from acc (s ++ t) ≡ and_then (digits_from acc s) t
unfolding digits_from and_then
digits_from-append acc [] t = refl
digits_from-append acc (c ∷ s) t = elim (Bool-cases (leb b'0' c && leb c b'9')) [
  | inl e ↦ rw e (digits_from-append (acc * 10 + (c - b'0')) s t)
  | inr e ↦ rw e refl
]

one_digit : (acc d : ℕ) → d < 10 → digits_from acc ((b'0' + d) ∷ []) ≡ some (acc * 10 + d)
unfolding digits_from
one_digit acc d h = ground arith

digits-small : (fuel n : ℕ) → ltb n 10 ≡ true → digits (suc fuel) n ≡ (b'0' + n) ∷ []
unfolding digits
digits-small fuel n e = rw (e, digits) refl

digits-large :
    (fuel n : ℕ)
    → ltb n 10 ≡ false
    → digits (suc fuel) n ≡ digits fuel (n / 10) ++ (b'0' + n % 10) ∷ []
unfolding digits
digits-large fuel n e = rw (e, digits) refl

shorter : (fuel n : ℕ) → ltb n 10 ≡ false → n < suc fuel → n / 10 < fuel
shorter fuel n e h = ground arith

-- With more fuel than the number, the digits are those of the number.
digits_lem : (fuel n : ℕ) → n < fuel → digits_from 0 (digits fuel n) ≡ some n
unfolding and_then
digits_lem zero n h = ground arith
digits_lem (suc fuel) n h = elim (Bool-cases (ltb n 10)) [
  | inl e ↦ rw (digits-small fuel n e) (one_digit 0 n (ltb→lt n 10 e) ∙ ap some (omega arith))
  | inr e ↦
      let rest = digits_lem fuel (n / 10) (shorter fuel n e h) in
      rw
        (
          digits-large fuel n e,
          digits_from-append 0 (digits fuel (n / 10)) ((b'0' + n % 10) ∷ []),
          rest,
        )
        (one_digit (n / 10) (n % 10) (omega arith) ∙ ap some (omega arith))
]

-- The first digit.
begins : (fuel n : ℕ) → n < fuel → (c : ℕ) × (s : Str) × (digits fuel n ≡ c ∷ s) × (48 ≤ c)
begins zero n h = ground arith
begins (suc fuel) n h = elim (Bool-cases (ltb n 10)) [
  | inl e ↦ (48 + n, [], digits-small fuel n e, omega arith)
  | inr e ↦
      let (c, s, d, l) = begins fuel (n / 10) (shorter fuel n e h) in
      (
        c,
        s ++ (b'0' + n % 10) ∷ [],
        digits-large fuel n e ∙ ap (λ t. t ++ (b'0' + n % 10) ∷ []) d,
        l,
      )
]

parse_digits :
    (c : ℕ) (s : Str) (n : ℕ)
    → 48 ≤ c
    → n < 2 ^ 63
    → digits_from 0 (c ∷ s) ≡ some n
    → parse_int (c ∷ s) ≡ some (pos n)
unfolding parse_int natural
parse_digits c s n l h v =
    let minus : (c == b'-') ≡ false = ground arith in
    let plus : (c == b'+') ≡ false = ground arith in rw (minus, plus, v, lt→ltb n (2 ^ 63) h) refl

-- The number of a row that the scheduler writes into a payload is the one that the workers read from
-- it, for every number of 63 bits.
pub parse_int-format_int : (n : ℕ) → n < 2 ^ 63 → parse_int (format_int n) ≡ some (pos n)
unfolding format_int
parse_int-format_int n h =
    let (c, s, d, l) = begins (n + 1) n (omega arith) in
    rw d (parse_digits c s n l h (ap (digits_from 0) (sym d) ∙ digits_lem (n + 1) n (omega arith)))
