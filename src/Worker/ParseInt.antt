-- ===== src/Worker/ParseInt.antt =====
-- strconv.ParseInt(s, 10, 64), with which internal/worker reads the payloads that are row numbers.
pub mod Numbers
use apollo_backend.Prelude.{
  ℕ, zero, suc, ◌+◌, ◌-◌, ◌*◌, ◌^◌, ◌&&◌, Option, none, some, [], ◌∷◌, leb, ltb, ◌==◌,
  if◌then◌else◌,
}
use apollo_backend.Prelude.Int.{ℤ, pos, negsuc}
use apollo_backend.Str.{Str}

unfoldable pub digits_from : ℕ → Str → Option ℕ
digits_from acc [] = some acc
digits_from acc (c ∷ s) =
    let rest = digits_from (acc * 10 + (c - b'0')) s in
    if leb b'0' c && leb c b'9' then rest else none

unfoldable pub natural : Str → Option ℕ
unfolding digits_from
natural [] = none
natural (c ∷ s) = digits_from 0 (c ∷ s)

abbrev positive : Option ℕ → Option ℤ
positive none = none
positive (some n) = if ltb n (2 ^ 63) then some (pos n) else none

abbrev negative : Option ℕ → Option ℤ
negative none = none
negative (some zero) = some (pos 0)
negative (some (suc n)) = if ltb n (2 ^ 63) then some (negsuc n) else none

unfoldable pub parse_int : Str → Option ℤ
unfolding natural
parse_int [] = none
parse_int (c ∷ s) =
    if c == b'-'
    then negative (natural s)
    else if c == b'+'
    then positive (natural s)
    else positive (natural (c ∷ s))
