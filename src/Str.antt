-- ===== src/Str.antt =====
-- Go strings as lists of bytes, and the functions of package strings that the program calls.
-- `to_lower` changes the ASCII letters; other bytes stay.
use Prim.Native.Char.{code}
use apollo_backend.Prelude.{
  ℕ, ◌+◌, String, ◌≡◌, refl, ◌↔◌, Bool, true, false, ◌&&◌, ◌||◌, List, [], ◌∷◌, ◌++◌, map, arith,
  leb, ◌==◌, if◌then◌else◌, length, drop,
}

abbrev pub Str : Type 0
Str = List ℕ

-- The bytes of an ASCII literal.
abbrev pub lit : String → Str
lit String.[] = []
lit (String.◌∷◌ c s) = code c ∷ lit s

unfoldable pub str_eq : Str → Str → Bool
str_eq [] [] = true
str_eq (a ∷ as') (b ∷ bs) = (a == b) && str_eq as' bs
str_eq _ _ = false

unfoldable pub is_empty : Str → Bool
is_empty [] = true
is_empty (c ∷ s) = false

pub str_eq_iff : (s t : Str) → (str_eq s t ≡ true) ↔ (s ≡ t)
unfolding str_eq
str_eq_iff [] [] = ((λ h. refl), λ h. refl)
str_eq_iff [] (b ∷ bs) = ((λ h. cc), λ h. cc)
str_eq_iff (a ∷ as') [] = ((λ h. cc), λ h. cc)
str_eq_iff (a ∷ as') (b ∷ bs) =
    ((λ h. ground (arith, str_eq_iff as' bs)), λ h. ground (arith, str_eq_iff as' bs))

pub str_eq_refl : (s : Str) → str_eq s s ≡ true
str_eq_refl s = (str_eq_iff s s).1 refl

unfoldable pub has_prefix : Str → Str → Bool
has_prefix s [] = true
has_prefix [] (p ∷ ps) = false
has_prefix (c ∷ s) (p ∷ ps) = (c == p) && has_prefix s ps

-- strings.Contains
unfoldable pub contains : Str → Str → Bool
unfolding has_prefix
contains [] sub = has_prefix [] sub
contains (c ∷ s) sub = has_prefix (c ∷ s) sub || contains s sub

unfoldable pub trim_prefix : Str → Str → Str
unfolding has_prefix
trim_prefix s p = if has_prefix s p then drop (length p) s else s

abbrev pub lower : ℕ → ℕ
lower c = if leb b'A' c && leb c b'Z' then c + 32 else c

unfoldable pub to_lower : Str → Str
to_lower s = map lower s

-- strings.FieldsFunc: the maximal runs of bytes that are no separator. `cur` is the run being read.
unfoldable pub fields_from : (ℕ → Bool) → Str → Str → List Str
unfolding is_empty
fields_from sep cur [] = if is_empty cur then [] else cur ∷ []
fields_from sep cur (c ∷ s) =
    let closed = fields_from sep [] s in
    let longer = fields_from sep (cur ++ c ∷ []) s in
    if sep c then (if is_empty cur then closed else cur ∷ closed) else longer

unfoldable pub fields : (ℕ → Bool) → Str → List Str
unfolding fields_from
fields sep s = fields_from sep [] s

-- strings.Split by one byte.
unfoldable pub split_from : ℕ → Str → Str → List Str
split_from sep cur [] = cur ∷ []
split_from sep cur (c ∷ s) =
    let closed = split_from sep [] s in
    let longer = split_from sep (cur ++ c ∷ []) s in if c == sep then cur ∷ closed else longer

unfoldable pub split : ℕ → Str → List Str
unfolding split_from
split sep s = split_from sep [] s
