-- ===== src/Reddit/Ids.antt =====
-- SplitID, PostIDFromContext and obfuscate of internal/reddit/client.go.
use apollo_backend.Prelude.{
  ◌-◌, ◌&&◌, Option, none, some, [], ◌∷◌, ◌++◌, ltb, ◌==◌, if◌then◌else◌, length, take, drop,
}
use apollo_backend.Str.{Str, lit, split, has_prefix}

unfoldable pub split_id : Str → Str × Str
unfolding split
split_id id = elim (split b'_' id) [
  | [] ↦ ([], [])
  | a ∷ rest ↦ elim rest [
    | [] ↦ ([], [])
    | b ∷ more ↦ elim more [ [] ↦ (a, b) | c ∷ cs ↦ ([], []) ]
  ]
]

-- [^/]* : the run up to the next slash, and what is left from that slash on
unfoldable pub segment : Str → Str × Str
segment [] = ([], [])
segment (c ∷ s) =
    let (seg, rest) = segment s in
    let longer : Str × Str = (c ∷ seg, rest) in
    let here : Str × Str = ([], c ∷ s) in if c == b'/' then here else longer

-- The group of /r/[^/]*/comments/([^/]*)/.* matched at the head of the text; a character of the
-- runs is no slash, so a match can only take each run whole. `.*` takes the rest of a line.
unfoldable pub post_id_at : Str → Option Str
unfolding segment has_prefix
post_id_at s =
    let (name, tail) = segment (drop 3 s) in
    let (post, after) = segment (drop 10 tail) in
    if has_prefix s (lit "/r/") && has_prefix tail (lit "/comments/") && has_prefix after (lit "/")
    then some post
    else none

-- The leftmost match, or the empty text.
unfoldable pub post_id_from_context : Str → Str
unfolding post_id_at
post_id_from_context [] = []
post_id_from_context (c ∷ s) = elim (post_id_at (c ∷ s)) [
  | some id ↦ id
  | none ↦ post_id_from_context s
]

unfoldable pub obfuscate : Str → Str
obfuscate tok =
    if ltb (length tok) 6
    then lit "<SHORT>"
    else take 3 tok ++ (lit "..." ++ drop (length tok - 3) tok)
