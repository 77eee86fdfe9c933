-- ===== src/Push/Bark.antt =====
-- barkRequest and barkRequestFromPayload of internal/push/bark.go. The apns2 payload's JSON, decoded
-- again, is where the request is read from.
use apollo_backend.Prelude.{
  ℕ, ◌-◌, Bool, not, ◌&&◌, ◌||◌, Option, none, some, [], ◌∷◌, ◌==◌, if◌then◌else◌, any, length,
  take, drop,
}
use apollo_backend.Str.{Str, lit, str_eq, is_empty, has_prefix}
use apollo_backend.Push.Json.{Fields, end, field, get, as_object, as_text, text_or_empty, as_number}
use apollo_backend.Push.Link.{click_url}

pub record BarkRequest : Type 0 where
  pub title : Str
  pub subtitle : Str
  pub body : Str
  pub url : Str
  pub group : Str
  pub icon : Str
  pub badge : Option ℕ
  pub level : Str
  pub sound : Str

-- filepath.Ext: from the last dot of the last path element
unfoldable pub ext : Str → Str
unfolding is_empty
ext [] = []
ext (c ∷ s) =
    let rest = ext s in
    if not (is_empty rest)
    then rest
    else if c == b'.' && not (any (λ d. d == b'/') s)
    then c ∷ s
    else []

-- strings.TrimSuffix
unfoldable pub trim_suffix : Str → Str → Str
unfolding str_eq
trim_suffix s suffix =
    if str_eq (drop (length s - length suffix) s) suffix
    then take (length s - length suffix) s
    else s

-- Every key but "aps".
unfoldable pub customs_of : Fields → Fields
customs_of end = end
customs_of (field k v rest) =
    let others = customs_of rest in if str_eq k (lit "aps") then others else field k v others

abbrev non_empty : Option Str → Option Str
non_empty none = none
non_empty (some s) = if is_empty s then none else some s

unfoldable pub group_of : Fields → Str
unfolding is_empty get as_text
group_of aps = elim (non_empty (as_text (get (lit "thread-id") aps))) [
  | some tid ↦ tid
  | none ↦ elim (non_empty (as_text (get (lit "category") aps))) [
    | some cat ↦ cat
    | none ↦ lit "apollo"
  ]
]

unfoldable pub is_web_url : Str → Bool
unfolding has_prefix
is_web_url s = has_prefix s (lit "https://") || has_prefix s (lit "http://")

unfoldable pub icon_of : Fields → Str
unfolding is_web_url get as_text
icon_of customs = elim (as_text (get (lit "thumbnail") customs)) [
  | none ↦ []
  | some thumb ↦ if is_web_url thumb then thumb else []
]

unfoldable pub sound_of : Fields → Str
unfolding ext trim_suffix is_empty get as_text
sound_of aps = elim (as_text (get (lit "sound") aps)) [
  | none ↦ []
  | some sound ↦
      if is_empty sound || str_eq sound (lit "default") then [] else trim_suffix sound (ext sound)
]

unfoldable pub body_of : Fields → Str
unfolding get text_or_empty is_empty
body_of alert =
    if not (is_empty (text_or_empty (get (lit "body") alert)))
    then text_or_empty (get (lit "body") alert)
    else if not (is_empty (text_or_empty (get (lit "title") alert)))
    then text_or_empty (get (lit "title") alert)
    else lit "New notification"

unfoldable pub bark_request : Fields → BarkRequest
bark_request m =
    let aps = as_object (get (lit "aps") m) in
    let alert = as_object (get (lit "alert") aps) in
    record {
      title = text_or_empty (get (lit "title") alert);
      subtitle = text_or_empty (get (lit "subtitle") alert);
      body = body_of alert;
      url = click_url (customs_of m);
      group = group_of aps;
      icon = icon_of (customs_of m);
      badge = as_number (get (lit "badge") aps);
      level = lit "active";
      sound = sound_of aps;
    }
