-- ===== src/Push/Link/Laws.antt =====
-- The links of Bark notifications: escaped parts are single path segments and can be read back.
use mathlib.Core.List.{append-nil, append_assoc}
use apollo_backend.Prelude.{
  ℕ, ◌+◌, ◌-◌, ◌*◌, ◌/◌, ◌%◌, ◌<◌, ◌≡◌, ◌∙◌, sym, ap, refl, true, false, inl, inr, ◌||◌, List, [],
  ◌∷◌, ◌++◌, arith, leb, ◌==◌, if◌then◌else◌, All, All-append, Bool-cases,
}
use apollo_backend.Str.{Str, lit, split, split_from, is_empty, str_eq}
use apollo_backend.Push.Json.{Fields}
use apollo_backend.Push.Link.{
  is_plain, hex_digit, escape_byte, path_escape, thread_link, comment_link, custom_text, click_url,
}

-- url.PathUnescape of a text that is well escaped.
unhex : ℕ → ℕ
unhex h = if leb b'A' h then h - 55 else h - 48

pub path_unescape : Str → Str
path_unescape [] = []
path_unescape (c ∷ []) = c ∷ []
path_unescape (c ∷ a ∷ []) = c ∷ a ∷ []
path_unescape (c ∷ a ∷ b ∷ s) =
    let decoded = (unhex a * 16 + unhex b) ∷ path_unescape s in
    let plain = c ∷ path_unescape (a ∷ b ∷ s) in if c == b'%' then decoded else plain

unhex-hex_digit : (d : ℕ) → d < 16 → unhex (hex_digit d) ≡ d
unfolding unhex hex_digit
unhex-hex_digit d h = ground arith

plain-ne-percent : (c : ℕ) → is_plain c ≡ true → (c == b'%') ≡ false
unfolding is_plain
plain-ne-percent c h = ground arith

unescape-plain :
    (c : ℕ) (s : Str) → (c == b'%') ≡ false → path_unescape (c ∷ s) ≡ c ∷ path_unescape s
unfolding path_unescape
unescape-plain c [] h = refl
unescape-plain c (a ∷ []) h = refl
unescape-plain c (a ∷ b ∷ s) h = rw h refl

unescape-escape_byte :
    (c : ℕ) (s : Str) → c < 256 → path_unescape (escape_byte c ++ s) ≡ c ∷ path_unescape s
unfolding escape_byte path_unescape
unescape-escape_byte c s h = elim (Bool-cases (is_plain c)) [
  | inl e ↦ rw e (unescape-plain c s (plain-ne-percent c e))
  | inr e ↦
      rw (e, unhex-hex_digit (c / 16) (omega arith), unhex-hex_digit (c % 16) (omega arith))
        (ap (λ x. x ∷ path_unescape s) (omega arith))
]

-- Unescaping an escaped text of bytes gives the text back.
pub unescape-escape : (s : Str) → All (λ c. c < 256) s → path_unescape (path_escape s) ≡ s
unfolding path_escape
unescape-escape [] h = unfold path_unescape in refl
unescape-escape (c ∷ s) (b, h) =
    unescape-escape_byte c (path_escape s) b ∙ ap (λ l. c ∷ l) (unescape-escape s h)

abbrev IsNoSlash : ℕ → Type 0
IsNoSlash c = (c == b'/') ≡ false

plain-ne-slash : (c : ℕ) → is_plain c ≡ true → IsNoSlash c
unfolding is_plain
plain-ne-slash c h = ground arith

hex_digit-ne-slash : (d : ℕ) → IsNoSlash (hex_digit d)
unfolding hex_digit
hex_digit-ne-slash d = ground arith

escape_byte-IsNoSlash : (c : ℕ) → All IsNoSlash (escape_byte c)
unfolding escape_byte
escape_byte-IsNoSlash c = elim (Bool-cases (is_plain c)) [
  | inl e ↦ rw e (plain-ne-slash c e, tt)
  | inr e ↦ rw e (refl, (hex_digit-ne-slash (c / 16), (hex_digit-ne-slash (c % 16), tt)))
]

pub path_escape-IsNoSlash : (s : Str) → All IsNoSlash (path_escape s)
unfolding path_escape
path_escape-IsNoSlash [] = tt
path_escape-IsNoSlash (c ∷ s) =
    All-append IsNoSlash (escape_byte c) (path_escape s) (escape_byte-IsNoSlash c)
      (path_escape-IsNoSlash s)

split-past :
    (cur xs ys : Str)
    → All IsNoSlash xs
    → split_from b'/' cur (xs ++ ys) ≡ split_from b'/' (cur ++ xs) ys
unfolding split_from
split-past cur [] ys h = rw append-nil refl
split-past cur (c ∷ xs) ys (n, h) = rw n (
    split-past (cur ++ c ∷ []) xs ys h
    ∙ ap (λ l. split_from b'/' l ys) (append_assoc cur (c ∷ []) xs))

split-escaped :
    (s ys : Str) → split_from b'/' [] (path_escape s ++ ys) ≡ split_from b'/' (path_escape s) ys
split-escaped s ys = split-past [] (path_escape s) ys (path_escape-IsNoSlash s)

split-escaped_last : (s : Str) → split_from b'/' [] (path_escape s) ≡ path_escape s ∷ []
split-escaped_last s =
    ap (split_from b'/' []) (sym (append-nil (path_escape s)))
    ∙ split-escaped s []
    ∙ (unfold split_from in refl)

split-comment_link :
    (subreddit post_id comment_id : Str)
    → split b'/' (comment_link subreddit post_id comment_id)
      ≡ lit "apollo:"
        ∷ []
        ∷ lit "reddit.com"
        ∷ lit "r"
        ∷ path_escape subreddit
        ∷ lit "comments"
        ∷ path_escape post_id
        ∷ lit "_"
        ∷ path_escape comment_id
        ∷ lit "?context=1"
        ∷ []
unfolding comment_link split split_from
split-comment_link a b c = rw (split-escaped a, split-escaped b, split-escaped c) refl

split-thread_link :
    (subreddit post_id : Str)
    → split b'/' (thread_link subreddit post_id)
      ≡ lit "apollo:"
        ∷ []
        ∷ lit "reddit.com"
        ∷ lit "r"
        ∷ path_escape subreddit
        ∷ lit "comments"
        ∷ path_escape post_id
        ∷ []
unfolding thread_link split split_from
split-thread_link a b = rw (split-escaped a, split-escaped_last b) refl

-- The parts of the link for a payload's custom keys.
unfoldable pub link_parts : Fields → List Str
link_parts customs =
    if str_eq (custom_text (lit "type") customs) (lit "private-message")
      || is_empty (custom_text (lit "post_id") customs)
      || is_empty (custom_text (lit "subreddit") customs)
    then lit "apollo:" ∷ [] ∷ lit "reborn" ∷ lit "inbox" ∷ []
    else lit "apollo:"
      ∷ []
      ∷ lit "reddit.com"
      ∷ lit "r"
      ∷ path_escape (custom_text (lit "subreddit") customs)
      ∷ lit "comments"
      ∷ path_escape (custom_text (lit "post_id") customs)
      ∷ (if is_empty (custom_text (lit "comment_id") customs)
          then []
          else lit "_"
            ∷ path_escape (custom_text (lit "comment_id") customs)
            ∷ lit "?context=1"
            ∷ [])

-- Whatever bytes the payload's texts hold, the link that a tap opens splits at its slashes into
-- the inbox (a private message, or no post or subreddit) or into the subreddit, the post and, when
-- one is named, the comment, each escaped into one part.
pub split-click_url : (customs : Fields) → split b'/' (click_url customs) ≡ link_parts customs
unfolding click_url link_parts
split-click_url customs =
    elim (Bool-cases (str_eq (custom_text (lit "type") customs) (lit "private-message"))) [
      | inl e ↦ rw e (unfold split split_from in refl)
      | inr e ↦ elim (Bool-cases (is_empty (custom_text (lit "post_id") customs))) [
        | inl t ↦ rw (e, t) (unfold split split_from in refl)
        | inr t ↦ elim (Bool-cases (is_empty (custom_text (lit "subreddit") customs))) [
          | inl u ↦ rw (e, t, u) (unfold split split_from in refl)
          | inr u ↦ elim (Bool-cases (is_empty (custom_text (lit "comment_id") customs))) [
            | inl v ↦
                rw (e, t, u, v)
                  (split-thread_link (custom_text (lit "subreddit") customs)
                    (custom_text (lit "post_id") customs))
            | inr v ↦
                rw (e, t, u, v)
                  (split-comment_link (custom_text (lit "subreddit") customs)
                    (custom_text (lit "post_id") customs) (custom_text (lit "comment_id") customs))
          ]
        ]
      ]
    ]
