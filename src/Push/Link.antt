-- ===== src/Push/Link.antt =====
-- clickURL of internal/push/bark.go, and url.PathEscape.
pub mod Laws
use apollo_backend.Prelude.{
  ℕ, ◌+◌, ◌-◌, ◌/◌, ◌%◌, Bool, ◌&&◌, ◌||◌, List, [], ◌∷◌, ◌++◌, leb, ltb, ◌==◌, if◌then◌else◌, any,
}
use apollo_backend.Str.{Str, lit, str_eq, is_empty}
use apollo_backend.Push.Json.{Fields, get, text_or_empty}

-- The bytes that net/url's escape leaves alone in a path segment.
unfoldable pub is_plain : ℕ → Bool
is_plain c =
    leb b'a' c && leb c b'z'
    || leb b'A' c && leb c b'Z'
    || leb b'0' c && leb c b'9'
    || any (λ d. c == d) (lit "-_.~$&+=:@")

-- "0123456789ABCDEF"[d]
unfoldable pub hex_digit : ℕ → ℕ
hex_digit d = if ltb d 10 then b'0' + d else b'A' + (d - 10)

unfoldable pub escape_byte : ℕ → Str
unfolding is_plain hex_digit
escape_byte c = if is_plain c then c ∷ [] else b'%' ∷ hex_digit (c / 16) ∷ hex_digit (c % 16) ∷ []

unfoldable pub path_escape : Str → Str
unfolding escape_byte
path_escape [] = []
path_escape (c ∷ s) = escape_byte c ++ path_escape s

abbrev pub inbox_link : Str
inbox_link = lit "apollo://reborn/inbox"

-- "apollo://reddit.com/r/%s/comments/%s"
unfoldable pub thread_link : Str → Str → Str
unfolding path_escape
thread_link subreddit post_id =
    lit "apollo://reddit.com/r/"
    ++ (path_escape subreddit ++ (lit "/comments/" ++ path_escape post_id))

-- "apollo://reddit.com/r/%s/comments/%s/_/%s/?context=1"
unfoldable pub comment_link : Str → Str → Str → Str
unfolding path_escape
comment_link subreddit post_id comment_id =
    lit "apollo://reddit.com/r/"
    ++ (path_escape subreddit
        ++ (lit "/comments/"
            ++ (path_escape post_id
                ++ (lit "/_/" ++ (path_escape comment_id ++ lit "/?context=1")))))

abbrev pub custom_text : Str → Fields → Str
custom_text key customs = text_or_empty (get key customs)

unfoldable pub click_url : Fields → Str
unfolding thread_link comment_link get text_or_empty str_eq is_empty
click_url customs =
    if str_eq (custom_text (lit "type") customs) (lit "private-message")
    then inbox_link
    else if is_empty (custom_text (lit "post_id") customs)
        || is_empty (custom_text (lit "subreddit") customs)
    then inbox_link
    else if is_empty (custom_text (lit "comment_id") customs)
    then thread_link (custom_text (lit "subreddit") customs) (custom_text (lit "post_id") customs)
    else comment_link (custom_text (lit "subreddit") customs) (custom_text (lit "post_id") customs)
        (custom_text (lit "comment_id") customs)
