-- ===== src/Worker/Messages.antt =====
-- payloadFromMessage of internal/worker/notifications.go.
use apollo_backend.Prelude.{ℕ, Bool, ◌&&◌, [], ◌∷◌, ◌++◌, ltb, if◌then◌else◌, length, take}
use apollo_backend.Str.{Str, lit, str_eq, is_empty}
use apollo_backend.Domain.{Account}
use apollo_backend.Payload.{
  Payload, text, alert_title, alert_body, alert_subtitle, alert_summary_arg, category, thread_id,
  sound, badge, mutable_content, custom, new_payload, ◌▹◌,
}
use apollo_backend.Reddit.Ids.{split_id, post_id_from_context}
use apollo_backend.Reddit.Types.{Thing}

-- The UTF-8 bytes of U+2026, U+201C and U+201D.
abbrev pub ellipsis : Str
ellipsis = 226 ∷ 128 ∷ 166 ∷ []

abbrev pub opening_quote : Str
opening_quote = 226 ∷ 128 ∷ 156 ∷ []

abbrev pub closing_quote : Str
closing_quote = 226 ∷ 128 ∷ 157 ∷ []

-- Slices count bytes.
unfoldable pub post_body : Thing → Str
post_body msg = if ltb 2000 (length msg.body) then take 2000 msg.body else msg.body

abbrev cut_title : Str → Str
cut_title s = if ltb 75 (length s) then take 75 s ++ ellipsis else s

unfoldable pub post_title : Thing → Str
unfolding is_empty
post_title msg = cut_title (if is_empty msg.link_title then msg.subject else msg.link_title)

-- What every notification of a message has.
unfoldable pub message_payload : Account → Thing → ℕ → Payload
unfolding post_body
message_payload acct msg count =
    new_payload
    ▹ alert_body (post_body msg)
    ▹ alert_summary_arg msg.author
    ▹ badge count
    ▹ custom (lit "account_id") (text acct.account_id)
    ▹ custom (lit "author") (text msg.author)
    ▹ custom (lit "destination_author") (text msg.destination)
    ▹ custom (lit "parent_id") (text msg.parent_id)
    ▹ custom (lit "post_title") (text msg.link_title)
    ▹ custom (lit "subreddit") (text msg.subreddit)
    ▹ mutable_content
    ▹ sound (lit "traloop.wav")

unfoldable pub mention_payload : Thing → Payload → Payload
unfolding split_id post_id_from_context post_title
mention_payload msg payload =
    payload
    ▹ alert_title (lit "Mention in " ++ (opening_quote ++ (post_title msg ++ closing_quote)))
    ▹ custom (lit "comment_id") (text msg.id)
    ▹ custom (lit "post_id") (text (post_id_from_context msg.context))
    ▹ custom (lit "subreddit") (text msg.subreddit)
    ▹ custom (lit "type") (text (lit "username"))
    ▹ category (
        if str_eq (split_id msg.parent_id).0 (lit "t1")
        then lit "inbox-username-mention-context"
        else lit "inbox-username-mention-no-context")
    ▹ custom (lit "subject") (text (lit "comment"))
    ▹ thread_id (lit "comment")

-- The two replies differ in their title, their category and their type.
unfoldable pub reply_payload : (title inbox type : Str) → Thing → Payload → Payload
unfolding post_id_from_context
reply_payload title inbox type msg payload =
    payload
    ▹ alert_title title
    ▹ category inbox
    ▹ custom (lit "comment_id") (text msg.id)
    ▹ custom (lit "post_id") (text (post_id_from_context msg.context))
    ▹ custom (lit "subject") (text (lit "comment"))
    ▹ custom (lit "subreddit") (text msg.subreddit)
    ▹ custom (lit "type") (text type)
    ▹ thread_id (lit "comment")

unfoldable pub private_payload : Thing → Payload → Payload
unfolding post_title
private_payload msg payload =
    payload
    ▹ alert_title (lit "Message from " ++ msg.author)
    ▹ alert_subtitle (post_title msg)
    ▹ category (lit "inbox-private-message")
    ▹ custom (lit "comment_id") (text msg.id)
    ▹ custom (lit "type") (text (lit "private-message"))

abbrev is_kind : Str → Str → Thing → Bool
is_kind kind type msg = str_eq msg.kind kind && str_eq msg.type type

unfoldable pub payload_from_message : Account → Thing → ℕ → Payload
unfolding message_payload mention_payload reply_payload private_payload post_title str_eq
payload_from_message acct msg count =
    let payload = message_payload acct msg count in
    if is_kind (lit "t1") (lit "username_mention") msg
    then mention_payload msg payload
    else if is_kind (lit "t1") (lit "post_reply") msg
    then reply_payload (msg.author ++ (lit " to " ++ post_title msg)) (lit "inbox-post-reply")
        (lit "post") msg payload
    else if is_kind (lit "t1") (lit "comment_reply") msg
    then reply_payload (msg.author ++ (lit " in " ++ post_title msg)) (lit "inbox-comment-reply")
        (lit "comment") msg payload
    else if str_eq msg.kind (lit "t4")
    then private_payload msg payload
    else payload
