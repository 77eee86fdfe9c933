-- ===== src/Payload.antt =====
-- A notification payload as the sequence of calls of the apns2 payload builder that made it, the
-- last call first.
use apollo_backend.Prelude.{ℕ, List, [], ◌∷◌}
use apollo_backend.Prelude.Int.{ℤ}
use apollo_backend.Str.{Str}
use apollo_backend.Domain.Durations.{Time}

-- The values that the program hands to `Custom`.
pub data Custom : Type 0 where
  text : Str → Custom
  time : Time → Custom

pub data Call : Type 0 where
  alert_title alert_body alert_subtitle alert_summary_arg : Str → Call
  category thread_id sound : Str → Call
  badge : ℕ → Call
  mutable_content : Call
  custom : Str → Custom → Call

abbrev pub Payload : Type 0
Payload = List Call

abbrev pub new_payload : Payload
new_payload = []

-- `p.AlertTitle(title).Badge(n)` is `p ▹ alert_title title ▹ badge n`.
infixl 30 ◌▹◌
abbrev pub ◌▹◌ : Payload → Call → Payload
p ▹ c = c ∷ p

-- The content state of a live activity; `omitempty` leaves a zero out of its JSON.
pub record DynamicIslandNotification : Type 0 where
  pub post_comment_count : ℕ
  pub post_score : ℤ
  pub comment_id : Str
  pub comment_author : Str
  pub comment_body : Str
  pub comment_age : ℕ
  pub comment_score : ℤ

-- The `aps` object of a live activity push, before encoding/json writes it.
pub record ActivityPayload : Type 0 where
  pub content_state : DynamicIslandNotification
  pub dismissal_date : ℕ
  pub event : Str
  pub timestamp : ℕ
