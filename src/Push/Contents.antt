-- ===== src/Push/Contents.antt =====
-- What every Bark request holds, whatever payload it is made from.
use apollo_backend.Prelude.{◌≡◌, refl, inl, inr, Bool, false, arith, Bool-cases}
use apollo_backend.Str.{Str, lit, is_empty}
use apollo_backend.Push.Json.{Fields}
use apollo_backend.Push.Bark.{BarkRequest, bark_request, body_of, group_of, icon_of, customs_of}
use apollo_backend.Push.Delivery.{new_sender, with_icon}

pub record IsDeliverable (req : BarkRequest) : Type 0 where
  pub body : is_empty req.body ≡ false
  pub group : is_empty req.group ≡ false
  pub level : req.level ≡ lit "active"
  pub icon : is_empty req.icon ≡ false

body_of-not_empty : (alert : Fields) → is_empty (body_of alert) ≡ false
unfolding body_of
body_of-not_empty alert = ground arith

group_of-not_empty : (aps : Fields) → is_empty (group_of aps) ≡ false
unfolding group_of
group_of-not_empty aps = ground arith

new_sender-icon :
    (key : Bool) (topic icon : Str) → is_empty (new_sender key topic icon).bark_default_icon ≡ false
unfolding new_sender
new_sender-icon key topic icon = ground arith

-- Whatever the payload and the environment say, the request that a sender posts has a body, a
-- group and an icon, and the level "active".
pub bark_request-IsDeliverable :
    (key : Bool) (topic icon : Str) (m : Fields)
    → IsDeliverable (with_icon (new_sender key topic icon) (bark_request m))
unfolding with_icon bark_request
bark_request-IsDeliverable key topic icon m =
    elim (Bool-cases (is_empty (icon_of (customs_of m)))) [
      | inl e ↦ rw e (record {
        body = body_of-not_empty _;
        group = group_of-not_empty _;
        level = refl;
        icon = new_sender-icon key topic icon;
      })
      | inr e ↦ rw e (record {
        body = body_of-not_empty _;
        group = group_of-not_empty _;
        level = refl;
        icon = e;
      })
    ]
