-- ===== src/Portal/ConnectionStatus/Agreement.antt =====
-- The card and the badge of the header say the same of a connection.
use headfwd.Common.{
  ◌≡◌, refl, Bool, true, false, Option, none, some, Text, codes, if◌then◌else◌, arith,
}
use headfwd.Portal.Client.{HelloResponse, Outcome, done, thrown}
use headfwd.Portal.ConnectionStatus.{Color, green, orange, Card, classify, hello_settled, view}
use headfwd.Portal.Layout.{Layout, Badge, badge}
use headfwd.Portal.Layout
use headfwd.Portal.ConnectionStatus

abbrev pub is_green : Color → Bool
is_green green = true
is_green orange = false

-- What the badge and the card say: whether the connection is green, and the caption.
abbrev pub badge_says : Option Badge → Option (Bool × Text)
badge_says none = none
badge_says (some b) = some (b.on_tailnet, b.caption)

abbrev pub card_says : Option Card → Option (Bool × Text)
card_says none = none
card_says (some c) = some (is_green c.color, c.label)

classify_agree :
    (d : HelloResponse)
    → (is_green (classify d).color ≡ Layout.classify d)
      × ((classify d).label
          ≡ (if Layout.classify d then codes "On tailnet" else codes "Not on tailnet"))
unfolding classify Layout.classify
classify_agree d = ground arith

-- For each answer to `/api/hello`, the badge of a header without a status so far and the card agree on
-- whether the connection runs over the tailnet and on the caption, and for an answer without data
-- neither is shown.
pub badge_agrees :
    (o : Outcome (Option HelloResponse)) (l : Layout)
    → l.status ≡ none
    → badge_says (badge (Layout.hello_settled o l)) ≡ card_says (view (hello_settled o))
unfolding badge view hello_settled Layout.hello_settled ConnectionStatus.card_of
badge_agrees (done none) l e = refl
badge_agrees (done (some d)) l e =
    let (green_iff, caption) = classify_agree d in rw (green_iff, caption) refl
badge_agrees (thrown m) l e = rw e refl
