-- ===== src/Portal/Panel/Buttons.antt =====
-- Which buttons a panel offers.
use headfwd.Common.{◌≡◌, Bool, ◌&&◌, ◌||◌, not, Option, none, some, is_some, arith}
use headfwd.Portal.Client.{CreateKeyResponse}
use headfwd.Portal.Countdown.{Countdown}
use headfwd.Portal.Widgets.{offers}
use headfwd.Portal.Widgets.Offers.{offers-append, offers-when}
use headfwd.Portal.Panel.{
  Props, Panel, Action, regenerate, cancel, copy_key, same_action, key_area, view, clickable,
}

offers-key_area :
    (a : Action) (loading : Bool) (k : Option CreateKeyResponse) (c : Countdown) (copied : Bool)
    → offers same_action a (key_area loading k c copied)
      ≡ ((not loading && is_some k) && (not (same_action a copy_key) || not c.expired))
unfolding offers
offers-key_area a loading none c copied = ground arith
offers-key_area regenerate loading (some k) c copied = ground arith
offers-key_area cancel loading (some k) c copied = ground arith
offers-key_area copy_key loading (some k) c copied = ground arith

-- A panel offers its buttons exactly while a key is there and none is being made, and the one that
-- copies the key only until the key has expired.
pub clickable_iff :
    (p : Props) (s : Panel) (a : Action)
    → clickable p s a ≡ (
        (not p.loading && is_some p.key_data)
        && (not (same_action a copy_key) || not p.countdown.expired))
unfolding clickable view offers
clickable_iff p s a =
    simp (offers-append same_action a, offers-when same_action a)
      (ground (arith, offers-key_area a p.loading p.key_data p.countdown s.copied))
