-- ===== src/Portal/Widgets/Offers.antt =====
-- Which buttons the joined lists of a view offer.
use headfwd.Common.{◌≡◌, refl, Bool, true, false, ◌&&◌, ◌||◌, List, [], ◌∷◌, ◌++◌, map, Text, arith}
use headfwd.Portal.Widgets.{Widget, text, badge, hint, button, when, offers}

module _ {Action : Type 0} (same : Action → Action → Bool) (a : Action) where
  pub offers-append :
      (xs ys : List (Widget Action))
      → offers same a (xs ++ ys) ≡ (offers same a xs || offers same a ys)
  unfolding offers
  offers-append [] ys = refl
  offers-append (button b e c ∷ xs) ys = ground (arith, offers-append xs ys)
  offers-append (text t ∷ xs) ys = offers-append xs ys
  offers-append (badge b ∷ xs) ys = offers-append xs ys
  offers-append (hint t ∷ xs) ys = offers-append xs ys

  pub offers-when :
      (b : Bool) (ws : List (Widget Action)) → offers same a (when b ws) ≡ (b && offers same a ws)
  unfolding offers
  offers-when true ws = refl
  offers-when false ws = refl

  pub offers-text : (ts : List Text) → offers same a (map text ts) ≡ false
  unfolding offers
  offers-text [] = refl
  offers-text (t ∷ ts) = offers-text ts
