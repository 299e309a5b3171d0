-- ===== src/Portal/Widgets.antt =====
-- What the components of the portal render, without the style: texts, badges and buttons.
pub mod Offers
use headfwd.Common.{ℕ, Bool, true, false, ◌&&◌, ◌||◌, List, [], ◌∷◌, ◌++◌, Text, if◌then◌else◌}

-- A button has its action, whether it can be pressed, and its caption.
pub data Widget (Action : Type 0) : Type 0 where
  text : Text → Widget Action
  badge : Bool → Widget Action
  hint : Text → Widget Action
  button : Action → Bool → Text → Widget Action

-- What is rendered under a condition.
abbrev pub when {ℓ} : {A : Type ℓ} → Bool → List A → List A
when b ws = if b then ws else []

-- Whether a button that can be pressed offers an action.
module _ {Action : Type 0} (same : Action → Action → Bool) where
  unfoldable pub offers : Action → List (Widget Action) → Bool
  offers a [] = false
  offers a (button b enabled caption ∷ ws) = (same a b && enabled) || offers a ws
  offers a (w ∷ ws) = offers a ws
