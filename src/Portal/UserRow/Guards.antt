-- ===== src/Portal/UserRow/Guards.antt =====
-- When the buttons of a row can be pressed.
use headfwd.Common.{
  ◌≡◌, refl, Bool, true, false, ◌&&◌, ◌||◌, not, Option, none, some, List, [], ◌∷◌, Text, is_none,
  is_some, if◌then◌else◌, arith,
}
use headfwd.Portal.Widgets.{Widget, offers}
use headfwd.Portal.Widgets.Offers.{offers-append, offers-when}
use headfwd.Portal.UserRow.{Props, UserRow, Change, is_system, badge_disabled_reason}
use headfwd.Portal.UserRow.View.{
  Action, open_admin, admin_yes, admin_cancel, open_delete, delete_yes, delete_cancel,
  toggle_onboarding, same_action, view, clickable, shown_error, delete_area, admin_area, badge_area,
  confirming, admin_badge,
}

abbrev pub offered : Action → List (Widget Action) → Bool
offered = offers same_action

offered-shown_error : (a : Action) (o : Option Text) → offered a (shown_error o) ≡ false
unfolding offers
offered-shown_error a none = refl
offered-shown_error a (some []) = refl
offered-shown_error a (some (c ∷ s)) = refl

offered-admin_badge : (a : Action) (x y : Bool) → offered a (admin_badge x y) ≡ false
unfolding offers
offered-admin_badge a true y = refl
offered-admin_badge a false true = refl
offered-admin_badge a false false = refl

-- The areas that have buttons.
pub clickable-areas :
    (p : Props) (r : UserRow) (a : Action)
    → clickable p r a ≡ (
        ((not (is_system p) && p.current_is_admin)
          && offered a (admin_area p r.confirm_admin r.admin_busy))
        || (((not (is_system p) && not p.onboarding_open)
              && offered a (delete_area p r.confirm_delete r.deleting))
            || (not (is_system p) && same_action a toggle_onboarding)))
unfolding clickable view offers
clickable-areas p r a =
    simp (offers-append same_action a, offers-when same_action a, offered-shown_error)
      (join (is_system p) p.current_is_admin p.is_admin p.onboarding_open _ _ _)
  where
    join :
        (s c i o x d t : Bool)
        → (s && false
            || ((not s && c) && x
                || ((not s && (not c && i)) && false
                    || ((not s && not o) && d || (not s && (t && true || false) || false)))))
          ≡ ((not s && c) && x || ((not s && not o) && d || not s && t))
    join true c i o x d t = refl
    join false true i o x d t = ground arith
    join false false i o x d t = ground arith

-- The areas, button by button.
offered-confirming :
    (a : Action) (c : Change) (busy : Bool)
    → offered a (confirming c busy)
      ≡ (same_action a admin_yes && not busy || same_action a admin_cancel)
unfolding offers
offered-confirming a c busy = ground arith

offered-badge_area :
    (a : Action) (p : Props) (o : Option Text)
    → offered a (badge_area p o) ≡ (same_action a open_admin && is_none o)
unfolding offers
offered-badge_area a p (some reason) =
    ground (arith, offered-admin_badge a p.is_admin (not p.is_admin))
offered-badge_area a p none = ground (arith, offered-admin_badge a p.is_admin (not p.is_admin))

offered-delete_area :
    (a : Action) (p : Props) (confirm deleting : Bool)
    → offered a (delete_area p confirm deleting) ≡ (
        if confirm
        then same_action a delete_yes && not deleting || same_action a delete_cancel
        else same_action a open_delete)
unfolding offers
offered-delete_area a p true deleting = ground arith
offered-delete_area a p false deleting = ground arith

admin_area_delete :
    (p : Props) (o : Option Change) (busy : Bool) → offered delete_yes (admin_area p o busy) ≡ false
admin_area_delete p none busy =
    ground (arith, offered-badge_area delete_yes p (badge_disabled_reason p))
admin_area_delete p (some c) busy = ground (arith, offered-confirming delete_yes c busy)

pub admin_area_yes :
    (p : Props) (o : Option Change) (busy : Bool)
    → offered admin_yes (admin_area p o busy) ≡ (is_some o && not busy)
admin_area_yes p none busy =
    ground (arith, offered-badge_area admin_yes p (badge_disabled_reason p))
admin_area_yes p (some c) busy = ground (arith, offered-confirming admin_yes c busy)

pub admin_area_open :
    (p : Props) (o : Option Change) (busy : Bool)
    → offered open_admin (admin_area p o busy) ≡ (is_none o && is_none (badge_disabled_reason p))
admin_area_open p none busy =
    ground (arith, offered-badge_area open_admin p (badge_disabled_reason p))
admin_area_open p (some c) busy = ground (arith, offered-confirming open_admin c busy)

-- The confirmation of a deletion can be pressed only in the row of another user than the system's,
-- with the panel closed, while the row asks for it and no deletion is under way.
pub clickable-delete_yes :
    (p : Props) (r : UserRow)
    → clickable p r delete_yes ≡ true
    → (is_system p ≡ false)
      × (p.onboarding_open ≡ false)
      × (r.confirm_delete ≡ true)
      × (r.deleting ≡ false)
clickable-delete_yes p r h = ground (
  arith,
  clickable-areas p r delete_yes,
  admin_area_delete p r.confirm_admin r.admin_busy,
  offered-delete_area delete_yes p r.confirm_delete r.deleting,
)

-- That of a change of rights, only for an administrator, in the row of another user than the
-- system's, while the row asks for it and no change is under way.
pub clickable-admin_yes :
    (p : Props) (r : UserRow)
    → clickable p r admin_yes ≡ true
    → (is_system p ≡ false)
      × (p.current_is_admin ≡ true)
      × (is_some r.confirm_admin ≡ true)
      × (r.admin_busy ≡ false)
clickable-admin_yes p r h = ground (
  arith,
  clickable-areas p r admin_yes,
  admin_area_yes p r.confirm_admin r.admin_busy,
  offered-delete_area admin_yes p r.confirm_delete r.deleting,
)

-- The question for it can be opened only where the badge is not disabled.
pub clickable-open_admin :
    (p : Props) (r : UserRow)
    → clickable p r open_admin ≡ true
    → (is_system p ≡ false)
      × (p.current_is_admin ≡ true)
      × (is_none (badge_disabled_reason p) ≡ true)
clickable-open_admin p r h = ground (
  arith,
  clickable-areas p r open_admin,
  admin_area_open p r.confirm_admin r.admin_busy,
  offered-delete_area open_admin p r.confirm_delete r.deleting,
)
