-- ===== src/Portal/UserRow/View.antt =====
-- What a row shows, and so which buttons can be pressed.
use headfwd.Common.{
  ℕ, Bool, true, false, ◌&&◌, ◌||◌, not, Option, none, some, List, [], ◌∷◌, ◌++◌, Text, codes, ltb,
  ◌==◌, if◌then◌else◌,
}
use headfwd.Portal.Decimal.{decimal}
use headfwd.Portal.Widgets.{Widget, text, badge, hint, button, when, offers}
use headfwd.Portal.UserRow.{Props, UserRow, Change, grant, revoke, is_system, badge_disabled_reason}

pub data Action : Type 0 where
  open_admin admin_yes admin_cancel open_delete delete_yes delete_cancel toggle_onboarding : Action

abbrev pub code_of : Action → ℕ
code_of open_admin = 0
code_of admin_yes = 1
code_of admin_cancel = 2
code_of open_delete = 3
code_of delete_yes = 4
code_of delete_cancel = 5
code_of toggle_onboarding = 6

abbrev pub same_action : Action → Action → Bool
same_action a b = code_of a == code_of b

-- `AdminBadge`.
abbrev pub admin_badge : Bool → Bool → List (Widget Action)
admin_badge active faint = if active || faint then badge active ∷ [] else []

-- The character U+2026.
abbrev ellipsis : Text
ellipsis = 0x2026 ∷ []

abbrev question : Change → Text
question grant = codes "Grant admin?"
question revoke = codes "Remove admin?"

abbrev pub confirming : Change → Bool → List (Widget Action)
confirming change busy =
    text (question change)
    ∷ button admin_yes (not busy) (if busy then ellipsis else codes "Yes")
    ∷ button admin_cancel true (codes "Cancel")
    ∷ []

abbrev pub badge_area : Props → Option Text → List (Widget Action)
badge_area p (some reason) = hint reason ∷ admin_badge p.is_admin (not p.is_admin)
badge_area p none =
    button open_admin true (if p.is_admin then codes "Remove admin" else codes "Grant admin")
    ∷ admin_badge p.is_admin (not p.is_admin)

abbrev pub admin_area : Props → Option Change → Bool → List (Widget Action)
admin_area p (some change) busy = confirming change busy
admin_area p none busy = badge_area p (badge_disabled_reason p)

abbrev plural : ℕ → Text
plural n = if n == 1 then [] else codes "s"

abbrev delete_question : ℕ → Text
delete_question devices =
    if ltb 0 devices
    then codes "Delete user + " ++ decimal devices ++ codes " device" ++ plural devices ++ codes "?"
    else codes "Delete user?"

abbrev pub delete_area : Props → Bool → Bool → List (Widget Action)
delete_area p confirm deleting =
    if confirm
    then text (delete_question p.devices)
      ∷ button delete_yes (not deleting) (if deleting then ellipsis else codes "Yes")
      ∷ button delete_cancel true (codes "Cancel")
      ∷ []
    else button open_delete true (codes "Delete") ∷ []

abbrev pub shown_error : Option Text → List (Widget Action)
shown_error none = []
shown_error (some []) = []
shown_error (some (c ∷ s)) = text (c ∷ s) ∷ []

-- The rows of the devices and the panel below are components of their own.
unfoldable pub view : Props → UserRow → List (Widget Action)
unfolding badge_disabled_reason
view p r =
    text p.user_name ∷ when (is_system p) (text (codes "system") ∷ [])
    ++ (when (not (is_system p) && p.current_is_admin) (admin_area p r.confirm_admin r.admin_busy)
        ++ (when (not (is_system p) && (not p.current_is_admin && p.is_admin))
              (admin_badge true false)
            ++ (when (not (is_system p) && not p.onboarding_open)
                  (delete_area p r.confirm_delete r.deleting)
                ++ (when (not (is_system p)) (
                      button toggle_onboarding true
                        (if p.onboarding_open then codes "Close" else codes "+ Add device")
                      ∷ [])
                    ++ (shown_error r.delete_error ++ shown_error r.admin_error)))))

-- Whether the row takes a click.
unfoldable pub clickable : Props → UserRow → Action → Bool
unfolding view
clickable p r a = offers same_action a (view p r)
