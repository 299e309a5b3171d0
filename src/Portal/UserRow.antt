-- ===== src/Portal/UserRow.antt =====
-- `UserRow` and `AdminBadge` of headfwd-sidecar/portal/frontend/src/components/Users.tsx.
-- Each handler is split at its `await`: the click sends a call, and the rest runs when the call has
-- settled. The properties of the row may differ from one event to the next.
pub mod View
pub mod Steps
pub mod Flights
pub mod Guards
pub mod Requests
use headfwd.Common.{
  ℕ, ◌<◌, Bool, true, false, ◌&&◌, ◌||◌, not, Option, none, some, List, [], ◌∷◌, ◌++◌, Text, codes,
  text_eq, ltb, leb, ◌==◌, is_none, is_some, if◌then◌else◌,
}
use headfwd.Portal.Client.{Call}

abbrev pub system_user : Text
system_user = codes "headfwd-server"

-- The properties, without the callbacks and those of the panel below. `devices` is the number of
-- the user's nodes.
pub record Props : Type 0 where
  pub user_name : Text
  pub devices : ℕ
  pub is_admin : Bool
  pub total_admins : ℕ
  pub current_user_name : Text
  pub current_is_admin : Bool
  pub onboarding_open : Bool

abbrev pub is_system : Props → Bool
is_system p = text_eq p.user_name system_user

abbrev pub is_self : Props → Bool
is_self p = text_eq p.user_name p.current_user_name

abbrev pub is_last_admin : Props → Bool
is_last_admin p = p.is_admin && leb p.total_admins 1

pub data Change : Type 0 where
  grant revoke : Change

-- The callbacks that the row makes, and the calls of the API, in order.
pub data Output : Type 0 where
  called : Call → Output
  toggled_onboarding reports_deleted reports_admin_changed : Output

-- The state, the number of calls of each kind that wait, and what the row has done.
pub record UserRow : Type 0 where
  pub confirm_delete : Bool
  pub deleting : Bool
  pub delete_error : Option Text
  pub confirm_admin : Option Change
  pub admin_busy : Bool
  pub admin_error : Option Text
  pub deletes_in_flight : ℕ
  pub changes_in_flight : ℕ
  pub outputs : List Output

unfoldable pub new_row : UserRow
new_row = record {
  confirm_delete = false;
  deleting = false;
  delete_error = none;
  confirm_admin = none;
  admin_busy = false;
  admin_error = none;
  deletes_in_flight = 0;
  changes_in_flight = 0;
  outputs = [];
}

-- Why the badge of an administrator cannot be pressed.
unfoldable pub badge_disabled_reason : Props → Option Text
badge_disabled_reason p =
    if is_self p
    then some (codes "Can't remove your own access")
    else if is_last_admin p
    then some (codes "Can't remove the last admin")
    else none
