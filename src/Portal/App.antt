-- ===== src/Portal/App.antt =====
-- headfwd-sidecar/portal/frontend/src/App.tsx: the page of users under the frame. It is mounted while
-- the frame shows its children, and its own requests begin then.
pub mod Admission
use headfwd.Common.{ℕ, Bool, true, false, Option, none, some, List, [], ◌∷◌, ◌++◌}
use headfwd.Portal.Client.{Call, hello, me}
use headfwd.Portal.Layout.{Layout, new_layout, main, Main, loading_text, restricted, children}
use headfwd.Portal.Layout
use headfwd.Portal.Users.{Users, new_page}
use headfwd.Portal.Users.Steps
use headfwd.Portal.Users.Page.{Shown, page}

pub record App : Type 0 where
  pub layout : Layout
  pub users : Option Users

unfoldable pub new_app : App
new_app = record { layout = new_layout; users = none }

abbrev pub is_children : Main → Bool
is_children children = true
is_children loading_text = false
is_children (restricted rows) = false

abbrev pub mounted : Option Users → Users
mounted none = new_page
mounted (some s) = s

abbrev pub mount : Bool → Option Users → Option Users
mount true o = some (mounted o)
mount false o = none

-- An event of the frame, or one of the page, which has no effect where there is no page.
pub data Event : Type 0 where
  in_layout : Layout.Event → Event
  in_users : Steps.Event → Event

abbrev pub users_step : Option Users → Steps.Event → Option Users
users_step none e = none
users_step (some s) e = some (Steps.step s e)

unfoldable pub step : App → Event → App
step a (in_layout e) =
    let l = Layout.step a.layout e in
    record { layout = l; users = mount (is_children (main l)) a.users }
step a (in_users e) = record a { users = users_step a.users e }

unfoldable pub run : App → List Event → App
run a [] = a
run a (e ∷ es) = run (step a e) es

-- What has been sent: the frame's two requests at its mount, and those of the page.
abbrev users_calls : Option Users → List Call
users_calls none = []
users_calls (some s) = s.calls

unfoldable pub calls : App → List Call
calls a = hello ∷ me ∷ users_calls a.users

-- The page sees the user of the frame.
abbrev users_view : Layout → Option Users → Option Shown
users_view l none = none
users_view l (some s) = page l.current_user s

unfoldable pub view : App → Option Shown
view a = users_view a.layout a.users
