-- ===== src/Portal/Layout.antt =====
-- headfwd-sidecar/portal/frontend/src/components/Layout.tsx: the frame of the portal.
-- A promise that gives `undefined` is `done none`. Each of the two effects at the mount runs once.
pub mod Access
pub mod Header
use headfwd.Common.{
  ℕ, Bool, true, false, ◌&&◌, ◌||◌, not, Option, none, some, List, [], ◌∷◌, ◌++◌, Text, codes,
  starts_with, if◌then◌else◌,
}
use headfwd.Portal.Client.{HelloResponse, MeResponse, Outcome, done, thrown}

pub record CurrentUser : Type 0 where
  pub user_name : Text
  pub is_admin : Bool
  pub is_local_access : Bool
  pub loading : Bool

unfoldable pub default_current_user : CurrentUser
default_current_user = record {
  user_name = [];
  is_admin = false;
  is_local_access = false;
  loading = true;
}

-- `classify` of the header.
unfoldable pub classify : HelloResponse → Bool
classify d =
    starts_with (codes "100.") d.your_ip || starts_with (codes "fd7a:") d.your_ip || d.is_tailnet

-- The state, and which of the two requests are still waiting.
pub record Layout : Type 0 where
  pub status : Option HelloResponse
  pub show_popover : Bool
  pub current_user : CurrentUser
  pub hello_waits : Bool
  pub me_waits : Bool

-- After the mount, which has sent both requests.
unfoldable pub new_layout : Layout
unfolding default_current_user
new_layout = record {
  status = none;
  show_popover = false;
  current_user = default_current_user;
  hello_waits = true;
  me_waits = true;
}

unfoldable pub hello_settled : Outcome (Option HelloResponse) → Layout → Layout
hello_settled (done d) l = record l { status = d; hello_waits = false }
hello_settled (thrown m) l = record l { hello_waits = false }

abbrev unknown_user : CurrentUser
unfolding default_current_user
unknown_user = record default_current_user { loading = false }

-- A property of `undefined` throws, which the `catch` sees as well.
unfoldable pub me_settled : Outcome (Option MeResponse) → Layout → Layout
unfolding default_current_user
me_settled (done (some me)) l = record l {
  current_user = record {
    user_name = me.user_name;
    is_admin = me.is_admin;
    is_local_access = me.is_local_access;
    loading = false;
  };
  me_waits = false;
}
me_settled (done none) l = record l { current_user = unknown_user; me_waits = false }
me_settled (thrown m) l = record l { current_user = unknown_user; me_waits = false }

-- A mouse button that is pressed anywhere says whether that is inside the badge and its popover.
pub data Event : Type 0 where
  hello_ends : Outcome (Option HelloResponse) → Event
  me_ends : Outcome (Option MeResponse) → Event
  badge_clicked : Event
  mouse_pressed : Bool → Event

-- The badge is there once the status is.
abbrev pub has_badge : Layout → Bool
has_badge l = elim l.status [ none ↦ false | some d ↦ true ]

unfoldable pub step : Layout → Event → Layout
unfolding hello_settled me_settled
step l (hello_ends o) = if l.hello_waits then hello_settled o l else l
step l (me_ends o) = if l.me_waits then me_settled o l else l
step l badge_clicked = if has_badge l then record l { show_popover = not l.show_popover } else l
step l (mouse_pressed inside) =
    if l.show_popover && (has_badge l && not inside) then record l { show_popover = false } else l

unfoldable pub run : Layout → List Event → Layout
run l [] = l
run l (e ∷ es) = run (step l e) es

-- `PopoverRow`, without its style.
pub record Row : Type 0 where
  pub label : Text
  pub value : Text
  pub muted : Bool

abbrev pub row : Text → Text → Row
row label value = record { label = label; value = value; muted = false }

-- The dash for a name that is not known.
abbrev pub dash : Text
dash = 0x2014 ∷ []

unfoldable pub user_rows : Text → List Row
user_rows [] = record { label = codes "User"; value = dash; muted = true } ∷ []
user_rows (c ∷ s) = row (codes "User") (c ∷ s) ∷ []

abbrev pub rows_if : Text → Text → List Row
rows_if label [] = []
rows_if label (c ∷ s) = row label (c ∷ s) ∷ []

abbrev pub or_blank : Option Text → Text
or_blank none = []
or_blank (some s) = s

pub record Popover : Type 0 where
  pub title : Text
  pub rows : List Row
  pub advice : Option Text

unfoldable pub popover : HelloResponse → Popover
unfolding classify user_rows
popover d = record {
  title =
      if classify d
      then codes "Accessing via Headscale mesh"
      else codes "Not connected via tailnet";
  rows =
      row (codes "IP") d.your_ip ∷ user_rows (or_blank d.user_name)
      ++ rows_if (codes "Device") (or_blank d.node_name);
  advice = if classify d then none else some (codes "Connect via the mesh to see your identity.");
}

-- The badge of the header: its caption, and the popover where it is open.
pub record Badge : Type 0 where
  pub on_tailnet : Bool
  pub caption : Text
  pub shown_popover : Option Popover

unfoldable pub badge : Layout → Option Badge
unfolding classify popover
badge l = elim l.status [
  | none ↦ none
  | some d ↦ some (record {
    on_tailnet = classify d;
    caption = if classify d then codes "On tailnet" else codes "Not on tailnet";
    shown_popover = if l.show_popover then some (popover d) else none;
  })
]

-- `AccessRestricted`: the rows of its card, if it has one.
unfoldable pub access_restricted : Text → Text → List Row
unfolding user_rows
access_restricted [] [] = []
access_restricted (c ∷ s) your_ip = rows_if (codes "IP") your_ip ++ user_rows (c ∷ s)
access_restricted [] your_ip = rows_if (codes "IP") your_ip ++ user_rows []

-- What stands under the header.
pub data Main : Type 0 where
  loading_text children : Main
  restricted : List Row → Main

abbrev ip_of : Option HelloResponse → Text
ip_of none = []
ip_of (some d) = d.your_ip

unfoldable pub main : Layout → Main
unfolding access_restricted
main l =
    if l.current_user.loading
    then loading_text
    else if not l.current_user.is_admin
    then restricted (access_restricted l.current_user.user_name (ip_of l.status))
    else children
