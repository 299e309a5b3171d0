-- ===== src/Portal/ConnectionStatus.antt =====
-- headfwd-sidecar/portal/frontend/src/components/ConnectionStatus.tsx.
pub mod Agreement
use headfwd.Common.{
  ℕ, Bool, true, false, ◌||◌, Option, none, some, List, [], ◌∷◌, ◌++◌, Text, codes, text_eq,
  starts_with, if◌then◌else◌,
}
use headfwd.Portal.Client.{HelloResponse, Outcome, done, thrown}

pub data Color : Type 0 where
  green orange : Color

pub record Classified : Type 0 where
  pub color : Color
  pub label : Text
  pub detail : Text

unfoldable pub classify : HelloResponse → Classified
classify d =
    if starts_with (codes "100.") d.your_ip || starts_with (codes "fd7a:") d.your_ip || d.is_tailnet
    then record { color = green; label = codes "On tailnet"; detail = d.your_ip }
    else record { color = orange; label = codes "Not on tailnet"; detail = d.your_ip }

unfoldable pub is_local : Text → Bool
is_local ip =
    text_eq ip (codes "::1")
    || starts_with (codes "127.") ip
    || starts_with (codes "192.168.") ip
    || starts_with (codes "10.") ip
    || starts_with (codes "172.") ip

-- `Row`, without its style.
pub record Row : Type 0 where
  pub label : Text
  pub value : Text
  pub muted : Bool

abbrev row : Text → Text → Row
row label value = record { label = label; value = value; muted = false }

abbrev no_user : Bool → Row
no_user local = record {
  label = codes "User";
  value = if local then 0x2014 ∷ [] else codes "Unknown";
  muted = true;
}

-- An empty name counts as none.
abbrev user_row : Bool → Option Text → Row
user_row local none = no_user local
user_row local (some []) = no_user local
user_row local (some (c ∷ s)) = row (codes "User") (c ∷ s)

abbrev device_rows : Option Text → List Row
device_rows none = []
device_rows (some []) = []
device_rows (some (c ∷ s)) = row (codes "Device") (c ∷ s) ∷ []

abbrev pub explain : Color → Bool → Text
explain green local = codes "You are accessing this portal over the Headscale mesh network."
explain orange true =
    codes
      "You are accessing this portal directly via localhost or a local network address. Headscale user identity is not available."
explain orange false =
    codes
      "Your IP address is not recognised as a Headscale address. Connect via the mesh to see your identity."

pub record Card : Type 0 where
  pub color : Color
  pub label : Text
  pub rows : List Row
  pub explanation : Text

-- The effect at the mount: an exception leaves the component empty.
unfoldable pub hello_settled : Outcome (Option HelloResponse) → Option HelloResponse
hello_settled (done d) = d
hello_settled (thrown m) = none

abbrev pub card_of : HelloResponse → Card
unfolding classify is_local
card_of d = record {
  color = (classify d).color;
  label = (classify d).label;
  rows =
      row (codes "IP address") d.your_ip
      ∷ user_row (is_local d.your_ip) d.user_name
      ∷ device_rows d.node_name;
  explanation = explain (classify d).color (is_local d.your_ip);
}

unfoldable pub view : Option HelloResponse → Option Card
view none = none
view (some d) = some (card_of d)
