-- ===== src/Portal/Users/Page.antt =====
-- What the page shows.
use headfwd.Common.{
  ℕ, Bool, true, false, ◌||◌, Option, none, some, List, [], ◌∷◌, ◌++◌, map, Text, codes, text_eq,
  length, ltb, ◌==◌, if◌then◌else◌,
}
use headfwd.Common.Dict.{lookup}
use headfwd.Portal.Client.{User, Node, CreateKeyResponse}
use headfwd.Portal.Decimal.{decimal}
use headfwd.Portal.Layout.{CurrentUser}
use headfwd.Portal.Users.{Users}
use headfwd.Portal.Users.Steps.{is_onboarding, can_submit}
use headfwd.Portal.UserRow
use headfwd.Portal.NodeRow

abbrev pub filter {ℓ} : {A : Type ℓ} → (A → Bool) → List A → List A
filter p [] = []
filter p (x ∷ xs) = let rest = filter p xs in if p x then x ∷ rest else rest

abbrev belongs_to : Text → Option User → Bool
belongs_to name none = false
belongs_to name (some u) = text_eq u.name name

-- `nodesForUser` and `taggedNodes`.
unfoldable pub nodes_for_user : List Node → Text → List Node
nodes_for_user nodes name = filter (λ n. belongs_to name n.user) nodes

abbrev count_tags : Option (List Text) → ℕ
count_tags none = 0
count_tags (some ts) = length ts

unfoldable pub tagged_nodes : List Node → List Node
tagged_nodes nodes = filter (λ n. ltb 0 (count_tags n.forced_tags)) nodes

-- `includes`.
abbrev pub among : List Text → Text → Bool
among [] name = false
among (x ∷ xs) name = text_eq x name || among xs name

-- A row of the page: the properties of its `UserRow` and of the panel below it.
pub record Row : Type 0 where
  pub props : UserRow.Props
  pub nodes : List Node
  pub key_data : Option CreateKeyResponse
  pub generating_key : Bool

unfoldable pub row : CurrentUser → Users → User → Row
unfolding nodes_for_user
row me s u = record {
  props = record {
    user_name = u.name;
    devices = length (nodes_for_user s.nodes u.name);
    is_admin = among s.admin_names u.name;
    total_admins = length s.admin_names;
    current_user_name = me.user_name;
    current_is_admin = me.is_admin;
    onboarding_open = is_onboarding s.onboarding_user u.name;
  };
  nodes = nodes_for_user s.nodes u.name;
  key_data = lookup u.name s.key_data;
  generating_key = is_onboarding s.generating_key u.name;
}

-- A device with tags: its user is shown, and it can be removed.
abbrev tagged_row : Node → NodeRow.Props
tagged_row n = record { node = n; show_user = true; removable = true }

abbrev pub plural : ℕ → Text
plural n = if n == 1 then [] else codes "s"

-- The line of the numbers, with its middle dot.
abbrev pub heading : ℕ → ℕ → Text
heading users nodes =
    decimal users
    ++ codes " user"
    ++ plural users
    ++ (0x20 ∷ 0xb7 ∷ 0x20 ∷ [])
    ++ decimal nodes
    ++ codes " device"
    ++ plural nodes

abbrev shown_error : Option Text → Option Text
shown_error none = none
shown_error (some []) = none
shown_error (some (c ∷ s)) = some (c ∷ s)

-- A list without users has its own text.
pub record Shown : Type 0 where
  pub heading : Text
  pub input : Text
  pub can_add : Bool
  pub caption : Text
  pub error : Option Text
  pub rows : List Row
  pub tagged : List NodeRow.Props

unfoldable pub page : CurrentUser → Users → Option Shown
unfolding row tagged_nodes can_submit
page me s =
    if s.loading
    then none
    else some (record {
      heading = heading (length s.users) (length s.nodes);
      input = s.new_name;
      can_add = can_submit s;
      caption = if s.creating then codes "Adding..." else codes "Add user";
      error = shown_error s.error;
      rows = map (row me s) s.users;
      tagged = map tagged_row (tagged_nodes s.nodes);
    })
