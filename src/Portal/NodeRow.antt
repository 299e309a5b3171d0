-- ===== src/Portal/NodeRow.antt =====
-- `NodeRow` of headfwd-sidecar/portal/frontend/src/components/Users.tsx.
pub mod Laws
pub mod Lifecycle
use headfwd.Common.{
  ℕ, zero, suc, ◌+◌, ◌-◌, Bool, true, false, ◌&&◌, ◌||◌, not, Option, none, some, List, [], ◌∷◌,
  ◌++◌, map, Text, codes, starts_with, ◌==◌, is_some, if◌then◌else◌,
}
use headfwd.Portal.Client.{Node, User, Outcome, done, thrown, message_or, Call, delete_node}
use headfwd.Portal.Widgets.{Widget, text, badge, hint, button, when, offers}

-- `indent` only moves the row. `removable` says whether the row has an `onDeleted`.
pub record Props : Type 0 where
  pub node : Node
  pub show_user : Bool
  pub removable : Bool

pub data Output : Type 0 where
  called : Call → Output
  reports_deleted : Output

pub record NodeRow : Type 0 where
  pub confirm_delete : Bool
  pub deleting : Bool
  pub delete_error : Option Text
  pub in_flight : ℕ
  pub outputs : List Output

unfoldable pub new_row : NodeRow
new_row = record {
  confirm_delete = false;
  deleting = false;
  delete_error = none;
  in_flight = 0;
  outputs = [];
}

-- The first address in 100., or else the first of all.
unfoldable pub find_tailnet : List Text → Option Text
find_tailnet [] = none
find_tailnet (ip ∷ ips) = if starts_with (codes "100.") ip then some ip else find_tailnet ips

abbrev first_of : List Text → Option Text
first_of [] = none
first_of (ip ∷ ips) = some ip

abbrev or_first : Option Text → List Text → Option Text
or_first (some ip) ips = some ip
or_first none ips = first_of ips

unfoldable pub primary_ip : Option (List Text) → Option Text
unfolding find_tailnet
primary_ip none = none
primary_ip (some ips) = or_first (find_tailnet ips) ips

abbrev or_none : Option (List Text) → List Text
or_none none = []
or_none (some ts) = ts

abbrev pub tags : Node → List Text
tags n = or_none n.forced_tags ++ or_none n.valid_tags

pub data Action : Type 0 where
  open_delete delete_yes delete_no : Action

abbrev code_of : Action → ℕ
code_of open_delete = 0
code_of delete_yes = 1
code_of delete_no = 2

abbrev pub same_action : Action → Action → Bool
same_action a b = code_of a == code_of b

abbrev shown : Option Text → List (Widget Action)
shown none = []
shown (some []) = []
shown (some (c ∷ s)) = text (c ∷ s) ∷ []

abbrev user_name : Option User → List (Widget Action)
user_name none = []
user_name (some u) = text u.name ∷ []

abbrev pub delete_area : Bool → Bool → List (Widget Action)
delete_area confirm deleting =
    if confirm
    then text (codes "Remove?")
      ∷ button delete_yes (not deleting) (if deleting then 0x2026 ∷ [] else codes "Yes")
      ∷ button delete_no true (codes "No")
      ∷ []
    else button open_delete true (codes "Delete") ∷ []

-- The dot, the name, the tags, the user, the buttons, the address and the error.
unfoldable pub view : Props → NodeRow → List (Widget Action)
unfolding primary_ip
view p r =
    hint (if p.node.online then codes "Online" else codes "Offline")
      ∷ text p.node.given_name
      ∷ map text (tags p.node)
    ++ (when p.show_user (user_name p.node.user)
        ++ (when p.removable (delete_area r.confirm_delete r.deleting)
            ++ (shown (primary_ip p.node.ip_addresses) ++ shown r.delete_error)))

unfoldable pub clickable : Props → NodeRow → Action → Bool
unfolding view
clickable p r a = offers same_action a (view p r)

abbrev emit : Output → NodeRow → NodeRow
emit o r = record r { outputs = r.outputs ++ o ∷ [] }

-- `handleDelete`, up to its `await`, and its rest.
unfoldable pub handle_delete : Props → NodeRow → NodeRow
handle_delete p r =
    emit (called (delete_node p.node.id))
      (record r { deleting = true; delete_error = none; in_flight = suc r.in_flight })

unfoldable pub delete_settled : Outcome (Unit {0}) → NodeRow → NodeRow
delete_settled (done _) r = emit reports_deleted (record r { in_flight = r.in_flight - 1 })
delete_settled (thrown m) r = record r {
  delete_error = some (message_or (codes "Delete failed") m);
  deleting = false;
  confirm_delete = false;
  in_flight = r.in_flight - 1;
}

unfoldable pub press : Props → Action → NodeRow → NodeRow
unfolding handle_delete
press p open_delete r = record r { confirm_delete = true }
press p delete_yes r = handle_delete p r
press p delete_no r = record r { confirm_delete = false }

pub data Event : Type 0 where
  clicked : Props → Action → Event
  delete_ends : Outcome (Unit {0}) → Event

abbrev if_waiting : ℕ → NodeRow → NodeRow → NodeRow
if_waiting zero r' r = r
if_waiting (suc n) r' r = r'

unfoldable pub step : NodeRow → Event → NodeRow
unfolding press delete_settled
step r (clicked p a) = if clickable p r a then press p a r else r
step r (delete_ends o) = if_waiting r.in_flight (delete_settled o r) r

unfoldable pub run : NodeRow → List Event → NodeRow
run r [] = r
run r (e ∷ es) = run (step r e) es
