-- ===== src/Examples/Rows.antt =====
-- The rows of users and of devices.
use headfwd.Common.{◌≡◌, refl, true, false, none, some, List, [], ◌∷◌, codes, text_eq, arith}
use headfwd.Portal.Client.{Node, done}
use headfwd.Portal.UserRow.{Props, UserRow, new_row, grant, system_user}
use headfwd.Portal.UserRow.View.{open_admin, admin_yes, delete_yes, open_delete, toggle_onboarding}
use headfwd.Portal.UserRow.Steps.{Event, clicked, change_ends, step, run}
use headfwd.Portal.UserRow.Flights.{IsSingle, run-new_row-IsSingle, count_changes, change_once}
use headfwd.Portal.UserRow.Requests.{run-system}
use headfwd.Portal.NodeRow

abbrev guest : Props
guest = record {
  user_name = codes "bob";
  devices = 2;
  is_admin = false;
  total_admins = 1;
  current_user_name = codes "ann";
  current_is_admin = true;
  onboarding_open = false;
}

-- Two clicks on the same confirmation.
abbrev twice : List Event
twice = clicked guest open_delete ∷ clicked guest delete_yes ∷ clicked guest delete_yes ∷ []

run-new_row-IsSingle_example : IsSingle (run new_row twice)
run-new_row-IsSingle_example = run-new_row-IsSingle twice

-- A row whose change is under way.
abbrev granting : UserRow
granting = record {
  confirm_delete = false;
  deleting = false;
  delete_error = none;
  confirm_admin = some grant;
  admin_busy = true;
  admin_error = none;
  deletes_in_flight = 0;
  changes_in_flight = 1;
  outputs = [];
}

granting-IsSingle : IsSingle granting
granting-IsSingle = record {
  one_delete = omega arith;
  one_change = omega arith;
  deleting = λ h. absurd (omega arith);
  changing = λ h. refl;
}

abbrev again : List Event
again = clicked guest open_admin ∷ clicked guest admin_yes ∷ []

change_once_example :
    count_changes (run (step granting (change_ends (done tt))) again).outputs
    ≡ count_changes granting.outputs
change_once_example = change_once granting again granting-IsSingle (omega arith)

abbrev server : Props
server = record guest { user_name = system_user }

run-system_example :
    run new_row (clicked server open_delete ∷ clicked server toggle_onboarding ∷ []) ≡ new_row
unfolding text_eq
run-system_example =
    run-system (clicked server open_delete ∷ clicked server toggle_onboarding ∷ [])
      (refl, (refl, tt))

abbrev phone : Node
phone = record {
  id = codes "7";
  given_name = codes "phone";
  name = codes "phone";
  ip_addresses = some (codes "fd7a::7" ∷ codes "100.64.0.7" ∷ []);
  online = true;
  last_seen = none;
  created_at = none;
  forced_tags = none;
  valid_tags = none;
  user = none;
}

abbrev phone_row : NodeRow.Props
phone_row = record { node = phone; show_user = false; removable = true }

abbrev removing : List NodeRow.Event
removing =
    NodeRow.clicked phone_row NodeRow.open_delete
    ∷ NodeRow.clicked phone_row NodeRow.delete_yes
    ∷ []
