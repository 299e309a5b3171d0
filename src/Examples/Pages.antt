-- ===== src/Examples/Pages.antt =====
-- The pages of the portal and the panel for a new device.
use headfwd.Common.{
  ◌+◌, ◌≡◌, refl, inl, true, false, none, some, List, [], ◌∷◌, Text, codes, if◌then◌else◌, arith,
}
use headfwd.Portal.Client.{User, Node, CreateKeyResponse, done, thrown}
use headfwd.Portal.Layout.{CurrentUser}
use headfwd.Portal.UserRow.{new_row}
use headfwd.Portal.UserRow.View.{clickable, open_admin}
use headfwd.Portal.Users.{Users, Lists, new_page, refresh, handle_generate_key}
use headfwd.Portal.Users.Steps.{
  Event, typed, submitted, regenerated, refresh_ends, creation_ends, key_ends, step, run,
}
use headfwd.Portal.Users.Creation.{IsSerial, run-new_page-IsSerial}
use headfwd.Portal.Users.Keys.{mounted, later, HasOwnKeys, keys_stay_apart}
use headfwd.Portal.Users.Loading.{loads}
use headfwd.Portal.Users.Page.{row}
use headfwd.Portal.Users.Admins.{own_and_last_rights_are_safe}
use headfwd.Portal.Panel
use headfwd.Portal.Panel.Polls.{count_reports, any_new, reports_new_devices}
use headfwd.Portal.Onboard
use headfwd.Portal.Onboard.Keys

abbrev ann : User
ann = record { name = codes "ann"; id = none; created_at = none }

abbrev lists : Lists
lists = record { users = ann ∷ []; nodes = []; admin_names = codes "ann" ∷ [] }

abbrev key : CreateKeyResponse
key = record {
  key = codes "k1";
  user = codes "ann";
  qr_data = codes "headfwd://k1";
  expires_at = codes "2030-01-01";
}

-- The page loads, a name is typed and sent, and the user is created.
abbrev creates : List Event
creates =
    refresh_ends 0 (done lists)
    ∷ typed (codes " bob ")
    ∷ submitted
    ∷ submitted
    ∷ creation_ends 0 (done ann)
    ∷ []

run-new_page-IsSerial_example : IsSerial (run new_page creates)
run-new_page-IsSerial_example = run-new_page-IsSerial creates

loads_example :
    (run (step (run new_page (submitted ∷ [])) (refresh_ends 0 (thrown none))) creates).loading
    ≡ false
loads_example = loads (submitted ∷ []) creates (thrown none)

-- The key of a user is one that names it.
abbrev Names : Text → CreateKeyResponse → Type 0
Names user k = k.user ≡ user

keys_stay_apart_example :
    HasOwnKeys Names (step (step new_page (regenerated (codes "ann"))) (key_ends 0 (done key)))
unfolding new_page refresh step handle_generate_key
keys_stay_apart_example =
    keys_stay_apart Names
      (later (key_ends 0 (done key)) (later (regenerated (codes "ann")) mounted tt) refl)

abbrev viewer : CurrentUser
viewer = record {
  user_name = codes "eve";
  is_admin = true;
  is_local_access = false;
  loading = false;
}

abbrev one_admin : Users
unfolding new_page
one_admin = record new_page { admin_names = codes "ann" ∷ []; users = ann ∷ []; loading = false }

own_and_last_rights_are_safe_example :
    clickable (row viewer one_admin ann).props new_row open_admin ≡ false
unfolding one_admin
own_and_last_rights_are_safe_example =
    own_and_last_rights_are_safe viewer one_admin ann new_row (inl refl)

-- A panel that was opened while the user had one device.
abbrev opened : Panel.Props
opened = record {
  key_data = some key;
  loading = false;
  user_name = codes "ann";
  current_node_ids = codes "1" ∷ [];
  countdown = record { label = codes "5m 00s"; expired = false };
}

abbrev device : Text → Node
device id = record {
  id = id;
  given_name = id;
  name = id;
  ip_addresses = none;
  online = true;
  last_seen = none;
  created_at = none;
  forced_tags = none;
  valid_tags = none;
  user = some ann;
}

abbrev polled : Panel.Panel
polled =
    Panel.run (codes "ann") (Panel.step (codes "ann") Panel.new_panel (Panel.rendered opened))
      (Panel.interval_fired ∷ [])

reports_new_devices_example :
    count_reports
      (Panel.step
        (codes "ann")
        polled
        (Panel.poll_ends (done (device (codes "1") ∷ device (codes "2") ∷ [])))).outputs
    ≡ count_reports polled.outputs
      + (if any_new (codes "ann") (codes "1" ∷ []) (device (codes "1") ∷ device (codes "2") ∷ [])
          then 1
          else 0)
unfolding Panel.run Panel.step Panel.new_panel Panel.render Panel.poll
reports_new_devices_example =
    reports_new_devices (codes "ann") opened (Panel.interval_fired ∷ [])
      (device (codes "1") ∷ device (codes "2") ∷ []) (omega arith)

-- The key for a user that was selected arrives.
shows_key_of_selected_example : Keys.IsOwn Names (
    Onboard.step
      (Onboard.step
        (Onboard.step Onboard.new_onboard (Onboard.selected (codes "ann")))
        Onboard.generate_clicked)
      (Onboard.key_ends (done key)))
unfolding Onboard.new_onboard Onboard.step Onboard.select Onboard.can_generate
    Onboard.handle_generate
shows_key_of_selected_example = Keys.shows_key_of_selected Names (
    Keys.later (Onboard.key_ends (done key))
      (Keys.later Onboard.generate_clicked
        (Keys.later (Onboard.selected (codes "ann")) Keys.mounted refl) tt)
      refl)
