-- ===== src/Portal/UserRow/Steps.antt =====
-- What a row does on a click and when a call has settled.
use headfwd.Common.{
  ℕ, zero, suc, ◌-◌, true, false, none, some, List, [], ◌∷◌, ◌++◌, codes, if◌then◌else◌,
}
use headfwd.Portal.Client.{
  Outcome, done, thrown, message_or, Call, delete_user, grant_admin, revoke_admin,
}
use headfwd.Portal.UserRow.{
  Props, UserRow, grant, revoke, Output, called, toggled_onboarding, reports_deleted,
  reports_admin_changed,
}
use headfwd.Portal.UserRow.View.{
  Action, open_admin, admin_yes, admin_cancel, open_delete, delete_yes, delete_cancel,
  toggle_onboarding, clickable,
}

abbrev emit : Output → UserRow → UserRow
emit o r = record r { outputs = r.outputs ++ o ∷ [] }

-- `handleDelete`, up to its `await`.
unfoldable pub handle_delete : Props → UserRow → UserRow
handle_delete p r =
    emit (called (delete_user p.user_name)) (record r {
      deleting = true;
      delete_error = none;
      deletes_in_flight = suc r.deletes_in_flight;
    })

-- Its rest.
unfoldable pub delete_settled : Outcome (Unit {0}) → UserRow → UserRow
delete_settled (done _) r =
    emit reports_deleted (record r { deletes_in_flight = r.deletes_in_flight - 1 })
delete_settled (thrown m) r = record r {
  delete_error = some (message_or (codes "Delete failed") m);
  deleting = false;
  confirm_delete = false;
  deletes_in_flight = r.deletes_in_flight - 1;
}

abbrev pub change_call : Props → Call
change_call p = if p.is_admin then revoke_admin p.user_name else grant_admin p.user_name

-- `handleAdminToggle`, up to its `await`, and its rest.
unfoldable pub handle_admin_toggle : Props → UserRow → UserRow
handle_admin_toggle p r = emit (called (change_call p)) (record r {
  admin_busy = true;
  admin_error = none;
  changes_in_flight = suc r.changes_in_flight;
})

unfoldable pub change_settled : Outcome (Unit {0}) → UserRow → UserRow
change_settled (done _) r =
    emit reports_admin_changed
      (record r { confirm_admin = none; changes_in_flight = r.changes_in_flight - 1 })
change_settled (thrown m) r = record r {
  admin_error = some (message_or (codes "Failed") m);
  admin_busy = false;
  changes_in_flight = r.changes_in_flight - 1;
}

-- The handlers of the buttons.
unfoldable pub press : Props → Action → UserRow → UserRow
unfolding handle_delete handle_admin_toggle
press p open_admin r = record r { confirm_admin = some (if p.is_admin then revoke else grant) }
press p admin_yes r = handle_admin_toggle p r
press p admin_cancel r = record r { confirm_admin = none; admin_error = none }
press p open_delete r = record r { confirm_delete = true }
press p delete_yes r = handle_delete p r
press p delete_cancel r = record r { confirm_delete = false }
press p toggle_onboarding r = emit toggled_onboarding r

-- A click counts where its button can be pressed, and a call settles only while it waits.
pub data Event : Type 0 where
  clicked : Props → Action → Event
  delete_ends change_ends : Outcome (Unit {0}) → Event

abbrev if_waiting : ℕ → UserRow → UserRow → UserRow
if_waiting zero r' r = r
if_waiting (suc n) r' r = r'

unfoldable pub step : UserRow → Event → UserRow
unfolding press delete_settled change_settled
step r (clicked p a) = if clickable p r a then press p a r else r
step r (delete_ends o) = if_waiting r.deletes_in_flight (delete_settled o r) r
step r (change_ends o) = if_waiting r.changes_in_flight (change_settled o r) r

unfoldable pub run : UserRow → List Event → UserRow
run r [] = r
run r (e ∷ es) = run (step r e) es
