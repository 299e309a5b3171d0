-- ===== src/Portal/UserRow/Flights.antt =====
-- How many calls of a row wait at a time, and a row whose administrator's button is stuck.
use headfwd.Common.{ℕ, suc, ◌≤◌, ◌<◌, ◌≡◌, refl, ap, ◌∙◌, true, List, [], ◌∷◌, ◌++◌, arith}
use headfwd.Portal.Client.{Outcome, done, thrown, grant_admin, revoke_admin, delete_user}
use headfwd.Portal.UserRow.{
  Props, UserRow, Output, called, new_row, toggled_onboarding, reports_deleted,
  reports_admin_changed,
}
use headfwd.Portal.UserRow.View.{Action, admin_yes, delete_yes, toggle_onboarding, clickable}
use headfwd.Portal.UserRow.Steps.{
  Event, clicked, delete_ends, change_ends, press, handle_delete, delete_settled, change_settled,
  step, run,
}
use headfwd.Portal.UserRow.Guards.{clickable-delete_yes, clickable-admin_yes}

-- At most one call of each kind waits, and while one waits its button is disabled.
pub record IsSingle (r : UserRow) : Type 0 where
  pub one_delete : r.deletes_in_flight ≤ 1
  pub one_change : r.changes_in_flight ≤ 1
  pub deleting : 0 < r.deletes_in_flight → r.deleting ≡ true
  pub changing : 0 < r.changes_in_flight → r.admin_busy ≡ true

press-IsSingle :
    (p : Props) (a : Action) (r : UserRow)
    → clickable p r a ≡ true
    → IsSingle r
    → IsSingle (press p a r)
unfolding press
press-IsSingle p delete_yes r c v = ground (arith, clickable-delete_yes p r c)
press-IsSingle p admin_yes r c v = ground (arith, clickable-admin_yes p r c)
press-IsSingle p _ r c v = ground arith

delete_settled-IsSingle :
    (o : Outcome (Unit {0})) (r : UserRow) → IsSingle r → IsSingle (delete_settled o r)
unfolding delete_settled
delete_settled-IsSingle (done x) r v = ground arith
delete_settled-IsSingle (thrown m) r v = ground arith

change_settled-IsSingle :
    (o : Outcome (Unit {0})) (r : UserRow) → IsSingle r → IsSingle (change_settled o r)
unfolding change_settled
change_settled-IsSingle (done x) r v = ground arith
change_settled-IsSingle (thrown m) r v = ground arith

step-IsSingle : (r : UserRow) (e : Event) → IsSingle r → IsSingle (step r e)
unfolding step
step-IsSingle r (clicked p a) v = ground (arith, press-IsSingle p a r)
step-IsSingle r (delete_ends o) v = ground (arith, delete_settled-IsSingle o r)
step-IsSingle r (change_ends o) v = ground (arith, change_settled-IsSingle o r)

run-IsSingle : (es : List Event) (r : UserRow) → IsSingle r → IsSingle (run r es)
unfolding run
run-IsSingle [] r v = v
run-IsSingle (e ∷ es) r v = run-IsSingle es (step r e) (step-IsSingle r e v)

-- In every history of a row, whatever properties it gets meanwhile, at most one deletion and one
-- change of rights wait, and while one waits the button that sends it is disabled.
pub run-new_row-IsSingle : (es : List Event) → IsSingle (run new_row es)
unfolding new_row
run-new_row-IsSingle es = run-IsSingle es new_row (record {
  one_delete = omega arith;
  one_change = omega arith;
  deleting = λ h. absurd (omega arith);
  changing = λ h. absurd (omega arith);
})

-- How many changes of rights a row has sent.
abbrev pub count_changes : List Output → ℕ
count_changes [] = 0
count_changes (called (grant_admin name) ∷ os) = suc (count_changes os)
count_changes (called (revoke_admin name) ∷ os) = suc (count_changes os)
count_changes (o ∷ os) = count_changes os

count_changes-append :
    (os : List Output) (o : Output)
    → count_changes (o ∷ []) ≡ 0
    → count_changes (os ++ o ∷ []) ≡ count_changes os
count_changes-append [] o h = h
count_changes-append (called (grant_admin name) ∷ os) o h = ap suc (count_changes-append os o h)
count_changes-append (called (revoke_admin name) ∷ os) o h = ap suc (count_changes-append os o h)
count_changes-append (_ ∷ os) o h = count_changes-append os o h

-- Busy, with nothing to wait for.
record IsStuck (r : UserRow) : Type 0 where
  busy : r.admin_busy ≡ true
  idle : r.changes_in_flight ≡ 0

abbrev Still : UserRow → UserRow → Type 0
Still r r' = IsStuck r' × (count_changes r'.outputs ≡ count_changes r.outputs)

press-Still :
    (p : Props) (a : Action) (r : UserRow)
    → clickable p r a ≡ true
    → IsStuck r
    → Still r (press p a r)
unfolding press handle_delete
press-Still p admin_yes r c v = absurd (ground (arith, clickable-admin_yes p r c, v.busy))
press-Still p delete_yes r c v =
    ground (arith, count_changes-append r.outputs (called (delete_user p.user_name)) refl)
press-Still p toggle_onboarding r c v =
    ground (arith, count_changes-append r.outputs toggled_onboarding refl)
press-Still p _ r c v = ground arith

delete_settled-Still :
    (o : Outcome (Unit {0})) (r : UserRow) → IsStuck r → Still r (delete_settled o r)
unfolding delete_settled
delete_settled-Still (done x) r v =
    ground (arith, count_changes-append r.outputs reports_deleted refl)
delete_settled-Still (thrown m) r v = ground arith

step-Still : (r : UserRow) (e : Event) → IsStuck r → Still r (step r e)
unfolding step
step-Still r (clicked p a) v = ground (arith, press-Still p a r)
step-Still r (delete_ends o) v = ground (arith, delete_settled-Still o r)
step-Still r (change_ends o) v = ground (arith, v.idle)

run-Still : (es : List Event) (r : UserRow) → IsStuck r → Still r (run r es)
unfolding run
run-Still [] r v = (v, refl)
run-Still (e ∷ es) r v =
    let (v', same) = step-Still r e v in
    let (v'', same') = run-Still es (step r e) v' in (v'', same' ∙ same)

settles :
    (r : UserRow) (o : Outcome (Unit {0}))
    → 0 < r.changes_in_flight
    → step r (change_ends o) ≡ change_settled o r
unfolding step
settles r o w = ground arith

done-IsStuck :
    (r : UserRow) → IsSingle r → 0 < r.changes_in_flight → IsStuck (change_settled (done tt) r)
unfolding change_settled
done-IsStuck r v w = ground arith

done-count_changes :
    (r : UserRow) → count_changes (change_settled (done tt) r).outputs ≡ count_changes r.outputs
unfolding change_settled
done-count_changes r = count_changes-append r.outputs reports_admin_changed refl

-- Once a change of rights has succeeded, the row never sends another one, whatever is clicked and
-- whatever properties the row gets: its button stays disabled for as long as the row is mounted.
pub change_once :
    (r : UserRow) (es : List Event)
    → IsSingle r
    → 0 < r.changes_in_flight
    → count_changes (run (step r (change_ends (done tt))) es).outputs ≡ count_changes r.outputs
change_once r es v w =
    ap (λ (x : UserRow). count_changes (run x es).outputs) (settles r (done tt) w)
    ∙ (run-Still es (change_settled (done tt) r) (done-IsStuck r v w)).1
    ∙ done-count_changes r
