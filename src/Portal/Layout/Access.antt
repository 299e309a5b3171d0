-- ===== src/Portal/Layout/Access.antt =====
-- Who sees the pages of the portal.
use headfwd.Common.{
  ◌≡◌, ◌↔◌, refl, sym, ap, ◌∙◌, Bool, true, false, Option, none, some, List, [], ◌∷◌, arith,
}
use mathlib.Core.Path.{subst}
use headfwd.Portal.Client.{MeResponse, Outcome, done, thrown}
use headfwd.Portal.Layout.{
  Layout, CurrentUser, default_current_user, new_layout, Event, hello_ends, me_ends, badge_clicked,
  mouse_pressed, step, run, hello_settled, me_settled, children, main,
}

-- The first answer to `/api/me` in a history.
abbrev pub first_me : List Event → Option (Outcome (Option MeResponse))
first_me [] = none
first_me (me_ends o ∷ es) = some o
first_me (_ ∷ es) = first_me es

abbrev pub admits : Option (Outcome (Option MeResponse)) → Bool
admits (some (done (some me))) = me.is_admin
admits _ = false

abbrev answered : Option (Outcome (Option MeResponse)) → Bool
answered none = false
answered (some o) = true

-- The user and the request do not change but by the answer.
step_keeps :
    (l : Layout) (e : Event)
    → first_me (e ∷ []) ≡ none
    → ((step l e).current_user ≡ l.current_user) × ((step l e).me_waits ≡ l.me_waits)
unfolding step hello_settled
step_keeps l (hello_ends (done d)) h = ground arith
step_keeps l (hello_ends (thrown m)) h = ground arith
step_keeps l (me_ends o) h = cc
step_keeps l badge_clicked h = ground arith
step_keeps l (mouse_pressed inside) h = ground arith

step_answered :
    (l : Layout) (e : Event)
    → l.me_waits ≡ false
    → ((step l e).current_user ≡ l.current_user) × ((step l e).me_waits ≡ false)
unfolding step hello_settled
step_answered l (hello_ends (done d)) h = ground arith
step_answered l (hello_ends (thrown m)) h = ground arith
step_answered l (me_ends o) h = ground arith
step_answered l badge_clicked h = ground arith
step_answered l (mouse_pressed inside) h = ground arith

run_answered :
    (es : List Event) (l : Layout) → l.me_waits ≡ false → (run l es).current_user ≡ l.current_user
unfolding run
run_answered [] l h = refl
run_answered (e ∷ es) l h =
    let (same, still) = step_answered l e h in run_answered es (step l e) still ∙ same

-- The user after the first answer.
abbrev user_after : Option (Outcome (Option MeResponse)) → CurrentUser
user_after none = default_current_user
user_after (some (done (some me))) = record {
  user_name = me.user_name;
  is_admin = me.is_admin;
  is_local_access = me.is_local_access;
  loading = false;
}
user_after (some _) = record default_current_user { loading = false }

me_settled_user :
    (o : Outcome (Option MeResponse)) (l : Layout)
    → ((me_settled o l).current_user ≡ user_after (some o)) × ((me_settled o l).me_waits ≡ false)
unfolding me_settled
me_settled_user (done (some me)) l = (refl, refl)
me_settled_user (done none) l = (refl, refl)
me_settled_user (thrown m) l = (refl, refl)

taken :
    (l : Layout) (o : Outcome (Option MeResponse))
    → l.me_waits ≡ true
    → step l (me_ends o) ≡ me_settled o l
unfolding step
taken l o w = rw w refl

run_user :
    (es : List Event) (l : Layout)
    → l.me_waits ≡ true
    → l.current_user ≡ default_current_user
    → (run l es).current_user ≡ user_after (first_me es)
unfolding run
run_user [] l w d = d
run_user (me_ends o ∷ es) l w d =
    let (now, over) = me_settled_user o l in
    ap (λ x. (run x es).current_user) (taken l o w) ∙ run_answered es (me_settled o l) over ∙ now
run_user (e ∷ es) l w d =
    let (same, still) = step_keeps l e refl in run_user es (step l e) (still ∙ w) (same ∙ d)

shows_children :
    (l : Layout)
    → (main l ≡ children) ↔ ((l.current_user.loading ≡ false) × (l.current_user.is_admin ≡ true))
unfolding main
shows_children l = ground arith

user_after-admits :
    (o : Option (Outcome (Option MeResponse)))
    → (((user_after o).loading ≡ false) × ((user_after o).is_admin ≡ true)) ↔ (admits o ≡ true)
unfolding default_current_user
user_after-admits none = ground arith
user_after-admits (some (done (some me))) = ground arith
user_after-admits (some (done none)) = ground arith
user_after-admits (some (thrown m)) = ground arith

-- In every history of the frame its children are shown exactly if the first answer to `/api/me` has
-- arrived and names an administrator.
pub children_iff :
    (es : List Event) → (main (run new_layout es) ≡ children) ↔ (admits (first_me es) ≡ true)
unfolding new_layout
children_iff es =
    let user = run_user es new_layout refl refl in
    let (to, from) = shows_children (run new_layout es) in
    let (to', from') = user_after-admits (first_me es) in
    (
      λ h. to' (subst (λ u. (u.loading ≡ false) × (u.is_admin ≡ true)) user (to h)),
      λ h. from (subst (λ u. (u.loading ≡ false) × (u.is_admin ≡ true)) (sym user) (from' h)),
    )
