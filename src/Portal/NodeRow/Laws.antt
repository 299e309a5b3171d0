-- ===== src/Portal/NodeRow/Laws.antt =====
-- The row of a device: its address, its buttons and its call.
use headfwd.Common.{
  ◌≤◌, ◌<◌, ◌≡◌, refl, ap, Bool, true, false, ◌&&◌, ◌||◌, not, inl, inr, Option, none, some, List,
  [], ◌∷◌, ◌++◌, Text, codes, All, Bool-cases, starts_with, if◌then◌else◌, arith,
}
use headfwd.Portal.Client.{Outcome, done, thrown, User}
use headfwd.Portal.Widgets.{Widget, offers}
use headfwd.Portal.Widgets.Offers.{offers-append, offers-when, offers-text}
use headfwd.Portal.NodeRow.{
  Props, NodeRow, new_row, find_tailnet, or_first, primary_ip, Action, open_delete, delete_yes,
  delete_no, same_action, view, clickable, shown, user_name, delete_area, press, delete_settled,
  handle_delete, Event, clicked, delete_ends, step, run,
}

abbrev offered : Action → List (Widget Action) → Bool
offered = offers same_action

offered-shown : (a : Action) (o : Option Text) → offered a (shown o) ≡ false
unfolding offers
offered-shown a none = refl
offered-shown a (some []) = refl
offered-shown a (some (c ∷ s)) = refl

offered-user_name : (a : Action) (u : Option User) → offered a (user_name u) ≡ false
unfolding offers
offered-user_name a none = refl
offered-user_name a (some u) = refl

offered-delete_area :
    (a : Action) (confirm deleting : Bool)
    → offered a (delete_area confirm deleting) ≡ (
        if confirm
        then same_action a delete_yes && not deleting || same_action a delete_no
        else same_action a open_delete)
unfolding offers
offered-delete_area a true deleting = ground arith
offered-delete_area a false deleting = ground arith

-- The only buttons are those of the deletion, in a row that can be removed.
clickable-delete_area :
    (p : Props) (r : NodeRow) (a : Action)
    → clickable p r a ≡ (p.removable && offered a (delete_area r.confirm_delete r.deleting))
unfolding clickable view offers
clickable-delete_area p r a =
    simp
      (
        offers-append same_action a,
        offers-when same_action a,
        offers-text same_action a,
        offered-shown,
        offered-user_name,
      )
      (join p.show_user p.removable _)
  where
    join : (u r d : Bool) → (false || (u && false || (r && d || (false || false)))) ≡ (r && d)
    join u r d = ground arith

-- The confirmation of the deletion can be pressed only in a row that can be removed, while the row
-- asks for it and no deletion is under way.
pub removal_guard :
    (p : Props) (r : NodeRow)
    → clickable p r delete_yes ≡ true
    → (p.removable ≡ true) × (r.confirm_delete ≡ true) × (r.deleting ≡ false)
removal_guard p r h = ground (
  arith,
  clickable-delete_area p r delete_yes,
  offered-delete_area delete_yes r.confirm_delete r.deleting,
)

-- At most one deletion waits, and while it waits the button that sends it is disabled.
pub record IsQuiet (r : NodeRow) : Type 0 where
  pub one : r.in_flight ≤ 1
  pub disabled : 0 < r.in_flight → r.deleting ≡ true

press-IsQuiet :
    (p : Props) (a : Action) (r : NodeRow)
    → clickable p r a ≡ true
    → IsQuiet r
    → IsQuiet (press p a r)
unfolding press handle_delete
press-IsQuiet p delete_yes r c v = ground (arith, removal_guard p r c)
press-IsQuiet p _ r c v = ground arith

delete_settled-IsQuiet :
    (o : Outcome (Unit {0})) (r : NodeRow) → IsQuiet r → IsQuiet (delete_settled o r)
unfolding delete_settled
delete_settled-IsQuiet (done x) r v = ground arith
delete_settled-IsQuiet (thrown m) r v = ground arith

step-IsQuiet : (r : NodeRow) (e : Event) → IsQuiet r → IsQuiet (step r e)
unfolding step
step-IsQuiet r (clicked p a) v = ground (arith, press-IsQuiet p a r)
step-IsQuiet r (delete_ends o) v = ground (arith, delete_settled-IsQuiet o r)

run-IsQuiet : (es : List Event) (r : NodeRow) → IsQuiet r → IsQuiet (run r es)
unfolding run
run-IsQuiet [] r v = v
run-IsQuiet (e ∷ es) r v = run-IsQuiet es (step r e) (step-IsQuiet r e v)

-- In every history of a row, whatever properties it gets meanwhile, at most one deletion waits, and
-- while it waits the button that sends it is disabled.
pub run-new_row-IsQuiet : (es : List Event) → IsQuiet (run new_row es)
unfolding new_row
run-new_row-IsQuiet es =
    run-IsQuiet es new_row (record { one = omega arith; disabled = λ h. absurd (omega arith) })

-- The address that is shown.
abbrev pub in_tailnet : Text → Bool
in_tailnet = starts_with (codes "100.")

-- The address that is shown for a list: the first one in 100., with none before it, or without any
-- such address the first of the list, and nothing for an empty list.
pub data Chosen (ips : List Text) (o : Option Text) : Type 0 where
  tailnet :
      (before : List Text) (ip : Text) (after : List Text)
      → ips ≡ before ++ ip ∷ after
      → All (λ x. in_tailnet x ≡ false) before
      → in_tailnet ip ≡ true
      → o ≡ some ip
      → Chosen ips o
  fallback :
      (ip : Text) (after : List Text)
      → ips ≡ ip ∷ after
      → All (λ x. in_tailnet x ≡ false) ips
      → o ≡ some ip
      → Chosen ips o
  nothing : ips ≡ [] → o ≡ none → Chosen ips o

-- What the search itself finds.
data Found (ips : List Text) : Type 0 where
  hit :
      (before : List Text) (ip : Text) (after : List Text)
      → ips ≡ before ++ ip ∷ after
      → All (λ x. in_tailnet x ≡ false) before
      → in_tailnet ip ≡ true
      → find_tailnet ips ≡ some ip
      → Found ips
  miss : All (λ x. in_tailnet x ≡ false) ips → find_tailnet ips ≡ none → Found ips

find-Found : (ips : List Text) → Found ips
unfolding find_tailnet
find-Found [] = miss tt refl
find-Found (ip ∷ ips) = elim (Bool-cases (in_tailnet ip)) [
  | inl is_in ↦ hit [] ip ips refl tt is_in (rw is_in refl)
  | inr out ↦ elim (find-Found ips) [
    | hit before x after e none_before is_in found ↦
        hit (ip ∷ before) x after (ap (λ l. ip ∷ l) e) (out, none_before) is_in (rw out found)
    | miss none_here found ↦ miss (out, none_here) (rw out found)
  ]
]

-- The row shows the first address that starts with 100., else the first address, else none.
pub primary_ip-Chosen : (ips : List Text) → Chosen ips (primary_ip (some ips))
unfolding primary_ip
primary_ip-Chosen ips = elim (find-Found ips) [
  | hit before ip after e none_before is_in found ↦
      tailnet before ip after e none_before is_in (rw found refl)
  | miss none_here found ↦ fall ips none_here found
]
  where
    fall :
        (xs : List Text)
        → All (λ x. in_tailnet x ≡ false) xs
        → find_tailnet xs ≡ none
        → Chosen xs (or_first (find_tailnet xs) xs)
    fall [] a found = nothing refl (rw found refl)
    fall (x ∷ xs) a found = fallback x xs refl a (rw found refl)
