-- ===== src/Portal/UserRow/Requests.antt =====
-- Which rows send no calls, and a confirmation that sends another call than it asks for.
use headfwd.Common.{◌≡◌, refl, true, false, some, List, [], ◌∷◌, arith}
use headfwd.Portal.UserRow.{Props, UserRow, new_row, is_system, grant}
use headfwd.Portal.UserRow.View.{Action, clickable}
use headfwd.Portal.UserRow.Steps.{Event, clicked, delete_ends, change_ends, step, run}
use headfwd.Portal.UserRow.Guards.{clickable-areas}

system_takes_nothing :
    (p : Props) (r : UserRow) (a : Action) → is_system p ≡ true → clickable p r a ≡ false
system_takes_nothing p r a h = ground (arith, clickable-areas p r a)

-- All clicks of a history are on the row of the system's user.
abbrev pub AllSystem : List Event → Type 0
AllSystem [] = Unit
AllSystem (clicked p a ∷ es) = (is_system p ≡ true) × AllSystem es
AllSystem (e ∷ es) = AllSystem es

-- In the row of the system's user no click on a button of the row itself and nothing else changes its
-- state or sends a request, whoever looks at it. The rows of the user's devices and the panel, which
-- stand in it, are not part of this.
pub run-system : (es : List Event) → AllSystem es → run new_row es ≡ new_row
unfolding run step new_row
run-system [] h = refl
run-system (clicked p a ∷ es) (s, h) = rw (system_takes_nothing p new_row a s) (run-system es h)
run-system (delete_ends o ∷ es) h = run-system es h
run-system (change_ends o ∷ es) h = run-system es h

module _ (p : Props) where
  -- The row asks whether to grant the rights.
  abbrev asking : UserRow
  asking = record new_row { confirm_admin = some grant }
