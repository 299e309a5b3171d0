-- ===== src/Portal/Layout/Header.antt =====
-- The badge of the header and its popover.
use headfwd.Common.{◌≡◌, refl, Bool, true, false, Option, none, some, List, [], ◌∷◌, arith, is_some}
use headfwd.Portal.Client.{HelloResponse, MeResponse, Outcome, done, thrown}
use headfwd.Portal.Layout.{
  Layout, new_layout, Event, hello_ends, me_ends, badge_clicked, mouse_pressed, step, run,
  hello_settled, me_settled, has_badge, Badge, badge,
}

-- An open popover has a badge to hang on, and while the request for the status waits there is none.
pub record IsAnchored (l : Layout) : Type 0 where
  pub anchored : l.show_popover ≡ true → has_badge l ≡ true
  pub unknown : l.hello_waits ≡ true → l.status ≡ none

hello_settled-IsAnchored :
    (o : Outcome (Option HelloResponse)) (l : Layout)
    → l.hello_waits ≡ true
    → IsAnchored l
    → IsAnchored (hello_settled o l)
unfolding hello_settled
hello_settled-IsAnchored (done d) l w v = ground arith
hello_settled-IsAnchored (thrown m) l w v = ground arith

me_settled-IsAnchored :
    (o : Outcome (Option MeResponse)) (l : Layout) → IsAnchored l → IsAnchored (me_settled o l)
unfolding me_settled
me_settled-IsAnchored (done (some me)) l v = record { anchored = v.anchored; unknown = v.unknown }
me_settled-IsAnchored (done none) l v = record { anchored = v.anchored; unknown = v.unknown }
me_settled-IsAnchored (thrown m) l v = record { anchored = v.anchored; unknown = v.unknown }

step-IsAnchored : (l : Layout) (e : Event) → IsAnchored l → IsAnchored (step l e)
unfolding step
step-IsAnchored l (hello_ends o) v = ground (arith, hello_settled-IsAnchored o l)
step-IsAnchored l (me_ends o) v = ground (arith, me_settled-IsAnchored o l)
step-IsAnchored l badge_clicked v = ground arith
step-IsAnchored l (mouse_pressed inside) v = ground arith

run-IsAnchored : (es : List Event) (l : Layout) → IsAnchored l → IsAnchored (run l es)
unfolding run
run-IsAnchored [] l v = v
run-IsAnchored (e ∷ es) l v = run-IsAnchored es (step l e) (step-IsAnchored l e v)

abbrev pub closed : Option Badge → Option Badge
closed none = none
closed (some b) = some (record b { shown_popover = none })

close :
    (status : Option HelloResponse) (open_ : Bool) (l : Layout)
    → (open_ ≡ true → is_some status ≡ true)
    → badge (step (record l { status = status; show_popover = open_ }) (mouse_pressed false))
      ≡ closed (badge (record l { status = status; show_popover = open_ }))
unfolding step badge
close none true l h = absurd (cc (h refl))
close none false l h = refl
close (some d) true l h = refl
close (some d) false l h = refl

-- After every history of the frame, a press of the mouse outside of the badge closes the popover, if
-- one is shown, and leaves the badge as it is.
pub outside_closes :
    (es : List Event)
    → badge (step (run new_layout es) (mouse_pressed false)) ≡ closed (badge (run new_layout es))
unfolding new_layout
outside_closes es =
    let l = run new_layout es in
    close l.status l.show_popover l
      (run-IsAnchored es new_layout
        (record { anchored = λ h. ground arith; unknown = λ h. refl })).anchored
