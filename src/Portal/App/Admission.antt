-- ===== src/Portal/App/Admission.antt =====
-- What the portal does for a user who is no administrator.
use headfwd.Common.{
  ◌≡◌, refl, ap, ◌∙◌, Bool, true, false, Option, none, some, List, [], ◌∷◌, is_some, Bool-cases,
  inl, inr,
}
use headfwd.Portal.Client.{hello, me}
use headfwd.Portal.Layout.{
  Layout, new_layout, default_current_user, main, Main, loading_text, restricted, children,
}
use headfwd.Portal.Layout
use headfwd.Portal.Layout.Access.{first_me, admits, children_iff}
use headfwd.Portal.Users.{Users}
use headfwd.Portal.Users.Steps
use headfwd.Portal.App.{
  App, new_app, is_children, mount, users_calls, Event, in_layout, in_users, users_step, step, run,
  calls,
}

-- The events of the frame in a history.
abbrev pub layout_events : List Event → List Layout.Event
layout_events [] = []
layout_events (in_layout e ∷ es) = e ∷ layout_events es
layout_events (in_users e ∷ es) = layout_events es

run_layout :
    (es : List Event) (a : App) → (run a es).layout ≡ Layout.run a.layout (layout_events es)
unfolding run step Layout.run
run_layout [] a = refl
run_layout (in_layout e ∷ es) a = run_layout es (step a (in_layout e))
run_layout (in_users e ∷ es) a = run_layout es (step a (in_users e))

-- There is a page exactly where the frame shows its children.
record IsMounted (a : App) : Type 0 where
  same : is_some a.users ≡ is_children (main a.layout)

mount-is_some : (b : Bool) (o : Option Users) → is_some (mount b o) ≡ b
mount-is_some true o = refl
mount-is_some false o = refl

users_step-is_some : (o : Option Users) (e : Steps.Event) → is_some (users_step o e) ≡ is_some o
users_step-is_some none e = refl
users_step-is_some (some s) e = refl

step-IsMounted : (a : App) (e : Event) → IsMounted a → IsMounted (step a e)
unfolding step
step-IsMounted a (in_layout e) v = record { same = mount-is_some _ a.users }
step-IsMounted a (in_users e) v = record { same = users_step-is_some a.users e ∙ v.same }

run-IsMounted : (es : List Event) (a : App) → IsMounted a → IsMounted (run a es)
unfolding run
run-IsMounted [] a v = v
run-IsMounted (e ∷ es) a v = run-IsMounted es (step a e) (step-IsMounted a e v)

new_app-IsMounted : IsMounted new_app
unfolding new_app new_layout default_current_user main
new_app-IsMounted = record { same = refl }

is_children-eq : (m : Main) → is_children m ≡ true → m ≡ children
is_children-eq children h = refl
is_children-eq loading_text h = cc
is_children-eq (restricted rows) h = cc

no_users : (o : Option Users) → is_some o ≡ false → users_calls o ≡ []
no_users none h = refl
no_users (some s) h = cc

-- In every history of the portal in which no answer to `/api/me` has come or the first one does not
-- name an administrator, the two requests of the frame are all that the portal has sent.
pub outsider_sends_nothing :
    (es : List Event)
    → admits (first_me (layout_events es)) ≡ false
    → calls (run new_app es) ≡ hello ∷ me ∷ []
unfolding calls new_app
outsider_sends_nothing es h =
    let (shown, _) = children_iff (layout_events es) in
    let v = run-IsMounted es new_app new_app-IsMounted in
    ap (λ cs. hello ∷ me ∷ cs)
      (no_users (run new_app es).users
        (v.same ∙ ap (λ l. is_children (main l)) (run_layout es new_app) ∙ outside shown))
  where
    outside :
        (main (Layout.run new_layout (layout_events es)) ≡ children
          → admits (first_me (layout_events es)) ≡ true)
        → is_children (main (Layout.run new_layout (layout_events es))) ≡ false
    outside shown =
        elim (Bool-cases (is_children (main (Layout.run new_layout (layout_events es))))) [
          | inl in_ ↦ cc (shown (is_children-eq _ in_), h)
          | inr out ↦ out
        ]
