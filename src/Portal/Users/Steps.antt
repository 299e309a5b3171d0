-- ===== src/Portal/Users/Steps.antt =====
-- What the page does on an event: one of its controls, a callback of a row, or the end of a request.
use headfwd.Common.{
  ℕ, zero, suc, Bool, true, false, ◌&&◌, not, Option, none, some, List, [], ◌∷◌, Text, text_eq,
  trim, if◌then◌else◌,
}
use headfwd.Portal.Client.{User, CreateKeyResponse, Outcome}
use headfwd.Portal.Users.{
  Users, Lists, refresh, refresh_settled, handle_generate_key, key_settled, handle_create_user,
  creation_settled, after_refresh,
}

-- The callbacks of the rows can come at any time. The number of an event says which of the requests
-- of its kind has ended.
pub data Event : Type 0 where
  typed : Text → Event
  submitted cancelled device_registered refreshed : Event
  toggled regenerated : Text → Event
  refresh_ends : ℕ → Outcome Lists → Event
  creation_ends : ℕ → Outcome User → Event
  key_ends : ℕ → Outcome CreateKeyResponse → Event

-- An element of a list and the others.
abbrev pub take_out {ℓ} : {A : Type ℓ} → ℕ → List A → Option (A × List A)
take_out i [] = none
take_out zero (x ∷ xs) = some (x, xs)
take_out (suc i) (x ∷ xs) = elim (take_out i xs) [ none ↦ none | some (y, ys) ↦ some (y, x ∷ ys) ]

abbrev pub is_blank : Text → Bool
is_blank [] = true
is_blank (c ∷ s) = false

-- The button of the form, which is there once the page has loaded.
unfoldable pub can_submit : Users → Bool
can_submit s = not s.loading && (not s.creating && not (is_blank (trim s.new_name)))

abbrev pub is_onboarding : Option Text → Text → Bool
is_onboarding none name = false
is_onboarding (some user) name = text_eq user name

-- `onToggleOnboarding`.
unfoldable pub toggle_onboarding : Text → Users → Users
unfolding handle_generate_key
toggle_onboarding name s =
    if is_onboarding s.onboarding_user name
    then record s { onboarding_user = none }
    else handle_generate_key name s

unfoldable pub refresh_next :
    Option (Option Text × List (Option Text)) → Outcome Lists → Users → Users
unfolding after_refresh refresh_settled
refresh_next none o s = s
refresh_next (some (after, others)) o s =
    after_refresh after (refresh_settled o (record s { refreshes = others }))

unfoldable pub creation_next : Option (Text × List Text) → Outcome User → Users → Users
unfolding creation_settled
creation_next none o s = s
creation_next (some (name, others)) o s = creation_settled name o (record s { creations = others })

unfoldable pub key_next : Option (Text × List Text) → Outcome CreateKeyResponse → Users → Users
unfolding key_settled
key_next none o s = s
key_next (some (name, others)) o s = key_settled name o (record s { keys = others })

unfoldable pub step : Users → Event → Users
unfolding refresh handle_create_user toggle_onboarding handle_generate_key can_submit
step s (typed name) = if s.loading then s else record s { new_name = name }
step s submitted = if can_submit s then handle_create_user s else s
step s cancelled = record s { onboarding_user = none }
step s device_registered = refresh none (record s { onboarding_user = none })
step s refreshed = refresh none s
step s (toggled name) = toggle_onboarding name s
step s (regenerated name) = handle_generate_key name s
step s (refresh_ends i o) = refresh_next (take_out i s.refreshes) o s
step s (creation_ends i o) = creation_next (take_out i s.creations) o s
step s (key_ends i o) = key_next (take_out i s.keys) o s

unfoldable pub run : Users → List Event → Users
run s [] = s
run s (e ∷ es) = run (step s e) es
