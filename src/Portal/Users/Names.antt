-- ===== src/Portal/Users/Names.antt =====
-- The names of the users that the page creates.
use headfwd.Common.{
  ◌≡◌, ◌≢◌, false, Option, none, some, List, [], ◌∷◌, Text, trim, All, All-append, if_both,
}
use headfwd.Portal.Client.{
  Call, create_user, list_users, list_nodes, list_admins, create_key, User, CreateKeyResponse,
  Outcome, done, thrown,
}
use headfwd.Portal.Users.{
  Users, Lists, refresh, refresh_settled, handle_generate_key, key_settled, handle_create_user,
  creation_settled, after_refresh, new_page, create_named,
}
use headfwd.Portal.Users.Steps.{
  Event, typed, submitted, cancelled, device_registered, refreshed, toggled, regenerated,
  refresh_ends, creation_ends, key_ends, take_out, is_onboarding, can_submit, toggle_onboarding,
  refresh_next, creation_next, key_next, step, run,
}
use headfwd.Portal.Trim.{trim-trim}

-- A call that creates a user gives it a name that is not empty and that `trim` leaves as it is.
abbrev pub IsProper : Call → Type 0
IsProper (create_user name) = (name ≢ []) × (trim name ≡ name)
IsProper _ = Unit

abbrev Proper : Users → Type 0
Proper s = All IsProper s.calls

create_named-Proper :
    (name : Text) (s : Users) → trim name ≡ name → Proper s → Proper (create_named name s)
create_named-Proper [] s t v = v
create_named-Proper (c ∷ n) s t v =
    All-append IsProper s.calls (create_user (c ∷ n) ∷ []) v (((λ e. cc), t), tt)

refresh-Proper : (after : Option Text) (s : Users) → Proper s → Proper (refresh after s)
unfolding refresh
refresh-Proper after s v =
    All-append IsProper s.calls (list_users ∷ list_nodes ∷ list_admins ∷ []) v (tt, (tt, (tt, tt)))

generate-Proper : (name : Text) (s : Users) → Proper s → Proper (handle_generate_key name s)
unfolding handle_generate_key
generate-Proper name s v = All-append IsProper s.calls (create_key name false ∷ []) v (tt, tt)

refresh_settled-Proper : (o : Outcome Lists) (s : Users) → Proper s → Proper (refresh_settled o s)
unfolding refresh_settled
refresh_settled-Proper (done l) s v = v
refresh_settled-Proper (thrown m) s v = v

after_refresh-Proper : (after : Option Text) (s : Users) → Proper s → Proper (after_refresh after s)
unfolding after_refresh
after_refresh-Proper none s v = v
after_refresh-Proper (some name) s v = generate-Proper name s v

refresh_next-Proper :
    (n : Option (Option Text × List (Option Text))) (o : Outcome Lists) (s : Users)
    → Proper s
    → Proper (refresh_next n o s)
unfolding refresh_next
refresh_next-Proper none o s v = v
refresh_next-Proper (some (after, others)) o s v =
    after_refresh-Proper after (refresh_settled o (record s { refreshes = others }))
      (refresh_settled-Proper o (record s { refreshes = others }) v)

creation_next-Proper :
    (n : Option (Text × List Text)) (o : Outcome User) (s : Users)
    → Proper s
    → Proper (creation_next n o s)
unfolding creation_next creation_settled
creation_next-Proper none o s v = v
creation_next-Proper (some (name, others)) (done u) s v =
    refresh-Proper (some name) (record s { creations = others; new_name = [] }) v
creation_next-Proper (some (name, others)) (thrown m) s v = v

key_next-Proper :
    (n : Option (Text × List Text)) (o : Outcome CreateKeyResponse) (s : Users)
    → Proper s
    → Proper (key_next n o s)
unfolding key_next key_settled
key_next-Proper none o s v = v
key_next-Proper (some (name, others)) (done k) s v = v
key_next-Proper (some (name, others)) (thrown m) s v = v

step-Proper : (s : Users) (e : Event) → Proper s → Proper (step s e)
unfolding step toggle_onboarding handle_create_user
step-Proper s (typed name) v = if_both Proper s.loading s _ v v
step-Proper s submitted v =
    if_both Proper (can_submit s) _ s
      (create_named-Proper (trim s.new_name) s (trim-trim s.new_name) v) v
step-Proper s cancelled v = v
step-Proper s device_registered v = refresh-Proper none (record s { onboarding_user = none }) v
step-Proper s refreshed v = refresh-Proper none s v
step-Proper s (toggled name) v =
    if_both Proper (is_onboarding s.onboarding_user name) _ _ v (generate-Proper name s v)
step-Proper s (regenerated name) v = generate-Proper name s v
step-Proper s (refresh_ends i o) v = refresh_next-Proper (take_out i s.refreshes) o s v
step-Proper s (creation_ends i o) v = creation_next-Proper (take_out i s.creations) o s v
step-Proper s (key_ends i o) v = key_next-Proper (take_out i s.keys) o s v

run-Proper : (es : List Event) (s : Users) → Proper s → Proper (run s es)
unfolding run
run-Proper [] s v = v
run-Proper (e ∷ es) s v = run-Proper es (step s e) (step-Proper s e v)

-- In every history of the page, each user that it asks the server to create has a name that is not
-- empty and has no white space at either end.
pub created_names_are_trimmed : (es : List Event) → All IsProper (run new_page es).calls
unfolding new_page refresh
created_names_are_trimmed es = run-Proper es new_page (tt, (tt, (tt, tt)))
