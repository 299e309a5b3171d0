-- ===== src/Portal/Users/Loading.antt =====
-- The page loads.
use headfwd.Common.{
  ◌≡◌, refl, ◌∙◌, Bool, true, false, ◌&&◌, Option, none, some, List, [], ◌∷◌, ◌++◌, Text, trim,
  if_both, arith,
}
use headfwd.Portal.Client.{User, CreateKeyResponse, Outcome, done, thrown}
use headfwd.Portal.Users.{
  Users, Lists, refresh, refresh_settled, handle_generate_key, key_settled, handle_create_user,
  creation_settled, after_refresh, new_page, create_named,
}
use headfwd.Portal.Users.Steps.{
  Event, typed, submitted, cancelled, device_registered, refreshed, toggled, regenerated,
  refresh_ends, creation_ends, key_ends, take_out, is_onboarding, can_submit, toggle_onboarding,
  refresh_next, creation_next, key_next, step, run,
}

abbrev is_nil {ℓ} : {A : Type ℓ} → List A → Bool
is_nil [] = true
is_nil (x ∷ xs) = false

-- While the page loads a refresh waits.
abbrev IsLoadable : Users → Type 0
IsLoadable s = (s.loading && is_nil s.refreshes) ≡ false

is_nil-append : {A : Type 0} (xs : List A) (x : A) → is_nil (xs ++ x ∷ []) ≡ false
is_nil-append [] x = refl
is_nil-append (y ∷ xs) x = refl

-- A step leaves both as they are, or adds a refresh, or has loaded the page.
data Change (s t : Users) : Type 0 where
  same : t.loading ≡ s.loading → t.refreshes ≡ s.refreshes → Change s t
  more : t.loading ≡ s.loading → is_nil t.refreshes ≡ false → Change s t
  loaded : t.loading ≡ false → Change s t

refresh-Change : (after : Option Text) (s : Users) → Change s (refresh after s)
unfolding refresh
refresh-Change after s = more refl (is_nil-append s.refreshes after)

loaded_after : (after : Option Text) (s : Users) → (after_refresh after s).loading ≡ s.loading
unfolding after_refresh handle_generate_key
loaded_after none s = refl
loaded_after (some name) s = refl

refresh_settled-loads : (o : Outcome Lists) (s : Users) → (refresh_settled o s).loading ≡ false
unfolding refresh_settled
refresh_settled-loads (done l) s = refl
refresh_settled-loads (thrown m) s = refl

refresh_next-Change :
    (n : Option (Option Text × List (Option Text))) (o : Outcome Lists) (s : Users)
    → Change s (refresh_next n o s)
unfolding refresh_next
refresh_next-Change none o s = same refl refl
refresh_next-Change (some (after, others)) o s =
    loaded (loaded_after after _ ∙ refresh_settled-loads o (record s { refreshes = others }))

creation_next-Change :
    (n : Option (Text × List Text)) (o : Outcome User) (s : Users) → Change s (creation_next n o s)
unfolding creation_next creation_settled refresh
creation_next-Change none o s = same refl refl
creation_next-Change (some (name, others)) (done u) s =
    more refl (is_nil-append s.refreshes (some name))
creation_next-Change (some (name, others)) (thrown m) s = same refl refl

key_next-Change :
    (n : Option (Text × List Text)) (o : Outcome CreateKeyResponse) (s : Users)
    → Change s (key_next n o s)
unfolding key_next key_settled
key_next-Change none o s = same refl refl
key_next-Change (some (name, others)) (done k) s = same refl refl
key_next-Change (some (name, others)) (thrown m) s = same refl refl

create_named-Change : (name : Text) (s : Users) → Change s (create_named name s)
create_named-Change [] s = same refl refl
create_named-Change (c ∷ t) s = same refl refl

step-Change : (s : Users) (e : Event) → Change s (step s e)
unfolding step toggle_onboarding handle_create_user handle_generate_key refresh
step-Change s (typed name) = if_both (Change s) s.loading s _ (same refl refl) (same refl refl)
step-Change s submitted =
    if_both (Change s) (can_submit s) _ s (create_named-Change (trim s.new_name) s) (same refl refl)
step-Change s cancelled = same refl refl
step-Change s device_registered = more refl (is_nil-append s.refreshes none)
step-Change s refreshed = refresh-Change none s
step-Change s (toggled name) =
    if_both (Change s) (is_onboarding s.onboarding_user name) _ _ (same refl refl) (same refl refl)
step-Change s (regenerated name) = same refl refl
step-Change s (refresh_ends i o) = refresh_next-Change (take_out i s.refreshes) o s
step-Change s (creation_ends i o) = creation_next-Change (take_out i s.creations) o s
step-Change s (key_ends i o) = key_next-Change (take_out i s.keys) o s

Change-IsLoadable : (s t : Users) → Change s t → IsLoadable s → IsLoadable t
Change-IsLoadable s t (same l r) v = rw (l, r) v
Change-IsLoadable s t (more l r) v = ground arith
Change-IsLoadable s t (loaded l) v = ground arith

run-IsLoadable : (es : List Event) (s : Users) → IsLoadable s → IsLoadable (run s es)
unfolding run
run-IsLoadable [] s v = v
run-IsLoadable (e ∷ es) s v =
    run-IsLoadable es (step s e) (Change-IsLoadable s (step s e) (step-Change s e) v)

-- A page that has loaded stays so.
pub run-loaded : (es : List Event) (s : Users) → s.loading ≡ false → (run s es).loading ≡ false
unfolding run
run-loaded [] s h = h
run-loaded (e ∷ es) s h = run-loaded es (step s e) (after (step-Change s e))
  where
    after : Change s (step s e) → (step s e).loading ≡ false
    after (same l r) = l ∙ h
    after (more l r) = l ∙ h
    after (loaded l) = l

settle :
    (s : Users) (o : Outcome Lists) → IsLoadable s → (step s (refresh_ends 0 o)).loading ≡ false
unfolding step refresh_next
settle s o v = go s.refreshes v
  where
    go :
        (rs : List (Option Text))
        → (s.loading && is_nil rs) ≡ false
        → (refresh_next (take_out 0 rs) o s).loading ≡ false
    go [] h = ground arith
    go (after ∷ rs) h = loaded_after after _ ∙ refresh_settled-loads o (record s { refreshes = rs })

-- In every history of the page, once the first refresh that waits has ended, well or with an
-- exception, the page is no longer loading, and it stays so whatever happens next.
pub loads :
    (es later : List Event) (o : Outcome Lists)
    → (run (step (run new_page es) (refresh_ends 0 o)) later).loading ≡ false
unfolding new_page refresh
loads es later o = run-loaded later _ (settle (run new_page es) o (run-IsLoadable es new_page refl))
