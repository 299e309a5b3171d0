-- ===== src/Portal/Users/Creation.antt =====
-- How many creations of users are under way at a time.
use headfwd.Common.{
  ℕ, suc, ◌+◌, ◌≡◌, refl, ap, true, false, Option, none, some, List, [], ◌∷◌, ◌++◌, Text, length,
  length-append, trim, if◌then◌else◌, arith,
}
use headfwd.Portal.Client.{User, CreateKeyResponse, Outcome, done, thrown}
use headfwd.Portal.Users.{
  Users, Lists, refresh, refresh_settled, handle_generate_key, key_settled, handle_create_user,
  creation_settled, after_refresh, new_page, create_named,
}
use headfwd.Portal.Users.Waiting.{taken, missing, found}
use headfwd.Portal.Users.Steps.{
  Event, typed, submitted, cancelled, device_registered, refreshed, toggled, regenerated,
  refresh_ends, creation_ends, key_ends, take_out, can_submit, toggle_onboarding, refresh_next,
  creation_next, key_next, step, run,
}

-- The refreshes that a creation waits for.
abbrev pub count_chained : List (Option Text) → ℕ
count_chained [] = 0
count_chained (none ∷ rs) = count_chained rs
count_chained (some name ∷ rs) = suc (count_chained rs)

-- The creations that have begun and have not ended.
abbrev pub under_way : Users → ℕ
under_way s = length s.creations + count_chained s.refreshes

count_chained-append :
    (xs ys : List (Option Text)) → count_chained (xs ++ ys) ≡ count_chained xs + count_chained ys
count_chained-append [] ys = omega arith
count_chained-append (none ∷ xs) ys = count_chained-append xs ys
count_chained-append (some name ∷ xs) ys = omega (arith, count_chained-append xs ys)

-- `creating` says whether one is under way, and there are never two.
pub record IsSerial (s : Users) : Type 0 where
  pub counted : under_way s ≡ (if s.creating then 1 else 0)

after_refresh-IsSerial :
    (r : Option Text) (others : List (Option Text)) (o : Outcome Lists) (s : Users)
    → length s.creations + (count_chained (r ∷ []) + count_chained others)
      ≡ (if s.creating then 1 else 0)
    → IsSerial (after_refresh r (refresh_settled o (record s { refreshes = others })))
unfolding refresh_settled after_refresh handle_generate_key
after_refresh-IsSerial none others (done l) s h = ground arith
after_refresh-IsSerial none others (thrown m) s h = ground arith
after_refresh-IsSerial (some name) others (done l) s h = ground arith
after_refresh-IsSerial (some name) others (thrown m) s h = ground arith

refresh_next-IsSerial :
    (i : ℕ) (o : Outcome Lists) (s : Users)
    → IsSerial s
    → IsSerial (refresh_next (take_out i s.refreshes) o s)
unfolding refresh_next
refresh_next-IsSerial i o s v = elim (taken i s.refreshes) [
  | missing e ↦ rw e v
  | found before r after split e ↦ rw e (
      after_refresh-IsSerial r (before ++ after) o s (
        omega (
          arith,
          v.counted,
          ap count_chained split,
          count_chained-append before (r ∷ after),
          count_chained-append before after,
          count_chained-append (r ∷ []) after,
        )))
]

creation_settled-IsSerial :
    (name : Text) (others : List Text) (o : Outcome User) (s : Users)
    → suc (length others) + count_chained s.refreshes ≡ (if s.creating then 1 else 0)
    → IsSerial (creation_settled name o (record s { creations = others }))
unfolding creation_settled refresh
creation_settled-IsSerial name others (done u) s h =
    ground (arith, count_chained-append s.refreshes (some name ∷ []))
creation_settled-IsSerial name others (thrown m) s h = ground arith

creation_next-IsSerial :
    (i : ℕ) (o : Outcome User) (s : Users)
    → IsSerial s
    → IsSerial (creation_next (take_out i s.creations) o s)
unfolding creation_next
creation_next-IsSerial i o s v = elim (taken i s.creations) [
  | missing e ↦ rw e v
  | found before name after split e ↦ rw e (
      creation_settled-IsSerial name (before ++ after) o s (
        omega (
          arith,
          v.counted,
          ap length split,
          length-append before (name ∷ after),
          length-append before after,
        )))
]

key_next-IsSerial :
    (next : Option (Text × List Text)) (o : Outcome CreateKeyResponse) (s : Users)
    → IsSerial s
    → IsSerial (key_next next o s)
unfolding key_next key_settled
key_next-IsSerial none o s v = v
key_next-IsSerial (some (name, others)) (done k) s v = ground arith
key_next-IsSerial (some (name, others)) (thrown m) s v = ground arith

submit-IsSerial : (s : Users) → can_submit s ≡ true → IsSerial s → IsSerial (handle_create_user s)
unfolding handle_create_user can_submit
submit-IsSerial s c v = go (trim s.new_name) s v (ground arith)
  where
    go :
        (name : Text) (s : Users) → IsSerial s → s.creating ≡ false → IsSerial (create_named name s)
    go [] s v h = v
    go (c ∷ t) s v h = ground (arith, length-append s.creations ((c ∷ t) ∷ []))

refresh-IsSerial : (s : Users) → IsSerial s → IsSerial (refresh none s)
unfolding refresh
refresh-IsSerial s v = ground (arith, count_chained-append s.refreshes (none ∷ []))

step-IsSerial : (s : Users) (e : Event) → IsSerial s → IsSerial (step s e)
unfolding step toggle_onboarding handle_generate_key
step-IsSerial s (typed name) v = ground arith
step-IsSerial s submitted v = ground (arith, submit-IsSerial s)
step-IsSerial s cancelled v = ground arith
step-IsSerial s device_registered v =
    refresh-IsSerial (record s { onboarding_user = none }) (ground arith)
step-IsSerial s refreshed v = refresh-IsSerial s v
step-IsSerial s (toggled name) v = ground arith
step-IsSerial s (regenerated name) v = ground arith
step-IsSerial s (refresh_ends i o) v = refresh_next-IsSerial i o s v
step-IsSerial s (creation_ends i o) v = creation_next-IsSerial i o s v
step-IsSerial s (key_ends i o) v = key_next-IsSerial (take_out i s.keys) o s v

run-IsSerial : (es : List Event) (s : Users) → IsSerial s → IsSerial (run s es)
unfolding run
run-IsSerial [] s v = v
run-IsSerial (e ∷ es) s v = run-IsSerial es (step s e) (step-IsSerial s e v)

-- In every history of the page at most one creation of a user is under way, from its request to the
-- end of the refresh that follows it, and the form is busy exactly while one is.
pub run-new_page-IsSerial : (es : List Event) → IsSerial (run new_page es)
unfolding new_page refresh
run-new_page-IsSerial es = run-IsSerial es new_page (record { counted = refl })
