-- ===== src/Portal/UserList/Busy.antt =====
-- When the page is loading and when its form is busy.
use headfwd.Common.{
  ℕ, zero, suc, ◌+◌, ◌≤◌, ◌≡◌, refl, ap, Bool, true, false, List, [], ◌∷◌, ◌++◌, Text, trim, length,
  length-append, if◌then◌else◌, arith,
}
use headfwd.Portal.Client.{User, Outcome, done, thrown}
use headfwd.Portal.Users.Steps.{take_out}
use headfwd.Portal.Users.Waiting.{taken, missing, found}
use headfwd.Portal.UserList.{
  UserList, fetch_users, users_settled, create_named, handle_create, creation_settled, after_fetch,
  new_user_list, can_create, Event, typed, submitted, fetch_ends, creation_ends, fetch_next,
  creation_next, step, run,
}

abbrev pub count_chained : List Bool → ℕ
count_chained [] = 0
count_chained (true ∷ bs) = suc (count_chained bs)
count_chained (false ∷ bs) = count_chained bs

count_chained-append :
    (xs ys : List Bool) → count_chained (xs ++ ys) ≡ count_chained xs + count_chained ys
count_chained-append [] ys = omega arith
count_chained-append (true ∷ xs) ys = omega (arith, count_chained-append xs ys)
count_chained-append (false ∷ xs) ys = count_chained-append xs ys

-- The form is busy exactly while one creation is under way, and while the page says that it loads,
-- a fetch waits.
pub record IsBusy (s : UserList) : Type 0 where
  pub counted : s.creations + count_chained s.fetches ≡ (if s.creating then 1 else 0)
  pub fetching : s.loading ≡ true → 1 ≤ length s.fetches

after_fetch-IsBusy :
    (chained : Bool) (others : List Bool) (o : Outcome (List User)) (s : UserList)
    → s.creations + (count_chained (chained ∷ []) + count_chained others)
      ≡ (if s.creating then 1 else 0)
    → IsBusy (after_fetch chained (users_settled o (record s { fetches = others })))
unfolding users_settled
after_fetch-IsBusy true others (done us) s h = ground arith
after_fetch-IsBusy true others (thrown m) s h = ground arith
after_fetch-IsBusy false others (done us) s h = ground arith
after_fetch-IsBusy false others (thrown m) s h = ground arith

fetch_next-IsBusy :
    (i : ℕ) (o : Outcome (List User)) (s : UserList)
    → IsBusy s
    → IsBusy (fetch_next (take_out i s.fetches) o s)
unfolding fetch_next
fetch_next-IsBusy i o s v = elim (taken i s.fetches) [
  | missing e ↦ rw e v
  | found before chained after split e ↦ rw e (
      after_fetch-IsBusy chained (before ++ after) o s (
        omega (
          arith,
          v.counted,
          ap count_chained split,
          count_chained-append before (chained ∷ after),
          count_chained-append before after,
          count_chained-append (chained ∷ []) after,
        )))
]

creation_next-IsBusy :
    (n : ℕ) (o : Outcome User) (s : UserList)
    → s.creations ≡ n
    → IsBusy s
    → IsBusy (creation_next n o s)
unfolding creation_next creation_settled fetch_users
creation_next-IsBusy zero o s e v = v
creation_next-IsBusy (suc n) (done u) s e v =
    ground (arith, count_chained-append s.fetches (true ∷ []), length-append s.fetches (true ∷ []))
creation_next-IsBusy (suc n) (thrown m) s e v = ground arith

submit-IsBusy : (s : UserList) → can_create s ≡ true → IsBusy s → IsBusy (handle_create s)
unfolding handle_create can_create
submit-IsBusy s c v = go (trim s.new_name) s v (ground arith)
  where
    go : (name : Text) (s : UserList) → IsBusy s → s.creating ≡ false → IsBusy (create_named name s)
    go [] s v h = v
    go (c ∷ t) s v h = ground arith

step-IsBusy : (s : UserList) (e : Event) → IsBusy s → IsBusy (step s e)
unfolding step
step-IsBusy s (typed name) v = record { counted = v.counted; fetching = v.fetching }
step-IsBusy s submitted v = ground (arith, submit-IsBusy s)
step-IsBusy s (fetch_ends i o) v = fetch_next-IsBusy i o s v
step-IsBusy s (creation_ends o) v = creation_next-IsBusy s.creations o s refl v

run-IsBusy : (es : List Event) (s : UserList) → IsBusy s → IsBusy (run s es)
unfolding run
run-IsBusy [] s v = v
run-IsBusy (e ∷ es) s v = run-IsBusy es (step s e) (step-IsBusy s e v)

-- In every history of the page, its form is busy exactly while one creation of a user is under way,
-- from its request to the end of the fetch that follows it, there are never two, and while the page
-- says that it loads the users, a fetch of them waits.
pub run-new_user_list-IsBusy : (es : List Event) → IsBusy (run new_user_list es)
unfolding new_user_list fetch_users
run-new_user_list-IsBusy es =
    run-IsBusy es new_user_list (record { counted = refl; fetching = λ h. omega arith })
