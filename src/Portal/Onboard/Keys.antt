-- ===== src/Portal/Onboard/Keys.antt =====
-- Which key the page shows.
use headfwd.Common.{
  ◌≡◌, ◌≢◌, refl, sym, ap, ◌∙◌, Bool, true, false, Option, none, some, List, [], ◌∷◌, ◌++◌, Text,
  if◌then◌else◌, if_both, Bool-cases, inl, inr, arith,
}
use mathlib.Core.Path.{subst}
use headfwd.Portal.Client.{User, CreateKeyResponse, Outcome, done, thrown}
use headfwd.Portal.Onboard.{
  Onboard, new_onboard, users_settled, generate_for, handle_generate, key_settled, key_next, select,
  can_generate, Event, users_end, selected, generate_clicked, key_ends, step, run,
}

is_idle : (s : Onboard) → can_generate s ≡ true → s.loading ≡ false
unfolding can_generate
is_idle s h = ground arith

module _ (P : Text → CreateKeyResponse → Type 0) where
  abbrev pub Answers : List Text → Outcome CreateKeyResponse → Type 0
  Answers (user ∷ others) (done k) = P user k
  Answers _ _ = Unit

  -- The server's keys have the property, and no user is selected while a key is on its way.
  abbrev pub Calm : Onboard → Event → Type 0
  Calm s (key_ends o) = Answers s.keys o
  Calm s (selected name) = s.loading ≡ false
  Calm s _ = Unit

  pub data History : Onboard → Type 0 where
    mounted : History new_onboard
    later : {s : Onboard} (e : Event) → History s → Calm s e → History (step s e)

  abbrev pub Shows : Text → Option CreateKeyResponse → Type 0
  Shows user none = Unit
  Shows user (some k) = P user k

  -- The key is of the selected user, and if one is on its way then it is the only one, for that user.
  pub record IsOwn (s : Onboard) : Type 0 where
    pub shown : Shows s.selected_user s.key_data
    pub waiting : s.keys ≡ (if s.loading then s.selected_user ∷ [] else [])

  generate-IsOwn :
      (name : Text) (s : Onboard)
      → name ≡ s.selected_user
      → s.loading ≡ false
      → IsOwn s
      → IsOwn (generate_for name s)
  generate-IsOwn [] s e idle v = v
  generate-IsOwn (c ∷ t) s e idle v = record {
    shown = tt;
    waiting = rw⁻¹ e (
        ap (λ x. x ++ (c ∷ t) ∷ [])
          (v.waiting ∙ ap (λ b. if b then s.selected_user ∷ [] else []) idle));
  }

  users_settled-IsOwn :
      (o : Outcome (List User)) (s : Onboard) → IsOwn s → IsOwn (users_settled o s)
  unfolding users_settled
  users_settled-IsOwn (done us) s v = record { shown = v.shown; waiting = v.waiting }
  users_settled-IsOwn (thrown m) s v = record { shown = v.shown; waiting = v.waiting }

  -- The end of a request: it was the only one, for the selected user.
  key_next-IsOwn :
      (loading : Bool) (keys : List Text) (o : Outcome CreateKeyResponse) (s : Onboard)
      → keys ≡ (if loading then s.selected_user ∷ [] else [])
      → Answers keys o
      → IsOwn s
      → IsOwn (key_next keys o s)
  unfolding key_next key_settled
  key_next-IsOwn loading [] o s e a v = v
  key_next-IsOwn true (user ∷ others) (done k) s e a v = record {
    shown = subst (λ u. P u k) (cc e) a;
    waiting = cc e;
  }
  key_next-IsOwn true (user ∷ others) (thrown m) s e a v = record {
    shown = v.shown;
    waiting = cc e;
  }
  key_next-IsOwn false (user ∷ others) o s e a v = cc

  step-IsOwn : (s : Onboard) (e : Event) → Calm s e → IsOwn s → IsOwn (step s e)
  unfolding step handle_generate select can_generate
  step-IsOwn s (users_end o) c v = if_both IsOwn s.users_wait _ s (users_settled-IsOwn o s v) v
  step-IsOwn s (selected name) c v = record {
    shown = tt;
    waiting =
        v.waiting
        ∙ ap (λ b. if b then s.selected_user ∷ [] else []) c
        ∙ sym (ap (λ b. if b then name ∷ [] else []) c);
  }
  step-IsOwn s generate_clicked c v = elim (Bool-cases (can_generate s)) [
    | inl can ↦ rw can (generate-IsOwn s.selected_user s refl (is_idle s can) v)
    | inr cannot ↦ rw cannot v
  ]
  step-IsOwn s (key_ends o) c v = key_next-IsOwn s.loading s.keys o s v.waiting c v

  -- Where the server answers each request for a key with one of that user, and no user is selected
  -- while a key is on its way, the key that the page shows is always one of the selected user, and at
  -- most one key is on its way, for that user, exactly while the page is generating.
  pub shows_key_of_selected : {s : Onboard} → History s → IsOwn s
  unfolding new_onboard
  shows_key_of_selected mounted = record { shown = tt; waiting = refl }
  shows_key_of_selected (later {s} e h c) = step-IsOwn s e c (shows_key_of_selected h)

-- Without that condition it need not be: the key of a user that comes after another one has been
-- selected is shown under the other one.
pub late_key_is_shown :
    (s : Onboard) (first second : Text) (k : CreateKeyResponse)
    → s.keys ≡ []
    → s.loading ≡ false
    → first ≢ []
    → ((run s (
          selected first
          ∷ generate_clicked
          ∷ selected second
          ∷ key_ends (done k)
          ∷ [])).selected_user
        ≡ second)
      × ((run s
            (selected first ∷ generate_clicked ∷ selected second ∷ key_ends (done k) ∷ [])).key_data
          ≡ some k)
unfolding run step select can_generate handle_generate key_next key_settled
late_key_is_shown s [] second k none_waits idle h = absurd (h refl)
late_key_is_shown s (c ∷ t) second k none_waits idle h = rw (idle, none_waits) (refl, refl)
