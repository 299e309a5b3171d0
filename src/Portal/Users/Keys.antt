-- ===== src/Portal/Users/Keys.antt =====
-- Whose keys the page shows.
use headfwd.Common.{
  ◌≡◌, refl, Bool, true, false, ◌||◌, Option, none, some, List, [], ◌∷◌, ◌++◌, Text, text_eq,
  text_eq_refl, trim, if_both, arith,
}
use headfwd.Common.Dict.{
  Dict, lookup, insert, erase, lookup-erase, lookup-insert, Each, insert-Each, erase-Each,
}
use headfwd.Portal.Client.{User, CreateKeyResponse, Outcome, done, thrown}
use headfwd.Portal.Users.{
  Users, Lists, refresh, refresh_settled, handle_generate_key, key_settled, handle_create_user,
  creation_settled, after_refresh, new_page, create_named,
}
use headfwd.Portal.Users.Steps.{
  Event, typed, submitted, cancelled, device_registered, refreshed, toggled, regenerated,
  refresh_ends, creation_ends, key_ends, take_out, is_onboarding, can_submit, toggle_onboarding,
  refresh_next, creation_next, key_next, step, run,
}

-- Whether a key for the user is still to come.
abbrev pub waits : Text → List Text → Bool
waits user [] = false
waits user (u ∷ us) = text_eq u user || waits user us

waits_last : (user : Text) (us : List Text) → waits user (us ++ user ∷ []) ≡ true
waits_last user [] = ground (arith, text_eq_refl user)
waits_last user (u ∷ us) = ground (arith, waits_last user us)

module _ (P : Text → CreateKeyResponse → Type 0) where
  -- The server answers a request for a key of a user only with a key that has the property.
  abbrev pub Answers : Option (Text × List Text) → Outcome CreateKeyResponse → Type 0
  Answers (some (user, others)) (done k) = P user k
  Answers _ _ = Unit

  abbrev pub Honest : Users → Event → Type 0
  Honest s (key_ends i o) = Answers (take_out i s.keys) o
  Honest s _ = Unit

  -- The states that the page comes to with such a server.
  pub data History : Users → Type 0 where
    mounted : History new_page
    later : {s : Users} (e : Event) → History s → Honest s e → History (step s e)

  -- Each key is of the user that it is kept for, and the user whose key is said to be on its way has
  -- one on its way.
  pub record HasOwnKeys (s : Users) : Type 0 where
    pub own : Each P s.key_data
    pub pending : (user : Text) → s.generating_key ≡ some user → waits user s.keys ≡ true

  generate-HasOwnKeys :
      (user : Text) (s : Users) → HasOwnKeys s → HasOwnKeys (handle_generate_key user s)
  unfolding handle_generate_key
  generate-HasOwnKeys user s v = record {
    own = erase-Each P user s.key_data v.own;
    pending = λ u h. cc (h, waits_last user s.keys);
  }

  key_next-HasOwnKeys :
      (n : Option (Text × List Text)) (o : Outcome CreateKeyResponse) (s : Users)
      → Answers n o
      → HasOwnKeys s
      → HasOwnKeys (key_next n o s)
  unfolding key_next key_settled
  key_next-HasOwnKeys none o s a v = v
  key_next-HasOwnKeys (some (user, others)) (done k) s a v = record {
    own = insert-Each P user k s.key_data a v.own;
    pending = λ u h. cc;
  }
  key_next-HasOwnKeys (some (user, others)) (thrown m) s a v = record {
    own = v.own;
    pending = λ u h. cc;
  }

  after_refresh-HasOwnKeys :
      (r : Option Text) (s : Users) → HasOwnKeys s → HasOwnKeys (after_refresh r s)
  unfolding after_refresh
  after_refresh-HasOwnKeys none s v = v
  after_refresh-HasOwnKeys (some user) s v =
      let w = generate-HasOwnKeys user s v in record { own = w.own; pending = w.pending }

  refresh_next-HasOwnKeys :
      (n : Option (Option Text × List (Option Text))) (o : Outcome Lists) (s : Users)
      → HasOwnKeys s
      → HasOwnKeys (refresh_next n o s)
  unfolding refresh_next refresh_settled
  refresh_next-HasOwnKeys none o s v = v
  refresh_next-HasOwnKeys (some (r, others)) (done l) s v =
      after_refresh-HasOwnKeys r _ (record { own = v.own; pending = v.pending })
  refresh_next-HasOwnKeys (some (r, others)) (thrown m) s v =
      after_refresh-HasOwnKeys r _ (record { own = v.own; pending = v.pending })

  creation_next-HasOwnKeys :
      (n : Option (Text × List Text)) (o : Outcome User) (s : Users)
      → HasOwnKeys s
      → HasOwnKeys (creation_next n o s)
  unfolding creation_next creation_settled refresh
  creation_next-HasOwnKeys none o s v = v
  creation_next-HasOwnKeys (some (name, others)) (done u) s v = record {
    own = v.own;
    pending = v.pending;
  }
  creation_next-HasOwnKeys (some (name, others)) (thrown m) s v = record {
    own = v.own;
    pending = v.pending;
  }

  create_named-HasOwnKeys :
      (name : Text) (s : Users) → HasOwnKeys s → HasOwnKeys (create_named name s)
  create_named-HasOwnKeys [] s v = v
  create_named-HasOwnKeys (c ∷ t) s v = record { own = v.own; pending = v.pending }

  step-HasOwnKeys : (s : Users) (e : Event) → Honest s e → HasOwnKeys s → HasOwnKeys (step s e)
  unfolding step toggle_onboarding handle_create_user refresh
  step-HasOwnKeys s (typed name) a v =
      if_both HasOwnKeys s.loading s _ v (record { own = v.own; pending = v.pending })
  step-HasOwnKeys s submitted a v =
      if_both HasOwnKeys (can_submit s) _ s (create_named-HasOwnKeys (trim s.new_name) s v) v
  step-HasOwnKeys s cancelled a v = record { own = v.own; pending = v.pending }
  step-HasOwnKeys s device_registered a v = record { own = v.own; pending = v.pending }
  step-HasOwnKeys s refreshed a v = record { own = v.own; pending = v.pending }
  step-HasOwnKeys s (toggled name) a v =
      if_both HasOwnKeys (is_onboarding s.onboarding_user name) _ _
        (record { own = v.own; pending = v.pending }) (generate-HasOwnKeys name s v)
  step-HasOwnKeys s (regenerated name) a v = generate-HasOwnKeys name s v
  step-HasOwnKeys s (refresh_ends i o) a v = refresh_next-HasOwnKeys (take_out i s.refreshes) o s v
  step-HasOwnKeys s (creation_ends i o) a v =
      creation_next-HasOwnKeys (take_out i s.creations) o s v
  step-HasOwnKeys s (key_ends i o) a v = key_next-HasOwnKeys (take_out i s.keys) o s a v

  new_page-HasOwnKeys : HasOwnKeys new_page
  unfolding new_page refresh lookup
  new_page-HasOwnKeys = record { own = λ k v e. cc; pending = λ u h. cc }

  -- If the server answers each request for a key with a key of that user, then in every state that
  -- the page comes to, each key stands with the user it is of, and a user whose key is said to be on
  -- its way has a request that waits.
  pub keys_stay_apart : {s : Users} → History s → HasOwnKeys s
  keys_stay_apart mounted = new_page-HasOwnKeys
  keys_stay_apart (later {s} e h a) = step-HasOwnKeys s e a (keys_stay_apart h)

lookup-erased : (user : Text) (m : Dict CreateKeyResponse) → lookup user (erase user m) ≡ none
lookup-erased user m = ground (arith, lookup-erase user user m, text_eq_refl user)

lookup-inserted :
    (first second : Text) (k : CreateKeyResponse) (m : Dict CreateKeyResponse)
    → text_eq first second ≡ false
    → lookup second (insert first k (erase second m)) ≡ none
lookup-inserted first second k m differ =
    ground (arith, lookup-insert first second k (erase second m), lookup-erased second m)

-- Where the key of a second user is asked for before that of a first one has come, the end of the
-- first request takes back that a key is on its way, though the second one, whose panel is open, still
-- is, and leaves that panel without a key.
pub first_key_hides_second :
    (s : Users) (first second : Text) (o : Outcome CreateKeyResponse)
    → s.keys ≡ []
    → text_eq first second ≡ false
    → ((run s (regenerated first ∷ regenerated second ∷ key_ends 0 o ∷ [])).generating_key ≡ none)
      × ((run s (regenerated first ∷ regenerated second ∷ key_ends 0 o ∷ [])).onboarding_user
          ≡ some second)
      × ((run s (regenerated first ∷ regenerated second ∷ key_ends 0 o ∷ [])).keys ≡ second ∷ [])
      × (lookup second (run s (regenerated first ∷ regenerated second ∷ key_ends 0 o ∷ [])).key_data
          ≡ none)
unfolding run step handle_generate_key key_next key_settled
first_key_hides_second s first second (done k) e differ =
    rw e (refl, refl, refl, lookup-inserted first second k _ differ)
first_key_hides_second s first second (thrown m) e differ =
    rw e (refl, refl, refl, lookup-erased second _)
