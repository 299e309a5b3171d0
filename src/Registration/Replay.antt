-- ===== src/Registration/Replay.antt =====
-- A challenge serves for one registration.
use headfwd.Common.{
  ℕ, ◌≡◌, refl, sym, ap, ◌∙◌, true, false, inl, inr, Option, none, some, Text, Bool-cases, not,
  ◌||◌, arith, text_eq_refl, if◌then◌else◌,
}
use headfwd.Common.Dict.{lookup-erase, HasDistinctKeys, erase-HasDistinctKeys}
use headfwd.Json.{Value, str, truthy}
use headfwd.Http.{Request, Response}
use mathlib.Core.Path.{subst}
use headfwd.Hex.{generate_secret}
use headfwd.Platform.{Platform}
use headfwd.Registration.State.{State, challenge_key}
use headfwd.Registration.Verify.{
  VerifyDraw, find_by, find_challenge, kv_challenge, register_by, store_registration, read_fields,
  with_fields, after_lookup, handle_register_verify, not_found, missing_fields,
}
use headfwd.Registration.Honest.{after_lookup-none}
use headfwd.Registration.Lookup.{find_local}
use headfwd.Registration.Outcome.{Outcome, refused, looked, proven, handle_register_verify-Outcome}
use headfwd.Registration.Sound.{IsSound}
use headfwd.Registration.Steps.{find_by-IsSound}

module _ (p : Platform) where
  -- After a registration the namespace, or the local map, has no challenge for the fingerprint.
  found_after_registration :
      (st : State p) (r : Option p.Store) (v : VerifyDraw p) (now : ℕ) (f : Value)
      (text secret : Text) (key : Option Value)
      → HasDistinctKeys st.challenges
      → p.to_string f ≡ some text
      → (let s = register_by p r v f text key secret (record st { registry = r }) in
          (find_by p s.registry now f s).1 ≡ some none)
  unfolding find_by register_by kv_challenge
  found_after_registration st (some kv) v now f text secret key d k =
      rw (k, p.get-delete_self _ now (challenge_key text))
  found_after_registration st none v now (str t) text secret key d k =
      let s = register_by p none v (str t) text key secret (record st { registry = none }) in
      find_local p s now t (erase-HasDistinctKeys t st.challenges d)
      ∙ rw (lookup-erase t t st.challenges, text_eq_refl t) refl
  found_after_registration st none v now f text secret key d k = refl

  find_challenge_after_registration :
      (st : State p) (v : VerifyDraw p) (now : ℕ) (f : Value) (text secret : Text)
      (key : Option Value)
      → HasDistinctKeys st.challenges
      → p.to_string f ≡ some text
      → (find_challenge p now f (store_registration p v f text key secret st)).1 ≡ some none
  unfolding find_challenge store_registration
  find_challenge_after_registration st v now f text secret key d k =
      found_after_registration st st.registry v now f text secret key d k

  handle_of_read :
      (v : VerifyDraw p) (req : Request) (st : State p) (f g : Value)
      → read_fields p req ≡ some (some f, some g)
      → handle_register_verify p v req st ≡ (
          if not (truthy (some f)) || not (truthy (some g))
          then (st, missing_fields)
          else after_lookup p v req f g (find_challenge p v.now f st))
  unfolding handle_register_verify with_fields
  handle_of_read v req st f g e = ap (with_fields p v req st) e

  refused_status :
      (o : State p × Response) (st : State p) → o ≡ (st, missing_fields) → o.1.status ≡ 400
  refused_status o st e = ap (λ (x : State p × Response). x.1.status) e

  handle_missing :
      (v : VerifyDraw p) (req : Request) (st : State p) (f g : Value)
      → read_fields p req ≡ some (some f, some g)
      → (not (truthy (some f)) || not (truthy (some g))) ≡ true
      → handle_register_verify p v req st ≡ (st, missing_fields)
  handle_missing v req st f g read missing = rw (handle_of_read v req st f g read, missing)

  -- A request with both fields, on a state in which the look-up finds nothing.
  not_found_again :
      (v : VerifyDraw p) (req : Request) (st : State p) (f g : Value)
      → read_fields p req ≡ some (some f, some g)
      → (not (truthy (some f)) || not (truthy (some g))) ≡ false
      → (find_challenge p v.now f st).1 ≡ some none
      → (handle_register_verify p v req st).1 ≡ not_found
  not_found_again v req st f g read both none_left =
      rw (handle_of_read v req st f g read, both)
        (ap (λ (x : State p × Response). x.1)
          (after_lookup-none p v req f g (find_challenge p v.now f st) none_left))

  again :
      (v v' : VerifyDraw p) (req : Request) (st s : State p) (r : Response)
      → handle_register_verify p v req st ≡ (s, r)
      → IsSound p st
      → r.status ≡ 200
      → Outcome p v req st s r
      → (handle_register_verify p v' req s).1 ≡ not_found
  unfolding find_challenge
  again v v' req st s r h sound ok (refused _ bad) = absurd (bad ok)
  again v v' req st s r h sound ok (looked f _ bad) = absurd (bad ok)
  again v v' req st s r h sound ok (proven f text proof c read printed found expected stored _) =
      elim (Bool-cases (not (truthy (some f)) || not (truthy (some (str proof))))) [
        | inl missing ↦
            let bad : r.status ≡ 400 =
              refused_status (s, r) st
                (sym h ∙ handle_missing v req st f (str proof) read missing) in
            absurd (omega (arith, bad, ok))
        | inr both ↦ not_found_again v' req s f (str proof) read both (
            subst (λ x. (find_challenge p v'.now f x).1 ≡ some none) (sym stored)
              (find_challenge_after_registration _ v v'.now f text (generate_secret v.secret_bytes)
                c.public_key (find_by-IsSound p st st.registry v.now f sound).distinct printed))
      ]

  -- In a sound state, when a request has led to a registration, the same request right after it is
  -- refused whatever the time, with the reply for a challenge that is not found.
  pub verify_once :
      (v v' : VerifyDraw p) (req : Request) (st : State p)
      → IsSound p st
      → (handle_register_verify p v req st).1.status ≡ 200
      → (handle_register_verify p v' req (handle_register_verify p v req st).0).1 ≡ not_found
  verify_once v v' req st s ok =
      again v v' req st _ _ refl s ok (handle_register_verify-Outcome p v req st)
