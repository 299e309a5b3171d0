-- ===== src/Registration/Fallback.antt =====
-- What the check of a sidecar reads where the environment has no namespace.
use headfwd.Common.{
  ℕ, ◌<◌, ◌≡◌, refl, sym, ap, ◌∙◌, ◌↔◌, true, Option, none, some, Text, length, text_eq_iff, arith,
}
use mathlib.Core.Path.{subst}
use headfwd.Json.{Value, null, bool, num, str, arr, obj}
use headfwd.Http.{Request}
use headfwd.Platform.{Platform}
use headfwd.Registration.State.{State, Challenge}
use headfwd.Registration.Verify.{
  VerifyDraw, forget, find_by, find_challenge, register_by, store_registration,
  handle_register_verify,
}
use headfwd.Registration.Outcome.{Outcome, refused, looked, proven, handle_register_verify-Outcome}
use headfwd.Registration.Credentials.{truthy_secret}
use headfwd.Tunnel.Access.{authorized}

module _ (p : Platform) where
  forget-registry :
      (live : Option Challenge) (text : Option Text) (s : State p)
      → (forget p live text s).registry ≡ s.registry
  forget-registry none none s = refl
  forget-registry none (some t) s = refl
  forget-registry (some c) t s = refl

  find_by-registry :
      (o : Option p.Store) (now : ℕ) (f : Value) (st : State p)
      → (find_by p o now f st).0.registry ≡ st.registry
  unfolding find_by
  find_by-registry none now f st = forget-registry _ _ _
  find_by-registry (some kv) now f st = refl

  find_challenge-registry :
      (now : ℕ) (f : Value) (st : State p) → (find_challenge p now f st).0.registry ≡ st.registry
  unfolding find_challenge
  find_challenge-registry now f st = find_by-registry st.registry now f st

  register_by-registry :
      (v : VerifyDraw p) (f : Value) (text : Text) (key : Option Value) (secret : Text)
      (st : State p)
      → (register_by p none v f text key secret st).registry ≡ st.registry
  unfolding register_by
  register_by-registry v (str t) text key secret st = refl
  register_by-registry v null text key secret st = refl
  register_by-registry v (bool b) text key secret st = refl
  register_by-registry v (num n) text key secret st = refl
  register_by-registry v (arr vs) text key secret st = refl
  register_by-registry v (obj fs) text key secret st = refl

  stored-registry :
      (v : VerifyDraw p) (f : Value) (text : Text) (key : Option Value) (secret : Text)
      (st : State p)
      → st.registry ≡ none
      → (store_registration p v f text key secret st).registry ≡ none
  unfolding store_registration
  stored-registry v f text key secret st e =
      ap (λ o. (register_by p o v f text key secret st).registry) e
      ∙ register_by-registry v f text key secret st
      ∙ e

  module _ (v : VerifyDraw p) (req : Request) (st : State p) (local : st.registry ≡ none) where
    outcome-registry : {r : _} (s : State p) → Outcome p v req st s r → s.registry ≡ none
    outcome-registry s (refused same _) = ap (λ x. x.registry) same ∙ local
    outcome-registry s (looked f same _) =
        ap (λ x. x.registry) same ∙ find_challenge-registry v.now f st ∙ local
    outcome-registry s (proven f text proof c _ _ _ _ same _) =
        ap (λ x. x.registry) same
        ∙ stored-registry v f text c.public_key _ _ (find_challenge-registry v.now f st ∙ local)

  checked_locally :
      (env : Text) (now : ℕ) (conn : Request)
      → 0 < length env
      → (authorized p none now env conn ≡ some true) ↔ (conn.auth ≡ some env)
  unfolding authorized
  checked_locally env now conn l =
      grind (arith, λ (a : Text). text_eq_iff a env, truthy_secret env l)

  -- Without a namespace, after any request to the second phase, registered or not, a sidecar passes
  -- the check if and only if it brings the environment's secret, which is not empty: the secret that
  -- a registration handed out is not looked at.
  local_check_iff :
      (v : VerifyDraw p) (req conn : Request) (st : State p) (env : Text) (now : ℕ)
      → st.registry ≡ none
      → 0 < length env
      → (authorized p (handle_register_verify p v req st).0.registry now env conn ≡ some true)
        ↔ (conn.auth ≡ some env)
  local_check_iff v req conn st env now local l =
      subst (λ o. (authorized p o now env conn ≡ some true) ↔ (conn.auth ≡ some env))
        (sym (outcome-registry v req st local _ (handle_register_verify-Outcome p v req st)))
        (checked_locally env now conn l)
