-- ===== src/Worker/Takeover.antt =====
-- Which requests can replace the registration of an instance in the namespace.
use headfwd.Common.{
  ℕ, ◌≡◌, ◌≢◌, sym, ap, ◌∙◌, ◌⊎◌, inl, inr, false, Option, some, Text, codes, text_eq, text_eq_iff,
  text_cases, arith,
}
use headfwd.Hex.{generate_secret}
use headfwd.Json.{Value, str}
use headfwd.Http.{Request, Response}
use headfwd.Platform.{Platform}
use headfwd.Registration.State.{State, Challenge, challenge_key, tunnel_key}
use headfwd.Registration.Init.{Draw, store_by, store_challenge, init_body, handle_register_init}
use headfwd.Registration.Verify.{VerifyDraw, find_challenge, expected_proof, read_fields}
use headfwd.Registration.Keys.{challenge-ne-tunnel_key, tunnel_key-injective}
use headfwd.Registration.Outcome.{Outcome, refused, looked, proven, handle_register_verify-Outcome}
use headfwd.Registration.Credentials.{
  registered_store, find_challenge_keeps, store_registration-registry,
}
use headfwd.Registration.Sound.{some-injective'}
use headfwd.Worker.{Draws, fetch, is_post_to}

module _ (p : Platform) where
  -- The request brings the proof that a challenge for the fingerprint f expects.
  pub record IsProven (v : VerifyDraw p) (req : Request) (st : State p) (f : Text) : Type 0 where
    pub fingerprint : Value
    pub proof : Text
    pub challenge : Challenge
    pub read : read_fields p req ≡ some (some fingerprint, some (str proof))
    pub printed : p.to_string fingerprint ≡ some f
    pub found : (find_challenge p v.now fingerprint st).1 ≡ some (some challenge)
    pub expected : expected_proof p challenge ≡ some proof

  -- The registration of f reads the same in another namespace.
  abbrev Same : p.Store → Text → Option p.Store → Type 0
  Same kv f o =
      (kv' : p.Store)
      → o ≡ some kv'
      → (t : ℕ) → p.get kv' t (tunnel_key f) ≡ p.get kv t (tunnel_key f)

  Same-refl :
      (kv : p.Store) (f : Text) (st : State p) → st.registry ≡ some kv → Same kv f st.registry
  Same-refl kv f st r kv' e t = ap (λ x. p.get x t (tunnel_key f)) (some-injective' (sym e ∙ r))

  other_key : (f g : Text) → text_eq f g ≡ false → tunnel_key f ≢ tunnel_key g
  other_key f g h e = ground (arith, tunnel_key-injective f g e, text_eq_iff f g)

  registered_store-Same :
      (kv : p.Store) (v : VerifyDraw p) (text f secret : Text) (key : Option Value)
      → text_eq text f ≡ false
      → Same kv f (some (registered_store p kv v text key secret))
  registered_store-Same kv v text f secret key differ kv' e t =
      ap (λ x. p.get x t (tunnel_key f)) (sym (some-injective' e))
      ∙ p.get-delete_ne _ t (challenge_key text) (tunnel_key f) (challenge-ne-tunnel_key text f)
      ∙ p.get-put_ne kv v.later t (tunnel_key text) (tunnel_key f) _ _ (other_key text f differ)

  store_challenge-Same :
      (kv : p.Store) (f : Text) (d : Draw p) (key : Text) (st : State p)
      → st.registry ≡ some kv
      → Same kv f (store_challenge p st d key).registry
  unfolding store_challenge store_by
  store_challenge-Same kv f d key st r kv' e t =
      ap (λ x. p.get x t (tunnel_key f))
        (sym (some-injective' (sym (ap (λ o. (store_by p o d key st).registry) r) ∙ e)))
      ∙ p.get-put_ne kv d.now t _ (tunnel_key f) _ _ (challenge-ne-tunnel_key _ f)

  handle_register_init-Same :
      (kv : p.Store) (f : Text) (d : Draw p) (req : Request) (st : State p)
      → st.registry ≡ some kv
      → Same kv f (handle_register_init p d req st).0.registry
  unfolding handle_register_init init_body
  handle_register_init-Same kv f d req st r =
      let same = Same-refl kv f st r in
      let stored = λ (key : Text). store_challenge-Same kv f d key st r in
      grind (arith, same, stored)

  Outcome-Same :
      (kv : p.Store) (f : Text) (v : VerifyDraw p) (req : Request) (st s : State p) (r : Response)
      → st.registry ≡ some kv
      → Outcome p v req st s r
      → Same kv f s.registry ⊎ IsProven v req st f
  Outcome-Same kv f v req st s r e (refused same _) =
      inl (Same-refl kv f s (ap (λ x. x.registry) same ∙ e))
  Outcome-Same kv f v req st s r e (looked g same _) =
      inl (
        Same-refl kv f s (ap (λ x. x.registry) (same ∙ find_challenge_keeps p st kv v.now g e) ∙ e))
  Outcome-Same kv f v req st s r e (proven g text proof c read printed found expected stored _) =
      elim (text_cases text f) [
        | inl (named, _) ↦ inr (record {
          fingerprint = g;
          proof = proof;
          challenge = c;
          read = read;
          printed = printed ∙ ap some named;
          found = found;
          expected = expected;
        })
        | inr differ ↦
            let left = ap (λ x. x.registry) (find_challenge_keeps p st kv v.now g e) ∙ e in
            let at =
              ap (λ x. x.registry) stored
              ∙ store_registration-registry p _ kv v g text (generate_secret v.secret_bytes)
                  c.public_key left in
            inl (λ kv' e'.
              registered_store-Same kv v text f (generate_secret v.secret_bytes) c.public_key differ
                kv' (sym at ∙ e'))
      ]

  fetch-Same :
      (secret : Text) (d : Draws p) (req : Request) (st : State p) (kv : p.Store) (f : Text)
      → st.registry ≡ some kv
      → is_post_to (codes "/api/register") req ≡ false
      → Same kv f (fetch p secret d req st).0.registry ⊎ IsProven d.verify req st f
  unfolding fetch
  fetch-Same secret d req st kv f e other = ground (
    arith,
    Same-refl kv f st e,
    handle_register_init-Same kv f d.init req st e,
    Outcome-Same kv f d.verify req st _ _ e (handle_register_verify-Outcome p d.verify req st),
    other,
  )

  -- A request to any endpoint but the legacy one either leaves what the namespace has at any time as
  -- the registration of f, or brings the proof that a challenge for f expects.
  pub only_proof_replaces :
      (secret : Text) (d : Draws p) (req : Request) (st : State p) (kv kv' : p.Store) (f : Text)
      (t : ℕ)
      → st.registry ≡ some kv
      → is_post_to (codes "/api/register") req ≡ false
      → (fetch p secret d req st).0.registry ≡ some kv'
      → (p.get kv' t (tunnel_key f) ≡ p.get kv t (tunnel_key f)) ⊎ IsProven d.verify req st f
  only_proof_replaces secret d req st kv kv' f t e other e' =
      elim (fetch-Same secret d req st kv f e other) [
        | inl same ↦ inl (same kv' e' t)
        | inr proven_ ↦ inr proven_
      ]
