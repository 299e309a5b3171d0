-- ===== src/Registration/Credentials.antt =====
-- What the secret of a registration is good for: it opens the tunnel of its host name.
use headfwd.Common.{
  ℕ, suc, ◌+◌, ◌*◌, ◌<◌, ◌≡◌, refl, sym, ap, ◌∙◌, ◌↔◌, ◌-◌, true, Option, none, some, [], ◌∷◌, Text,
  All, length, text_eq, text_eq_iff, arith, codes,
}
use mathlib.Core.Path.{subst}
use headfwd.Fingerprint.{extract_fingerprint}
use headfwd.Hex.{IsByte, generate_secret}
use headfwd.Hex.RoundTrip.{length-buffer_to_hex}
use headfwd.Json.{Value, str, obj, field, end, member, truthy}
use headfwd.Http.{Request, Response}
use headfwd.Platform.{Platform}
use headfwd.Registration.State.{
  State, challenge_key, tunnel_key, tunnel_ttl, registration_value, compute_fingerprint,
}
use headfwd.Registration.Legacy.{legacy_by, store_legacy, legacy_body, handle_register}
use headfwd.Registration.Verify.{
  VerifyDraw, find_by, find_challenge, register_by, store_registration, read_fields,
  handle_register_verify,
}
use headfwd.Registration.Keys.{challenge-ne-tunnel_key}
use headfwd.Registration.Outcome.{Outcome, refused, looked, proven, handle_register_verify-Outcome}
use headfwd.Tunnel.Access.{authorized, registered_secret}

secret_of_registration :
    (key : Option Value) (secret : Text) (at : ℕ)
    → member (codes "secret") (registration_value key secret at) ≡ some (some (str secret))
unfolding member text_eq
secret_of_registration none secret at = refl
secret_of_registration (some k) secret at = refl

pub truthy_secret : (s : Text) → 0 < length s → truthy (some (str s)) ≡ true
truthy_secret [] h = absurd (omega arith)
truthy_secret (c ∷ s) h = refl

module _ (p : Platform) where
  -- What the namespace is after a registration.
  abbrev pub registered_store : p.Store → VerifyDraw p → Text → Option Value → Text → p.Store
  registered_store kv v f key secret =
      p.delete
        (p.put kv v.later (tunnel_key f) (p.stringify (registration_value key secret v.later))
          tunnel_ttl)
        (challenge_key f)

  get-registered_store :
      (kv : p.Store) (v : VerifyDraw p) (f secret : Text) (key : Option Value) (now : ℕ)
      → now < v.later + tunnel_ttl * 1000
      → p.get (registered_store kv v f key secret) now (tunnel_key f)
        ≡ some (p.stringify (registration_value key secret v.later))
  get-registered_store kv v f secret key now h =
      p.get-delete_ne _ now (challenge_key f) (tunnel_key f) (challenge-ne-tunnel_key f f)
      ∙ p.get-put_live kv v.later now (tunnel_key f) _ tunnel_ttl h

  -- The check of a sidecar against a store that holds a registration.
  module _ (w : p.Store) (f secret : Text) (key : Option Value) (at now : ℕ)
      (got : p.get w now (tunnel_key f) ≡ some (p.stringify (registration_value key secret at)))
      (l : 0 < length secret) where
    matched : (auth : Text) → registered_secret p w now f auth ≡ some (text_eq secret auth)
    unfolding registered_secret
    matched auth = rw (
      registered_secret,
      got,
      p.parse-stringify,
      secret_of_registration key secret at,
      truthy_secret secret l,
    )

    authorized_stored :
        (env : Text) (conn : Request)
        → extract_fingerprint conn.hostname ≡ some f
        → (authorized p (some w) now env conn ≡ some true) ↔ (conn.auth ≡ some secret)
    unfolding authorized
    authorized_stored env conn e =
        grind (arith, e, matched, text_eq_iff secret, truthy_secret secret l)

  -- The outcome of the second phase, with a namespace.
  pub find_challenge_keeps :
      (st : State p) (kv : p.Store) (now : ℕ) (f : Value)
      → st.registry ≡ some kv
      → (find_challenge p now f st).0 ≡ st
  unfolding find_challenge find_by
  find_challenge_keeps st kv now f e = ap (λ r. (find_by p r now f st).0) e

  pub store_registration-registry :
      (st : State p) (kv : p.Store) (v : VerifyDraw p) (f : Value) (text secret : Text)
      (key : Option Value)
      → st.registry ≡ some kv
      → (store_registration p v f text key secret st).registry
        ≡ some (registered_store kv v text key secret)
  unfolding store_registration register_by
  store_registration-registry st kv v f text secret key e =
      ap (λ r. (register_by p r v f text key secret st).registry) e

  module _ (v : VerifyDraw p) (req conn : Request) (st : State p) (kv : p.Store) (f : Text)
      (g : Value) (now : ℕ) (env : Text) (registry : st.registry ≡ some kv)
      (read : read_fields p req ≡ some (some (str f), some g)) (bytes : All IsByte v.secret_bytes)
      (drawn : length v.secret_bytes ≡ 32) (host : extract_fingerprint conn.hostname ≡ some f)
      (in_time : now < v.later + tunnel_ttl * 1000) where
    secret : Text
    secret = generate_secret v.secret_bytes

    secret_is_set : 0 < length secret
    unfolding secret generate_secret
    secret_is_set = omega (arith, length-buffer_to_hex v.secret_bytes bytes, drawn)

    Opens : Option p.Store → Type 0
    Opens r = (authorized p r now env conn ≡ some true) ↔ (conn.auth ≡ some secret)

    by_outcome :
        (s : State p) (r : Response) → r.status ≡ 200 → Outcome p v req st s r → Opens s.registry
    unfolding Opens secret
    by_outcome s r ok (refused _ bad) = absurd (bad ok)
    by_outcome s r ok (looked _ _ bad) = absurd (bad ok)
    by_outcome s r ok (proven f' text proof c read' printed _ _ stored _) =
        let same : f' ≡ str f = cc in
        let named : text ≡ f = cc (printed, same, p.to_string-str f) in
        let kept =
          store_registration-registry (find_challenge p v.now f' st).0 kv v f' text secret
            c.public_key
            (ap (λ x. x.registry) (find_challenge_keeps st kv v.now f' registry) ∙ registry) in
        let at : s.registry ≡ some (registered_store kv v f c.public_key secret) =
          ap (λ x. x.registry) stored
          ∙ kept
          ∙ ap (λ x. some (registered_store kv v x c.public_key secret)) named in
        subst Opens (sym at) (
          authorized_stored (registered_store kv v f c.public_key secret) f secret c.public_key
            v.later now (get-registered_store kv v f secret c.public_key now in_time) secret_is_set
            env conn host)

    -- With a namespace, after a request has led to a registration for the fingerprint f with a
    -- secret of 32 drawn bytes, for a year and on the namespace as this request left it, a sidecar
    -- that connects to a host name with this fingerprint passes the check of its secret if and only
    -- if it brings the drawn secret.
    pub registered_opens_iff :
        (handle_register_verify p v req st).1.status ≡ 200
        → (authorized p (handle_register_verify p v req st).0.registry now env conn ≡ some true)
          ↔ (conn.auth ≡ some (generate_secret v.secret_bytes))
    unfolding Opens secret
    registered_opens_iff ok = by_outcome _ _ ok (handle_register_verify-Outcome p v req st)

  legacy_registry :
      (env : Text) (now : ℕ) (req : Request) (st : State p) (kv : p.Store) (key : Text) (n : ℕ)
      → length key ≡ suc n
      → st.registry ≡ some kv
      → req.json ≡ some (obj (field (codes "pubkey") (str key) end))
      → (handle_register p env now req st).0.registry
        ≡ some (
            p.put kv now
              (tunnel_key (compute_fingerprint p key))
              (p.stringify (registration_value (some (str key)) env now))
              tunnel_ttl)
  unfolding handle_register legacy_body store_legacy legacy_by member text_eq
  legacy_registry env now req st kv [] n l r e = absurd (omega arith)
  legacy_registry env now req st kv (k ∷ key) n l r e =
      rw (e, p.to_string-str (k ∷ key))
        (ap
          (λ o.
            (legacy_by p o now (compute_fingerprint p (k ∷ key)) (str (k ∷ key)) env st).registry)
          r)

  -- With a namespace, a request to the legacy endpoint with any public key that is not empty, and no
  -- proof, makes the environment's secret, if it is not empty, the one secret with which a sidecar
  -- that connects to a host name with the fingerprint of that key passes the check, for a year and on
  -- the namespace as this request left it, whatever was registered before.
  pub legacy_takes_over :
      (env : Text) (now later : ℕ) (req conn : Request) (st : State p) (kv : p.Store) (key : Text)
      → 0 < length key
      → 0 < length env
      → st.registry ≡ some kv
      → req.json ≡ some (obj (field (codes "pubkey") (str key) end))
      → extract_fingerprint conn.hostname ≡ some (compute_fingerprint p key)
      → later < now + tunnel_ttl * 1000
      → (authorized p (handle_register p env now req st).0.registry later env conn ≡ some true)
        ↔ (conn.auth ≡ some env)
  legacy_takes_over env now later req conn st kv key k l r e host h =
      let f = compute_fingerprint p key in
      subst (λ o. (authorized p o later env conn ≡ some true) ↔ (conn.auth ≡ some env))
        (sym (legacy_registry env now req st kv key (length key - 1) (omega arith) r e))
        (authorized_stored _ f env (some (str key)) now later
          (p.get-put_live kv now later (tunnel_key f) _ tunnel_ttl h) l env conn host)
