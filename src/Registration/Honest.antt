-- ===== src/Registration/Honest.antt =====
-- A sidecar that holds the private key completes the registration.
use headfwd.Common.{
  List, ℕ, suc, ◌<◌, ◌≡◌, refl, ap, ◌∙◌, true, Option, none, some, [], ◌∷◌, ◌++◌, Text, codes,
  text_eq, length, arith, starts_with,
}
use headfwd.Common.Dict.{HasDistinctKeys}
use headfwd.Compare.Correct.{timing_safe_equal_iff}
use headfwd.Hex.{buffer_to_hex, generate_secret}
use headfwd.Hex.RoundTrip.{hex_to_bytes-buffer_to_hex, length-buffer_to_hex}
use headfwd.Json.{Value, str, obj, end, field, member, truthy}
use headfwd.Http.{Request, Response}
use headfwd.Platform.{Platform}
use headfwd.Registration.State.{State, Challenge, compute_fingerprint, registered}
use headfwd.Registration.Init.{
  Draw, draw_nonce, new_challenge, store_challenge, challenge_reply, handle_register_init, expiry,
}
use headfwd.Registration.Verify.{
  VerifyDraw, expected_proof, find_challenge, after_lookup, not_found, accept, read_fields,
  with_fields, store_registration, check_proof, same_proof, handle_register_verify,
}
use headfwd.Registration.Keys.{compute_fingerprint-IsFingerprint}
use headfwd.Registration.Lookup.{find_challenge_fresh, find_challenge_stale}

-- The body of the second request.
abbrev pub verify_fields : Text → Text → Value
verify_fields fingerprint proof =
    obj (field (codes "fingerprint") (str fingerprint) (field (codes "proof") (str proof) end))

truthy_str : (s : Text) (n : ℕ) → length s ≡ suc n → truthy (some (str s)) ≡ true
truthy_str [] n h = absurd (omega arith)
truthy_str (c ∷ s) n h = refl

-- The body of the first request.
abbrev pub init_fields : Text → Value
init_fields public_key = obj (field (codes "publicKey") (str public_key) end)

module _ (p : Platform) where
  -- How Headscale prints the public half of its key.
  abbrev pub mkey : p.PrivateKey → Text
  mkey sk = codes "mkey:" ++ buffer_to_hex (p.export_raw (p.public_of sk))

  -- What the sidecar computes from the reply to the first request.
  abbrev pub sidecar_proof : List ℕ → Draw p → Text
  sidecar_proof shared d = buffer_to_hex (p.hmac shared (p.encode (draw_nonce p d)))

  module _ (sk : p.PrivateKey) (d : Draw p) (shared : List ℕ)
      (agreed : p.derive_bits (p.public_of d.ephemeral) sk ≡ some shared) where
    expected_proof-honest :
        expected_proof p (new_challenge p d (mkey sk)) ≡ some (sidecar_proof shared d)
    unfolding expected_proof
    expected_proof-honest = rw (
      hex_to_bytes-buffer_to_hex (p.export_raw (p.public_of sk))
          (p.export_raw-IsByte (p.public_of sk)),
      p.import-export_raw (p.public_of sk),
      p.import-export_jwk d.ephemeral,
      p.derive_comm sk d.ephemeral,
      agreed,
      p.to_string-str (draw_nonce p d),
    )

    length-sidecar_proof : length (sidecar_proof shared d) ≡ 64
    length-sidecar_proof =
        let message = p.encode (draw_nonce p d) in
        omega (
          arith,
          length-buffer_to_hex (p.hmac shared message) (p.hmac-IsByte shared message),
          p.length-hmac shared message,
        )

  -- The handler on a body with both fields.
  verify_of_fields :
      (v : VerifyDraw p) (req : Request) (f proof : Text) (st : State p) (m n : ℕ)
      → length f ≡ suc m
      → length proof ≡ suc n
      → req.json ≡ some (verify_fields f proof)
      → handle_register_verify p v req st
        ≡ after_lookup p v req (str f) (str proof) (find_challenge p v.now (str f) st)
  unfolding handle_register_verify read_fields with_fields member text_eq
  verify_of_fields v req f proof st m n hf hp e = rw (e, truthy_str f m hf, truthy_str proof n hp)

  -- A challenge was found, and the proof is the expected one.
  check_proof_same :
      (v : VerifyDraw p) (req : Request) (f proof : Text) (c : Challenge) (st : State p)
      → expected_proof p c ≡ some proof
      → check_proof p v req (str f) (str proof) c st
        ≡ some (
          store_registration p v (str f) f c.public_key (generate_secret v.secret_bytes) st,
          registered req (str f) f (generate_secret v.secret_bytes),
        )
  unfolding check_proof accept same_proof
  check_proof_same v req f proof c st e =
      rw (e, (timing_safe_equal_iff proof proof).1 refl, p.to_string-str f)

  after_lookup_found :
      (v : VerifyDraw p) (req : Request) (f proof : Value)
      (found : State p × Option (Option Challenge)) (c : Challenge) (r : State p × Response)
      → found.1 ≡ some (some c)
      → check_proof p v req f proof c found.0 ≡ some r
      → after_lookup p v req f proof found ≡ r
  unfolding after_lookup
  after_lookup_found v req f proof (st, o) c r e k = rw (e, after_lookup, k)

  pub after_lookup-none :
      (v : VerifyDraw p) (req : Request) (f proof : Value)
      (found : State p × Option (Option Challenge))
      → found.1 ≡ some none
      → after_lookup p v req f proof found ≡ (found.0, not_found)
  unfolding after_lookup
  after_lookup-none v req f proof (st, o) e = rw (e, after_lookup)

  -- The first phase accepts the printed key.
  init_mkey :
      (d : Draw p) (req : Request) (st : State p) (sk : p.PrivateKey)
      → req.json ≡ some (init_fields (mkey sk))
      → handle_register_init p d req st
        ≡ (store_challenge p st d (mkey sk), challenge_reply p d (mkey sk))
  unfolding handle_register_init member text_eq starts_with
  init_mkey d req st sk e = rw e

  module _ (st : State p) (d : Draw p) (v : VerifyDraw p) (first second : Request)
      (sk : p.PrivateKey) (shared : List ℕ) (distinct : HasDistinctKeys st.challenges)
      (agreed : p.derive_bits (p.public_of d.ephemeral) sk ≡ some shared)
      (asked : first.json ≡ some (init_fields (mkey sk)))
      (answered : second.json
        ≡ some (verify_fields (compute_fingerprint p (mkey sk)) (sidecar_proof shared d))) where
    abbrev fingerprint : Text
    fingerprint = compute_fingerprint p (mkey sk)

    abbrev challenged : State p
    challenged = (handle_register_init p d first st).0

    abbrev looked_up : State p × Option (Option Challenge)
    looked_up = find_challenge p v.now (str fingerprint) challenged

    second_looks_up :
        handle_register_verify p v second challenged
        ≡ after_lookup p v second (str fingerprint) (str (sidecar_proof shared d)) looked_up
    second_looks_up =
        verify_of_fields v second fingerprint (sidecar_proof shared d) challenged 31 63
          (compute_fingerprint-IsFingerprint p (mkey sk)).size
          (length-sidecar_proof sk d shared agreed) answered

    first_stores :
        looked_up.1
        ≡ (find_challenge p v.now (str fingerprint) (store_challenge p st d (mkey sk))).1
    first_stores =
        ap (λ (r : State p × Response). (find_challenge p v.now (str fingerprint) r.0).1)
          (init_mkey d first st sk asked)

    -- A sidecar that sends its printed public key, and within five minutes of the first phase the
    -- proof for its own key and the shared secret, gets the reply to a registration with the drawn
    -- secret, and the registration is stored, if the local map holds each fingerprint once.
    pub honest_registers :
        v.now < expiry d.now
        → handle_register_verify p v second challenged ≡ (
          store_registration p v
              (str fingerprint)
              fingerprint
              (some (str (mkey sk)))
              (generate_secret v.secret_bytes)
              looked_up.0,
          registered second (str fingerprint) fingerprint (generate_secret v.secret_bytes),
        )
    honest_registers h =
        second_looks_up
        ∙ after_lookup_found v second (str fingerprint) (str (sidecar_proof shared d)) looked_up
            (new_challenge p d (mkey sk)) _
            (first_stores ∙ find_challenge_fresh p st distinct d (mkey sk) v.now h)
            (check_proof_same v second fingerprint (sidecar_proof shared d)
              (new_challenge p d (mkey sk)) looked_up.0 (expected_proof-honest sk d shared agreed))

    -- After the five minutes the second request of such a sidecar is refused, with the reply for a
    -- challenge that is not found, if the local map holds each fingerprint once.
    pub late_is_refused :
        expiry d.now < v.now → (handle_register_verify p v second challenged).1 ≡ not_found
    late_is_refused h =
        ap (λ r. r.1)
          (second_looks_up
            ∙ after_lookup-none v second (str fingerprint) (str (sidecar_proof shared d)) looked_up
                (first_stores ∙ find_challenge_stale p st distinct d (mkey sk) v.now h))
