-- ===== src/Registration/Verify.antt =====
-- `handleRegisterVerify`, the second phase of the registration.
use headfwd.Common.{
  ℕ, Bool, true, false, Option, none, some, [], Text, codes, length, drop, not, ltb, ◌==◌, ◌||◌,
  if◌then◌else◌, ◌>>=◌,
}
use headfwd.Common.Dict.{lookup, insert, erase}
use headfwd.Hex.{Bytes, buffer_to_hex, hex_to_bytes, generate_secret}
use headfwd.Compare.{timing_safe_equal}
use headfwd.Json.{Value, null, bool, num, str, arr, obj, find, count, member, truthy, as_string}
use headfwd.Http.{Request, Response, failure}
use headfwd.Platform.{Platform}
use headfwd.Registration.State.{
  State, Challenge, LocalChallenge, LocalRegistration, cleanup_expired, challenge_key, tunnel_key,
  tunnel_ttl, registration_value, registered, invalid_request, caught,
}

abbrev pub not_found : Response
not_found =
    failure 400 (codes "Challenge expired or not found. Please call /api/register/init first.")

abbrev pub invalid_proof : Response
invalid_proof = failure 403 (codes "Invalid proof")

abbrev pub missing_fields : Response
missing_fields = failure 400 (codes "Missing fingerprint or proof")

-- The comparison with a proof that has a length and is no string: of another length it is
-- unequal, and of the same length the loop throws (`none`) in its first round.
abbrev same_length : ℕ → Text → Option Bool
same_length n expected =
    if not (n == length expected) then some false else if n == 0 then some true else none

-- `timingSafeEqual(proof, expected)` on whatever the request holds.
unfoldable pub same_proof : Value → Text → Option Bool
unfolding find
same_proof null expected = none
same_proof (bool b) expected = some false
same_proof (num n) expected = some false
same_proof (str s) expected = some (timing_safe_equal s expected)
same_proof (arr vs) expected = same_length (count vs) expected
same_proof (obj fs) expected = elim (find (codes "length") fs) [
  | some (num n) ↦ same_length n expected
  | _ ↦ some false
]

-- `lookup` of a `Map` whose keys are strings finds no other value.
abbrev lookup_value : Value → Option Text
lookup_value v = as_string (some v)

module _ (p : Platform) where
  -- What the runtime draws: the time at the look-up, the time at the registration, and the bytes
  -- of the secret.
  pub record VerifyDraw : Type 0 where
    pub now : ℕ
    pub later : ℕ
    pub secret_bytes : Bytes

  -- `new TextEncoder().encode(nonce)`, which takes `undefined` for the empty string.
  abbrev encode_value : Option Value → Option Bytes
  encode_value none = some (p.encode [])
  encode_value (some v) = p.to_string v >>= λ s. some (p.encode s)

  -- `expectedProof`: the code between the look-up and the comparison.
  unfoldable pub expected_proof : Challenge → Option Text
  expected_proof c = do
    public_key ← as_string c.public_key
    sidecar_key ← p.import_raw (hex_to_bytes (drop 5 public_key))
    proxy_key ← p.import_jwk c.private_jwk
    shared ← p.derive_bits sidecar_key proxy_key
    message ← encode_value c.nonce
    some (buffer_to_hex (p.hmac shared message))

  -- `JSON.parse(challengeData)` and the three properties of the result.
  unfoldable pub read_challenge : p.Json → Option Challenge
  read_challenge stored = do
    parsed ← p.parse stored
    public_key ← member (codes "publicKey") parsed
    nonce ← member (codes "nonce") parsed
    private_jwk ← member (codes "ephemeralPrivateKeyJwk") parsed
    some (record { public_key = public_key; nonce = nonce; private_jwk = private_jwk })

  -- The look-up in the namespace: an exception, no challenge, or one.
  unfoldable pub kv_challenge : p.Store → ℕ → Value → Option (Option Challenge)
  kv_challenge kv now fingerprint = do
    text ← p.to_string fingerprint
    elim (p.get kv now (challenge_key text)) [
      | none ↦ some none
      | some stored ↦ read_challenge stored >>= λ c. some (some c)
    ]

  -- The look-up in the local map, after the expired entries are dropped. An entry that is found
  -- expired here would be deleted too.
  abbrev pub live_entry : ℕ → Option LocalChallenge → Option Challenge
  live_entry now none = none
  live_entry now (some entry) = if ltb entry.expires_at now then none else some entry.challenge

  abbrev pub forget : Option Challenge → Option Text → State p → State p
  forget none (some text) st = record st { challenges = erase text st.challenges }
  forget _ _ st = st

  -- The look-up with the namespace of the environment, or without one.
  unfoldable pub find_by :
      Option p.Store → ℕ → Value → State p → State p × Option (Option Challenge)
  find_by (some kv) now fingerprint st = (st, kv_challenge kv now fingerprint)
  find_by none now fingerprint st =
      let cleaned = cleanup_expired now st.challenges in
      let text = lookup_value fingerprint in
      let live = live_entry now (text >>= λ t. lookup t cleaned) in
      (forget live text (record st { challenges = cleaned }), some live)

  -- The state after the look-up, and its result.
  unfoldable pub find_challenge : ℕ → Value → State p → State p × Option (Option Challenge)
  find_challenge now fingerprint st = find_by st.registry now fingerprint st

  store_local : Text → LocalRegistration → State p → State p
  store_local text entry st = record st {
    registrations = insert text entry st.registrations;
    challenges = erase text st.challenges;
  }

  -- The registration is stored and the challenge is deleted, under the same fingerprint.
  unfoldable pub register_by :
      Option p.Store → VerifyDraw → Value → Text → Option Value → Text → State p → State p
  unfolding store_local
  register_by (some kv) d fingerprint text public_key secret st =
      let stored =
        p.put kv d.later (tunnel_key text)
          (p.stringify (registration_value public_key secret d.later)) tunnel_ttl in
      record st { registry = some (p.delete stored (challenge_key text)) }
  register_by none d (str t) text public_key secret st =
      store_local t (record { public_key = public_key; secret = secret }) st
  register_by none d fingerprint text public_key secret st = st

  unfoldable pub store_registration :
      VerifyDraw → Value → Text → Option Value → Text → State p → State p
  store_registration d fingerprint text public_key secret st =
      register_by st.registry d fingerprint text public_key secret st

  unfoldable pub accept :
      VerifyDraw → Request → Value → Challenge → State p → Option (State p × Response)
  accept d req fingerprint c st = do
    text ← p.to_string fingerprint
    let secret = generate_secret d.secret_bytes
    some (
      store_registration d fingerprint text c.public_key secret st,
      registered req fingerprint text secret,
    )

  -- The proof against the challenge that was found; `none` is an exception.
  unfoldable pub check_proof :
      VerifyDraw → Request → Value → Value → Challenge → State p → Option (State p × Response)
  unfolding accept
  check_proof d req fingerprint proof c st = do
    expected ← expected_proof c
    same ← same_proof proof expected
    if same then accept d req fingerprint c st else some (st, invalid_proof)

  -- What the look-up leads to.
  unfoldable pub after_lookup :
      VerifyDraw
      → Request
      → Value
      → Value
      → State p × Option (Option Challenge)
      → State p × Response
  after_lookup d req fingerprint proof (st, none) = (st, invalid_request)
  after_lookup d req fingerprint proof (st, some none) = (st, not_found)
  after_lookup d req fingerprint proof (st, some (some c)) =
      caught st (check_proof d req fingerprint proof c st)

  -- The two fields of the body; `none` is an exception.
  unfoldable pub read_fields : Request → Option (Option Value × Option Value)
  read_fields req = do
    body ← req.json
    fingerprint ← member (codes "fingerprint") body
    proof ← member (codes "proof") body
    some (fingerprint, proof)

  unfoldable pub with_fields :
      VerifyDraw → Request → State p → Option (Option Value × Option Value) → State p × Response
  unfolding after_lookup
  with_fields d req st (some (some fingerprint, some proof)) =
      if not (truthy (some fingerprint)) || not (truthy (some proof))
      then (st, missing_fields)
      else after_lookup d req fingerprint proof (find_challenge d.now fingerprint st)
  with_fields d req st (some (f, g)) = (st, missing_fields)
  with_fields d req st none = (st, invalid_request)

  unfoldable pub handle_register_verify : VerifyDraw → Request → State p → State p × Response
  unfolding read_fields with_fields
  handle_register_verify d req st = with_fields d req st (read_fields req)
