-- ===== src/Registration/Init.antt =====
-- `handleRegisterInit`, the first phase of the registration.
use headfwd.Common.{ℕ, ◌+◌, Option, none, some, Text, codes, starts_with, not, if◌then◌else◌, ◌>>=◌}
use headfwd.Common.Dict.{insert}
use headfwd.Hex.{Bytes, buffer_to_hex, generate_nonce}
use headfwd.Json.{Value, str, num, obj, end, field, member, truthy, as_string}
use headfwd.Http.{Request, Response, failure}
use headfwd.Platform.{Platform}
use headfwd.Registration.State.{
  State, Challenge, LocalChallenge, compute_fingerprint, challenge_key, challenge_ttl, json_reply,
  caught,
}

-- The challenge as it is written to the namespace.
abbrev pub challenge_value : Text → Text → Value → ℕ → Value
challenge_value public_key nonce jwk created_at = obj (
    field (codes "publicKey") (str public_key) (
      field (codes "nonce") (str nonce) (
        field (codes "ephemeralPrivateKeyJwk") jwk
          (field (codes "createdAt") (num created_at) end))))

abbrev pub expiry : ℕ → ℕ
expiry now = now + 300000

abbrev missing_key : Response
missing_key = failure 400 (codes "Missing publicKey")

abbrev bad_format : Response
bad_format = failure 400 (codes "Invalid publicKey format. Expected mkey:hex")

module _ (p : Platform) where
  -- What the runtime draws for the request. The clock does not advance between the two calls of
  -- `Date.now()`, with no wait between them.
  pub record Draw : Type 0 where
    pub now : ℕ
    pub nonce_bytes : Bytes
    pub ephemeral : p.PrivateKey

  abbrev pub draw_nonce : Draw → Text
  draw_nonce d = generate_nonce d.nonce_bytes

  abbrev pub new_challenge : Draw → Text → Challenge
  new_challenge d public_key = record {
    public_key = some (str public_key);
    nonce = some (str (draw_nonce d));
    private_jwk = some (p.export_jwk d.ephemeral);
  }

  unfoldable pub store_by : Option p.Store → Draw → Text → State p → State p
  store_by (some kv) d public_key st =
      let value = challenge_value public_key (draw_nonce d) (p.export_jwk d.ephemeral) d.now in
      record st {
        registry = some (
            p.put kv d.now (challenge_key (compute_fingerprint p public_key)) (p.stringify value)
              challenge_ttl);
      }
  store_by none d public_key st =
      let entry : LocalChallenge = record {
        challenge = new_challenge d public_key;
        expires_at = expiry d.now;
      } in
      record st { challenges = insert (compute_fingerprint p public_key) entry st.challenges }

  unfoldable pub store_challenge : State p → Draw → Text → State p
  store_challenge st d public_key = store_by st.registry d public_key st

  unfoldable pub challenge_reply : Draw → Text → Response
  challenge_reply d public_key = json_reply (
      obj (
        field (codes "fingerprint") (str (compute_fingerprint p public_key)) (
          field (codes "nonce") (str (draw_nonce d)) (
            field (codes "proxyPublicKey")
              (str (buffer_to_hex (p.export_raw (p.public_of d.ephemeral))))
              (field (codes "expiresAt") (num (expiry d.now)) end)))))

  -- `none` is an exception; nothing is stored before one.
  unfoldable pub init_body : Draw → Request → State p → Option (State p × Response)
  init_body d req st = do
    body ← req.json
    found ← member (codes "publicKey") body
    if not (truthy found) then some (st, missing_key) else do
      public_key ← as_string found
      if not (starts_with (codes "mkey:") public_key)
          then some (st, bad_format)
          else some (store_challenge st d public_key, challenge_reply d public_key)

  unfoldable pub handle_register_init : Draw → Request → State p → State p × Response
  unfolding init_body
  handle_register_init d req st = caught st (init_body d req st)
