-- ===== src/Registration/State.antt =====
-- What the handlers of headfwd-proxy/src/index.ts share: the challenges and registrations of local
-- development, the namespace `REGISTRY`, fingerprints, and the reply to a registration.
use headfwd.Common.{
  ℕ, ◌*◌, Bool, ◌||◌, Option, none, some, [], ◌∷◌, ◌++◌, Text, codes, text_eq, starts_with, take,
  ltb, if◌then◌else◌,
}
use headfwd.Common.Dict.{Dict}
use headfwd.Hex.{buffer_to_hex}
use headfwd.Json.{Value, Fields, num, str, obj, end, field}
use headfwd.Http.{Request, Response, json, reply, failure}
use headfwd.Platform.{Platform}

-- What is kept between the two phases; `none` is a property that is missing.
pub record Challenge : Type 0 where
  pub public_key : Option Value
  pub nonce : Option Value
  pub private_jwk : Option Value

pub record LocalChallenge : Type 0 where
  pub challenge : Challenge
  pub expires_at : ℕ

pub record LocalRegistration : Type 0 where
  pub public_key : Option Value
  pub secret : Text

-- The loop of `cleanupExpiredChallenges`. A deletion during the iteration over a `Map` does not
-- disturb the entries that follow.
unfoldable pub cleanup_expired : ℕ → Dict LocalChallenge → Dict LocalChallenge
cleanup_expired now [] = []
cleanup_expired now ((fingerprint, entry) ∷ m) =
    let rest = cleanup_expired now m in
    if ltb entry.expires_at now then rest else (fingerprint, entry) ∷ rest

abbrev pub challenge_key : Text → Text
challenge_key fingerprint = codes "challenge:" ++ fingerprint

abbrev pub tunnel_key : Text → Text
tunnel_key fingerprint = codes "tunnel:" ++ fingerprint

-- Seconds: five minutes, and a year.
abbrev pub challenge_ttl : ℕ
challenge_ttl = 300

abbrev pub tunnel_ttl : ℕ
tunnel_ttl = 60 * 60 * 24 * 365

abbrev pub json_reply : Value → Response
json_reply v = reply 200 (json v)

-- The same in the legacy and in the verifying handler.
unfoldable pub is_local : Text → Bool
is_local hostname = text_eq hostname (codes "localhost") || starts_with (codes "127.0.0.1") hostname

abbrev pub base_url : Bool → Text
base_url local = if local then codes "localhost:8787" else codes "headfwd.net"

abbrev pub tunnel_url : Bool → Text → Text → Text
tunnel_url local fingerprint secret =
    (if local then codes "ws" else codes "wss")
    ++ codes "://"
    ++ fingerprint
    ++ codes "."
    ++ base_url local
    ++ codes "/tunnel?auth="
    ++ secret

abbrev pub public_url : Bool → Text → Text
public_url local fingerprint =
    (if local then codes "http" else codes "https")
    ++ codes "://"
    ++ fingerprint
    ++ codes "."
    ++ base_url local

abbrev pub invalid_request : Response
invalid_request = failure 400 (codes "Invalid request")

-- The handlers' `try … catch`: what an exception leaves of the state, and the result of the body.
abbrev pub caught {ℓ} : {S : Type ℓ} → S → Option (S × Response) → S × Response
caught st none = (st, invalid_request)
caught st (some result) = result

-- The reply to a registration: `fingerprint` as it came in, and as text in the addresses.
unfoldable pub registered : Request → Value → Text → Text → Response
unfolding is_local
registered req fingerprint text secret =
    let local = is_local req.hostname in
    json_reply (
      obj (
        field (codes "fingerprint") fingerprint (
          field (codes "tunnelUrl") (str (tunnel_url local text secret))
            (field (codes "publicUrl") (str (public_url local text)) end))))

-- The value stored for a tunnel; `JSON.stringify` leaves a missing key out.
abbrev pub registration_value : Option Value → Text → ℕ → Value
registration_value public_key secret created_at =
    obj (elim public_key [ none ↦ rest | some key ↦ field (codes "publicKey") key rest ])
  where
    rest : Fields
    rest = field (codes "secret") (str secret) (field (codes "createdAt") (num created_at) end)

module _ (p : Platform) where
  -- `registry` is `none` where the environment has no KV namespace.
  pub record State : Type 0 where
    pub registry : Option p.Store
    pub challenges : Dict LocalChallenge
    pub registrations : Dict LocalRegistration

  -- The first 32 characters of the hash in hexadecimal.
  unfoldable pub compute_fingerprint : Text → Text
  compute_fingerprint pubkey = take 32 (buffer_to_hex (p.digest (p.encode pubkey)))
