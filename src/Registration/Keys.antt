-- ===== src/Registration/Keys.antt =====
-- The keys of the namespace, what the stored values read back as, and the fingerprint's form.
use headfwd.Common.{
  ℕ, ◌≡◌, refl, ap, ◌≢◌, none, some, [], ◌∷◌, Text, text_eq, All-take, length-take, arith,
}
use headfwd.Common.Dict.{Dict, lookup}
use headfwd.Hex.{buffer_to_hex}
use headfwd.Hex.RoundTrip.{buffer_to_hex-IsLowerHex, length-buffer_to_hex, IsLowerHex}
use headfwd.Fingerprint.Hosts.{IsFingerprint}
use headfwd.Json.{Value, str, member}
use headfwd.Platform.{Platform}
use headfwd.Registration.State.{
  LocalChallenge, cleanup_expired, challenge_key, tunnel_key, compute_fingerprint,
}
use headfwd.Registration.Init.{challenge_value}
use headfwd.Registration.Verify.{read_challenge}

abbrev first : Text → ℕ
first [] = 0
first (c ∷ s) = c

pub challenge-ne-tunnel_key : (f g : Text) → challenge_key f ≢ tunnel_key g
challenge-ne-tunnel_key f g e = absurd (omega (arith, ap first e))

pub tunnel-ne-challenge_key : (f g : Text) → tunnel_key f ≢ challenge_key g
tunnel-ne-challenge_key f g e = absurd (omega (arith, ap first e))

pub tunnel_key-injective : (f g : Text) → tunnel_key f ≡ tunnel_key g → f ≡ g
tunnel_key-injective f g e = cc

pub challenge_key-injective : (f g : Text) → challenge_key f ≡ challenge_key g → f ≡ g
challenge_key-injective f g e = cc

-- An entry that the map does not hold does not appear when others expire.
pub lookup-cleanup_none :
    (now : ℕ) (k : Text) (m : Dict LocalChallenge)
    → lookup k m ≡ none
    → lookup k (cleanup_expired now m) ≡ none
unfolding lookup cleanup_expired
lookup-cleanup_none now k [] h = refl
lookup-cleanup_none now k ((j, e) ∷ m) h = ground (arith, lookup-cleanup_none now k m)

module _ (p : Platform) where
  -- A fingerprint that the proxy computes has 32 digits of lower case.
  pub compute_fingerprint-IsFingerprint : (key : Text) → IsFingerprint (compute_fingerprint p key)
  unfolding compute_fingerprint
  compute_fingerprint-IsFingerprint key =
      let hash = p.digest (p.encode key) in
      record {
        size = omega (
          arith,
          length-take 32 (buffer_to_hex hash),
          length-buffer_to_hex hash (p.digest-IsByte (p.encode key)),
          p.length-digest (p.encode key),
        );
        digits =
            All-take IsLowerHex 32 (buffer_to_hex hash)
              (buffer_to_hex-IsLowerHex hash (p.digest-IsByte (p.encode key)));
      }

  pub read_challenge-stringify :
      (key nonce : Text) (jwk : Value) (at : ℕ)
      → read_challenge p (p.stringify (challenge_value key nonce jwk at))
        ≡ some (record {
          public_key = some (str key);
          nonce = some (str nonce);
          private_jwk = some jwk;
        })
  unfolding read_challenge member text_eq
  read_challenge-stringify key nonce jwk at =
      rw (p.parse-stringify (challenge_value key nonce jwk at))
