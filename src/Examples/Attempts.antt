-- ===== src/Examples/Attempts.antt =====
-- Examples for repeated attempts at a registration: wrong proofs, and a second challenge.
use headfwd.Common.{◌≢◌, ◌≡◌, refl, false, some, [], ◌∷◌, codes, text_eq, starts_with, arith}
use headfwd.Hex.{byte_of, hex_to_bytes, hex_value, generate_nonce, buffer_to_hex, byte_hex}
use headfwd.Common.Dict.{lookup, insert}
use headfwd.Http.{Request}
use headfwd.Json.{find, str, member}
use headfwd.Platform.Model.{toy_platform}
use headfwd.Registration.State.{compute_fingerprint}
use headfwd.Registration.Verify.{read_fields, find_challenge, handle_register_verify}
use headfwd.Registration.Init.{store_by, store_challenge, init_body, handle_register_init}
use headfwd.Registration.Init.{Draw, new_challenge}
use headfwd.Registration.Lookup.{find_challenge_fresh}
use headfwd.Registration.Attempts.{attempts, refused_attempts_keep}
use headfwd.Compare.{timing_safe_equal}
use headfwd.Registration.Honest.{verify_fields}
use headfwd.Registration.Verify.{
  kv_challenge, find_by, read_challenge, check_proof, after_lookup, expected_proof, same_proof,
  with_fields,
}
use headfwd.Examples.Phases.{challenge_store, challenged-IsSound, challenged-registry}
use headfwd.Examples.{verify_at, key, fingerprint, challenged, post}

abbrev wrong : Request
wrong = post (codes "/api/register/verify") (verify_fields fingerprint (codes "0"))

wrong-status :
    (handle_register_verify toy_platform (verify_at 2000) wrong challenged).1.status ≡ 403
unfolding handle_register_verify member text_eq compute_fingerprint buffer_to_hex byte_hex
    find_challenge find_by handle_register_init init_body starts_with store_challenge store_by
    kv_challenge lookup insert read_challenge check_proof timing_safe_equal byte_of hex_to_bytes
    hex_value find after_lookup expected_proof same_proof read_fields with_fields generate_nonce
wrong-status = refl

wrong_is_refused :
    (handle_register_verify toy_platform (verify_at 2000) wrong challenged).1.status ≢ 200
wrong_is_refused e = omega (arith, wrong-status, e)

-- Six wrong proofs for one challenge.
refused_attempts_keep_example :
    attempts toy_platform
      ((verify_at 2000, wrong)
        ∷ (verify_at 2000, wrong)
        ∷ (verify_at 2000, wrong)
        ∷ (verify_at 2000, wrong)
        ∷ (verify_at 2000, wrong)
        ∷ (verify_at 2000, wrong)
        ∷ [])
      challenged
    ≡ challenged
refused_attempts_keep_example =
    refused_attempts_keep toy_platform
      ((verify_at 2000, wrong)
        ∷ (verify_at 2000, wrong)
        ∷ (verify_at 2000, wrong)
        ∷ (verify_at 2000, wrong)
        ∷ (verify_at 2000, wrong)
        ∷ (verify_at 2000, wrong)
        ∷ [])
      challenged challenge_store challenged-registry
      (
        wrong_is_refused,
        (
          wrong_is_refused,
          (wrong_is_refused, (wrong_is_refused, (wrong_is_refused, (wrong_is_refused, tt)))),
        ),
      )

-- The sidecar asks again while its first challenge is open.
abbrev second_draw : Draw toy_platform
second_draw = record { now = 1500; nonce_bytes = 9 ∷ []; ephemeral = false }

find_challenge_fresh_example :
    (find_challenge toy_platform 2000
      (str fingerprint)
      (store_challenge toy_platform challenged second_draw key)).1
    ≡ some (some (new_challenge toy_platform second_draw key))
find_challenge_fresh_example =
    find_challenge_fresh toy_platform challenged challenged-IsSound.distinct second_draw key 2000
      (omega arith)
