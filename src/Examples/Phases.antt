-- ===== src/Examples/Phases.antt =====
-- Examples for the registration and for the Worker: a sidecar with the key `false` registers.
use headfwd.Common.{
  ℕ, ◌≡◌, refl, sym, ap, ◌↔◌, ◌⊎◌, ◌++◌, true, false, some, none, [], ◌∷◌, Text, All, codes,
  text_eq, starts_with, arith,
}
use headfwd.Fingerprint.{domain}
use headfwd.Fingerprint.Hosts.{Carries, extract_fingerprint-domain}
use headfwd.Hex.{IsByte, generate_secret, buffer_to_hex, byte_hex}
use mathlib.Core.Path.{subst}
use headfwd.Common.Dict.{Dict, lookup, insert}
use headfwd.Http.{Request}
use headfwd.Json.{Value, bool, str, member}
use headfwd.Platform.Model.{toy_platform, toy_get}
use headfwd.Fingerprint.{extract_fingerprint}
use headfwd.Registration.Published.{Names, registered_host}
use headfwd.Registration.State.{
  is_local, registered, tunnel_key, challenge_key, compute_fingerprint,
}
use headfwd.Registration.Verify.{
  read_fields, find_challenge, store_registration, handle_register_verify, not_found,
}
use headfwd.Registration.Init.{
  challenge_value, draw_nonce, store_by, store_challenge, init_body, handle_register_init,
}
use headfwd.Registration.Legacy.{handle_register}
use headfwd.Registration.Keys.{compute_fingerprint-IsFingerprint}
use headfwd.Registration.Honest.{honest_registers, late_is_refused}
use headfwd.Registration.Outcome.{Outcome, handle_register_verify-Outcome}
use headfwd.Registration.Sound.{IsSound, some-injective'}
use headfwd.Registration.Stored.{IsNamed}
use headfwd.Registration.Steps.{handle_register_init-IsSound}
use headfwd.Registration.Replay.{verify_once}
use headfwd.Registration.Credentials.{registered_opens_iff, legacy_takes_over}
use headfwd.Tunnel.Access.{authorized}
use headfwd.Worker.{fetch, serve_all, to_object, is_post_to, is_localhost, route_host}
use headfwd.Worker.Routing.{fetch-to_object}
use headfwd.Worker.Sound.{serve_all-IsSound}
use headfwd.Worker.Takeover.{IsProven, only_proof_replaces}
use headfwd.Examples.{
  empty_state, draw, draws, verify_at, key, fingerprint, shared, proof, first, second, legacy,
  challenged, visit, secret_bytes,
}

honest_registers_example :
    handle_register_verify toy_platform (verify_at 2000) second challenged ≡ (
      store_registration toy_platform
          (verify_at 2000)
          (str fingerprint)
          fingerprint
          (some (str key))
          (generate_secret secret_bytes)
          (find_challenge toy_platform 2000 (str fingerprint) challenged).0,
      registered second (str fingerprint) fingerprint (generate_secret secret_bytes),
    )
honest_registers_example =
    honest_registers toy_platform empty_state draw (verify_at 2000) first second false shared tt
      refl refl refl (omega arith)

late_is_refused_example :
    (handle_register_verify toy_platform (verify_at 301001) second challenged).1 ≡ not_found
late_is_refused_example =
    late_is_refused toy_platform empty_state draw (verify_at 301001) first second false shared tt
      refl refl refl (omega arith)

handle_register_verify-Outcome_example :
    Outcome toy_platform
      (verify_at 2000)
      second
      challenged
      (handle_register_verify toy_platform (verify_at 2000) second challenged).0
      (handle_register_verify toy_platform (verify_at 2000) second challenged).1
handle_register_verify-Outcome_example =
    handle_register_verify-Outcome toy_platform (verify_at 2000) second challenged

nothing_stored :
    (kv : Dict (Value × ℕ)) (t : ℕ) (k : Text) (j : Value)
    → [] ≡ kv
    → toy_get kv t k ≡ some j
    → IsNamed toy_platform k j
unfolding lookup
nothing_stored kv t k j e got =
    let at : toy_get [] t k ≡ some j = subst (λ x. toy_get x t k ≡ some j) (sym e) got in cc

empty_state-IsSound : IsSound toy_platform empty_state
unfolding lookup
empty_state-IsSound = record {
  distinct = tt;
  stored = λ kv e t k j got. nothing_stored kv t k j (some-injective' e) got;
  challenges = λ k e found. absurd (cc found);
  registrations = λ k e found. absurd (cc found);
}

serve_all-IsSound_example : IsSound toy_platform (
    serve_all toy_platform
      (codes "x")
      ((draws, first) ∷ (draws, second) ∷ (draws, legacy) ∷ [])
      empty_state)
serve_all-IsSound_example =
    serve_all-IsSound toy_platform (codes "x")
      ((draws, first) ∷ (draws, second) ∷ (draws, legacy) ∷ []) empty_state empty_state-IsSound

pub challenged-IsSound : IsSound toy_platform challenged
challenged-IsSound =
    handle_register_init-IsSound toy_platform draw first empty_state empty_state-IsSound

second_is_accepted :
    (handle_register_verify toy_platform (verify_at 2000) second challenged).1.status ≡ 200
unfolding registered
second_is_accepted =
    ap (λ r. r.1.status)
      (honest_registers toy_platform empty_state draw (verify_at 2000) first second false shared tt
        refl refl refl (omega arith))

verify_once_example :
    (handle_register_verify toy_platform
      (verify_at 2500)
      second
      (handle_register_verify toy_platform (verify_at 2000) second challenged).0).1
    ≡ not_found
verify_once_example =
    verify_once toy_platform (verify_at 2000) (verify_at 2500) second challenged challenged-IsSound
      second_is_accepted

-- The namespace after the first phase.
abbrev pub challenge_store : Dict (Value × ℕ)
challenge_store =
    (
      challenge_key fingerprint,
      (challenge_value key (draw_nonce toy_platform draw) (bool true) 1000, 301000),
    )
    ∷ []

pub challenged-registry : challenged.registry ≡ some challenge_store
unfolding handle_register_init init_body member text_eq starts_with store_challenge store_by insert
challenged-registry = refl

fetch-registry :
    (fetch toy_platform (codes "x") draws first empty_state).0.registry ≡ some challenge_store
unfolding fetch handle_register_init init_body member text_eq starts_with store_challenge store_by
    insert
fetch-registry = refl

first_is_other : is_post_to (codes "/api/register") first ≡ false
unfolding text_eq
first_is_other = refl

read_second : read_fields toy_platform second ≡ some (some (str fingerprint), some (str proof))
unfolding read_fields member text_eq
read_second = refl

secret_bytes-IsByte : All IsByte secret_bytes
secret_bytes-IsByte = ground arith

abbrev visited : Request
visited = visit (fingerprint ++ domain) (codes "/") none

remote : is_localhost visited.hostname ≡ false
unfolding is_localhost text_eq compute_fingerprint buffer_to_hex byte_hex
remote = refl

fetch-visited :
    fetch toy_platform (codes "x") draws visited empty_state ≡ (empty_state, to_object fingerprint)
unfolding fetch route_host text_eq
fetch-visited =
    rw
      (
        remote,
        extract_fingerprint-domain fingerprint (compute_fingerprint-IsFingerprint toy_platform key),
      )
      refl

-- The sidecar connects with the secret that it was given.
registered_opens_iff_example :
    (authorized toy_platform
        (handle_register_verify toy_platform (verify_at 2000) second challenged).0.registry
        9000
        (codes "x")
        (visit (fingerprint ++ domain) (codes "/tunnel") (some (generate_secret secret_bytes)))
      ≡ some true)
    ↔ (some (generate_secret secret_bytes) ≡ some (generate_secret secret_bytes))
registered_opens_iff_example =
    registered_opens_iff toy_platform (verify_at 2000) second
      (visit (fingerprint ++ domain) (codes "/tunnel") (some (generate_secret secret_bytes)))
      challenged challenge_store fingerprint (str proof) 9000 (codes "x") challenged-registry
      read_second secret_bytes-IsByte refl
      (extract_fingerprint-domain fingerprint (compute_fingerprint-IsFingerprint toy_platform key))
      (omega arith) second_is_accepted

legacy_takes_over_example :
    (authorized toy_platform
        (handle_register toy_platform (codes "x") 3000 legacy empty_state).0.registry
        9000
        (codes "x")
        (visit (fingerprint ++ domain) (codes "/tunnel") (some (codes "x")))
      ≡ some true)
    ↔ (some (codes "x") ≡ some (codes "x"))
legacy_takes_over_example =
    legacy_takes_over toy_platform (codes "x") 3000 9000 legacy
      (visit (fingerprint ++ domain) (codes "/tunnel") (some (codes "x"))) empty_state [] key
      (omega arith) (omega arith) refl refl
      (extract_fingerprint-domain fingerprint (compute_fingerprint-IsFingerprint toy_platform key))
      (omega arith)

only_proof_replaces_example :
    (toy_get challenge_store 2000 (tunnel_key fingerprint)
      ≡ toy_get [] 2000 (tunnel_key fingerprint))
    ⊎ IsProven toy_platform draws.verify first empty_state fingerprint
only_proof_replaces_example =
    only_proof_replaces toy_platform (codes "x") draws first empty_state [] challenge_store
      fingerprint 2000 refl first_is_other fetch-registry

fetch-to_object_example : (empty_state ≡ empty_state) × Carries (fingerprint ++ domain) fingerprint
fetch-to_object_example =
    fetch-to_object toy_platform (codes "x") draws visited empty_state empty_state fingerprint
      fetch-visited remote

second_remote : is_local second.hostname ≡ false
unfolding is_local text_eq starts_with
second_remote = refl

registered_host_example :
    (host : Text) × Names
      (handle_register_verify toy_platform (verify_at 2000) second challenged).1
      host
      (generate_secret secret_bytes)
    × (extract_fingerprint host ≡ some (compute_fingerprint toy_platform key))
registered_host_example =
    registered_host toy_platform (verify_at 2000) second challenged key (str proof) second_remote
      read_second second_is_accepted
