-- ===== src/Registration/Legacy.antt =====
-- `handleRegister`, the endpoint that is kept for backward compatibility.
use headfwd.Common.{ℕ, Option, none, some, Text, codes, not, if◌then◌else◌, ◌>>=◌}
use headfwd.Json.{Value, str, member, truthy}
use headfwd.Http.{Request, Response, failure}
use headfwd.Platform.{Platform}
use headfwd.Registration.State.{
  State, compute_fingerprint, tunnel_key, tunnel_ttl, registration_value, registered, caught,
}

module _ (p : Platform) where
  -- Without a namespace nothing is stored.
  unfoldable pub legacy_by : Option p.Store → ℕ → Text → Value → Text → State p → State p
  legacy_by none now fingerprint pubkey secret st = st
  legacy_by (some kv) now fingerprint pubkey secret st = record st {
    registry = some (
        p.put kv now (tunnel_key fingerprint)
          (p.stringify (registration_value (some pubkey) secret now)) tunnel_ttl);
  }

  unfoldable pub store_legacy : State p → ℕ → Text → Value → Text → State p
  store_legacy st now fingerprint pubkey secret =
      legacy_by st.registry now fingerprint pubkey secret st

  -- `none` is an exception, from before anything is stored.
  unfoldable pub legacy_body : Text → ℕ → Request → State p → Option (State p × Response)
  unfolding store_legacy
  legacy_body secret now req st = do
    body ← req.json
    pubkey ← member (codes "pubkey") body
    elim pubkey [
      | none ↦ some (st, failure 400 (codes "Missing pubkey"))
      | some key ↦
          if not (truthy (some key)) then some (st, failure 400 (codes "Missing pubkey")) else do
            text ← p.to_string key
            let fingerprint = compute_fingerprint p text
            some (
              store_legacy st now fingerprint key secret,
              registered req (str fingerprint) fingerprint secret,
            )
    ]

  -- `secret` is `env.TUNNEL_SECRET`.
  unfoldable pub handle_register : Text → ℕ → Request → State p → State p × Response
  unfolding legacy_body
  handle_register secret now req st = caught st (legacy_body secret now req st)
