-- ===== src/Tunnel/Access.antt =====
-- `acceptTunnel`: who may open the tunnel of an instance, and what the sockets' listeners do.
use headfwd.Common.{
  ℕ, Bool, false, not, Option, none, some, [], ◌∷◌, Text, codes, text_eq, ◌&&◌, if◌then◌else◌,
  ◌>>=◌,
}
use headfwd.Common.Dict.{Dict}
use headfwd.Fingerprint.{extract_fingerprint}
use headfwd.Json.{Value, str, member, truthy}
use headfwd.Http.{Request, Response, reply, plain, empty}
use headfwd.Platform.{Platform}
use headfwd.Registration.State.{tunnel_key}
use headfwd.Tunnel.State.{Tunnel, closed, clear_timer, settle}

abbrev pub unauthorized : Response
unauthorized = reply 401 (plain (codes "Unauthorized"))

abbrev pub expected_websocket : Response
expected_websocket = reply 426 (plain (codes "Expected WebSocket"))

abbrev pub switching : Response
switching = reply 101 empty

-- `x !== auth` of a value with a string.
abbrev pub equals_text : Value → Text → Bool
equals_text (str s) t = text_eq s t
equals_text _ t = false

abbrev pub header_is : Option Text → Text → Bool
header_is none t = false
header_is (some s) t = text_eq s t

-- A header counts as present if it is there and not empty.
abbrev pub header_set : Option Text → Bool
header_set none = false
header_set (some s) = truthy (some (str s))

-- The server half of the new pair becomes the tunnel and gets its listeners. A tunnel that is open
-- already is not closed, and its listeners stay.
unfoldable pub open_tunnel : {Reply : Type 0} → ℕ → Tunnel Reply → Tunnel Reply
open_tunnel socket t = record t { tunnel = some socket; listening = socket ∷ t.listening }

-- Whether the request may open the tunnel; `none` is an exception of `JSON.parse`.
module _ (p : Platform) where
  secret_matches : Text → Option Value → Bool
  secret_matches auth none = false
  secret_matches auth (some secret) = truthy (some secret) && equals_text secret auth

  unfoldable pub registered_secret : p.Store → ℕ → Text → Text → Option Bool
  unfolding secret_matches
  registered_secret kv now fingerprint auth = elim (p.get kv now (tunnel_key fingerprint)) [
    | none ↦ some false
    | some registration ↦ do
      parsed ← p.parse registration
      secret ← member (codes "secret") parsed
      some (secret_matches auth secret)
  ]

  check_secret : Option p.Store → ℕ → Text → Option Text → Text → Option Bool
  unfolding registered_secret
  check_secret (some kv) now secret (some fingerprint) auth =
      registered_secret kv now fingerprint auth
  check_secret _ now secret _ auth = some (text_eq auth secret)

  unfoldable pub authorized : Option p.Store → ℕ → Text → Request → Option Bool
  unfolding check_secret
  authorized registry now secret req = elim req.auth [
    | none ↦ some false
    | some auth ↦
        if not (truthy (some (str auth)))
        then some false
        else check_secret registry now secret (extract_fingerprint req.hostname) auth
  ]

  unfoldable pub accept_tunnel :
      {Reply : Type 0}
      → Option p.Store
      → ℕ
      → Text
      → Request
      → ℕ
      → Tunnel Reply
      → Option (Tunnel Reply × Response)
  accept_tunnel registry now secret req socket t = do
    granted ← authorized registry now secret req
    some (
        if not granted
        then (t, unauthorized)
        else if not (header_is req.upgrade (codes "websocket")) && not (header_set req.ws_key)
        then (t, expected_websocket)
        else (open_tunnel socket t, switching))

module _ {Reply : Type 0} where
  -- The loop of the listener for `close`: each timer is cleared and each promise rejected.
  unfoldable pub reject_all : Dict ℕ → Tunnel Reply → Tunnel Reply
  reject_all [] t = t
  reject_all ((id, h) ∷ m) t =
      reject_all m (settle h closed (record t { timers = clear_timer h t.timers }))

  -- The listener for `close` on the socket of a sidecar, whichever of them closed.
  unfoldable pub tunnel_closed : Tunnel Reply → Tunnel Reply
  unfolding reject_all
  tunnel_closed t =
      let rejected = reject_all t.pending (record t { tunnel = none }) in
      record rejected { pending = [] }
