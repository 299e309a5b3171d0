-- ===== src/Tunnel/Sockets.antt =====
-- `forwardWebSocket`: a client's WebSocket is relayed through the tunnel.
use headfwd.Common.{ℕ, Bool, true, false, not, Option, none, some, Text, codes, if◌then◌else◌}
use headfwd.Common.Dict.{insert, erase}
use headfwd.Base64.{to_base64}
use headfwd.Http.{Request, Response}
use headfwd.Platform.{Base64}
use headfwd.Tunnel.Access.{header_is, expected_websocket, switching}
use headfwd.Tunnel.Forward.{not_connected, tunnel_request}
use headfwd.Tunnel.State.{
  Tunnel, Message, ws_open, ws_data, ws_close, Body, no_body, text, binary, sent, emit,
}

-- `works s` says whether a send to the socket s goes through; otherwise it throws.
module _ {Reply : Type 0} (works : ℕ → Bool) where
  -- The connection is entered before the message is sent, and stays where the send throws (`none`).
  unfoldable pub open_over :
      Option ℕ → Request → Text → ℕ → Tunnel Reply → Tunnel Reply × Option Response
  open_over none req id server t = (t, some not_connected)
  open_over (some s) req id server t =
      if not (header_is req.upgrade (codes "websocket"))
      then (t, some expected_websocket)
      else let entered : Tunnel Reply = record t { connections = insert id server t.connections } in
        if works s
        then (emit (sent s (ws_open (tunnel_request id req none false))) entered, some switching)
        else (entered, none)

  unfoldable pub forward_websocket :
      Request → Text → ℕ → Tunnel Reply → Tunnel Reply × Option Response
  forward_websocket req id server t = open_over t.tunnel req id server t

  -- A send whose exception is caught, or that nothing follows.
  unfoldable pub post_over : Option ℕ → Message → Tunnel Reply → Tunnel Reply
  post_over none m t = t
  post_over (some s) m t = if works s then emit (sent s m) t else t

  unfoldable pub send_or_drop : Message → Tunnel Reply → Tunnel Reply
  unfolding post_over
  send_or_drop m t = post_over t.tunnel m t

  -- The listener for `message` on the client's socket: text goes as it is, bytes in base64.
  unfoldable pub client_message : Base64 → Text → Body → Tunnel Reply → Tunnel Reply
  unfolding send_or_drop
  client_message c id no_body t = t
  client_message c id (text s) t =
      send_or_drop (ws_data (record { id = id; content = s; is_binary = false })) t
  client_message c id (binary bytes) t = elim (to_base64 c bytes) [
    | none ↦ t
    | some s ↦ send_or_drop (ws_data (record { id = id; content = s; is_binary = true })) t
  ]

  -- The listener for `close` on it.
  unfoldable pub client_closed : Text → ℕ → Text → Tunnel Reply → Tunnel Reply
  unfolding send_or_drop
  client_closed id code reason t =
      send_or_drop (ws_close (record { id = id; code = some code; reason = some reason }))
        (record t { connections = erase id t.connections })
