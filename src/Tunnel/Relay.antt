-- ===== src/Tunnel/Relay.antt =====
-- Bytes that travel through the tunnel in base64 arrive as they were.
use headfwd.Common.{ℕ, ◌≡◌, refl, ap, ◌∙◌, true, false, some, Text, All}
use headfwd.Common.Dict.{lookup}
use headfwd.Base64.{from_base64}
use headfwd.Base64.RoundTrip.{from_base64-to_base64}
use headfwd.Hex.{Bytes, IsByte}
use headfwd.Http.{Request, Payload}
use headfwd.Platform.{Base64}
use headfwd.Tunnel.State.{Tunnel, TunnelRequest, WsData, ws_data, relayed, binary, emit, sent}
use headfwd.Tunnel.Forward.{serialize, is_text, content_type_of, tunnel_request}
use headfwd.Tunnel.Sockets.{client_message, send_or_drop, post_over}
use headfwd.Tunnel.Messages.{Responses, Sockets, relay, handle_tunnel_message}

module _ (c : Base64) (rs : Responses) where
  -- Bytes that a client sends on its WebSocket, of any number, go through an open tunnel as one
  -- frame for its connection, marked as binary; such a frame that comes from the sidecar for a
  -- connection hands the same bytes to the client's socket.
  pub binary_relay :
      (t : Tunnel rs.Reply) (env : Sockets) (id : Text) (s ws : ℕ) (bytes : Bytes)
      → All IsByte bytes
      → t.tunnel ≡ some s
      → lookup id t.connections ≡ some ws
      → env.works s ≡ true
      → env.works ws ≡ true
      → (content : Text) × (client_message env.works c id (binary bytes) t
          ≡ emit (sent s (ws_data (record { id = id; content = content; is_binary = true }))) t)
        × (handle_tunnel_message c rs env
              (some (ws_data (record { id = id; content = content; is_binary = true })))
              t
            ≡ emit (relayed ws (binary bytes)) t)
  unfolding client_message send_or_drop post_over handle_tunnel_message relay
  binary_relay t env id s ws bytes h open_ entry works_s works_ws =
      let (content, encoded, decoded) = from_base64-to_base64 c bytes h in
      let d : WsData = record { id = id; content = content; is_binary = true } in
      (
        content,
        rw (client_message, encoded)
            (ap (λ o. post_over env.works o (ws_data d) t) open_ ∙ rw (post_over, works_s) refl),
        ap (λ o. relay c rs env o d t) entry ∙ rw (relay, decoded, works_ws) refl,
      )

-- A body that is not sent as text is sent, without an exception, in base64 under the mark for
-- binary data, and decodes to the bytes of the body.
pub serialize-from_base64 :
    (c : Base64) (id : Text) (req : Request) (payload : Payload)
    → req.body ≡ some payload
    → is_text (content_type_of req.content_type) ≡ false
    → All IsByte payload.bytes
    → (r : TunnelRequest) × (body : Text) × (serialize c id req ≡ some r)
      × (r.body ≡ some body)
      × (r.is_binary ≡ true)
      × (from_base64 c body ≡ some payload.bytes)
unfolding serialize
serialize-from_base64 c id req payload has_body binary_type h =
    let (body, encoded, decoded) = from_base64-to_base64 c payload.bytes h in
    (
      tunnel_request id req (some body) true,
      body,
      rw (has_body, binary_type, encoded) refl,
      refl,
      refl,
      decoded,
    )
