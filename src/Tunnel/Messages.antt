-- ===== src/Tunnel/Messages.antt =====
-- `handleTunnelMessage`: a frame that comes through the tunnel. Every exception is caught, and
-- what was done before it stays.
use headfwd.Common.{ℕ, Bool, Option, none, some, [], ◌∷◌, Text, if◌then◌else◌, ◌>>=◌}
use headfwd.Common.Dict.{Dict, lookup, erase}
use headfwd.Base64.{from_base64}
use headfwd.Platform.{Base64}
use headfwd.Tunnel.Sockets.{send_or_drop}
use headfwd.Tunnel.State.{
  Tunnel, Message, request, response, ping, pong, ws_open, ws_data, ws_close, TunnelResponse,
  WsData, WsClose, Body, no_body, text, binary, relayed, closes, emit, resolved, settle,
  clear_timer,
}

-- The runtime: `new Response(body, { status, headers })`, which throws (`none`) on a status out of
-- range and on a body where the status allows none.
pub record Responses : Type 1 where
  pub Reply : Type 0
  pub make : ℕ → Dict Text → Body → Option Reply

-- Whether sending to a socket, and closing it with this code and reason, goes through.
pub record Sockets : Type 0 where
  pub works : ℕ → Bool
  pub closable : ℕ → Option ℕ → Option Text → Bool

module _ (c : Base64) (rs : Responses) where
  -- `response.body ?? null`, decoded if it is binary and not empty; `none` is an exception.
  unfoldable pub response_body : TunnelResponse → Option Body
  response_body r = elim r.body [
    | none ↦ some no_body
    | some [] ↦ some (text [])
    | some (b ∷ s) ↦
        if r.is_binary
        then (from_base64 c (b ∷ s) >>= λ bytes. some (binary bytes))
        else some (text (b ∷ s))
  ]

  unfoldable pub decode : TunnelResponse → Option rs.Reply
  unfolding response_body
  decode r = do body ← response_body r; rs.make r.status r.headers body

  -- The promise is resolved if the response can be made.
  unfoldable pub resolve_with : ℕ → Option rs.Reply → Tunnel rs.Reply → Tunnel rs.Reply
  resolve_with h none t = t
  resolve_with h (some reply) t = settle h (resolved reply) t

  unfoldable pub answer : Option ℕ → TunnelResponse → Tunnel rs.Reply → Tunnel rs.Reply
  unfolding resolve_with
  answer none r t = t
  answer (some h) r t =
      resolve_with h (decode r)
        (record t { timers = clear_timer h t.timers; pending = erase r.id t.pending })

  -- `ws.send`, of bytes or of text.
  unfoldable pub relay : Sockets → Option ℕ → WsData → Tunnel rs.Reply → Tunnel rs.Reply
  relay env none d t = t
  relay env (some ws) d t =
      if d.is_binary
      then (elim (from_base64 c d.content) [
        | none ↦ t
        | some bytes ↦ if env.works ws then emit (relayed ws (binary bytes)) t else t
      ])
      else (if env.works ws then emit (relayed ws (text d.content)) t else t)

  -- The connection is forgotten only if the socket could be closed.
  unfoldable pub shut : Sockets → Option ℕ → WsClose → Tunnel rs.Reply → Tunnel rs.Reply
  shut env none d t = t
  shut env (some ws) d t =
      if env.closable ws d.code d.reason
      then emit (closes ws d.code d.reason) (record t { connections = erase d.id t.connections })
      else t

  -- A frame that is no JSON (`none`) does nothing.
  unfoldable pub handle_tunnel_message :
      Sockets → Option Message → Tunnel rs.Reply → Tunnel rs.Reply
  unfolding answer relay shut send_or_drop
  handle_tunnel_message env none t = t
  handle_tunnel_message env (some (response r)) t = answer (lookup r.id t.pending) r t
  handle_tunnel_message env (some (ws_data d)) t = relay env (lookup d.id t.connections) d t
  handle_tunnel_message env (some (ws_close d)) t = shut env (lookup d.id t.connections) d t
  handle_tunnel_message env (some ping) t = send_or_drop env.works pong t
  handle_tunnel_message env (some pong) t = t
  handle_tunnel_message env (some (request r)) t = t
  handle_tunnel_message env (some (ws_open r)) t = t
