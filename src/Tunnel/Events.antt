-- ===== src/Tunnel/Events.antt =====
-- The handler `fetch` of `HeadscaleTunnel`, and the object as a machine whose steps are the calls
-- and callbacks that the runtime makes, one at a time.
use headfwd.Common.{ℕ, Bool, Option, none, some, List, [], ◌∷◌, Text, codes, text_eq, if◌then◌else◌}
use headfwd.Http.{Request, Response}
use headfwd.Platform.{Base64}
use headfwd.Tunnel.State.{Tunnel, listens, silence, TunnelRequest, Message, Body}
use headfwd.Tunnel.Access.{open_tunnel, tunnel_closed}
use headfwd.Tunnel.Forward.{asks_for_websocket, refuse_forward, send_request, timer_fires}
use headfwd.Tunnel.Sockets.{forward_websocket, client_message, client_closed}
use headfwd.Tunnel.Messages.{Responses, Sockets, handle_tunnel_message}

-- Where a request goes: to `acceptTunnel`, to `forwardWebSocket`, back to the client at once, or
-- on to the tunnel, once its body has been read.
pub data Dispatch : Type 0 where
  to_accept to_websocket to_tunnel : Dispatch
  replied : Response → Dispatch

abbrev after_refusal : Option Response → Dispatch
after_refusal none = to_tunnel
after_refusal (some r) = replied r

unfoldable pub fetch : {Reply : Type 0} → Request → Tunnel Reply → Dispatch
unfolding refuse_forward asks_for_websocket
fetch req t =
    if text_eq req.pathname (codes "/tunnel")
    then to_accept
    else if asks_for_websocket req
    then to_websocket
    else after_refusal (refuse_forward req t)

module _ (c : Base64) (rs : Responses) where
  -- `opened` is an `acceptTunnel` that was granted, with the new socket;
  -- `sidecar_closed` is the close of a socket that was accepted, the current tunnel or not, and
  -- has no listener otherwise; `forwarded` is the promise
  -- of a forwarded request; `fired` is a timer.
  pub data Event : Type 0 where
    opened : ℕ → Event
    sidecar_closed : ℕ → Event
    forwarded : (ℕ → Bool) → TunnelRequest → Event
    fired : ℕ → Event
    received : Sockets → Option Message → Event
    upgraded : (ℕ → Bool) → Request → Text → ℕ → Event
    client_sent : (ℕ → Bool) → Text → Body → Event
    client_left : (ℕ → Bool) → Text → ℕ → Text → Event

  unfoldable pub step : Tunnel rs.Reply → Event → Tunnel rs.Reply
  unfolding open_tunnel
  step t (opened s) = open_tunnel s t
  step t (sidecar_closed s) =
      if listens s t.listening
      then tunnel_closed (record t { listening = silence s t.listening })
      else t
  step t (forwarded works r) = send_request works r t
  step t (fired h) = timer_fires h t
  step t (received env m) = handle_tunnel_message c rs env m t
  step t (upgraded works req id server) = (forward_websocket works req id server t).0
  step t (client_sent works id body) = client_message works c id body t
  step t (client_left works id code reason) = client_closed works id code reason t

  unfoldable pub run : Tunnel rs.Reply → List Event → Tunnel rs.Reply
  run t [] = t
  run t (e ∷ es) = run (step t e) es
