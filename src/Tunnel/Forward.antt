-- ===== src/Tunnel/Forward.antt =====
-- `forwardToHeadscale`: a request of a client goes through the tunnel and waits for its response.
use headfwd.Common.{
  ℕ, suc, Bool, true, false, Option, none, some, List, [], ◌∷◌, ◌++◌, map, Text, codes, text_eq,
  starts_with, includes, is_none, ◌||◌, ◌==◌, if◌then◌else◌, ◌>>=◌,
}
use headfwd.Common.Dict.{insert, erase}
use headfwd.Base64.{to_base64}
use headfwd.Fingerprint.{to_lower}
use headfwd.Http.{Request, Response, plain}
use headfwd.Platform.{Base64}
use headfwd.Tunnel.Access.{header_set}
use headfwd.Tunnel.State.{
  Tunnel, TunnelRequest, request, sent, send_failed, timed_out, clear_timer, settle, emit,
}

abbrev pub not_connected : Response
not_connected = record {
  status = 503;
  content = plain (codes "Headscale not connected");
  retry = some (codes "30");
}

-- Whether the request asks for a WebSocket: by the header Upgrade in any case, or by a key.
abbrev pub upgrade_in_any_case : Option Text → Bool
upgrade_in_any_case none = false
upgrade_in_any_case (some s) = text_eq (map to_lower s) (codes "websocket")

unfoldable pub asks_for_websocket : Request → Bool
asks_for_websocket req = upgrade_in_any_case req.upgrade || header_set req.ws_key

-- `contentType.startsWith('text/') || contentType.includes('json') || …`.
unfoldable pub is_text : Text → Bool
is_text t =
    starts_with (codes "text/") t
    || includes (codes "json") t
    || includes (codes "xml") t
    || includes (codes "x-www-form-urlencoded") t

abbrev pub content_type_of : Option Text → Text
content_type_of none = []
content_type_of (some t) = t

abbrev pub tunnel_request : Text → Request → Option Text → Bool → TunnelRequest
tunnel_request id req body is_binary = record {
  id = id;
  method = req.method;
  url = req.url;
  headers = req.headers;
  body = body;
  is_binary = is_binary;
}

-- The request as it is sent, under the id drawn for it; `none` is an exception of `btoa`.
unfoldable pub serialize : Base64 → Text → Request → Option TunnelRequest
unfolding is_text
serialize c id req = elim req.body [
  | none ↦ some (tunnel_request id req none false)
  | some payload ↦
      if is_text (content_type_of req.content_type)
      then some (tunnel_request id req (some payload.text) false)
      else (to_base64 c payload.bytes >>= λ body. some (tunnel_request id req (some body) true))
]

-- The request of an armed timer.
unfoldable pub armed : ℕ → List (ℕ × Text) → Option Text
armed h [] = none
armed h ((k, id) ∷ ts) = if k == h then some id else armed h ts

module _ {Reply : Type 0} where
  -- The checks at the start: the reply to a request that is not forwarded as HTTP.
  unfoldable pub refuse_forward : Request → Tunnel Reply → Option Response
  refuse_forward req t = if is_none t.tunnel then some not_connected else none

  -- Where a send fails: the timer is cleared, the entry deleted and the promise rejected.
  unfoldable pub give_up : Text → ℕ → Tunnel Reply → Tunnel Reply
  give_up id h t =
      settle h send_failed
        (record t { timers = clear_timer h t.timers; pending = erase id t.pending })

  -- The promise's timer and entry.
  abbrev pub enlist : Text → Tunnel Reply → Tunnel Reply
  enlist id t = record t {
    timers = t.timers ++ (t.next, id) ∷ [];
    pending = insert id t.next t.pending;
    next = suc t.next;
  }

  unfoldable pub send_over : Option ℕ → (ℕ → Bool) → TunnelRequest → ℕ → Tunnel Reply → Tunnel Reply
  send_over none works r h t = give_up r.id h t
  send_over (some s) works r h t = if works s then emit (sent s (request r)) t else give_up r.id h t

  -- The callback of the promise. The body has been read in between, so that the tunnel may be
  -- gone; a send to it, or to a closed socket (`works s ≡ false`), throws and is caught.
  unfoldable pub send_request : (ℕ → Bool) → TunnelRequest → Tunnel Reply → Tunnel Reply
  send_request works r t = send_over t.tunnel works r t.next (enlist r.id t)

  -- The timer of a request runs out, 30 seconds after it was set: only an armed timer does.
  unfoldable pub time_out : ℕ → Option Text → Tunnel Reply → Tunnel Reply
  time_out h none t = t
  time_out h (some id) t =
      settle h timed_out
        (record t { timers = clear_timer h t.timers; pending = erase id t.pending })

  unfoldable pub timer_fires : ℕ → Tunnel Reply → Tunnel Reply
  unfolding time_out armed
  timer_fires h t = time_out h (armed h t.timers) t
