-- ===== src/Tunnel/State.antt =====
-- The messages of headfwd-proxy/src/types.ts, and the fields of `HeadscaleTunnel`.
-- Sockets are numbers. A forwarded request has one promise and one timer, which share a number,
-- its handle: both are made in the same callback.
use headfwd.Common.{
  ℕ, Bool, false, ◌||◌, Option, none, List, [], ◌∷◌, ◌++◌, Text, ◌==◌, if◌then◌else◌,
}
use headfwd.Common.Dict.{Dict}

-- `TunnelRequest`, and `WsOpen` with its body left out.
pub record TunnelRequest : Type 0 where
  pub id : Text
  pub method : Text
  pub url : Text
  pub headers : Dict Text
  pub body : Option Text
  pub is_binary : Bool

pub record TunnelResponse : Type 0 where
  pub id : Text
  pub status : ℕ
  pub headers : Dict Text
  pub body : Option Text
  pub is_binary : Bool

pub record WsData : Type 0 where
  pub id : Text
  pub content : Text
  pub is_binary : Bool

pub record WsClose : Type 0 where
  pub id : Text
  pub code : Option ℕ
  pub reason : Option Text

-- `TunnelMessage`: the type and the data that goes with it.
pub data Message : Type 0 where
  request : TunnelRequest → Message
  response : TunnelResponse → Message
  ping pong : Message
  ws_open : TunnelRequest → Message
  ws_data : WsData → Message
  ws_close : WsClose → Message

-- The body of a response, and the data of a socket's event.
pub data Body : Type 0 where
  no_body : Body
  text : Text → Body
  binary : List ℕ → Body

-- How a promise is settled; `reply` is what `new Response` made.
pub data Settlement (Reply : Type 0) : Type 0 where
  resolved : Reply → Settlement Reply
  timed_out closed send_failed : Settlement Reply

-- What the object does to its sockets.
pub data Output : Type 0 where
  sent : ℕ → Message → Output
  relayed : ℕ → Body → Output
  closes : ℕ → Option ℕ → Option Text → Output

-- `outputs` and `settled` record what has been done, in order; `next` numbers the handles.
-- `listening` are the sockets of sidecars that were accepted and whose close has not been heard.
-- `timers` are the armed timers with the request that each would time out.
pub record Tunnel (Reply : Type 0) : Type 0 where
  pub tunnel : Option ℕ
  pub listening : List ℕ
  pub pending : Dict ℕ
  pub connections : Dict ℕ
  pub timers : List (ℕ × Text)
  pub settled : List (ℕ × Settlement Reply)
  pub outputs : List Output
  pub next : ℕ

-- Whether a socket is one of these, and the others.
unfoldable pub listens : ℕ → List ℕ → Bool
listens s [] = false
listens s (k ∷ ks) = k == s || listens s ks

unfoldable pub silence : ℕ → List ℕ → List ℕ
silence s [] = []
silence s (k ∷ ks) = let rest = silence s ks in if k == s then rest else k ∷ rest

-- `clearTimeout`.
unfoldable pub clear_timer : ℕ → List (ℕ × Text) → List (ℕ × Text)
clear_timer h [] = []
clear_timer h ((k, id) ∷ ts) =
    let rest = clear_timer h ts in if k == h then rest else (k, id) ∷ rest

module _ {Reply : Type 0} where
  -- The constructor.
  unfoldable pub new_tunnel : Tunnel Reply
  new_tunnel = record {
    tunnel = none;
    listening = [];
    pending = [];
    connections = [];
    timers = [];
    settled = [];
    outputs = [];
    next = 0;
  }

  abbrev pub emit : Output → Tunnel Reply → Tunnel Reply
  emit o t = record t { outputs = t.outputs ++ o ∷ [] }

  -- `resolve` or `reject`: a promise that is settled already stays as it is, so that the first
  -- entry for a handle counts.
  abbrev pub settle : ℕ → Settlement Reply → Tunnel Reply → Tunnel Reply
  settle h s t = record t { settled = t.settled ++ (h, s) ∷ [] }
