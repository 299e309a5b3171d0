-- ===== src/Tunnel/Quiet.antt =====
-- The steps that leave the forwarded requests alone.
use headfwd.Common.{ℕ, ◌≡◌, refl, Bool, Option, none, some, Text, arith}
use headfwd.Http.{Request}
use headfwd.Platform.{Base64}
use headfwd.Tunnel.State.{Tunnel, Output, emit, Message, Body, WsData, WsClose}
use headfwd.Tunnel.Sockets.{forward_websocket, open_over, post_over, client_message, client_closed}
use headfwd.Tunnel.Messages.{Responses, Sockets, relay, shut}

pub record Quiet {Reply : Type 0} (t t' : Tunnel Reply) : Type 0 where
  pub pending : t'.pending ≡ t.pending
  pub timers : t'.timers ≡ t.timers
  pub settled : t'.settled ≡ t.settled
  pub next : t'.next ≡ t.next

module _ {Reply : Type 0} where
  pub Quiet-refl : (t : Tunnel Reply) → Quiet t t
  Quiet-refl t = record { pending = refl; timers = refl; settled = refl; next = refl }

  pub emit-Quiet : (o : Output) (t : Tunnel Reply) → Quiet t (emit o t)
  emit-Quiet o t = record { pending = refl; timers = refl; settled = refl; next = refl }

module _ {Reply : Type 0} (works : ℕ → Bool) where
  pub post-Quiet : (o : Option ℕ) (m : Message) (t : Tunnel Reply) → Quiet t (post_over works o m t)
  unfolding post_over
  post-Quiet none m t = ground arith
  post-Quiet (some s) m t = ground arith

  pub forward_websocket-Quiet :
      (req : Request) (id : Text) (server : ℕ) (t : Tunnel Reply)
      → Quiet t (forward_websocket works req id server t).0
  unfolding forward_websocket open_over
  forward_websocket-Quiet req id server t = ground arith

  pub client_message-Quiet :
      (c : Base64) (id : Text) (body : Body) (t : Tunnel Reply)
      → Quiet t (client_message works c id body t)
  unfolding client_message post_over
  client_message-Quiet c id body t = ground arith

  pub client_closed-Quiet :
      (id : Text) (code : ℕ) (reason : Text) (t : Tunnel Reply)
      → Quiet t (client_closed works id code reason t)
  unfolding client_closed post_over
  client_closed-Quiet id code reason t = ground arith

module _ (c : Base64) (rs : Responses) (env : Sockets) where
  pub relay-Quiet :
      (o : Option ℕ) (d : WsData) (t : Tunnel rs.Reply) → Quiet t (relay c rs env o d t)
  unfolding relay
  relay-Quiet o d t = ground arith

  pub shut-Quiet :
      (o : Option ℕ) (d : WsClose) (t : Tunnel rs.Reply) → Quiet t (shut c rs env o d t)
  unfolding shut
  shut-Quiet o d t = ground arith
