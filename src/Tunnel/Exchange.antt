-- ===== src/Tunnel/Exchange.antt =====
-- A request and its response, and requests while there is no tunnel.
use headfwd.Common.{
  ◌≢◌, List, ℕ, suc, ◌≡◌, refl, sym, ap, ◌∙◌, Bool, true, false, none, some, [], ◌∷◌, ◌++◌, Text,
  codes, text_eq, text_eq_refl, text_eq_iff, arith,
}
use headfwd.Common.Dict.{Dict, lookup, insert, erase}
use headfwd.Http.{Request}
use headfwd.Platform.{Base64}
use headfwd.Tunnel.State.{
  listens, silence, Tunnel, TunnelRequest, TunnelResponse, request, response, sent, resolved,
  clear_timer,
}
use headfwd.Tunnel.Access.{open_tunnel, tunnel_closed, reject_all}
use headfwd.Tunnel.Forward.{
  asks_for_websocket, refuse_forward, not_connected, send_request, send_over, enlist,
}
use headfwd.Tunnel.Messages.{
  Responses, Sockets, answer, resolve_with, decode, handle_tunnel_message,
}
use headfwd.Tunnel.Events.{
  to_tunnel, replied, fetch, opened, sidecar_closed, forwarded, received, step, run,
}
use headfwd.Tunnel.Handles.{timers_of, clear_timer-erase}
use headfwd.Tunnel.Keeps.{lookup-enlist}
use headfwd.Tunnel.Tidy.{IsTidy, enlist-IsTidy}

erase-insert : (m : Dict ℕ) (id : Text) (h : ℕ) → lookup id m ≡ none → erase id (insert id h m) ≡ m
unfolding lookup insert erase
erase-insert [] id h n = rw (text_eq_refl id) refl
erase-insert ((j, k) ∷ m) id h n = ground (arith, text_eq_iff j id, erase-insert m id h)

-- With a tidy table the timer of a new request is the only one that its answer clears.
clear-enlist :
    {Reply : Type 0} (t : Tunnel Reply) (id : Text)
    → IsTidy t
    → lookup id t.pending ≡ none
    → clear_timer t.next (enlist id t).timers ≡ t.timers
clear-enlist t id v n =
    let w = enlist-IsTidy t v id n in
    ap (clear_timer t.next) w.timed
    ∙ clear_timer-erase (enlist id t).pending 0 (suc t.next) t.next id w.distinct w.rising
        (lookup-enlist id t)
    ∙ ap timers_of (erase-insert t.pending id t.next n)
    ∙ sym v.timed

module _ (c : Base64) (rs : Responses) where
  sent_request :
      (t : Tunnel rs.Reply) (works : ℕ → Bool) (r : TunnelRequest) (s : ℕ)
      → t.tunnel ≡ some s
      → works s ≡ true
      → send_request works r t
        ≡ record (enlist r.id t) { outputs = t.outputs ++ sent s (request r) ∷ [] }
  unfolding send_request send_over
  sent_request t works r s e w = ap (λ o. send_over o works r t.next (enlist r.id t)) e ∙ rw w refl

  answered :
      (t : Tunnel rs.Reply) (a : TunnelResponse) (h : ℕ) (reply : rs.Reply)
      → lookup a.id t.pending ≡ some h
      → decode c rs a ≡ some reply
      → answer c rs (lookup a.id t.pending) a t ≡ record t {
        timers = clear_timer h t.timers;
        pending = erase a.id t.pending;
        settled = t.settled ++ (h, resolved reply) ∷ [];
      }
  unfolding answer resolve_with
  answered t a h reply e d =
      ap (λ o. answer c rs o a t) e
      ∙ ap
          (λ o.
            resolve_with c rs h o
              (record t { timers = clear_timer h t.timers; pending = erase a.id t.pending }))
          d

  -- A request that is sent over an open tunnel, and then a response under its id that can be made,
  -- resolve the promise of the request with this response; nothing else in the object changes but
  -- the sent frame and the numbering, if the id was fresh and the table of requests tidy.
  pub request_then_response :
      (t : Tunnel rs.Reply) (works : ℕ → Bool) (env : Sockets) (r : TunnelRequest)
      (a : TunnelResponse) (s : ℕ) (reply : rs.Reply)
      → IsTidy t
      → lookup r.id t.pending ≡ none
      → t.tunnel ≡ some s
      → works s ≡ true
      → a.id ≡ r.id
      → decode c rs a ≡ some reply
      → run c rs t (forwarded works r ∷ received env (some (response a)) ∷ []) ≡ record t {
        settled = t.settled ++ (t.next, resolved reply) ∷ [];
        outputs = t.outputs ++ sent s (request r) ∷ [];
        next = suc t.next;
      }
  unfolding run step handle_tunnel_message
  request_then_response t works env r a s reply v n e w same d =
      let waiting : Tunnel rs.Reply = record (enlist r.id t) {
        outputs = t.outputs ++ sent s (request r) ∷ [];
      } in
      ap (handle_tunnel_message c rs env (some (response a))) (sent_request t works r s e w)
      ∙ answered waiting a t.next reply
          (ap (λ id. lookup id waiting.pending) same ∙ lookup-enlist r.id t) d
      ∙ rw (same, erase-insert t.pending r.id t.next n, clear-enlist t r.id v n) refl

module _ (c : Base64) (rs : Responses) where
  closed-tunnel : (m : Dict ℕ) (t : Tunnel rs.Reply) → (reject_all m t).tunnel ≡ t.tunnel
  unfolding reject_all
  closed-tunnel [] t = refl
  closed-tunnel ((id, h) ∷ m) t = closed-tunnel m _

  closed-listening : (m : Dict ℕ) (t : Tunnel rs.Reply) → (reject_all m t).listening ≡ t.listening
  unfolding reject_all
  closed-listening [] t = refl
  closed-listening ((id, h) ∷ m) t = closed-listening m _

  -- Plain requests, with a tunnel and without one.
  taken :
      (req : Request) (t : Tunnel rs.Reply) (s : ℕ)
      → text_eq req.pathname (codes "/tunnel") ≡ false
      → asks_for_websocket req ≡ false
      → t.tunnel ≡ some s
      → fetch req t ≡ to_tunnel
  unfolding fetch refuse_forward
  taken req t s path plain e = rw (path, plain, e) refl

  refused :
      (req : Request) (t : Tunnel rs.Reply)
      → text_eq req.pathname (codes "/tunnel") ≡ false
      → asks_for_websocket req ≡ false
      → t.tunnel ≡ none
      → fetch req t ≡ replied not_connected
  unfolding fetch refuse_forward
  refused req t path plain e = rw (path, plain, e) refl

  -- Another socket is still listened to.
  listens-silence : (s r : ℕ) (ks : List ℕ) → s ≢ r → listens s (silence r ks) ≡ listens s ks
  unfolding listens silence
  listens-silence s r [] n = refl
  listens-silence s r (k ∷ ks) n = ground (arith, listens-silence s r ks n)

  module _ (t : Tunnel rs.Reply) (old new : ℕ) (still : listens old t.listening ≡ true)
      (differ : old ≢ new) where
    abbrev silenced : Tunnel rs.Reply
    silenced = record t { tunnel = some new; listening = silence old (new ∷ t.listening) }

    closes_both : run c rs t (opened new ∷ sidecar_closed old ∷ []) ≡ tunnel_closed silenced
    unfolding run step open_tunnel listens
    closes_both = rw still (ground arith)

    new_listens : listens new (tunnel_closed silenced).listening ≡ true
    unfolding tunnel_closed listens
    new_listens =
        ap (listens new) (closed-listening t.pending _)
        ∙ listens-silence new old (new ∷ t.listening) (λ e. differ (sym e))
        ∙ ground arith

    now_open : (run c rs t (opened new ∷ [])).tunnel ≡ some new
    unfolding run step open_tunnel
    now_open = refl

    now_closed : (tunnel_closed silenced).tunnel ≡ none
    unfolding tunnel_closed
    now_closed = closed-tunnel t.pending _

    none_left : (tunnel_closed silenced).pending ≡ []
    unfolding tunnel_closed
    none_left = refl

    -- When a sidecar has opened a new tunnel while the socket of an earlier one is still listened
    -- to, plain requests are taken; then the close of the earlier socket, which is not the tunnel,
    -- takes the tunnel away and forgets every pending request, so that plain requests are refused
    -- with 503, although the new socket has not been closed.
    pub close_after_reopen :
        (req : Request)
        → text_eq req.pathname (codes "/tunnel") ≡ false
        → asks_for_websocket req ≡ false
        → (fetch req (run c rs t (opened new ∷ [])) ≡ to_tunnel)
          × (fetch req (run c rs t (opened new ∷ sidecar_closed old ∷ [])) ≡ replied not_connected)
          × ((run c rs t (opened new ∷ sidecar_closed old ∷ [])).pending ≡ [])
          × (listens new (run c rs t (opened new ∷ sidecar_closed old ∷ [])).listening ≡ true)
    close_after_reopen req path plain = (
      taken req (run c rs t (opened new ∷ [])) new path plain now_open,
      refused req _ path plain (ap (λ x. x.tunnel) closes_both ∙ now_closed),
      ap (λ x. x.pending) closes_both ∙ none_left,
      ap (λ x. listens new x.listening) closes_both ∙ new_listens,
    )
