-- ===== src/Tunnel/Weight.antt =====
-- How often a promise is pending or settled, and how each step changes that.
use headfwd.Common.{
  ℕ, ◌+◌, ◌≤◌, ◌<◌, ◌≡◌, refl, ◌∙◌, Bool, Option, none, some, Text, if_both, arith,
}
use native.Mathlib.Decide.{dec_lt}
use headfwd.Common.Dict.{lookup}
use headfwd.Platform.{Base64}
use headfwd.Tunnel.State.{
  Tunnel, TunnelRequest, TunnelResponse, Message, Settlement, response, ping, pong, ws_data,
  ws_close, send_failed, timed_out, resolved, listens, silence,
}
use headfwd.Tunnel.Access.{tunnel_closed}
use headfwd.Tunnel.Forward.{send_request, enlist, timer_fires}
use headfwd.Tunnel.Messages.{
  Responses, Sockets, answer, resolve_with, decode, handle_tunnel_message,
}
use headfwd.Tunnel.Events.{
  Event, opened, sidecar_closed, forwarded, fired, received, upgraded, client_sent, client_left,
  step,
}
use headfwd.Tunnel.Handles.{
  count_pending, count_settled, count_settled-append, count_pending-insert, count_pending-erase,
}
use headfwd.Tunnel.Quiet.{
  Quiet, Quiet-refl, emit-Quiet, relay-Quiet, shut-Quiet, post-Quiet, forward_websocket-Quiet,
  client_message-Quiet, client_closed-Quiet,
}
use headfwd.Tunnel.Tidy.{IsTidy, finish, enlist-IsTidy}
use headfwd.Tunnel.Keeps.{
  send_request_cases, timer_fires_cases, lookup-enlist, IsFresh, silence-Quiet, Quiet-IsTidy,
  reject_all-settled, reject_all-next,
}

module _ {Reply : Type 0} where
  abbrev pub weight : ℕ → Tunnel Reply → ℕ
  weight h t = count_settled h t.settled + count_pending h t.pending

  -- A step from t to t': no promise is made or lost, but for the new one if there is one.
  pub record Balanced (t t' : Tunnel Reply) : Type 0 where
    pub grows : t.next ≤ t'.next
    pub kept : (h : ℕ) → h < t.next → weight h t' ≡ weight h t
    pub made : (h : ℕ) → t.next ≤ h → h < t'.next → weight h t' ≡ 1

  Quiet-Balanced : (t t' : Tunnel Reply) → Quiet t t' → Balanced t t'
  Quiet-Balanced t t' q = record {
    grows = rw q.next (omega arith);
    kept = λ h _. rw (q.settled, q.pending);
    made = λ h p r. absurd (omega (arith, q.next));
  }

  pub finish-Balanced :
      (t : Tunnel Reply) (id : Text) (h : ℕ) (s : Settlement Reply)
      → IsTidy t
      → lookup id t.pending ≡ some h
      → Balanced t (finish id h s t)
  finish-Balanced t id h s v e = record {
    grows = omega arith;
    kept = λ k _. omega (
      arith,
      count_pending-erase t.pending id k h v.distinct e,
      count_settled-append k t.settled h s,
    );
    made = λ k p r. absurd (omega arith);
  }

  Balanced-trans : (t t' t'' : Tunnel Reply) → Balanced t t' → Balanced t' t'' → Balanced t t''
  Balanced-trans t t' t'' a b = record {
    grows = omega (arith, a.grows, b.grows);
    kept = λ h p. b.kept h (omega (arith, a.grows)) ∙ a.kept h p;
    made = λ h p r. elim (dec_lt h t'.next) [
      | yes old ↦ b.kept h old ∙ a.made h p old
      | no new ↦ b.made h (omega arith) r
    ];
  }

  enlist-Balanced :
      (t : Tunnel Reply) (id : Text)
      → lookup id t.pending ≡ none
      → IsTidy t
      → Balanced t (enlist id t)
  enlist-Balanced t id n v = record {
    grows = omega arith;
    kept = λ k p. ground (arith, count_pending-insert t.pending id k t.next n);
    made = λ k p r. ground (arith, v.once k, count_pending-insert t.pending id k t.next n);
  }

  send_request-Balanced :
      (works : ℕ → Bool) (r : TunnelRequest) (t : Tunnel Reply)
      → lookup r.id t.pending ≡ none
      → IsTidy t
      → Balanced t (send_request works r t)
  send_request-Balanced works r t n v =
      let enlisted = enlist r.id t in
      let first = enlist-Balanced t r.id n v in
      send_request_cases (Balanced t) works r t
        (λ s. Balanced-trans t enlisted _ first (Quiet-Balanced enlisted _ (emit-Quiet _ enlisted)))
        (Balanced-trans t enlisted _ first (
          finish-Balanced enlisted r.id t.next send_failed (enlist-IsTidy t v r.id n)
            (lookup-enlist r.id t)))

  timer_fires-Balanced : (h : ℕ) (t : Tunnel Reply) → IsTidy t → Balanced t (timer_fires h t)
  timer_fires-Balanced h t v =
      timer_fires_cases (Balanced t) h t v (Quiet-Balanced t t (Quiet-refl t))
        (λ id e. finish-Balanced t id h timed_out v e)

  pub closed-Balanced : (t : Tunnel Reply) → IsTidy t → Balanced t (tunnel_closed t)
  unfolding tunnel_closed
  closed-Balanced t v =
      let start : Tunnel Reply = record t { tunnel = none } in
      let same = reject_all-next t.pending start in
      record {
        grows = omega (arith, same);
        kept = λ h _. omega (arith, reject_all-settled t.pending h start);
        made = λ h p r. absurd (omega (arith, same));
      }

module _ (c : Base64) (rs : Responses) where
  -- The response that an event carries, if it carries one, can be made.
  abbrev pub IsDecodable : Event c rs → Type 0
  IsDecodable (received env (some (response r))) = (a : rs.Reply) × (decode c rs r ≡ some a)
  IsDecodable _ = Unit

  pub answer-Balanced :
      (t : Tunnel rs.Reply) (r : TunnelResponse) (o : Option ℕ)
      → lookup r.id t.pending ≡ o
      → (a : rs.Reply) × (decode c rs r ≡ some a)
      → IsTidy t
      → Balanced t (answer c rs o r t)
  unfolding answer resolve_with
  answer-Balanced t r none e d v = Quiet-Balanced t t (Quiet-refl t)
  answer-Balanced t r (some h) e (a, d) v = rw d (finish-Balanced t r.id h (resolved a) v e)

  frame-Balanced :
      (env : Sockets) (m : Option Message) (t : Tunnel rs.Reply)
      → IsDecodable (received env m)
      → IsTidy t
      → Balanced t (handle_tunnel_message c rs env m t)
  unfolding handle_tunnel_message
  frame-Balanced env (some (response r)) t d v =
      answer-Balanced t r (lookup r.id t.pending) refl d v
  frame-Balanced env (some (ws_data d)) t _ v =
      Quiet-Balanced t _ (relay-Quiet c rs env (lookup d.id t.connections) d t)
  frame-Balanced env (some (ws_close d)) t _ v =
      Quiet-Balanced t _ (shut-Quiet c rs env (lookup d.id t.connections) d t)
  frame-Balanced env (some ping) t _ v = Quiet-Balanced t _ (post-Quiet env.works t.tunnel pong t)
  frame-Balanced env _ t _ v = Quiet-Balanced t t (Quiet-refl t)

  pub step-Balanced :
      (t : Tunnel rs.Reply) (e : Event c rs)
      → IsFresh c rs t e
      → IsDecodable e
      → IsTidy t
      → Balanced t (step c rs t e)
  unfolding step
  step-Balanced t (opened s) f d v =
      Quiet-Balanced t _ (record { pending = refl; timers = refl; settled = refl; next = refl })
  step-Balanced t (sidecar_closed s) f d v =
      let t' : Tunnel rs.Reply = record t { listening = silence s t.listening } in
      let quiet = silence-Quiet s t in
      if_both (Balanced t) (listens s t.listening) _ t
        (Balanced-trans t t' _ (Quiet-Balanced t t' quiet)
          (closed-Balanced t' (Quiet-IsTidy t t' quiet v)))
        (Quiet-Balanced t t (Quiet-refl t))
  step-Balanced t (forwarded works r) f d v = send_request-Balanced works r t f v
  step-Balanced t (fired h) f d v = timer_fires-Balanced h t v
  step-Balanced t (received env m) f d v = frame-Balanced env m t d v
  step-Balanced t (upgraded works req id server) f d v =
      Quiet-Balanced t _ (forward_websocket-Quiet works req id server t)
  step-Balanced t (client_sent works id body) f d v =
      Quiet-Balanced t _ (client_message-Quiet works c id body t)
  step-Balanced t (client_left works id code reason) f d v =
      Quiet-Balanced t _ (client_closed-Quiet works id code reason t)
