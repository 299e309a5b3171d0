-- ===== src/Tunnel/Keeps.antt =====
-- Every step keeps the invariant of the pending requests.
use headfwd.Common.{
  ℕ, suc, ◌+◌, ◌≡◌, refl, sym, ap, ◌∙◌, Bool, inl, inr, Option, none, some, List, [], ◌∷◌, Text,
  text_eq_iff, text_eq_refl, ltb, Bool-cases, if_both, arith,
}
use headfwd.Common.Dict.{Dict, lookup, erase, HasDistinctKeys, lookup-insert}
use headfwd.Platform.{Base64}
use headfwd.Tunnel.State.{
  Tunnel, Output, TunnelRequest, TunnelResponse, Message, settle, emit, clear_timer, new_tunnel,
  listens, silence, request, response, ping, pong, ws_data, ws_close, sent, send_failed, timed_out,
  resolved, closed,
}
use headfwd.Tunnel.Access.{tunnel_closed, reject_all}
use headfwd.Tunnel.Forward.{send_request, send_over, enlist, give_up, timer_fires, time_out, armed}
use headfwd.Tunnel.Messages.{
  Responses, Sockets, answer, resolve_with, decode, handle_tunnel_message,
}
use headfwd.Tunnel.Events.{
  Event, opened, sidecar_closed, forwarded, fired, received, upgraded, client_sent, client_left,
  step, run,
}
use headfwd.Tunnel.Handles.{
  Rising, timers_of, one_if, count_pending, count_settled, count_settled-append, clear_timer_head,
}
use headfwd.Tunnel.Quiet.{
  Quiet, relay-Quiet, shut-Quiet, post-Quiet, forward_websocket-Quiet, client_message-Quiet,
  client_closed-Quiet,
}
use headfwd.Tunnel.Tidy.{IsTidy, finish, drop-IsTidy, finish-IsTidy, enlist-IsTidy}

-- An armed timer belongs to a pending request.
armed-lookup :
    (m : Dict ℕ) (h : ℕ) (id : Text)
    → HasDistinctKeys m
    → armed h (timers_of m) ≡ some id
    → lookup id m ≡ some h
unfolding armed lookup
armed-lookup [] h id d e = cc
armed-lookup ((j, k) ∷ m) h id (n, d) e = ground (arith, text_eq_iff j id, n, armed-lookup m h id d)

module _ {Reply : Type 0} where
  -- A socket of a sidecar is no longer listened to.
  pub silence-Quiet :
      (s : ℕ) (t : Tunnel Reply) → Quiet t (record t { listening = silence s t.listening })
  silence-Quiet s t = record { pending = refl; timers = refl; settled = refl; next = refl }

  -- A step that leaves the promises alone keeps the invariant.
  pub Quiet-IsTidy : (t t' : Tunnel Reply) → Quiet t t' → IsTidy t → IsTidy t'
  Quiet-IsTidy t t' q v = record {
    distinct = rw q.pending v.distinct;
    rising = rw (q.pending, q.next) v.rising;
    timed = q.timers ∙ v.timed ∙ ap timers_of (sym q.pending);
    once = λ h. rw (q.pending, q.settled, q.next) (v.once h);
  }

  emit-IsTidy : (o : Output) (t : Tunnel Reply) → IsTidy t → IsTidy (emit o t)
  emit-IsTidy o t v =
      Quiet-IsTidy t (emit o t)
        (record { pending = refl; timers = refl; settled = refl; next = refl }) v

  -- A send goes through, or the entry is taken out again.
  pub send_request_cases :
      (P : Tunnel Reply → Type 0) (works : ℕ → Bool) (r : TunnelRequest) (t : Tunnel Reply)
      → ((s : ℕ) → P (emit (sent s (request r)) (enlist r.id t)))
      → P (finish r.id t.next send_failed (enlist r.id t))
      → P (send_request works r t)
  unfolding send_request send_over give_up
  send_request_cases P works r t through failed = by_tunnel t.tunnel
    where
      by_tunnel : (o : Option ℕ) → P (send_over o works r t.next (enlist r.id t))
      by_tunnel none = failed
      by_tunnel (some s) = elim (Bool-cases (works s)) [
        | inl ok ↦ rw ok (through s)
        | inr bad ↦ rw bad failed
      ]

  pub lookup-enlist : (id : Text) (t : Tunnel Reply) → lookup id (enlist id t).pending ≡ some t.next
  lookup-enlist id t = rw (lookup-insert id id t.next t.pending, text_eq_refl id) refl

  send_request-IsTidy :
      (works : ℕ → Bool) (r : TunnelRequest) (t : Tunnel Reply)
      → lookup r.id t.pending ≡ none
      → IsTidy t
      → IsTidy (send_request works r t)
  send_request-IsTidy works r t n v =
      let w = enlist-IsTidy t v r.id n in
      send_request_cases IsTidy works r t (λ s. emit-IsTidy (sent s (request r)) (enlist r.id t) w)
        (finish-IsTidy (enlist r.id t) w r.id t.next send_failed (lookup-enlist r.id t))

  -- A timer that is not armed does nothing; an armed one ends its request.
  pub timer_fires_cases :
      (P : Tunnel Reply → Type 0) (h : ℕ) (t : Tunnel Reply)
      → IsTidy t
      → P t
      → ((id : Text) → lookup id t.pending ≡ some h → P (finish id h timed_out t))
      → P (timer_fires h t)
  unfolding timer_fires time_out
  timer_fires_cases P h t v idle ends = by_timer (armed h t.timers) refl
    where
      by_timer : (o : Option Text) → armed h t.timers ≡ o → P (time_out h o t)
      by_timer none e = idle
      by_timer (some id) e =
          ends id (armed-lookup t.pending h id v.distinct (ap (armed h) (sym v.timed) ∙ e))

  timer_fires-IsTidy : (h : ℕ) (t : Tunnel Reply) → IsTidy t → IsTidy (timer_fires h t)
  timer_fires-IsTidy h t v =
      timer_fires_cases IsTidy h t v v (λ id e. finish-IsTidy t v id h timed_out e)

  reject_all-timers :
      (m : Dict ℕ) (lo hi : ℕ) (t : Tunnel Reply)
      → Rising lo m hi
      → t.timers ≡ timers_of m
      → (reject_all m t).timers ≡ []
  unfolding reject_all
  reject_all-timers [] lo hi t r e = e
  reject_all-timers ((id, h) ∷ m) lo hi t (p, r) e =
      reject_all-timers m (suc h) hi _ r (ap (clear_timer h) e ∙ clear_timer_head m id h hi r)

  pub reject_all-settled :
      (m : Dict ℕ) (k : ℕ) (t : Tunnel Reply)
      → count_settled k (reject_all m t).settled ≡ count_settled k t.settled + count_pending k m
  unfolding reject_all
  reject_all-settled [] k t = omega arith
  reject_all-settled ((id, h) ∷ m) k t = omega (
    arith,
    reject_all-settled m k (settle h closed (record t { timers = clear_timer h t.timers })),
    count_settled-append k t.settled h closed,
  )

  pub reject_all-next : (m : Dict ℕ) (t : Tunnel Reply) → (reject_all m t).next ≡ t.next
  unfolding reject_all
  reject_all-next [] t = refl
  reject_all-next ((id, h) ∷ m) t = reject_all-next m _

  tunnel_closed-IsTidy : (t : Tunnel Reply) → IsTidy t → IsTidy (tunnel_closed t)
  unfolding tunnel_closed
  tunnel_closed-IsTidy t v =
      let start : Tunnel Reply = record t { tunnel = none } in
      record {
        distinct = tt;
        rising = omega arith;
        timed = reject_all-timers t.pending 0 t.next start v.rising v.timed;
        once = λ k. omega (
          arith,
          v.once k,
          reject_all-settled t.pending k start,
          ap (λ (n : ℕ). one_if (ltb k n)) (reject_all-next t.pending start),
        );
      }

module _ (c : Base64) (rs : Responses) where
  answer-IsTidy :
      (t : Tunnel rs.Reply) (r : TunnelResponse) (o : Option ℕ)
      → lookup r.id t.pending ≡ o
      → IsTidy t
      → IsTidy (answer c rs o r t)
  unfolding answer resolve_with
  answer-IsTidy t r none e v = v
  answer-IsTidy t r (some h) e v = by_reply (decode c rs r)
    where
      by_reply :
          (reply : Option rs.Reply)
          → IsTidy (
              resolve_with c rs h reply
                (record t { timers = clear_timer h t.timers; pending = erase r.id t.pending }))
      by_reply none = drop-IsTidy t v r.id h e
      by_reply (some reply) = finish-IsTidy t v r.id h (resolved reply) e

  -- The id drawn for a forwarded request is not in use.
  abbrev pub IsFresh : Tunnel rs.Reply → Event c rs → Type 0
  IsFresh t (forwarded works r) = lookup r.id t.pending ≡ none
  IsFresh t _ = Unit

  frame-IsTidy :
      (env : Sockets) (m : Option Message) (t : Tunnel rs.Reply)
      → IsTidy t
      → IsTidy (handle_tunnel_message c rs env m t)
  unfolding handle_tunnel_message
  frame-IsTidy env (some (response r)) t v = answer-IsTidy t r (lookup r.id t.pending) refl v
  frame-IsTidy env (some (ws_data d)) t v =
      Quiet-IsTidy t _ (relay-Quiet c rs env (lookup d.id t.connections) d t) v
  frame-IsTidy env (some (ws_close d)) t v =
      Quiet-IsTidy t _ (shut-Quiet c rs env (lookup d.id t.connections) d t) v
  frame-IsTidy env (some ping) t v = Quiet-IsTidy t _ (post-Quiet env.works t.tunnel pong t) v
  frame-IsTidy env _ t v = v

  -- Every step keeps the invariant, if the ids drawn are fresh.
  pub step-IsTidy :
      (t : Tunnel rs.Reply) (e : Event c rs) → IsFresh t e → IsTidy t → IsTidy (step c rs t e)
  unfolding step
  step-IsTidy t (opened s) f v =
      Quiet-IsTidy t _ (record { pending = refl; timers = refl; settled = refl; next = refl }) v
  step-IsTidy t (sidecar_closed s) f v =
      let t' : Tunnel rs.Reply = record t { listening = silence s t.listening } in
      if_both IsTidy (listens s t.listening) _ t
        (tunnel_closed-IsTidy t' (Quiet-IsTidy t t' (silence-Quiet s t) v)) v
  step-IsTidy t (forwarded works r) f v = send_request-IsTidy works r t f v
  step-IsTidy t (fired h) f v = timer_fires-IsTidy h t v
  step-IsTidy t (received env m) f v = frame-IsTidy env m t v
  step-IsTidy t (upgraded works req id server) f v =
      Quiet-IsTidy t _ (forward_websocket-Quiet works req id server t) v
  step-IsTidy t (client_sent works id body) f v =
      Quiet-IsTidy t _ (client_message-Quiet works c id body t) v
  step-IsTidy t (client_left works id code reason) f v =
      Quiet-IsTidy t _ (client_closed-Quiet works id code reason t) v

  -- All ids of a history are fresh when they are drawn.
  abbrev pub AllFresh : Tunnel rs.Reply → List (Event c rs) → Type 0
  AllFresh t [] = Unit
  AllFresh t (e ∷ es) = IsFresh t e × AllFresh (step c rs t e) es

  run-IsTidy :
      (t : Tunnel rs.Reply) (es : List (Event c rs))
      → AllFresh t es
      → IsTidy t
      → IsTidy (run c rs t es)
  unfolding run
  run-IsTidy t [] f v = v
  run-IsTidy t (e ∷ es) (f, fs) v = run-IsTidy (step c rs t e) es fs (step-IsTidy t e f v)

  pub new_tunnel-IsTidy : IsTidy (new_tunnel {Reply = rs.Reply})
  unfolding new_tunnel
  new_tunnel-IsTidy = record {
    distinct = tt;
    rising = omega arith;
    timed = refl;
    once = λ h. omega arith;
  }

  -- After any history of a new object, each pending request has one armed timer of its own and
  -- there is no other timer, and no promise has been settled twice or settled while it is pending,
  -- if the ids drawn for the requests are fresh.
  pub run-new_tunnel-IsTidy :
      (es : List (Event c rs)) → AllFresh new_tunnel es → IsTidy (run c rs new_tunnel es)
  run-new_tunnel-IsTidy es f = run-IsTidy new_tunnel es f new_tunnel-IsTidy
