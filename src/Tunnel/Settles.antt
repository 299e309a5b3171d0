-- ===== src/Tunnel/Settles.antt =====
-- Every forwarded request is answered once, unless its response cannot be made: then never.
use headfwd.Common.{ℕ, ◌≤◌, ◌<◌, ◌≡◌, refl, ap, ◌∙◌, Option, none, some, List, [], ◌∷◌, arith}
use headfwd.Common.Dict.{lookup, erase}
use headfwd.Platform.{Base64}
use headfwd.Tunnel.State.{Tunnel, TunnelResponse, response, new_tunnel, clear_timer, resolved}
use native.Mathlib.Decide.{dec_lt}
use headfwd.Tunnel.Access.{tunnel_closed}
use headfwd.Tunnel.Messages.{
  Responses, Sockets, answer, resolve_with, decode, handle_tunnel_message,
}
use headfwd.Tunnel.Events.{Event, received, step, run}
use headfwd.Tunnel.Handles.{count_settled, count_pending-erase, lookup-Rising}
use headfwd.Tunnel.Tidy.{IsTidy}
use headfwd.Tunnel.Keeps.{IsFresh, AllFresh, step-IsTidy, run-new_tunnel-IsTidy, new_tunnel-IsTidy}
use headfwd.Tunnel.Weight.{
  weight, Balanced, IsDecodable, step-Balanced, closed-Balanced, finish-Balanced,
}

module _ (c : Base64) (rs : Responses) where
  -- Every promise that was made is pending or settled, exactly once.
  abbrev IsComplete : Tunnel rs.Reply → Type 0
  IsComplete t = (h : ℕ) → h < t.next → weight h t ≡ 1

  abbrev pub AllDecodable : List (Event c rs) → Type 0
  AllDecodable [] = Unit
  AllDecodable (e ∷ es) = IsDecodable c rs e × AllDecodable es

  Balanced-IsComplete : (t t' : Tunnel rs.Reply) → Balanced t t' → IsComplete t → IsComplete t'
  Balanced-IsComplete t t' b all h p = elim (dec_lt h t.next) [
    | yes old ↦ b.kept h old ∙ all h old
    | no new ↦ b.made h (omega arith) p
  ]

  run-IsComplete :
      (t : Tunnel rs.Reply) (es : List (Event c rs))
      → AllFresh c rs t es
      → AllDecodable es
      → IsTidy t
      → IsComplete t
      → IsComplete (run c rs t es)
  unfolding run
  run-IsComplete t [] f d v all = all
  run-IsComplete t (e ∷ es) (f, fs) (d, ds) v all =
      run-IsComplete (step c rs t e) es fs ds (step-IsTidy c rs t e f v)
        (Balanced-IsComplete t _ (step-Balanced c rs t e f d v) all)

  new_tunnel-IsComplete : IsComplete new_tunnel
  unfolding new_tunnel
  new_tunnel-IsComplete h p = absurd (omega arith)

  no_more_pending :
      (t : Tunnel rs.Reply) (h : ℕ)
      → count_settled h (tunnel_closed t).settled ≡ weight h (tunnel_closed t)
  unfolding tunnel_closed
  no_more_pending t h = omega arith

  -- When the tunnel closes after any history in which the ids are fresh and the responses can be
  -- made, every promise has been settled exactly once.
  pub closed_settles_all :
      (es : List (Event c rs))
      → AllFresh c rs new_tunnel es
      → AllDecodable es
      → (h : ℕ) → h < (run c rs new_tunnel es).next
      → count_settled h (tunnel_closed (run c rs new_tunnel es)).settled ≡ 1
  closed_settles_all es f d h p =
      let t = run c rs new_tunnel es in
      let all = run-IsComplete new_tunnel es f d (new_tunnel-IsTidy c rs) new_tunnel-IsComplete in
      let b = closed-Balanced t (run-new_tunnel-IsTidy c rs es f) in
      no_more_pending t h ∙ b.kept h p ∙ all h p

  Balanced-weight_le :
      (t t' : Tunnel rs.Reply) (h : ℕ)
      → h < t.next
      → Balanced t t'
      → (weight h t' ≤ weight h t) × (t.next ≤ t'.next)
  Balanced-weight_le t t' h p b = (omega (arith, b.kept h p), b.grows)

  answer-weight_le :
      (t : Tunnel rs.Reply) (r : TunnelResponse) (o : Option ℕ) (h : ℕ)
      → lookup r.id t.pending ≡ o
      → IsTidy t
      → h < t.next
      → (weight h (answer c rs o r t) ≤ weight h t) × (t.next ≤ (answer c rs o r t).next)
  unfolding answer resolve_with
  answer-weight_le t r none h e v p = (omega arith, omega arith)
  answer-weight_le t r (some k) h e v p = by_reply (decode c rs r)
    where
      t' : Tunnel rs.Reply
      t' = record t { timers = clear_timer k t.timers; pending = erase r.id t.pending }

      by_reply :
          (o : Option rs.Reply)
          → (weight h (resolve_with c rs k o t') ≤ weight h t)
            × (t.next ≤ (resolve_with c rs k o t').next)
      by_reply none =
          (omega (arith, count_pending-erase t.pending r.id h k v.distinct e), omega arith)
      by_reply (some a) = Balanced-weight_le t _ h p (finish-Balanced t r.id k (resolved a) v e)

  -- No step brings back a promise that is neither pending nor settled.
  step-weight_le :
      (t : Tunnel rs.Reply) (e : Event c rs) (h : ℕ)
      → IsFresh c rs t e
      → IsTidy t
      → h < t.next
      → (weight h (step c rs t e) ≤ weight h t) × (t.next ≤ (step c rs t e).next)
  unfolding step handle_tunnel_message
  step-weight_le t (received env (some (response r))) h f v p =
      answer-weight_le t r (lookup r.id t.pending) h refl v p
  step-weight_le t e h f v p = Balanced-weight_le t _ h p (step-Balanced c rs t e f tt v)

  stays_lost :
      (t : Tunnel rs.Reply) (es : List (Event c rs)) (h : ℕ)
      → AllFresh c rs t es
      → IsTidy t
      → h < t.next
      → weight h t ≡ 0
      → weight h (run c rs t es) ≡ 0
  unfolding run
  stays_lost t [] h f v p w = w
  stays_lost t (e ∷ es) h (f, fs) v p w =
      let (less, grows) = step-weight_le t e h f v p in
      stays_lost (step c rs t e) es h fs (step-IsTidy c rs t e f v) (omega arith) (omega arith)

  below :
      (t : Tunnel rs.Reply) (r : TunnelResponse) (h : ℕ)
      → IsTidy t
      → lookup r.id t.pending ≡ some h
      → h < t.next
  below t r h v e = (lookup-Rising t.pending 0 t.next h r.id v.rising e).1

  undecodable_drops :
      (t : Tunnel rs.Reply) (env : Sockets) (r : TunnelResponse) (h : ℕ)
      → lookup r.id t.pending ≡ some h
      → decode c rs r ≡ none
      → step c rs t (received env (some (response r)))
        ≡ record t { timers = clear_timer h t.timers; pending = erase r.id t.pending }
  unfolding step handle_tunnel_message answer resolve_with
  undecodable_drops t env r h e d =
      ap (λ o. answer c rs o r t) e
      ∙ ap
          (λ o.
            resolve_with c rs h o
              (record t { timers = clear_timer h t.timers; pending = erase r.id t.pending }))
          d

  undecodable_weight :
      (t : Tunnel rs.Reply) (env : Sockets) (r : TunnelResponse) (h : ℕ)
      → IsTidy t
      → lookup r.id t.pending ≡ some h
      → decode c rs r ≡ none
      → weight h (step c rs t (received env (some (response r)))) ≡ 0
  undecodable_weight t env r h v e d =
      rw (undecodable_drops t env r h e d)
        (ground (arith, v.once h, count_pending-erase t.pending r.id h h v.distinct e))

  -- A response to a pending request that cannot be made, because its body is no base64 or because
  -- `new Response` throws, leaves the promise of the request unsettled whatever happens later.
  pub undecodable_never_settles :
      (t : Tunnel rs.Reply) (env : Sockets) (r : TunnelResponse) (h : ℕ) (es : List (Event c rs))
      → IsTidy t
      → lookup r.id t.pending ≡ some h
      → decode c rs r ≡ none
      → AllFresh c rs (step c rs t (received env (some (response r)))) es
      → count_settled h (run c rs (step c rs t (received env (some (response r)))) es).settled ≡ 0
  undecodable_never_settles t env r h es v e d f =
      let t' = step c rs t (received env (some (response r))) in
      let (_, grows) =
        step-weight_le t (received env (some (response r))) h tt v (below t r h v e) in
      let none_left =
        stays_lost t' es h f (step-IsTidy c rs t (received env (some (response r))) tt v)
          (omega (arith, below t r h v e)) (undecodable_weight t env r h v e d) in
      omega (arith, none_left)
