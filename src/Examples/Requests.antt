-- ===== src/Examples/Requests.antt =====
-- Examples for the tunnel: requests are sent over the socket 1 and answered.
use headfwd.Common.{
  ◌↔◌, ℕ, suc, starts_with, includes, ◌≡◌, refl, ◌<◌, ◌++◌, true, false, some, none, List, [], ◌∷◌,
  Text, codes, text_eq, arith,
}
use headfwd.Common.Dict.{lookup, insert, erase}
use headfwd.Base64.{from_base64}
use headfwd.Http.{Request}
use headfwd.Platform.Model.{toy_base64}
use headfwd.Tunnel.State.{
  listens, Tunnel, TunnelRequest, Body, binary, response, request, ws_data, new_tunnel, resolved,
  sent, relayed, emit,
}
use headfwd.Tunnel.Access.{open_tunnel, tunnel_closed, expected_websocket}
use headfwd.Tunnel.Forward.{
  not_connected, serialize, send_request, send_over, asks_for_websocket, is_text,
}
use headfwd.Tunnel.Sockets.{forward_websocket, client_message}
use headfwd.Tunnel.Messages.{decode, response_body, handle_tunnel_message, answer, resolve_with}
use headfwd.Tunnel.Events.{
  Event, opened, sidecar_closed, forwarded, received, step, run, fetch, to_tunnel, to_websocket,
  replied,
}
use headfwd.Tunnel.Handles.{count_settled}
use headfwd.Tunnel.Tidy.{IsTidy}
use headfwd.Tunnel.Keeps.{AllFresh, run-new_tunnel-IsTidy}
use headfwd.Tunnel.Settles.{AllDecodable, closed_settles_all, undecodable_never_settles}
use headfwd.Tunnel.Exchange.{request_then_response, close_after_reopen}
use headfwd.Tunnel.Upgrades.{IsUnusual, odd_upgrade_refused}
use headfwd.Tunnel.Relay.{binary_relay, serialize-from_base64}
use headfwd.Examples.{visit, toy_responses, sockets, always, ask, respond}

abbrev machine_run : Tunnel (ℕ × Body) → List (Event toy_base64 toy_responses) → Tunnel (ℕ × Body)
machine_run = run toy_base64 toy_responses

-- Two requests, a response to the second, and a third request.
abbrev history : List (Event toy_base64 toy_responses)
history =
    opened 1
    ∷ forwarded always (ask (codes "a"))
    ∷ forwarded always (ask (codes "b"))
    ∷ received sockets (some (response (respond (codes "b") 200)))
    ∷ forwarded always (ask (codes "c"))
    ∷ []

history-AllFresh : AllFresh toy_base64 toy_responses new_tunnel history
unfolding step send_request send_over handle_tunnel_message answer resolve_with lookup insert erase
    text_eq new_tunnel decode from_base64
history-AllFresh = (tt, (refl, (refl, (tt, (refl, tt)))))

history-AllDecodable : AllDecodable toy_base64 toy_responses history
unfolding decode response_body from_base64
history-AllDecodable = (tt, (tt, (tt, (((200, binary (codes "hi")), refl), (tt, tt)))))

two_made : 1 < (machine_run new_tunnel history).next
unfolding run step send_request send_over handle_tunnel_message answer resolve_with lookup insert
    erase text_eq new_tunnel decode from_base64
two_made = omega arith

run-new_tunnel-IsTidy_example : IsTidy (run toy_base64 toy_responses new_tunnel history)
run-new_tunnel-IsTidy_example =
    run-new_tunnel-IsTidy toy_base64 toy_responses history history-AllFresh

closed_settles_all_example :
    count_settled 1 (tunnel_closed (run toy_base64 toy_responses new_tunnel history)).settled ≡ 1
closed_settles_all_example =
    closed_settles_all toy_base64 toy_responses history history-AllFresh history-AllDecodable 1
      two_made

-- A request that waits.
abbrev short : List (Event toy_base64 toy_responses)
short = opened 1 ∷ forwarded always (ask (codes "a")) ∷ []

abbrev waiting : Tunnel (ℕ × Body)
waiting = machine_run new_tunnel short

waiting-IsTidy : IsTidy waiting
unfolding new_tunnel lookup step
waiting-IsTidy = run-new_tunnel-IsTidy toy_base64 toy_responses short (tt, (refl, tt))

waiting_for_a : lookup (codes "a") waiting.pending ≡ some 0
unfolding run step send_request send_over lookup insert text_eq new_tunnel
waiting_for_a = refl

not_waiting_for_b : lookup (codes "b") waiting.pending ≡ none
unfolding run step send_request send_over lookup insert text_eq new_tunnel
not_waiting_for_b = refl

waiting-tunnel : waiting.tunnel ≡ some 1
unfolding run step send_request send_over new_tunnel
waiting-tunnel = refl

bad_status : decode toy_base64 toy_responses (respond (codes "a") 700) ≡ none
unfolding decode response_body from_base64
bad_status = refl

good_status :
    decode toy_base64 toy_responses (respond (codes "b") 200) ≡ some (200, binary (codes "hi"))
unfolding decode response_body from_base64
good_status = refl

abbrev after_bad : Tunnel (ℕ × Body)
after_bad =
    step toy_base64 toy_responses waiting
      (received sockets (some (response (respond (codes "a") 700))))

undecodable_never_settles_example :
    count_settled 0 (run toy_base64 toy_responses after_bad (sidecar_closed 1 ∷ [])).settled ≡ 0
undecodable_never_settles_example =
    undecodable_never_settles toy_base64 toy_responses waiting sockets (respond (codes "a") 700) 0
      (sidecar_closed 1 ∷ []) waiting-IsTidy waiting_for_a bad_status (tt, tt)

request_then_response_example :
    run toy_base64 toy_responses waiting (
      forwarded always (ask (codes "b"))
      ∷ received sockets (some (response (respond (codes "b") 200)))
      ∷ [])
    ≡ record waiting {
      settled = waiting.settled ++ (waiting.next, resolved (200, binary (codes "hi"))) ∷ [];
      outputs = waiting.outputs ++ sent 1 (request (ask (codes "b"))) ∷ [];
      next = suc waiting.next;
    }
request_then_response_example =
    request_then_response toy_base64 toy_responses waiting always sockets (ask (codes "b"))
      (respond (codes "b") 200) 1 (200, binary (codes "hi")) waiting-IsTidy not_waiting_for_b
      waiting-tunnel refl refl good_status

abbrev page : Request
page = visit (codes "example.org") (codes "/") none

page_path : text_eq page.pathname (codes "/tunnel") ≡ false
unfolding text_eq
page_path = refl

page_plain : asks_for_websocket page ≡ false
unfolding asks_for_websocket
page_plain = refl

one_listens : listens 1 waiting.listening ≡ true
unfolding run step send_request send_over new_tunnel open_tunnel listens
one_listens = refl

close_after_reopen_example :
    (fetch page (machine_run waiting (opened 2 ∷ [])) ≡ to_tunnel)
    × (fetch page (machine_run waiting (opened 2 ∷ sidecar_closed 1 ∷ [])) ≡ replied not_connected)
    × ((machine_run waiting (opened 2 ∷ sidecar_closed 1 ∷ [])).pending ≡ [])
    × (listens 2 (machine_run waiting (opened 2 ∷ sidecar_closed 1 ∷ [])).listening ≡ true)
close_after_reopen_example =
    close_after_reopen toy_base64 toy_responses waiting 1 2 one_listens
      (λ e. absurd (omega (arith, e))) page page_path page_plain

-- A request with a key and without the header.
abbrev odd : Request
odd = record page { ws_key = some (codes "k") }

odd_upgrade_refused_example :
    ((fetch odd waiting ≡ to_websocket)
      × (forward_websocket always odd (codes "w") 7 waiting ≡ (waiting, some expected_websocket)))
    ↔ IsUnusual odd
odd_upgrade_refused_example =
    odd_upgrade_refused waiting always 1 odd (codes "w") 7 page_path waiting-tunnel

-- A client's socket 7 under the name w.
abbrev connected : Tunnel (ℕ × Body)
connected = record new_tunnel { tunnel = some 1; connections = (codes "w", 7) ∷ [] }

connected_to_w : lookup (codes "w") connected.connections ≡ some 7
unfolding lookup text_eq
connected_to_w = refl

binary_relay_example :
    (content : Text) × (client_message always toy_base64
        (codes "w")
        (binary (1 ∷ 255 ∷ []))
        connected
      ≡ emit
          (sent 1 (ws_data (record { id = codes "w"; content = content; is_binary = true })))
          connected)
    × (handle_tunnel_message toy_base64 toy_responses sockets
          (some (ws_data (record { id = codes "w"; content = content; is_binary = true })))
          connected
        ≡ emit (relayed 7 (binary (1 ∷ 255 ∷ []))) connected)
binary_relay_example =
    binary_relay toy_base64 toy_responses connected sockets (codes "w") 1 7 (1 ∷ 255 ∷ [])
      (omega arith, (omega arith, tt)) refl connected_to_w refl refl

abbrev upload : Request
upload = record page { body = some (record { text = []; bytes = 0 ∷ 200 ∷ [] }) }

upload_is_binary : is_text [] ≡ false
unfolding is_text starts_with includes
upload_is_binary = refl

serialize-from_base64_example :
    (r : TunnelRequest) × (body : Text) × (serialize toy_base64 (codes "a") upload ≡ some r)
    × (r.body ≡ some body)
    × (r.is_binary ≡ true)
    × (from_base64 toy_base64 body ≡ some (0 ∷ 200 ∷ []))
serialize-from_base64_example =
    serialize-from_base64 toy_base64 (codes "a") upload (record { text = []; bytes = 0 ∷ 200 ∷ [] })
      refl upload_is_binary (omega arith, (omega arith, tt))
