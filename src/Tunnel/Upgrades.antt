-- ===== src/Tunnel/Upgrades.antt =====
-- Which requests for a WebSocket are refused for their headers.
use headfwd.Common.{
  if◌then◌else◌, ◌≢◌, ◌↔◌, Option, map, Bool-cases, inl, inr, ℕ, ◌≡◌, refl, sym, ap, ◌∙◌, Bool,
  true, false, none, some, [], ◌∷◌, Text, codes, text_eq, text_eq_iff, arith,
}
use headfwd.Http.{Request, Response}
use headfwd.Fingerprint.{to_lower}
use headfwd.Tunnel.State.{Tunnel}
use headfwd.Tunnel.Access.{header_set, expected_websocket, switching, header_is}
use headfwd.Tunnel.Forward.{upgrade_in_any_case, asks_for_websocket, refuse_forward}
use headfwd.Tunnel.Sockets.{forward_websocket, open_over}
use headfwd.Tunnel.Events.{to_websocket, to_tunnel, fetch}

-- Whether a header has more than no text.
abbrev pub HasText : Option Text → Type 0
HasText o = (c : ℕ) × (s : Text) × (o ≡ some (c ∷ s))

-- The request asks for a WebSocket, by a key or by an Upgrade header that is `websocket` in some
-- case, and its Upgrade header is not exactly `websocket`.
pub data IsUnusual (req : Request) : Type 0 where
  by_key : HasText req.ws_key → req.upgrade ≢ some (codes "websocket") → IsUnusual req
  by_case :
      (s : Text)
      → req.upgrade ≡ some s
      → map to_lower s ≡ codes "websocket"
      → s ≢ codes "websocket"
      → IsUnusual req

header_set-HasText : (o : Option Text) → header_set o ≡ true → HasText o
header_set-HasText none h = cc
header_set-HasText (some []) h = cc
header_set-HasText (some (c ∷ s)) h = (c, s, refl)

HasText-header_set : (o : Option Text) → HasText o → header_set o ≡ true
HasText-header_set o (c, s, e) = rw e refl

header_is_iff : (o : Option Text) (s : Text) → (header_is o s ≡ true) ↔ (o ≡ some s)
header_is_iff none s = (λ h. cc, λ h. cc)
header_is_iff (some r) s =
    let (to, from) = text_eq_iff r s in (λ h. ap some (to h), λ h. from (ground (arith, h)))

not_header_is : (o : Option Text) (s : Text) → header_is o s ≡ false → o ≢ some s
not_header_is o s h e = cc ((header_is_iff o s).1 e, h)

header_is_not : (o : Option Text) (s : Text) → o ≢ some s → header_is o s ≡ false
header_is_not o s n = elim (Bool-cases (header_is o s)) [
  | inl h ↦ absurd (n ((header_is_iff o s).0 h))
  | inr h ↦ h
]

some_injective : (a b : Text) → some a ≡ some b → a ≡ b
some_injective a b e = cc

asks_in_case :
    (o : Option Text)
    → upgrade_in_any_case o ≡ true
    → (s : Text) × (o ≡ some s) × (map to_lower s ≡ codes "websocket")
asks_in_case none h = cc
asks_in_case (some s) h = (s, refl, (text_eq_iff (map to_lower s) (codes "websocket")).0 h)

asks-IsUnusual :
    (req : Request)
    → asks_for_websocket req ≡ true
    → header_is req.upgrade (codes "websocket") ≡ false
    → IsUnusual req
unfolding asks_for_websocket
asks-IsUnusual req asks odd = elim (Bool-cases (upgrade_in_any_case req.upgrade)) [
  | inl in_case ↦
      let (s, e, spelled) = asks_in_case req.upgrade in_case in
      by_case s e spelled (λ same. not_header_is req.upgrade _ odd (e ∙ ap some same))
  | inr other ↦
      by_key (header_set-HasText req.ws_key (ground (arith, asks, other)))
        (not_header_is req.upgrade _ odd)
]

IsUnusual-asks :
    (req : Request)
    → IsUnusual req
    → (asks_for_websocket req ≡ true) × (header_is req.upgrade (codes "websocket") ≡ false)
unfolding asks_for_websocket
IsUnusual-asks req (by_key key other) =
    (ground (arith, HasText-header_set req.ws_key key), header_is_not req.upgrade _ other)
IsUnusual-asks req (by_case s e spelled other) = (
  rw (e, (text_eq_iff (map to_lower s) (codes "websocket")).1 spelled) refl,
  header_is_not req.upgrade _ (λ h. other (some_injective s _ (sym e ∙ h))),
)

abbrev snd : {A : Type 0} → A × Option Response → Option Response
snd (a, o) = o

abbrev status_of : Option Response → ℕ
status_of none = 0
status_of (some r) = r.status

to_tunnel_is_other : to_tunnel ≢ to_websocket
to_tunnel_is_other e = cc

module _ {Reply : Type 0} (t : Tunnel Reply) (works : ℕ → Bool) (s : ℕ) (req : Request) (id : Text)
    (server : ℕ) (path : text_eq req.pathname (codes "/tunnel") ≡ false)
    (connected : t.tunnel ≡ some s) where
  refused_odd :
      header_is req.upgrade (codes "websocket") ≡ false
      → forward_websocket works req id server t ≡ (t, some expected_websocket)
  unfolding forward_websocket open_over
  refused_odd odd = ap (λ o. open_over works o req id server t) connected ∙ rw odd refl

  -- A reply of another kind, or an exception, comes where the header is exactly `websocket`.
  opens :
      header_is req.upgrade (codes "websocket") ≡ true
      → (forward_websocket works req id server t).1 ≡ (if works s then some switching else none)
  unfolding forward_websocket open_over
  opens exact =
      ap (λ o. (open_over works o req id server t).1) connected ∙ rw exact (by_send (works s) _ _)
    where
      by_send :
          {A : Type 0} (b : Bool) (x y : A)
          → snd (if b then (x, some switching) else (y, none))
            ≡ (if b then some switching else none)
      by_send true x y = refl
      by_send false x y = refl

  not_426 : (b : Bool) → (if b then some switching else none) ≢ some expected_websocket
  not_426 true e = absurd (omega (arith, ap status_of e))
  not_426 false e = cc

  passed_on : fetch req t ≡ to_websocket → asks_for_websocket req ≡ true
  unfolding fetch refuse_forward
  passed_on h = elim (Bool-cases (asks_for_websocket req)) [
    | inl asks ↦ asks
    | inr plain ↦ absurd (to_tunnel_is_other (sym (rw (path, plain, connected) refl) ∙ h))
  ]

  -- With a tunnel, and but for the path of the sidecars, the requests that are passed to the handler
  -- of WebSockets and refused there with 426 are exactly those that ask for a WebSocket by a key,
  -- or by an Upgrade header that is `websocket` in another case, and have no Upgrade header that is
  -- `websocket` to the letter.
  pub odd_upgrade_refused :
      ((fetch req t ≡ to_websocket)
        × (forward_websocket works req id server t ≡ (t, some expected_websocket)))
      ↔ IsUnusual req
  unfolding fetch
  odd_upgrade_refused = (
    λ (passed, refused). elim (Bool-cases (header_is req.upgrade (codes "websocket"))) [
      | inl exact ↦ absurd (not_426 (works s) (sym (opens exact) ∙ ap (λ x. x.1) refused))
      | inr odd ↦ asks-IsUnusual req (passed_on passed) odd
    ],
    λ odd. let (asks, other) = IsUnusual-asks req odd in (rw (path, asks) refl, refused_odd other),
  )
