-- ===== src/Lib.antt =====
-- The HeadFwd proxy: a Cloudflare Worker that lets a Headscale instance behind NAT be reached
-- under a public host name. A sidecar next to the instance registers its public key, in two
-- phases, and gets a secret; with the secret it opens a WebSocket, the tunnel, to the Durable
-- Object of its fingerprint; requests and WebSockets of clients that arrive at the host name are
-- sent through the tunnel and answered from it. The sidecar serves a portal, a web page on which
-- administrators manage the users and devices of the instance; its frontend is the second part.
--
-- The parts and their files:
--   headfwd-proxy/src/index.ts
--     fetch                             Worker
--     handleRegister                    Registration/Legacy
--     handleRegisterInit                Registration/Init
--     handleRegisterVerify              Registration/Verify
--     cleanupExpiredChallenges, computeFingerprint, the local maps
--                                       Registration/State
--     generateSecret, generateNonce, bufferToHex, hexToBytes
--                                       Hex
--     timingSafeEqual                   Compare
--     extractFingerprint                Fingerprint (also the copy in tunnel-do.ts)
--   headfwd-proxy/src/types.ts          Tunnel/State (ChallengeData: Registration/State)
--   headfwd-proxy/src/tunnel-do.ts
--     fields and constructor            Tunnel/State
--     fetch                             Tunnel/Events
--     acceptTunnel                      Tunnel/Access
--     forwardToHeadscale                Tunnel/Forward
--     forwardWebSocket                  Tunnel/Sockets
--     handleTunnelMessage               Tunnel/Messages
--     toBase64, fromBase64              Base64
--   headfwd-sidecar/portal/frontend/src/api/client.ts
--                                       Portal/Client
--   headfwd-sidecar/portal/frontend/src/App.tsx
--                                       Portal/App
--   headfwd-sidecar/portal/frontend/src/components/Users.tsx
--     Users                             Portal/Users (Steps: its events, Page: what it shows)
--     AdminBadge, UserRow               Portal/UserRow (Steps, View)
--     NodeRow                           Portal/NodeRow
--     useCountdown                      Portal/Countdown
--     OnboardPanel, KeyField            Portal/Panel
--   headfwd-sidecar/portal/frontend/src/components/Layout.tsx
--                                       Portal/Layout
--   headfwd-sidecar/portal/frontend/src/components/ConnectionStatus.tsx
--                                       Portal/ConnectionStatus
--   headfwd-sidecar/portal/frontend/src/components/UserList.tsx
--                                       Portal/UserList
--   headfwd-sidecar/portal/frontend/src/components/Onboard.tsx
--                                       Portal/Onboard
-- Portal/Uri and Portal/Decimal are encodeURIComponent and numbers in template strings, as the
-- language defines them; Portal/Url is what the URL parser of fetch does with the dot segments of a
-- path; Portal/Widgets is what a component renders, without its style.
-- Json, Http and Platform are what the code uses of JavaScript and of the Workers runtime. Web
-- Crypto, the text encoder, JSON texts, base64, the KV namespace and the constructor of a Response
-- are parameters: Platform and Tunnel/Messages declare their operations, and Platform states the
-- laws that are used. Platform/Model is an instance on which the files under Examples run the code.
-- Common has what all files share. An entry of the namespace is read as it was last written, as
-- KV documents for one location.
--
-- A handler takes what the runtime draws (the time, random bytes, a key pair), the request and the
-- state, and gives the next state and the response; an exception is `none`, and `caught` is the
-- handler's `catch`. The state of the Worker is the namespace, or the two local maps where the
-- environment has none. The Durable Object is a machine whose steps are the calls and callbacks
-- that the runtime makes, one at a time: a tunnel is opened, a socket of a sidecar closes, the
-- promise of a forwarded request is made, a timer runs out, a frame arrives through the tunnel, a
-- client's WebSocket is opened, sends or closes. The sockets whose close is listened to are kept
-- beside the tunnel, which is one of them or none. A promise and its timer share a number; promises
-- that are settled, and frames that are sent, are recorded in order.
--
-- A component of the portal is a machine too: its state, and the requests that wait. A handler is
-- split at its awaits, so that a click sends a request and the rest runs at the event that the
-- request has ended, in any order among those that wait. A button can be clicked where the component
-- renders it enabled. The properties that a component gets may change from event to event.
--
-- The loop of `toBase64` runs on fuel, the number of the bytes: each round takes a byte at least.
-- The digits of a number are written on fuel, the number itself and one more. Every other loop is a
-- structural recursion. Texts are lists of UTF-16 code units. Numbers in a JSON body are natural: the
-- code reads no other.
--
-- Not modelled: logging, the text of the landing page, the headers of responses but Retry-After,
-- the awaits inside a handler of the Worker (two requests for one fingerprint do not interleave),
-- and the parts of the repository that are no part of the Worker or of the portal's frontend: the
-- sidecar, the portal's backend and the Fly proxy in Go, the iOS application, and configuration. Of
-- the portal: styles, layout, the image of a QR code, how a date is read (a parameter), replies whose
-- values have other types than the client declares, and the unmounting of a component. The row of a
-- user is modelled without the rows of its devices and the panel that it shows below itself.
pub mod Common
pub mod Hex
pub mod Compare
pub mod Fingerprint
pub mod Json
pub mod Platform
pub mod Http
pub mod Registration
pub mod Base64
pub mod Tunnel
pub mod Worker
pub mod Portal
pub mod Examples
