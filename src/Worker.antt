-- ===== src/Worker.antt =====
-- The Worker's entry point: `fetch` of the default export of headfwd-proxy/src/index.ts.
pub mod Routing
pub mod Sound
pub mod Takeover
use headfwd.Common.{
  ℕ, Bool, ◌&&◌, ◌||◌, Option, none, some, List, [], ◌∷◌, Text, codes, text_eq, if◌then◌else◌,
}
use headfwd.Fingerprint.{extract_fingerprint}
use headfwd.Http.{Request, Response, reply, plain, html}
use headfwd.Platform.{Platform}
use headfwd.Registration.State.{State}
use headfwd.Registration.Init.{Draw, handle_register_init}
use headfwd.Registration.Verify.{VerifyDraw, handle_register_verify}
use headfwd.Registration.Legacy.{handle_register}

-- A request is replied to, or passed on to the Durable Object with a name.
pub data Routed : Type 0 where
  replied : Response → Routed
  to_object : Text → Routed

abbrev pub bad_subdomain : Response
bad_subdomain = reply 400 (plain (codes "Invalid subdomain. Expected: <fingerprint>.headfwd.net"))

-- `hostname === 'localhost' || hostname === '127.0.0.1'`.
unfoldable pub is_localhost : Text → Bool
is_localhost hostname = text_eq hostname (codes "localhost") || text_eq hostname (codes "127.0.0.1")

abbrev by_fingerprint : Text → Option Text → Routed
by_fingerprint hostname (some fingerprint) = to_object fingerprint
by_fingerprint hostname none =
    if text_eq hostname (codes "headfwd.net")
    then replied (reply 200 html)
    else replied bad_subdomain

-- A request that is none of the endpoints.
unfoldable pub route_host : Text → Routed
unfolding is_localhost
route_host hostname =
    if is_localhost hostname
    then to_object (codes "local-dev")
    else by_fingerprint hostname (extract_fingerprint hostname)

abbrev pub is_post_to : Text → Request → Bool
is_post_to path req = text_eq req.pathname path && text_eq req.method (codes "POST")

module _ (p : Platform) where
  -- What the runtime draws for a request, for whichever handler it reaches.
  pub record Draws : Type 0 where
    pub init : Draw p
    pub verify : VerifyDraw p
    pub now : ℕ

  abbrev answered : State p × Response → State p × Routed
  answered (st, r) = (st, replied r)

  -- `secret` is `env.TUNNEL_SECRET`.
  unfoldable pub fetch : Text → Draws → Request → State p → State p × Routed
  fetch secret d req st =
      if text_eq req.pathname (codes "/health")
      then (st, replied (reply 200 (plain (codes "OK"))))
      else if is_post_to (codes "/api/register/init") req
      then answered (handle_register_init p d.init req st)
      else if is_post_to (codes "/api/register/verify") req
      then answered (handle_register_verify p d.verify req st)
      else if is_post_to (codes "/api/register") req
      then answered (handle_register p secret d.now req st)
      else (st, route_host req.hostname)

  -- A sequence of requests.
  unfoldable pub serve_all : Text → List (Draws × Request) → State p → State p
  serve_all secret [] st = st
  serve_all secret ((d, req) ∷ rs) st = serve_all secret rs (fetch secret d req st).0
