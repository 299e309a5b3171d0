-- ===== src/Examples.antt =====
-- The data of the examples: two registrations and a conversation over the tunnel.
pub mod Texts
pub mod Phases
pub mod Attempts
pub mod Requests
pub mod Portal
pub mod Rows
pub mod Pages
use headfwd.Common.{
  ℕ, Bool, true, false, ◌&&◌, Option, none, some, List, [], ◌∷◌, Text, codes, leb, if◌then◌else◌,
}
use headfwd.Hex.{Bytes}
use headfwd.Json.{Value, str, obj, field, end}
use headfwd.Http.{Request}
use headfwd.Platform.Model.{toy_platform}
use headfwd.Registration.State.{State, compute_fingerprint}
use headfwd.Registration.Init.{Draw, handle_register_init}
use headfwd.Registration.Verify.{VerifyDraw, handle_register_verify}
use headfwd.Registration.Honest.{mkey, init_fields, verify_fields, sidecar_proof}
use headfwd.Worker.{Draws}
use headfwd.Tunnel.State.{TunnelRequest, TunnelResponse, Body}
use headfwd.Tunnel.Messages.{Responses, Sockets}

abbrev pub post : Text → Value → Request
post path body = record {
  method = codes "POST";
  url = path;
  hostname = codes "headfwd.net";
  pathname = path;
  auth = none;
  upgrade = none;
  ws_key = none;
  content_type = some (codes "application/json");
  headers = [];
  body = none;
  json = some body;
}

-- A GET request to a host name, with a secret.
abbrev pub visit : Text → Text → Option Text → Request
visit hostname path auth = record {
  method = codes "GET";
  url = path;
  hostname = hostname;
  pathname = path;
  auth = auth;
  upgrade = none;
  ws_key = none;
  content_type = none;
  headers = [];
  body = none;
  json = none;
}

abbrev pub empty_state : State toy_platform
empty_state = record { registry = some []; challenges = []; registrations = [] }

abbrev pub draw : Draw toy_platform
draw = record { now = 1000; nonce_bytes = 7 ∷ 8 ∷ []; ephemeral = true }

abbrev pub secret_bytes : Bytes
secret_bytes =
    1 ∷ 2 ∷ 3 ∷ 4 ∷ 5 ∷ 6 ∷ 7 ∷ 8 ∷ 1 ∷ 2 ∷ 3 ∷ 4 ∷ 5 ∷ 6 ∷ 7 ∷ 8 ∷ 1 ∷ 2 ∷ 3 ∷ 4 ∷ 5 ∷ 6 ∷ 7 ∷ 8
    ∷ 1 ∷ 2 ∷ 3 ∷ 4 ∷ 5 ∷ 6 ∷ 7 ∷ 255 ∷ []

abbrev pub verify_at : ℕ → VerifyDraw toy_platform
verify_at now = record { now = now; later = now; secret_bytes = secret_bytes }

abbrev pub draws : Draws toy_platform
draws = record { init = draw; verify = verify_at 2000; now = 3000 }

abbrev pub key : Text
key = mkey toy_platform false

abbrev pub fingerprint : Text
fingerprint = compute_fingerprint toy_platform key

abbrev pub shared : Bytes
shared = 5 ∷ []

abbrev pub proof : Text
proof = sidecar_proof toy_platform shared draw

abbrev pub first : Request
first = post (codes "/api/register/init") (init_fields key)

abbrev pub second : Request
second = post (codes "/api/register/verify") (verify_fields fingerprint proof)

abbrev pub legacy : Request
legacy = post (codes "/api/register") (obj (field (codes "pubkey") (str key) end))

abbrev pub challenged : State toy_platform
challenged = (handle_register_init toy_platform draw first empty_state).0

-- `new Response` as far as the examples need it: a status from 200 to 599.
abbrev pub toy_responses : Responses
toy_responses = record {
  Reply = ℕ × Body;
  make =
      λ status headers body. if leb 200 status && leb status 599 then some (status, body) else none;
}

abbrev pub always : ℕ → Bool
always s = true

abbrev pub sockets : Sockets
sockets = record { works = always; closable = λ s code reason. true }

abbrev pub ask : Text → TunnelRequest
ask id = record {
  id = id;
  method = codes "GET";
  url = codes "/";
  headers = [];
  body = none;
  is_binary = false;
}

abbrev pub respond : Text → ℕ → TunnelResponse
respond id status = record {
  id = id;
  status = status;
  headers = [];
  body = some (codes "hi");
  is_binary = true;
}
