-- ===== src/Http.antt =====
-- The parts of `Request` and `Response` that headfwd-proxy/src/index.ts and
-- headfwd-proxy/src/tunnel-do.ts read and write.
use headfwd.Common.{ℕ, Option, none, Text, codes}
use headfwd.Common.Dict.{Dict}
use headfwd.Hex.{Bytes}
use headfwd.Json.{Value, str, obj, end, field}

-- A body as `text()` and as `arrayBuffer()` give it.
pub record Payload : Type 0 where
  pub text : Text
  pub bytes : Bytes

-- `hostname`, `pathname` and `auth` are what `new URL(url)` finds in the address: `auth` is
-- `searchParams.get('auth')`. `json` is the result of `request.json()`, `none` if that throws.
-- The three headers that the code asks for stand beside `headers`, the list of all of them.
pub record Request : Type 0 where
  pub method : Text
  pub url : Text
  pub hostname : Text
  pub pathname : Text
  pub auth : Option Text
  pub upgrade : Option Text
  pub ws_key : Option Text
  pub content_type : Option Text
  pub headers : Dict Text
  pub body : Option Payload
  pub json : Option Value

-- `json v` is a body made by `JSON.stringify(v)`, sent as application/json.
pub data Content : Type 0 where
  empty : Content
  plain : Text → Content
  html : Content
  json : Value → Content

-- `retry` is the header Retry-After.
pub record Response : Type 0 where
  pub status : ℕ
  pub content : Content
  pub retry : Option Text

abbrev pub reply : ℕ → Content → Response
reply status content = record { status = status; content = content; retry = none }

-- `new Response(JSON.stringify({ error }), { status, … })`.
abbrev pub failure : ℕ → Text → Response
failure status message = reply status (json (obj (field (codes "error") (str message) end)))
