-- ===== src/Portal/Client.antt =====
-- headfwd-sidecar/portal/frontend/src/api/client.ts: the calls of the portal's API.
pub mod Replies
pub mod Paths
pub mod Requests
pub mod Lists
use headfwd.Common.{
  ℕ, Bool, true, false, ◌&&◌, ◌||◌, not, Option, none, some, List, [], ◌∷◌, ◌++◌, Text, codes,
  text_eq, leb, ◌==◌, if◌then◌else◌, ◌>>=◌,
}
use headfwd.Json.{Value, null, bool, num, str, arr, obj, nil, end, field, member}
use headfwd.Portal.Decimal.{decimal}
use headfwd.Portal.Url.{parse_path}
use headfwd.Portal.Uri.{encode_uri_component}

pub record User : Type 0 where
  pub name : Text
  pub id : Option Text
  pub created_at : Option Text

-- `none` where the components allow for a property that is missing.
pub record Node : Type 0 where
  pub id : Text
  pub given_name : Text
  pub name : Text
  pub ip_addresses : Option (List Text)
  pub online : Bool
  pub last_seen : Option Text
  pub created_at : Option Text
  pub forced_tags : Option (List Text)
  pub valid_tags : Option (List Text)
  pub user : Option User

pub record HelloResponse : Type 0 where
  pub message : Text
  pub your_ip : Text
  pub is_tailnet : Bool
  pub timestamp : Text
  pub node_name : Option Text
  pub user_name : Option Text

pub record MeResponse : Type 0 where
  pub user_name : Text
  pub is_admin : Bool
  pub is_local_access : Bool

pub record CreateKeyResponse : Type 0 where
  pub key : Text
  pub user : Text
  pub qr_data : Text
  pub expires_at : Text

-- How a promise ends: with a value, or with an exception and its message. `none` is an exception
-- that is no `Error`.
pub data Outcome {ℓ} (A : Type ℓ) : Type ℓ where
  done : A → Outcome A
  thrown : Option Text → Outcome A

-- `e instanceof Error ? e.message : '…'`.
abbrev pub message_or : Text → Option Text → Text
message_or default none = default
message_or default (some message) = message

-- What `fetch` gives: a reply, or an exception. The exceptions of `text()` and `json()` carry
-- their message.
pub record Reply : Type 0 where
  pub status : ℕ
  pub content_length : Option Text
  pub text : Outcome Text
  pub json : Outcome Value

unfoldable pub is_ok : ℕ → Bool
is_ok status = leb 200 status && leb status 299

abbrev pub bad_status : ℕ → Outcome Text → Outcome (Option Value)
bad_status status (done text) = thrown (some (decimal status ++ codes ": " ++ text))
bad_status status (thrown m) = thrown m

unfoldable pub is_empty : Reply → Bool
is_empty r = r.status == 204 || is_zero r.content_length
  where
    is_zero : Option Text → Bool
    is_zero none = false
    is_zero (some s) = text_eq s (codes "0")

abbrev pub defined : Outcome Value → Outcome (Option Value)
defined (done v) = done (some v)
defined (thrown m) = thrown m

-- `request`: `done none` is `undefined`.
unfoldable pub receive : Outcome Reply → Outcome (Option Value)
unfolding is_ok is_empty
receive (thrown m) = thrown m
receive (done r) =
    if not (is_ok r.status)
    then bad_status r.status r.text
    else if is_empty r
    then done none
    else defined r.json

-- The functions of `api`.
pub data Call : Type 0 where
  hello list_users list_nodes me list_admins : Call
  create_user : Text → Call
  create_key : Text → Bool → Call
  delete_user delete_node grant_admin revoke_admin : Text → Call

-- What is passed to `fetch`.
pub record Sent : Type 0 where
  pub method : Text
  pub path : Text
  pub body : Option Value

abbrev get : Text → Option Sent
get path = some (record { method = codes "GET"; path = path; body = none })

abbrev post : Text → Value → Option Sent
post path body = some (record { method = codes "POST"; path = path; body = some body })

abbrev pub on_item : Text → Text → Text → Option Sent
on_item method collection name = do
  item ← encode_uri_component name
  some (record { method = method; path = collection ++ item; body = none })

-- `none` is the exception of `encodeURIComponent`.
unfoldable pub sent : Call → Option Sent
sent hello = get (codes "/api/hello")
sent list_users = get (codes "/api/users")
sent (create_user name) = post (codes "/api/users") (obj (field (codes "name") (str name) end))
sent list_nodes = get (codes "/api/nodes")
sent (create_key user reusable) =
    post (codes "/api/keys")
      (obj (field (codes "user") (str user) (field (codes "reusable") (bool reusable) end)))
sent (delete_user name) = on_item (codes "DELETE") (codes "/api/users/") name
sent (delete_node id) = on_item (codes "DELETE") (codes "/api/nodes/") id
sent me = get (codes "/api/me")
sent list_admins = get (codes "/api/admins")
sent (grant_admin name) = on_item (codes "PUT") (codes "/api/admins/") name
sent (revoke_admin name) = on_item (codes "DELETE") (codes "/api/admins/") name

-- What is requested: the path is what the URL parser makes of it.
unfoldable pub requested : Call → Option Sent
unfolding sent parse_path
requested c = sent c >>= λ s. some (record s { path = parse_path s.path })

-- `r.k ?? []`.
abbrev pub or_empty : Outcome (Option Value) → Outcome (Option Value)
or_empty (done none) = done (some (arr nil))
or_empty (done (some null)) = done (some (arr nil))
or_empty (done (some v)) = done (some v)
or_empty (thrown m) = thrown m

abbrev pub then_ :
    Outcome (Option Value) → (Option Value → Outcome (Option Value)) → Outcome (Option Value)
then_ (done v) f = f v
then_ (thrown m) f = thrown m

-- The message of the TypeError for a property of `undefined` or `null` is the engine's.
module _ (type_error : Text → Option Value → Text) where
  -- Reading a property of the reply.
  abbrev pub property : Text → Option Value → Outcome (Option Value)
  property k none = thrown (some (type_error k none))
  property k (some v) = elim (member k v) [
    | none ↦ thrown (some (type_error k (some v)))
    | some found ↦ done found
  ]

  -- What the caller of the function gets from what `request` gives.
  unfoldable pub result : Call → Outcome (Option Value) → Outcome (Option Value)
  unfolding member
  result list_users o = or_empty (then_ o (property (codes "users")))
  result list_nodes o = or_empty (then_ o (property (codes "nodes")))
  result list_admins o = or_empty (then_ o (property (codes "admins")))
  result (create_user name) o = then_ o (property (codes "user"))
  result _ o = o
