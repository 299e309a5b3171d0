-- ===== src/Portal/Client/Paths.antt =====
-- Reading a call of the API back from what is passed to `fetch`.
use headfwd.Common.{
  [], ◌∷◌, ◌≡◌, refl, sym, Bool, Option, none, some, ◌++◌, Text, All, codes, text_eq, length,
  if◌then◌else◌, ◌>>=◌, >>=-eq-some, starts_with, drop,
}
use headfwd.Json.{Value, bool, str, member}
use headfwd.Portal.Uri.{encode_uri_component, decode_uri_component}
use headfwd.Portal.Uri.Points.{IsUnit}
use headfwd.Portal.Uri.Codec.{decode_uri_component-encode_uri_component}
use headfwd.Portal.Url.{split_slash}
use headfwd.Portal.Url.Slashes.{split_slash-single, encoded-IsNoSlash}
use headfwd.Portal.Client.{
  Call, hello, list_users, list_nodes, me, list_admins, create_user, create_key, delete_user,
  delete_node, grant_admin, revoke_admin, Sent, sent, on_item,
}

-- The item of a collection that a path names.
item_of : Text → Text → Option Text
item_of collection path =
    if starts_with collection path
    then decode_uri_component (drop (length collection) path)
    else none

read_get : Text → Option Call
read_get path =
    if text_eq path (codes "/api/hello")
    then some hello
    else if text_eq path (codes "/api/users")
    then some list_users
    else if text_eq path (codes "/api/nodes")
    then some list_nodes
    else if text_eq path (codes "/api/me")
    then some me
    else if text_eq path (codes "/api/admins")
    then some list_admins
    else none

as_text : Option Value → Option Text
as_text (some (str s)) = some s
as_text _ = none

as_bool : Option Value → Option Bool
as_bool (some (bool b)) = some b
as_bool _ = none

read_post : Text → Value → Option Call
unfolding as_text as_bool
read_post path body =
    if text_eq path (codes "/api/users")
    then (do name ← as_text (← member (codes "name") body); some (create_user name))
    else if text_eq path (codes "/api/keys")
    then (do
      user ← as_text (← member (codes "user") body)
      reusable ← as_bool (← member (codes "reusable") body)
      some (create_key user reusable))
    else none

-- The first of two readings that succeeds.
first_of : Option Call → Option Call → Option Call
first_of (some c) o = some c
first_of none o = o

read_delete : Text → Option Call
unfolding item_of first_of
read_delete path =
    first_of (item_of (codes "/api/users/") path >>= λ name. some (delete_user name)) (
      first_of (item_of (codes "/api/nodes/") path >>= λ id. some (delete_node id))
        (item_of (codes "/api/admins/") path >>= λ name. some (revoke_admin name)))

read_put : Text → Option Call
unfolding item_of
read_put path = item_of (codes "/api/admins/") path >>= λ name. some (grant_admin name)

read_body : Text → Option Value → Option Call
unfolding read_post
read_body path none = none
read_body path (some body) = read_post path body

unfoldable pub read_sent : Sent → Option Call
unfolding read_get read_body read_delete read_put
read_sent s =
    if text_eq s.method (codes "GET")
    then read_get s.path
    else if text_eq s.method (codes "POST")
    then read_body s.path s.body
    else if text_eq s.method (codes "DELETE")
    then read_delete s.path
    else if text_eq s.method (codes "PUT")
    then read_put s.path
    else none

-- The texts of a call are strings of 16-bit units.
abbrev pub IsCall : Call → Type 0
IsCall (create_user name) = All IsUnit name
IsCall (create_key user reusable) = All IsUnit user
IsCall (delete_user name) = All IsUnit name
IsCall (delete_node id) = All IsUnit id
IsCall (grant_admin name) = All IsUnit name
IsCall (revoke_admin name) = All IsUnit name
IsCall _ = Unit

pub some_injective {ℓ} : {A : Type ℓ} (a b : A) → some a ≡ some b → a ≡ b
some_injective a b e = cc

pub on_item-eq :
    (method collection name : Text) (s : Sent)
    → All IsUnit name
    → on_item method collection name ≡ some s
    → (item : Text) × (s ≡ record { method = method; path = collection ++ item; body = none })
      × (decode_uri_component item ≡ some name)
      × (split_slash item ≡ item ∷ [])
on_item-eq method collection name s u h =
    let (item, e, same) = >>=-eq-some (encode_uri_component name) _ h in
    (
      item,
      sym (some_injective _ _ same),
      decode_uri_component-encode_uri_component name u item e,
      split_slash-single item (encoded-IsNoSlash name item e),
    )

-- What is passed to `fetch` is read back as the call.
pub read_sent-sent : (c : Call) (s : Sent) → IsCall c → sent c ≡ some s → read_sent s ≡ some c
unfolding sent read_sent text_eq member starts_with
read_sent-sent hello s u h = rw (sym (some_injective _ _ h)) refl
read_sent-sent list_users s u h = rw (sym (some_injective _ _ h)) refl
read_sent-sent list_nodes s u h = rw (sym (some_injective _ _ h)) refl
read_sent-sent me s u h = rw (sym (some_injective _ _ h)) refl
read_sent-sent list_admins s u h = rw (sym (some_injective _ _ h)) refl
read_sent-sent (create_user name) s u h = rw (sym (some_injective _ _ h)) refl
read_sent-sent (create_key user reusable) s u h = rw (sym (some_injective _ _ h)) refl
read_sent-sent (delete_user name) s u h =
    let (item, e, back, _) = on_item-eq (codes "DELETE") (codes "/api/users/") name s u h in
    rw e (rw back refl)
read_sent-sent (delete_node id) s u h =
    let (item, e, back, _) = on_item-eq (codes "DELETE") (codes "/api/nodes/") id s u h in
    rw e (rw back refl)
read_sent-sent (grant_admin name) s u h =
    let (item, e, back, _) = on_item-eq (codes "PUT") (codes "/api/admins/") name s u h in
    rw e (rw back refl)
read_sent-sent (revoke_admin name) s u h =
    let (item, e, back, _) = on_item-eq (codes "DELETE") (codes "/api/admins/") name s u h in
    rw e (rw back refl)
