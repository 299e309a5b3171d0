-- ===== src/Portal/Client/Requests.antt =====
-- What is requested for a call of the API.
use mathlib.Core.List.{append-nil}
use headfwd.Common.{
  ◌≡◌, ◌≢◌, refl, sym, ap, ◌∙◌, false, inl, inr, none, some, [], ◌∷◌, ◌++◌, Text, All, codes,
  text_eq, text_cases, >>=-eq-some,
}
use headfwd.Portal.Uri.{
  encode_uri_component, points, encode_point, decode_uri_component, decode_points, decode_point,
  read_byte, units,
}
use headfwd.Portal.Uri.Points.{IsUnit}
use headfwd.Portal.Url.{split_slash, is_dot, is_double_dot, remove_dots, parse_path}
use headfwd.Portal.Client.{
  Call, hello, list_users, list_nodes, me, list_admins, create_user, create_key, delete_user,
  delete_node, grant_admin, revoke_admin, Sent, sent, requested, on_item,
}
use headfwd.Portal.Client.Paths.{IsCall, read_sent-sent, on_item-eq, some_injective}

-- A text that is no dot segment.
abbrev pub IsItem : Text → Type 0
IsItem name = (name ≢ codes ".") × (name ≢ codes "..")

-- The URL parser takes a name or an id for what it is, unless it is a dot or two.
abbrev pub IsNamed : Call → Type 0
IsNamed (delete_user name) = IsItem name
IsNamed (delete_node id) = IsItem id
IsNamed (grant_admin name) = IsItem name
IsNamed (revoke_admin name) = IsItem name
IsNamed _ = Unit

-- A segment that is no dot segment stays where it is.
call_injective : (a b : Call) → some a ≡ some b → a ≡ b
call_injective a b e = cc

decodes :
    (item name s : Text)
    → item ≡ s
    → decode_uri_component item ≡ some name
    → decode_uri_component s ≡ some s
    → name ≡ s
decodes item name s same back plain =
    some_injective name s (sym back ∙ ap decode_uri_component same ∙ plain)

item_stays :
    (item name : Text)
    → decode_uri_component item ≡ some name
    → IsItem name
    → (is_dot item ≡ false) × (is_double_dot item ≡ false)
unfolding decode_uri_component decode_points decode_point read_byte units
item_stays item name back (one, two) = (single, double)
  where
    single : is_dot item ≡ false
    single = elim (text_cases item (codes ".")) [
      | inl (same, _) ↦ absurd (one (decodes item name (codes ".") same back refl))
      | inr differs ↦ differs
    ]

    double : is_double_dot item ≡ false
    double = elim (text_cases item (codes "..")) [
      | inl (same, _) ↦ absurd (two (decodes item name (codes "..") same back refl))
      | inr differs ↦ differs
    ]

module _ (item : Text) (single : split_slash item ≡ item ∷ []) (one : is_dot item ≡ false)
    (two : is_double_dot item ≡ false) where
  parse_user : parse_path (codes "/api/users/" ++ item) ≡ codes "/api/users/" ++ item
  unfolding parse_path split_slash remove_dots text_eq
  parse_user = rw (single, two, one) (ap (λ x. codes "/api/users/" ++ x) (append-nil item))

  parse_node : parse_path (codes "/api/nodes/" ++ item) ≡ codes "/api/nodes/" ++ item
  unfolding parse_path split_slash remove_dots text_eq
  parse_node = rw (single, two, one) (ap (λ x. codes "/api/nodes/" ++ x) (append-nil item))

  parse_admin : parse_path (codes "/api/admins/" ++ item) ≡ codes "/api/admins/" ++ item
  unfolding parse_path split_slash remove_dots text_eq
  parse_admin = rw (single, two, one) (ap (λ x. codes "/api/admins/" ++ x) (append-nil item))

-- The item of a collection.
abbrev Stays : Text → Type 0
Stays collection =
    (item : Text)
    → split_slash item ≡ item ∷ []
    → is_dot item ≡ false
    → is_double_dot item ≡ false
    → parse_path (collection ++ item) ≡ collection ++ item

item_path :
    (method collection name : Text) (s : Sent)
    → Stays collection
    → All IsUnit name
    → IsItem name
    → on_item method collection name ≡ some s
    → parse_path s.path ≡ s.path
item_path method collection name s stays u n h =
    let (item, e, back, single) = on_item-eq method collection name s u h in
    let (one, two) = item_stays item name back n in
    ap (λ x. parse_path x.path) e ∙ stays item single one two ∙ sym (ap (λ x. x.path) e)

-- The other paths stay as they are as well.
path_stays :
    (c : Call) (s : Sent) → IsCall c → IsNamed c → sent c ≡ some s → parse_path s.path ≡ s.path
unfolding sent parse_path split_slash remove_dots text_eq
path_stays hello s u n h = rw (sym (some_injective _ _ h)) refl
path_stays list_users s u n h = rw (sym (some_injective _ _ h)) refl
path_stays list_nodes s u n h = rw (sym (some_injective _ _ h)) refl
path_stays me s u n h = rw (sym (some_injective _ _ h)) refl
path_stays list_admins s u n h = rw (sym (some_injective _ _ h)) refl
path_stays (create_user name) s u n h = rw (sym (some_injective _ _ h)) refl
path_stays (create_key user reusable) s u n h = rw (sym (some_injective _ _ h)) refl
path_stays (delete_user name) s u n h = item_path _ (codes "/api/users/") name s parse_user u n h
path_stays (delete_node id) s u n h = item_path _ (codes "/api/nodes/") id s parse_node u n h
path_stays (grant_admin name) s u n h = item_path _ (codes "/api/admins/") name s parse_admin u n h
path_stays (revoke_admin name) s u n h = item_path _ (codes "/api/admins/") name s parse_admin u n h

requested-sent :
    (c : Call) (r : Sent) → IsCall c → IsNamed c → requested c ≡ some r → sent c ≡ some r
unfolding requested
requested-sent c r u n h =
    let (s, e, same) = >>=-eq-some (sent c) _ h in
    e ∙ ap (λ x. some (record s { path = x })) (sym (path_stays c s u n e)) ∙ same

-- Different calls of the API request different things, so that no call is taken for another one, if
-- their texts are strings and none of the names and ids in a path is `.` or `..`.
pub requested_injective :
    (c d : Call) (r : Sent)
    → IsCall c
    → IsCall d
    → IsNamed c
    → IsNamed d
    → requested c ≡ some r
    → requested d ≡ some r
    → c ≡ d
requested_injective c d r u v n m h k = call_injective c d (
    sym (read_sent-sent c r u (requested-sent c r u n h))
    ∙ read_sent-sent d r v (requested-sent d r v m k))

-- With two dots the request leaves the collection, and it is the same for users and devices.
dots_escape :
    (requested (delete_user (codes ".."))
      ≡ some (record { method = codes "DELETE"; path = codes "/api/"; body = none }))
    × (requested (delete_node (codes "..")) ≡ requested (delete_user (codes "..")))
unfolding requested sent encode_uri_component points encode_point parse_path split_slash remove_dots
    text_eq
dots_escape = (refl, refl)
