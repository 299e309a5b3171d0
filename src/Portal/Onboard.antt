-- ===== src/Portal/Onboard.antt =====
-- headfwd-sidecar/portal/frontend/src/components/Onboard.tsx.
pub mod Keys
use headfwd.Common.{
  ℕ, zero, suc, Bool, true, false, ◌&&◌, ◌||◌, not, Option, none, some, List, [], ◌∷◌, ◌++◌, map,
  Text, codes, ◌==◌, if◌then◌else◌,
}
use headfwd.Portal.Client.{
  User, CreateKeyResponse, Outcome, done, thrown, message_or, Call, create_key, list_users,
}

-- The state, the users whose keys are on their way, and the calls.
pub record Onboard : Type 0 where
  pub users : List User
  pub selected_user : Text
  pub key_data : Option CreateKeyResponse
  pub loading : Bool
  pub error : Option Text
  pub users_wait : Bool
  pub keys : List Text
  pub calls : List Call

-- After the mount, which has asked for the users.
unfoldable pub new_onboard : Onboard
new_onboard = record {
  users = [];
  selected_user = [];
  key_data = none;
  loading = false;
  error = none;
  users_wait = true;
  keys = [];
  calls = list_users ∷ [];
}

unfoldable pub users_settled : Outcome (List User) → Onboard → Onboard
users_settled (done us) s = record s { users = us; users_wait = false }
users_settled (thrown m) s = record s { users_wait = false }

-- `handleGenerate`, up to its `await`, and its rest.
abbrev pub generate_for : Text → Onboard → Onboard
generate_for [] s = s
generate_for (c ∷ t) s = record s {
  loading = true;
  error = none;
  key_data = none;
  keys = s.keys ++ (c ∷ t) ∷ [];
  calls = s.calls ++ create_key (c ∷ t) false ∷ [];
}

unfoldable pub handle_generate : Onboard → Onboard
handle_generate s = generate_for s.selected_user s

unfoldable pub key_settled : Outcome CreateKeyResponse → Onboard → Onboard
key_settled (done k) s = record s { key_data = some k; loading = false }
key_settled (thrown m) s = record s {
  error = some (message_or (codes "Failed to generate key") m);
  loading = false;
}

-- The handler of the list of users.
unfoldable pub select : Text → Onboard → Onboard
select name s = record s { selected_user = name; key_data = none }

abbrev pub is_blank : Text → Bool
is_blank [] = true
is_blank (c ∷ t) = false

unfoldable pub can_generate : Onboard → Bool
can_generate s = not (s.loading || is_blank s.selected_user)

-- A request for a key ends in the order of the requests.
pub data Event : Type 0 where
  users_end : Outcome (List User) → Event
  selected : Text → Event
  generate_clicked : Event
  key_ends : Outcome CreateKeyResponse → Event

unfoldable pub key_next : List Text → Outcome CreateKeyResponse → Onboard → Onboard
unfolding key_settled
key_next [] o s = s
key_next (user ∷ others) o s = key_settled o (record s { keys = others })

unfoldable pub step : Onboard → Event → Onboard
unfolding users_settled select can_generate handle_generate key_next
step s (users_end o) = if s.users_wait then users_settled o s else s
step s (selected name) = select name s
step s generate_clicked = if can_generate s then handle_generate s else s
step s (key_ends o) = key_next s.keys o s

unfoldable pub run : Onboard → List Event → Onboard
run s [] = s
run s (e ∷ es) = run (step s e) es

-- `Field`, without its style.
pub record Field : Type 0 where
  pub label : Text
  pub value : Text

abbrev field : Text → Text → Field
field label value = record { label = label; value = value }

-- The QR code and the fields below it.
abbrev pub key_fields : CreateKeyResponse → List Field
key_fields k =
    field (codes "Preauth Key") k.key
    ∷ field (codes "User") k.user
    ∷ field (codes "Expires") k.expires_at
    ∷ field (codes "QR Data") k.qr_data
    ∷ []

pub record Shown : Type 0 where
  pub options : List Text
  pub value : Text
  pub enabled : Bool
  pub caption : Text
  pub error : Option Text
  pub qr_code : Option Text
  pub fields : List Field

abbrev names_of : List User → List Text
names_of [] = []
names_of (u ∷ us) = u.name ∷ names_of us

abbrev qr_of : Option CreateKeyResponse → Option Text
qr_of none = none
qr_of (some k) = some k.qr_data

abbrev fields_of : Option CreateKeyResponse → List Field
fields_of none = []
fields_of (some k) = key_fields k

abbrev shown_error : Option Text → Option Text
shown_error none = none
shown_error (some []) = none
shown_error (some (c ∷ t)) = some (c ∷ t)

unfoldable pub view : Onboard → Shown
unfolding can_generate
view s = record {
  options = [] ∷ names_of s.users;
  value = s.selected_user;
  enabled = can_generate s;
  caption = if s.loading then codes "Generating..." else codes "Generate Preauth Key";
  error = shown_error s.error;
  qr_code = qr_of s.key_data;
  fields = fields_of s.key_data;
}
