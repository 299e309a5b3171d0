-- ===== src/Portal/UserList.antt =====
-- headfwd-sidecar/portal/frontend/src/components/UserList.tsx.
pub mod Busy
use headfwd.Common.{
  ℕ, zero, suc, Bool, true, false, ◌&&◌, ◌||◌, not, Option, none, some, List, [], ◌∷◌, ◌++◌, map,
  Text, codes, trim, if◌then◌else◌,
}
use headfwd.Portal.Client.{User, Outcome, done, thrown, message_or, Call, list_users, create_user}
use headfwd.Portal.Users.Steps.{take_out}

-- A fetch that waits says whether the creation of a user waits for it.
pub record UserList : Type 0 where
  pub users : List User
  pub loading : Bool
  pub error : Option Text
  pub new_name : Text
  pub creating : Bool
  pub fetches : List Bool
  pub creations : ℕ
  pub calls : List Call

-- `fetchUsers`, up to its `await`, and its rest.
unfoldable pub fetch_users : Bool → UserList → UserList
fetch_users chained s = record s {
  loading = true;
  fetches = s.fetches ++ chained ∷ [];
  calls = s.calls ++ list_users ∷ [];
}

unfoldable pub users_settled : Outcome (List User) → UserList → UserList
users_settled (done us) s = record s { users = us; error = none; loading = false }
users_settled (thrown m) s = record s {
  error = some (message_or (codes "Failed to fetch users") m);
  loading = false;
}

-- `handleCreate`: up to the first `await`, from there to the second, and the rest.
abbrev pub create_named : Text → UserList → UserList
create_named [] s = s
create_named (c ∷ t) s = record s {
  creating = true;
  creations = suc s.creations;
  calls = s.calls ++ create_user (c ∷ t) ∷ [];
}

unfoldable pub handle_create : UserList → UserList
handle_create s = create_named (trim s.new_name) s

unfoldable pub creation_settled : Outcome User → UserList → UserList
unfolding fetch_users
creation_settled (done u) s = fetch_users true (record s { new_name = [] })
creation_settled (thrown m) s = record s {
  error = some (message_or (codes "Failed to create user") m);
  creating = false;
}

abbrev pub after_fetch : Bool → UserList → UserList
after_fetch true s = record s { creating = false }
after_fetch false s = s

-- After the mount, which fetches the users.
unfoldable pub new_user_list : UserList
unfolding fetch_users
new_user_list = fetch_users false (record {
  users = [];
  loading = true;
  error = none;
  new_name = [];
  creating = false;
  fetches = [];
  creations = 0;
  calls = [];
})

abbrev pub is_blank : Text → Bool
is_blank [] = true
is_blank (c ∷ t) = false

unfoldable pub can_create : UserList → Bool
can_create s = not (s.creating || is_blank (trim s.new_name))

-- The number of an event says which of the fetches has ended.
pub data Event : Type 0 where
  typed : Text → Event
  submitted : Event
  fetch_ends : ℕ → Outcome (List User) → Event
  creation_ends : Outcome User → Event

unfoldable pub fetch_next : Option (Bool × List Bool) → Outcome (List User) → UserList → UserList
unfolding users_settled
fetch_next none o s = s
fetch_next (some (chained, others)) o s =
    after_fetch chained (users_settled o (record s { fetches = others }))

unfoldable pub creation_next : ℕ → Outcome User → UserList → UserList
unfolding creation_settled
creation_next zero o s = s
creation_next (suc n) o s = creation_settled o (record s { creations = n })

unfoldable pub step : UserList → Event → UserList
unfolding can_create handle_create fetch_next creation_next
step s (typed name) = record s { new_name = name }
step s submitted = if can_create s then handle_create s else s
step s (fetch_ends i o) = fetch_next (take_out i s.fetches) o s
step s (creation_ends o) = creation_next s.creations o s

unfoldable pub run : UserList → List Event → UserList
run s [] = s
run s (e ∷ es) = run (step s e) es

-- The table: the name, the id and the time of each user, with dashes for what is missing.
abbrev or_dashes : Option Text → Text
or_dashes none = codes "--"
or_dashes (some []) = codes "--"
or_dashes (some (c ∷ t)) = c ∷ t

abbrev row : User → Text × Text × Text
row u = (u.name, or_dashes u.id, or_dashes u.created_at)

pub data Body : Type 0 where
  loading_text no_users : Body
  table : List (Text × Text × Text) → Body

abbrev pub body_of : Bool → List User → Body
body_of true us = loading_text
body_of false [] = no_users
body_of false (u ∷ us) = table (map row (u ∷ us))

abbrev shown_error : Option Text → Option Text
shown_error none = none
shown_error (some []) = none
shown_error (some (c ∷ t)) = some (c ∷ t)

pub record Shown : Type 0 where
  pub input : Text
  pub enabled : Bool
  pub caption : Text
  pub error : Option Text
  pub body : Body

unfoldable pub view : UserList → Shown
unfolding can_create
view s = record {
  input = s.new_name;
  enabled = can_create s;
  caption = if s.creating then codes "Creating..." else codes "Create User";
  error = shown_error s.error;
  body = body_of s.loading s.users;
}
