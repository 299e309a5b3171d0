-- ===== src/Portal/Users.antt =====
-- `Users` of headfwd-sidecar/portal/frontend/src/components/Users.tsx: the page of the portal.
-- Each handler is split at its `await`s; what waits is in the state, and any of it can be next to go on.
-- Left aside: names of users that every JavaScript object inherits, and a key that is `undefined`.
pub mod Steps
pub mod Waiting
pub mod Page
pub mod Creation
pub mod Names
pub mod Keys
pub mod Loading
pub mod Admins
use headfwd.Common.{
  ℕ, zero, suc, Bool, true, false, Option, none, some, List, [], ◌∷◌, ◌++◌, Text, codes, trim,
}
use headfwd.Common.Dict.{Dict, insert, erase}
use headfwd.Portal.Client.{
  User, Node, CreateKeyResponse, Outcome, done, thrown, message_or, Call, list_users, list_nodes,
  list_admins, create_user, create_key,
}

-- A refresh that waits carries what comes after it: nothing, or the key of a user that was created.
pub record Users : Type 0 where
  pub users : List User
  pub nodes : List Node
  pub admin_names : List Text
  pub loading : Bool
  pub error : Option Text
  pub new_name : Text
  pub creating : Bool
  pub onboarding_user : Option Text
  pub key_data : Dict CreateKeyResponse
  pub generating_key : Option Text
  pub refreshes : List (Option Text)
  pub creations : List Text
  pub keys : List Text
  pub calls : List Call

-- What the three requests of a refresh give.
pub record Lists : Type 0 where
  pub users : List User
  pub nodes : List Node
  pub admin_names : List Text

-- `refresh`, up to its `await`, and its rest.
unfoldable pub refresh : Option Text → Users → Users
refresh after s = record s {
  refreshes = s.refreshes ++ after ∷ [];
  calls = s.calls ++ list_users ∷ list_nodes ∷ list_admins ∷ [];
}

unfoldable pub refresh_settled : Outcome Lists → Users → Users
refresh_settled (done l) s = record s {
  users = l.users;
  nodes = l.nodes;
  admin_names = l.admin_names;
  error = none;
  loading = false;
}
refresh_settled (thrown m) s = record s {
  error = some (message_or (codes "Failed to load") m);
  loading = false;
}

-- `handleGenerateKey`, up to its `await`, and its rest.
unfoldable pub handle_generate_key : Text → Users → Users
handle_generate_key user_name s = record s {
  onboarding_user = some user_name;
  key_data = erase user_name s.key_data;
  generating_key = some user_name;
  keys = s.keys ++ user_name ∷ [];
  calls = s.calls ++ create_key user_name false ∷ [];
}

unfoldable pub key_settled : Text → Outcome CreateKeyResponse → Users → Users
key_settled user_name (done k) s = record s {
  key_data = insert user_name k s.key_data;
  generating_key = none;
}
key_settled user_name (thrown m) s = record s {
  error = some (message_or (codes "Failed to generate key") m);
  generating_key = none;
}

-- `handleCreateUser`: up to the first `await`, from there to the second, and the rest.
abbrev pub create_named : Text → Users → Users
create_named [] s = s
create_named (c ∷ t) s = record s {
  creating = true;
  creations = s.creations ++ (c ∷ t) ∷ [];
  calls = s.calls ++ create_user (c ∷ t) ∷ [];
}

unfoldable pub handle_create_user : Users → Users
handle_create_user s = create_named (trim s.new_name) s

unfoldable pub creation_settled : Text → Outcome User → Users → Users
unfolding refresh
creation_settled name (done u) s = refresh (some name) (record s { new_name = [] })
creation_settled name (thrown m) s = record s {
  error = some (message_or (codes "Failed to create user") m);
  creating = false;
}

unfoldable pub after_refresh : Option Text → Users → Users
unfolding handle_generate_key
after_refresh none s = s
after_refresh (some name) s = record (handle_generate_key name s) { creating = false }

-- The page after its mount, which starts a refresh.
unfoldable pub new_page : Users
unfolding refresh
new_page = refresh none (record {
  users = [];
  nodes = [];
  admin_names = [];
  loading = true;
  error = none;
  new_name = [];
  creating = false;
  onboarding_user = none;
  key_data = [];
  generating_key = none;
  refreshes = [];
  creations = [];
  keys = [];
  calls = [];
})
