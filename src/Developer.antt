-- ===== src/Developer.antt =====
-- The developer centre, internal/store/developer.go: an account registers applications of its own
-- and changes them, over the clients of Oauth/Clients.
pub mod Histories
pub mod Steps
pub mod Table
pub mod Own
pub mod Others
use metafusion_auth.Prelude.{
  ℕ, String, Bool, true, false, not, ◌&&◌, ◌||◌, ◌==◌, Option, none, some, List, count, keep, map,
  sort_by, ltb, nat_eq, leb, if◌then◌else◌, Result, ok, err, reject_if, ◌>>=◌, ◌>>◌,
  authentication_required, client_not_found, app_quota_exceeded, no_rows,
}
use metafusion_auth.Access.{User}
use metafusion_auth.Pat.Lifecycle.{text_before}
use metafusion_auth.Database.{Database, ClientRow}
use metafusion_auth.Accounts.Bans.{Server}
use metafusion_auth.Oauth.Clients.{Url}
use metafusion_auth.Oauth.Clients.Manage.{
  OauthClientInput, get_oauth_client, create_client, update_client, rotate_client, delete_client,
}

-- `DeveloperAppInput`
pub record DeveloperAppInput : Type 0 where
  pub id : String
  pub name : Option String
  pub description : Option String
  pub homepage_url : Option String
  pub redirect_uris : Option (List String)
  pub scopes : Option (List String)

-- `ToClientInput`
abbrev pub to_client_input : DeveloperAppInput → OauthClientInput
to_client_input input = record {
  id = input.id;
  name = input.name;
  description = input.description;
  homepage_url = input.homepage_url;
  redirect_uris = input.redirect_uris;
  scopes = input.scopes;
  trusted = none;
  disabled = none;
  verified = none;
}

-- `DeveloperApp`
pub record DeveloperApp : Type 0 where
  pub id : String
  pub name : String
  pub description : String
  pub homepage_url : String
  pub redirect_uris : List String
  pub scopes : List String
  pub first_party : Bool
  pub verified : Bool
  pub disabled : Bool
  pub has_secret : Bool
  pub owner_id : Option String
  pub created_at : ℕ

-- `DeveloperAppOf`
unfoldable pub developer_app_of : ClientRow → DeveloperApp
developer_app_of c = record {
  id = c.id;
  name = c.name;
  description = c.description;
  homepage_url = c.homepage_url;
  redirect_uris = c.redirect_uris;
  scopes = c.scopes;
  first_party = c.trusted;
  verified = c.trusted || c.verified;
  disabled = c.disabled;
  has_secret = not (c.secret_hash == "");
  owner_id = c.owner_user_id;
  created_at = c.created_at;
}

abbrev pub max_developer_apps_per_user : ℕ
max_developer_apps_per_user = 20

-- The owner's column, `COALESCE(owner_user_id,'')`
abbrev pub owner_text : ClientRow → String
owner_text c = elim c.owner_user_id [ none ↦ "" | some id ↦ id ]

-- `CanEditApp`
unfoldable pub can_edit_app : Option User → String → Bool
can_edit_app none owner = false
can_edit_app (some u) owner = not (owner == "") && owner == u.id

-- `requireAppEditable`
unfoldable pub require_app_editable : Option User → ClientRow → Result (Unit {0})
unfolding can_edit_app
require_app_editable none c = err authentication_required
require_app_editable (some u) c =
    reject_if (not (can_edit_app (some u) (owner_text c))) client_not_found

-- `owner_user_id=$1`
abbrev pub is_owned_by : String → ClientRow → Bool
is_owned_by id c = elim c.owner_user_id [ none ↦ false | some owner ↦ owner == id ]

-- `checkDeveloperAppQuota`
unfoldable pub check_developer_app_quota : Database → User → Result (Unit {0})
check_developer_app_quota db u =
    reject_if (leb max_developer_apps_per_user (count (is_owned_by u.id) db.clients))
      app_quota_exceeded

-- `ORDER BY c.created_at DESC, c.id`
abbrev newer_app : ClientRow → ClientRow → Bool
newer_app c d =
    ltb d.created_at c.created_at || (nat_eq d.created_at c.created_at && text_before c.id d.id)

-- `ListDeveloperApps`
unfoldable pub list_developer_apps : Database → Option User → Result (List DeveloperApp)
unfolding sort_by developer_app_of
list_developer_apps db none = err authentication_required
list_developer_apps db (some u) =
    ok (map developer_app_of (sort_by newer_app (keep (is_owned_by u.id) db.clients)))

-- `GetDeveloperApp`
unfoldable pub get_developer_app : Database → String → Option User → Result DeveloperApp
unfolding get_oauth_client require_app_editable developer_app_of
get_developer_app db id actor = elim (get_oauth_client db id) [
  | none ↦ err no_rows
  | some c ↦ require_app_editable actor c >> ok (developer_app_of c)
]

module _ (parse_url : String → Option Url) (bcrypt : String → String) where
  -- `CreateDeveloperApp` at `now`
  unfoldable pub create_developer_app :
      Database
      → ℕ
      → String
      → String
      → DeveloperAppInput
      → Option User
      → Result (Database × DeveloperApp)
  unfolding check_developer_app_quota create_client developer_app_of
  create_developer_app db now generated secret input none = err authentication_required
  create_developer_app db now generated secret input (some u) = do
    check_developer_app_quota db u
    created ←
        create_client parse_url bcrypt db now generated secret (to_client_input input) (some u) u.id
          false
    ok (created.0, developer_app_of created.1)

  -- `UpdateDeveloperApp`
  unfoldable pub update_developer_app :
      Database → String → DeveloperAppInput → Option User → Result Database
  unfolding update_client require_app_editable
  update_developer_app db id input actor =
      update_client parse_url bcrypt db id (to_client_input (record input { id = "" })) actor false
        (require_app_editable actor)

  -- `RotateDeveloperAppSecret`
  unfoldable pub rotate_developer_app_secret :
      Database → String → String → Option User → Result Database
  unfolding rotate_client require_app_editable
  rotate_developer_app_secret db id secret actor =
      rotate_client parse_url bcrypt db id secret actor (require_app_editable actor)

  -- `DeleteDeveloperApp` at `now`
  unfoldable pub delete_developer_app : Server → ℕ → String → Option User → Result Server
  unfolding delete_client require_app_editable
  delete_developer_app s now id actor =
      delete_client parse_url bcrypt s now id actor (require_app_editable actor)
