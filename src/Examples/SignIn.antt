-- ===== src/Examples/SignIn.antt =====
-- The administrator `ada` logs in; an application with a token for her name renews it.
use metafusion_auth.Prelude.{false, true, ◌≡◌, refl, none, [], ◌∷◌, ok, arith, any, map}
use metafusion_auth.Access.{User, Group, bare_user, oauth}
use metafusion_auth.Database.{Database, UserRow, empty_database, in_admin_group, load_access}
use metafusion_auth.Token.{sign_session}
use metafusion_auth.Accounts.Bans.{Server}
use metafusion_auth.Accounts.Groups.{has_code}
use metafusion_auth.Sessions.{authenticate, user_of_token}
use metafusion_auth.Sessions.Login.{sign_in, refresh}
use metafusion_auth.Sessions.Accounts.{create_user, setup_needed}
use metafusion_auth.Sessions.Renewal.{refresh-session}
use metafusion_auth.Sessions.SignIn.{sign_in-IsSignedIn}
use metafusion_auth.Sessions.Setup.{create_user-setup}
use metafusion_auth.Examples.Accounts.{server, instance_of, user_row}
use metafusion_auth.Examples.Tokens.{codec, id_text}
use metafusion_auth.Examples.Oauth.{same_text}

-- The token of an application that may know who `ada` is, and no more.
abbrev third_party_server : Server
third_party_server = record server {
  db = record (instance_of false) {
    tokens =
        record {
          token_hash = "opaque";
          client_id = "demo-app";
          user_id = "ada";
          scope = "openid";
          expires_at = 9000000000000;
          jti = "";
        }
        ∷ [];
  };
}

abbrev shown_to_app : User
shown_to_app = record (bare_user "ada" "") {
  token_use = oauth;
  client_id = "demo-app";
  scope = "openid";
}

abbrev administrator : User
administrator = record (bare_user "ada" "ada") { groups = "admin" ∷ []; permissions = "*" ∷ [] }

refresh-session_example :
    (refresh id_text codec third_party_server 1000000000000 "j7" "opaque").0
    ≡ ok ("h.j7.s", administrator)
unfolding authenticate load_access metafusion_auth.Token.sign_session metafusion_auth.Text.trim
    metafusion_auth.Oauth.Scopes.oauth_token_user metafusion_auth.Oauth.Scopes.split_scopes
refresh-session_example =
    refresh-session id_text codec third_party_server 1000000000000 "j7" "opaque" shown_to_app
      (user_row "ada" false) "h.j7.s" 1900000000000 refl refl refl refl

sign_in-IsSignedIn_example :
    (v : User) × (user_of_token id_text
        (sign_in id_text id_text same_text codec server 5 "j8" "ada" "").1.db
        9
        "h.j8.s"
      ≡ ok v)
    × (v.id ≡ administrator.id)
unfolding sign_in
sign_in-IsSignedIn_example =
    sign_in-IsSignedIn id_text id_text same_text codec server 5 9 "j8" "ada" "" "h.j8.s"
      administrator refl (ground arith)

abbrev admins : Group
admins = record {
  id = "g1";
  code = "admin";
  permissions = "*" ∷ [];
  is_system = true;
  sort_order = 0;
}

abbrev new_instance : Database
new_instance = record empty_database { groups = admins ∷ [] }

abbrev first_account : Database
first_account = record new_instance {
  users =
      record (user_row "ada" false) { email = "ada@findverse.cc"; password_hash = "correct horse" }
      ∷ [];
  user_groups = record { user_id = "ada"; group_id = "g1"; granted_by = none } ∷ [];
}

create_user-setup_example :
    (new_instance.users ≡ [])
    × (map (λ (u : UserRow). u.id) first_account.users ≡ "ada" ∷ [])
    × (setup_needed first_account ≡ false)
    × (in_admin_group first_account "ada" ≡ any (has_code "admin") new_instance.groups)
unfolding create_user
create_user-setup_example =
    create_user-setup id_text id_text new_instance "ada" "ada" "" "correct horse" none
      (first_account, record administrator { email = "ada@findverse.cc" }) refl
