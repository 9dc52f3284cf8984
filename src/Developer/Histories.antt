-- ===== src/Developer/Histories.antt =====
-- Histories of client registrations: the operations of the administration,
-- internal/store/oauth.go, and of the developer centre, internal/store/developer.go, as events.
use metafusion_auth.Prelude.{ℕ, ◌+◌, String, Bool, true, false, Option, List, [], ◌∷◌}
use metafusion_auth.Access.{User}
use metafusion_auth.Accounts.Bans.{Server}
use metafusion_auth.Oauth.Clients.{Url}
use metafusion_auth.Oauth.Clients.Manage.{
  OauthClientInput, create_oauth_client, update_oauth_client, rotate_oauth_client_secret,
  delete_oauth_client,
}
use metafusion_auth.Oauth.Grants.{settled, settled_db}
use metafusion_auth.Developer.{
  DeveloperAppInput, create_developer_app, update_developer_app, rotate_developer_app_secret,
  delete_developer_app,
}

pub data ClientEvent : Type 0 where
  create_app : (generated secret : String) → DeveloperAppInput → ClientEvent
  edit_app : (id : String) → DeveloperAppInput → ClientEvent
  rotate_app delete_app : (id secret : String) → ClientEvent
  create_client : (generated secret : String) → OauthClientInput → ClientEvent
  edit_client : (id : String) → OauthClientInput → ClientEvent
  rotate_client delete_client : (id secret : String) → ClientEvent

-- Whether the event is one of the administration.
abbrev pub is_privileged : ClientEvent → Bool
is_privileged (create_app generated secret input) = false
is_privileged (edit_app id input) = false
is_privileged (rotate_app id secret) = false
is_privileged (delete_app id secret) = false
is_privileged (create_client generated secret input) = true
is_privileged (edit_client id input) = true
is_privileged (rotate_client id secret) = true
is_privileged (delete_client id secret) = true

module _ (parse_url : String → Option Url) (bcrypt : String → String) where
  -- An event with the account that asks for it.
  unfoldable pub apply_client_event : Server → ℕ → Option User → ClientEvent → Server
  unfolding create_developer_app update_developer_app rotate_developer_app_secret
      delete_developer_app create_oauth_client update_oauth_client rotate_oauth_client_secret
      delete_oauth_client
  apply_client_event s now who (create_app generated secret input) =
      settled_db (λ r. r.0) s
        (create_developer_app parse_url bcrypt s.db now generated secret input who)
  apply_client_event s now who (edit_app id input) =
      settled_db (λ db. db) s (update_developer_app parse_url bcrypt s.db id input who)
  apply_client_event s now who (rotate_app id secret) =
      settled_db (λ db. db) s (rotate_developer_app_secret parse_url bcrypt s.db id secret who)
  apply_client_event s now who (delete_app id secret) =
      settled (λ s'. s') s (delete_developer_app parse_url bcrypt s now id who)
  apply_client_event s now who (create_client generated secret input) =
      settled_db (λ r. r.0) s
        (create_oauth_client parse_url bcrypt s.db now generated secret input who)
  apply_client_event s now who (edit_client id input) =
      settled_db (λ db. db) s (update_oauth_client parse_url bcrypt s.db id input who)
  apply_client_event s now who (rotate_client id secret) =
      settled_db (λ db. db) s (rotate_oauth_client_secret parse_url bcrypt s.db id secret who)
  apply_client_event s now who (delete_client id secret) =
      settled (λ s'. s') s (delete_oauth_client parse_url bcrypt s now id who)

  -- A history: each event with the time that passed before it and its account.
  unfoldable pub run_clients : Server → ℕ → List (ℕ × (Option User × ClientEvent)) → Server
  unfolding apply_client_event
  run_clients s now [] = s
  run_clients s now ((elapsed, (who, e)) ∷ rest) =
      run_clients (apply_client_event s (now + elapsed) who e) (now + elapsed) rest
