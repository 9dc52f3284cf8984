-- ===== src/Examples/Oauth.antt =====
-- The member `eve` allows the application `demo-app`, which exchanges the code that it was given.
use metafusion_auth.Prelude.{
  ℕ, ◌≤◌, ◌==◌, String, Bool, true, false, not, ◌&&◌, List, [], ◌∷◌, ◌≡◌, refl, ap, none, some,
  Option, err, is_ok, arith, contains, map, Result,
}
use metafusion_auth.Access.{bare_user}
use metafusion_auth.Database.{ClientRow, CodeRow}
use metafusion_auth.Accounts.Bans.{Server}
use metafusion_auth.Oauth.Clients.{Url}
use metafusion_auth.Oauth.Codes.{create_oauth_code}
use metafusion_auth.Oauth.Exchange.{
  OauthGrant, exchange_oauth_code, check_exchange, mark_code_used, granted_now,
}
use metafusion_auth.Text.{trim}
use metafusion_auth.Oauth.Grants.Scope.{granted_scopes-eq}
use metafusion_auth.Oauth.Grants.Succeeds.{exchange-create_oauth_code}
use metafusion_auth.Oauth.Scopes.{format_scopes, split_scopes}
use metafusion_auth.Oauth.Clients.Manage.{get_oauth_client}
use metafusion_auth.Oauth.Scopes.RoundTrip.{split_scopes-format_scopes}
use metafusion_auth.Oauth.Grants.{Setting, ban, create_code, exchange_with, run_grants}
use metafusion_auth.Oauth.Grants.Once.{exchange_with_once}
use metafusion_auth.Oauth.Grants.Redeem.{is_live}
use metafusion_auth.Oauth.Grants.Outcomes.{is_live-exchange_oauth_code, exchange_oauth_code-err}
use metafusion_auth.Examples.Accounts.{server, instance_of, user_row, manager}
use metafusion_auth.Examples.Tokens.{codec, id_text}

abbrev pub callback : String
callback = "https://app.example/cb"

-- `url.Parse` on the addresses of the examples
abbrev pub parse_url : String → Option Url
parse_url raw =
    some (record { scheme = "https"; host = "app.example"; fragment = ""; has_user = false })

abbrev pub same_text : String → String → Bool
same_text a b = a == b

abbrev pub setting : Setting
setting = record {
  parse_url = parse_url;
  bcrypt = id_text;
  is_password = same_text;
  sha256_base64 = id_text;
  sha256_hex = id_text;
  to_upper = id_text;
  codec = codec;
}

abbrev pub demo_app : ClientRow
demo_app = record {
  id = "demo-app";
  secret_hash = "hush";
  name = "Demo";
  description = "";
  homepage_url = "";
  redirect_uris = callback ∷ [];
  scopes = "openid" ∷ "email" ∷ [];
  trusted = false;
  disabled = false;
  verified = false;
  owner_user_id = some "eve";
  created_at = 1;
}

abbrev pub clients_server : Server
clients_server = record server { db = record (instance_of false) { clients = demo_app ∷ [] } }

abbrev code_row : Bool → CodeRow
code_row used = record {
  code = "c0de";
  client_id = "demo-app";
  user_id = "eve";
  redirect_uri = callback;
  scope = "openid";
  expires_at = 600000000005;
  used = used;
  code_challenge = "proof";
  code_challenge_method = "S256";
}

abbrev code_server : Server
code_server = record clients_server {
  db = record clients_server.db { codes = code_row false ∷ [] };
}

exchange_with_once_example :
    is_ok
      (exchange_with setting
        (run_grants setting
          (exchange_with setting code_server 9 "j1" "demo-app" "hush" "c0de" callback "proof").1
          9
          ((3, ban "bob" true (some manager))
            ∷ (1, create_code "0ther" "demo-app" "eve" callback "openid" "" "")
            ∷ []))
        30
        "j2"
        "demo-app"
        "hush"
        "c0de"
        callback
        "proof").0
    ≡ false
unfolding check_exchange
exchange_with_once_example =
    exchange_with_once setting code_server 9 "j1" "demo-app" "hush" "c0de" callback "proof"
      ((3, ban "bob" true (some manager))
        ∷ (1, create_code "0ther" "demo-app" "eve" callback "openid" "" "")
        ∷ [])
      30 "j2" "demo-app" "hush" callback "proof" (ground arith) refl refl

is_live-exchange_oauth_code_example :
    is_live
      (exchange_oauth_code same_text id_text id_text codec code_server 9 "j1" "demo-app" "hush"
        "c0de" callback "proof").1.db
      9
      "c0de"
      "demo-app"
    ≡ (is_live code_server.db 9 "c0de" "demo-app"
        && not (
            is_ok (
              check_exchange same_text id_text code_server.db 9 "demo-app" "hush" "c0de" callback
                "proof")
            && ("c0de" == "c0de" && "demo-app" == "demo-app")))
unfolding metafusion_auth.Text.trim
is_live-exchange_oauth_code_example =
    is_live-exchange_oauth_code same_text id_text id_text codec code_server 9 "j1" "demo-app" "hush"
      "c0de" callback "proof" "c0de" "demo-app"

exchange_oauth_code-err_example :
    (exchange_oauth_code same_text id_text id_text codec code_server 9 "j1" "demo-app" "wrong"
      "c0de" callback "proof").1
    ≡ code_server
unfolding check_exchange exchange_oauth_code
exchange_oauth_code-err_example =
    exchange_oauth_code-err same_text id_text id_text codec code_server 9 "j1" "demo-app" "wrong"
      "c0de" callback "proof" metafusion_auth.Prelude.invalid_client_secret refl

split_scopes-format_scopes_example :
    split_scopes (format_scopes ("openid" ∷ "email" ∷ [])) ≡ "openid" ∷ "email" ∷ []
unfolding metafusion_auth.Text.is_space
split_scopes-format_scopes_example =
    split_scopes-format_scopes ("openid" ∷ "email" ∷ []) (refl, (refl, tt)) (refl, (refl, tt))

abbrev grant : OauthGrant
grant = record {
  token = "h.j1.s";
  scope = "openid";
  expires_in = 900;
  user = record (bare_user "eve" "eve") { email = "" };
}

-- The server after the issue of the code, and after the client lost the scope `email` and another
-- code was added.
abbrev narrowed_app : ClientRow
narrowed_app = record demo_app { scopes = "openid" ∷ [] }

abbrev narrowed_code : CodeRow
narrowed_code = record (code_row false) { scope = "openid email" }

abbrev narrowed_server : Server
narrowed_server = record clients_server {
  db = record clients_server.db {
    clients = narrowed_app ∷ [];
    codes = narrowed_code ∷ record (code_row false) { code = "0ther" } ∷ [];
  };
}

granted_scopes-eq_example : contains (split_scopes "openid") "email" ≡ (
    contains (map trim ("profile" ∷ "openid" ∷ "email" ∷ [])) "email"
    && (contains (map trim demo_app.scopes) "email"
        && contains (map trim narrowed_app.scopes) "email"))
unfolding create_oauth_code exchange_oauth_code get_oauth_client trim
granted_scopes-eq_example =
    granted_scopes-eq same_text id_text id_text codec id_text clients_server.db 5 "c0de" "demo-app"
      "eve" callback "profile openid email" "proof" "S256"
      (record clients_server.db { codes = narrowed_code ∷ [] }, "openid email")
      ("profile" ∷ "openid" ∷ "email" ∷ []) demo_app narrowed_app narrowed_server 9 "j1" "hush"
      callback "proof" grant "email" refl refl refl refl refl refl refl

exchange-create_oauth_code_example :
    is_ok
      (exchange_oauth_code same_text id_text id_text codec code_server 9 "j1" "demo-app" "hush"
        "c0de" callback "proof").0
    ≡ true
unfolding create_oauth_code metafusion_auth.Oauth.Exchange.check_client
    metafusion_auth.Oauth.Codes.verify_pkce
exchange-create_oauth_code_example =
    exchange-create_oauth_code same_text id_text id_text codec id_text clients_server 5 9 "j1"
      "c0de" "demo-app" "eve" callback "profile openid" "proof" "S256" "hush" "proof"
      (code_server.db, "openid") demo_app (user_row "eve" false) refl refl (ground arith) refl refl
      refl refl refl refl (λ u scopes signed e. refl)
