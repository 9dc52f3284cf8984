-- ===== src/Examples/Clients.antt =====
-- The member `eve` changes her application `demo-app` in the developer centre; the administrator
-- owns `portal`.
use metafusion_auth.Prelude.{ℕ, true, List, [], ◌∷◌, ◌≡◌, refl, none, some, any, arith}
use metafusion_auth.Access.{User, bare_user}
use metafusion_auth.Database.{ClientRow}
use metafusion_auth.Accounts.Bans.{Server}
use metafusion_auth.Developer.{DeveloperAppInput}
use metafusion_auth.Developer.Histories.{ClientEvent, edit_app, delete_app, run_clients}
use metafusion_auth.Developer.Table.{IsTable, run_clients-IsTable}
use metafusion_auth.Developer.Own.{
  IsWithin, is_badged, first_party, run_clients-IsWithin, run_clients-badges,
}
use metafusion_auth.Developer.Others.{others, by_user, run_clients-others}
use metafusion_auth.Examples.Tokens.{id_text}
use metafusion_auth.Examples.Oauth.{clients_server, demo_app, parse_url}

abbrev eve : User
eve = bare_user "eve" "eve"

abbrev portal : ClientRow
portal = record demo_app { id = "portal"; trusted = true; owner_user_id = none }

abbrev two_clients : Server
two_clients = record clients_server {
  db = record clients_server.db { clients = portal ∷ demo_app ∷ [] };
}

abbrev renamed : DeveloperAppInput
renamed = record {
  id = "";
  name = some "Better demo";
  description = none;
  homepage_url = none;
  redirect_uris = none;
  scopes = none;
}

-- Three events: one of them aims at the application of another account.
abbrev events : List (ℕ × ClientEvent)
events =
    (1, edit_app "demo-app" renamed)
    ∷ (1, edit_app "portal" renamed)
    ∷ (1, delete_app "portal" "")
    ∷ []

two_clients-IsTable : IsTable parse_url id_text two_clients.db.clients
unfolding metafusion_auth.Oauth.Clients.valid_client_id
    metafusion_auth.Oauth.Clients.validate_client_description
    metafusion_auth.Oauth.Clients.validate_homepage_url
    metafusion_auth.Oauth.Clients.validate_client_scopes
    metafusion_auth.Oauth.Clients.validate_redirect_uris metafusion_auth.Text.rune_count
two_clients-IsTable = record {
  clients = (
    record {
      id_ok = refl;
      name_ok = refl;
      description_ok = refl;
      homepage_ok = refl;
      scopes_ok = refl;
      uris_ok = refl;
    },
    (
      record {
        id_ok = refl;
        name_ok = refl;
        description_ok = refl;
        homepage_ok = refl;
        scopes_ok = refl;
        uris_ok = refl;
      },
      tt,
    ),
  );
  ids = (refl, (refl, tt));
}

run_clients-IsTable_example :
    IsTable parse_url id_text
      (run_clients parse_url id_text two_clients 5
        (by_user parse_url id_text eve events)).db.clients
run_clients-IsTable_example =
    run_clients-IsTable parse_url id_text two_clients 5 (by_user parse_url id_text eve events)
      two_clients-IsTable

run_clients-IsWithin_example :
    IsWithin
      (run_clients parse_url id_text two_clients 5
        (by_user parse_url id_text eve events)).db.clients
      "eve"
run_clients-IsWithin_example =
    run_clients-IsWithin parse_url id_text two_clients 5 (by_user parse_url id_text eve events)
      "eve" (ground arith)

run_clients-badges_example : any (is_badged first_party "portal") two_clients.db.clients ≡ true
unfolding run_clients metafusion_auth.Oauth.Clients.valid_client_id
run_clients-badges_example =
    run_clients-badges parse_url id_text two_clients 5 (by_user parse_url id_text eve events)
      first_party "portal" refl refl

run_clients-others_example :
    others "eve"
      (run_clients parse_url id_text two_clients 5
        (by_user parse_url id_text eve events)).db.clients
    ≡ portal ∷ []
unfolding metafusion_auth.Text.trim
run_clients-others_example =
    run_clients-others parse_url id_text two_clients 5 eve events refl two_clients-IsTable refl
