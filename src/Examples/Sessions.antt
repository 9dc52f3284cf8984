-- ===== src/Examples/Sessions.antt =====
-- The member `eve` keeps a session when the administrator `bob` is banned.
use metafusion_auth.Prelude.{String, Bool, ◌≡◌, refl, false, some, ◌==◌, [], ◌∷◌}
use metafusion_auth.Access.{User, bare_user, session}
use metafusion_auth.Database.{SessionRow, Database}
use metafusion_auth.Accounts.Bans.{Server, set_user_banned}
use metafusion_auth.Sessions.{authenticate}
use metafusion_auth.Sessions.Banned.{authenticate-set_user_banned}
use metafusion_auth.Sessions.Passwords.SignedOut.{user_of_token-change_password}
use metafusion_auth.Examples.Accounts.{server, banned_server, manager, instance_of, user_row}
use metafusion_auth.Examples.Tokens.{codec, id_text}

abbrev eve_session : SessionRow
eve_session = record { token_hash = "opaque"; user_id = "eve"; expires_at = 20 }

abbrev with_session : Server → Server
with_session s = record s { db = record s.db { sessions = eve_session ∷ [] } }

abbrev eve : User
eve = record (bare_user "eve" "eve") { token_use = session }

authenticate-set_user_banned_example : "eve" == "bob" ≡ false
unfolding set_user_banned metafusion_auth.Access.can metafusion_auth.Text.trim authenticate
    metafusion_auth.Database.load_access
authenticate-set_user_banned_example =
    authenticate-set_user_banned id_text codec (with_session server) (with_session banned_server)
      "bob" (some manager) 7 9 "opaque" eve refl refl refl

abbrev before : Database
before = record (instance_of false) {
  sessions = eve_session ∷ record { token_hash = "t2"; user_id = "bob"; expires_at = 20 } ∷ [];
}

-- The tables after the new password of `bob`.
abbrev changed : Database
changed = record (instance_of false) {
  users =
      user_row "ada" false
      ∷ record (user_row "bob" false) { password_hash = "correct horse battery" }
      ∷ user_row "eve" false
      ∷ [];
  sessions = eve_session ∷ [];
}

abbrev same_text : String → String → Bool
same_text a b = a == b

user_of_token-change_password_example : "eve" == "bob" ≡ false
unfolding metafusion_auth.Sessions.Passwords.change_password metafusion_auth.Sessions.user_of_token
    metafusion_auth.Database.load_access
user_of_token-change_password_example =
    user_of_token-change_password id_text id_text same_text before changed "bob" ""
      "correct horse battery" 9 "opaque" eve refl refl
