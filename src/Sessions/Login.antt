-- ===== src/Sessions/Login.antt =====
-- `Login`, `issueSessionToken` and `Refresh` of internal/store/identity.go, with a configured issuer.
-- bcrypt's comparison, SHA-256 and `lower` of the database are parameters; the token id of a new
-- token is an argument.
use metafusion_auth.Prelude.{
  ℕ, ◌+◌, String, Bool, not, ◌&&◌, ◌||◌, ◌==◌, Option, none, some, List, [], ◌∷◌, ◌++◌, any, keep,
  find, if◌then◌else◌, Result, ok, err, Error, account_banned, invalid_token, invalid_credentials,
  database_conflict,
}
use metafusion_auth.Text.{trim}
use metafusion_auth.Access.{User, bare_user}
use metafusion_auth.Database.{UserRow, SessionRow, load_access}
use metafusion_auth.Token.{Codec, sign_session, revoke_token}
use metafusion_auth.Accounts.Bans.{Server}
use metafusion_auth.Sessions.{authenticate}

-- Twenty-four hours
abbrev pub session_ttl : ℕ
session_ttl = 86400000000000

-- The user that `Login` and `Refresh` read, before its groups are loaded.
abbrev pub full_user : UserRow → User
full_user row = record (bare_user row.id row.username) {
  email = row.email;
  display_name = row.display_name;
  bio = row.bio;
}

module _ (sha256_hex : String → String) where
  abbrev pub has_session_hash : String → SessionRow → Bool
  has_session_hash hash r = r.token_hash == hash

  -- `INSERT INTO auth.sessions ...` at `now`
  unfoldable pub insert_session :
      Server → ℕ → (token : String) → User → Result (String × User) × Server
  insert_session s now token u =
      if any (has_session_hash (sha256_hex token)) s.db.sessions
      then (err database_conflict, s)
      else (
        ok (token, u),
        record s {
          db = record s.db {
            sessions =
                s.db.sessions
                ++ record {
                  token_hash = sha256_hex token;
                  user_id = u.id;
                  expires_at = now + session_ttl;
                }
                  ∷ [];
          };
        },
      )

  unfoldable pub signed_in :
      Server → ℕ → User → Result (String × ℕ) → Result (String × User) × Server
  unfolding insert_session
  signed_in s now u (err e) = (err e, s)
  signed_in s now u (ok signed) = insert_session s now signed.0 u

  -- `issueSessionToken` and the session row
  unfoldable pub open_session :
      Codec → Server → ℕ → (jti : String) → User → Result (String × User) × Server
  unfolding signed_in sign_session
  open_session codec s now jti u = signed_in s now u (sign_session codec s.issuer now jti u)

  module _ (lower : String → String) (is_password : (stored password : String) → Bool) where
    -- `lower(username)=lower($1) OR (email=$1 AND email<>'')`
    abbrev pub is_login_name : String → UserRow → Bool
    is_login_name name u =
        lower u.username == lower name || (u.email == name && not (u.email == ""))

    -- The rest of `Login`, with the rows that the query found.
    unfoldable pub login_found :
        Codec
        → Server
        → ℕ
        → (jti password : String) → List UserRow
        → Result (String × User) × Server
    unfolding open_session load_access
    login_found codec s now jti password [] = (err invalid_credentials, s)
    login_found codec s now jti password (row ∷ []) =
        if not (is_password row.password_hash password)
        then (err invalid_credentials, s)
        else if row.banned
        then (err account_banned, s)
        else open_session codec s now jti (load_access s.db (full_user row))
    login_found codec s now jti password (row ∷ other ∷ rest) = (err invalid_credentials, s)

    -- `Login` at `now`
    unfoldable pub sign_in :
        Codec → Server → ℕ → (jti username password : String) → Result (String × User) × Server
    unfolding login_found trim
    sign_in codec s now jti username password =
        login_found codec s now jti password (keep (is_login_name (trim username)) s.db.users)

  -- The codes that `Refresh` passes on.
  abbrev pub refresh_error : Error → Error
  refresh_error account_banned = account_banned
  refresh_error _ = invalid_token

  -- The old token ends: its id at the issuer, and its session row.
  unfoldable pub retire_token : Codec → Server → ℕ → String → Server
  unfolding revoke_token
  retire_token codec s now token = record s {
    issuer = revoke_token codec s.issuer now token;
    db = record s.db {
      sessions = keep (λ (r : SessionRow). not (r.token_hash == sha256_hex token)) s.db.sessions;
    };
  }

  unfoldable pub renewed :
      Codec
      → Server
      → ℕ
      → (token : String) → User
      → Result (String × ℕ)
      → Result (String × User) × Server
  unfolding insert_session retire_token
  renewed codec s now token u (err e) = (err e, s)
  renewed codec s now token u (ok signed) =
      insert_session (retire_token codec s now token) now signed.0 u

  -- The rest of `Refresh`, with the row that the query found.
  unfoldable pub refresh_found :
      Codec → Server → ℕ → (jti token : String) → Option UserRow → Result (String × User) × Server
  unfolding renewed sign_session load_access
  refresh_found codec s now jti token none = (err invalid_token, s)
  refresh_found codec s now jti token (some row) =
      renewed codec s now token (load_access s.db (full_user row))
        (sign_session codec s.issuer now jti (load_access s.db (full_user row)))

  unfoldable pub refresh_as :
      Codec → ℕ → (jti token : String) → Result User × Server → Result (String × User) × Server
  unfolding refresh_found
  refresh_as codec now jti token (err e, s) = (err (refresh_error e), s)
  refresh_as codec now jti token (ok u, s) =
      refresh_found codec s now jti token (find (λ (row : UserRow). row.id == u.id) s.db.users)

  -- `Refresh` at `now`
  unfoldable pub refresh :
      Codec → Server → ℕ → (jti token : String) → Result (String × User) × Server
  unfolding refresh_as authenticate
  refresh codec s now jti token =
      refresh_as codec now jti token (authenticate sha256_hex codec s now token)
