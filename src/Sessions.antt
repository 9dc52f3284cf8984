-- ===== src/Sessions.antt =====
-- Who a token stands for: `Authenticate` of internal/store/store.go and `User`, `sessionHash`,
-- `Logout` of internal/store/identity.go, over the signed tokens, the session rows and the rows of
-- third-party tokens.
pub mod Banned
pub mod Passwords
pub mod Login
pub mod Accounts
pub mod Renewal
pub mod SignIn
pub mod Setup
pub mod Invited
use metafusion_auth.Prelude.{
  ℕ, String, Bool, true, false, not, ◌&&◌, ◌==◌, Option, none, some, List, [], ◌∷◌, any, keep, find,
  ltb, if◌then◌else◌, Result, ok, err, Error, account_banned, no_rows,
}
use metafusion_auth.Text.{trim}
use metafusion_auth.Access.{User, bare_user, session, oauth}
use metafusion_auth.Database.{Database, UserRow, SessionRow, TokenRow, load_access}
use metafusion_auth.Oauth.Scopes.{oauth_token_user, split_scopes}
use metafusion_auth.Token.{Claims, Codec, TokenIssuer, verify, revoke_token, claims_to_user}
use metafusion_auth.Accounts.Bans.{Server, BannedEntry, is_banned}

-- The rows `auth.users` that a join with a user id and `NOT u.banned` finds.
abbrev pub is_open_account : String → UserRow → Bool
is_open_account id u = u.id == id && not u.banned

-- The session rows that the first query of `User` accepts.
abbrev pub is_open_session : Database → String → ℕ → SessionRow → Bool
is_open_session db hash now s =
    s.token_hash == hash && (any (is_open_account s.user_id) db.users && ltb now s.expires_at)

-- The rows of third-party tokens that the second query of `User` accepts.
abbrev pub is_open_token : Database → String → ℕ → TokenRow → Bool
is_open_token db hash now t =
    t.token_hash == hash && (any (is_open_account t.user_id) db.users && ltb now t.expires_at)

abbrev pub named_user : UserRow → User
named_user row = record (bare_user row.id row.username) { email = row.email }

-- The identity of a session, with its groups and permissions.
unfoldable pub session_identity : Database → Option UserRow → Result User
session_identity db none = err no_rows
session_identity db (some row) =
    ok (load_access db (record (named_user row) { token_use = session }))

-- The identity of an opaque third-party token, cut down to its scopes.
unfoldable pub third_party_identity : TokenRow → Option UserRow → Result User
third_party_identity t none = err no_rows
third_party_identity t (some row) =
    ok (record (oauth_token_user (named_user row) (split_scopes t.scope)) {
      token_use = oauth;
      client_id = t.client_id;
      scope = t.scope;
    })

unfoldable pub token_identity : Database → Option TokenRow → Result User
unfolding third_party_identity
token_identity db none = err no_rows
token_identity db (some t) = third_party_identity t (find (is_open_account t.user_id) db.users)

module _ (sha256_hex : String → String) where
  -- `User`
  unfoldable pub user_of_token : Database → ℕ → String → Result User
  unfolding session_identity token_identity
  user_of_token db now token = elim (find (is_open_session db (sha256_hex token) now) db.sessions) [
    | some s ↦ session_identity db (find (is_open_account s.user_id) db.users)
    | none ↦ token_identity db (find (is_open_token db (sha256_hex token) now) db.tokens)
  ]

  -- What `Authenticate` answers once the signature has been judged, with the memory of bans.
  unfoldable pub identify : Server → ℕ → String → Result Claims → Result User × List BannedEntry
  unfolding user_of_token is_banned claims_to_user
  identify s now token (err e) = (user_of_token s.db now token, s.cache)
  identify s now token (ok c) =
      let answer = is_banned s.db s.cache c.subject now in
      (if answer.0 then err account_banned else ok (claims_to_user c), answer.1)

  -- `Authenticate` at `now`; the issuer is configured.
  unfoldable pub authenticate : Codec → Server → ℕ → String → Result User × Server
  unfolding identify verify
  authenticate codec s now raw =
      let token = trim raw in
      let judged = verify codec s.issuer now token in
      let answer = identify s now token judged.0 in
      if token == ""
      then (err no_rows, s)
      else (answer.0, record s { cache = answer.1; issuer = judged.1 })

  -- `Logout` at `now`; the issuer is configured.
  unfoldable pub logout : Codec → Server → ℕ → String → Server
  unfolding revoke_token
  logout codec s now token = record s {
    issuer = revoke_token codec s.issuer now token;
    db = record s.db {
      sessions = keep (λ (r : SessionRow). not (r.token_hash == sha256_hex token)) s.db.sessions;
    };
  }
