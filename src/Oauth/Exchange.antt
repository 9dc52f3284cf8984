-- ===== src/Oauth/Exchange.antt =====
-- The exchange of an authorisation code for a token, `ExchangeOAuthCode`, with `signOAuthToken`,
-- and what the token shows, `OAuthUserinfo`, `UserFromOAuthToken` and `IDToken` of
-- internal/store/oauth.go, with a configured issuer. The writes of the exchange are separate
-- statements: the code is marked before the token is made.
use metafusion_auth.Prelude.{
  ℕ, ◌*◌, ◌/◌, String, Bool, true, not, ◌&&◌, ◌||◌, ◌==◌, Option, none, some, List, [], ◌∷◌, ◌++◌,
  any, find, update_where, ltb, if◌then◌else◌, Result, ok, err, reject_if, ◌>>=◌, ◌>>◌, require,
  invalid_client, invalid_client_secret, expired_or_used_code, redirect_uri_mismatch,
  invalid_code_verifier, invalid_scope, invalid_token, no_rows, database_conflict,
}
use metafusion_auth.Text.{trim}
use metafusion_auth.Access.{User, bare_user, oauth}
use metafusion_auth.Database.{Database, UserRow, ClientRow, CodeRow, TokenRow}
use metafusion_auth.Token.{
  Codec, TokenIssuer, unix, access_token_ttl, sign_oauth, sign_for_audience,
}
use metafusion_auth.Accounts.Bans.{Server}
use metafusion_auth.Oauth.Scopes.{
  split_scopes, supported_subset, converge_scopes, format_scopes, is_empty, oauth_token_user,
  id_token_user,
}
use metafusion_auth.Oauth.Clients.Manage.{get_oauth_client}
use metafusion_auth.Oauth.Codes.{verify_pkce}

-- `OAuthGrant`
pub record OauthGrant : Type 0 where
  pub token : String
  pub scope : String
  pub expires_in : ℕ
  pub user : User

-- The rows that the exchange may redeem.
abbrev pub is_redeemable : ℕ → (code client_id : String) → CodeRow → Bool
is_redeemable now code client_id r =
    r.code == code && (r.client_id == client_id && (not r.used && ltb now r.expires_at))

-- `UPDATE auth.oauth_codes SET used=true ...`
unfoldable pub mark_code_used : Database → ℕ → (code client_id : String) → Database
mark_code_used db now code client_id = record db {
  codes =
      update_where (is_redeemable now code client_id) (λ (r : CodeRow). record r { used = true })
        db.codes;
}

-- `SELECT id, username, COALESCE(email,'') FROM auth.users WHERE id=$1`
abbrev pub plain_user : UserRow → User
plain_user row = record (bare_user row.id row.username) { email = row.email }

-- The scopes of the token: those of the code that are still supported and still allowed.
unfoldable pub granted_now : ClientRow → CodeRow → List String
unfolding split_scopes supported_subset converge_scopes
granted_now client row = converge_scopes (supported_subset (split_scopes row.scope)) client.scopes

module _ (is_password : (stored password : String) → Bool) where
  -- The credentials of the client.
  unfoldable pub check_client : ClientRow → (secret : String) → Result (Unit {0})
  check_client client secret = do
    reject_if client.disabled invalid_client
    reject_if
        (not (client.secret_hash == "")
          && (secret == "" || not (is_password client.secret_hash secret)))
        invalid_client_secret
    reject_if (client.secret_hash == "" && not client.trusted) invalid_client_secret

  module _ (sha256_base64 : String → String) where
    -- Everything that is checked before the code is marked.
    unfoldable pub check_exchange :
        Database
        → ℕ
        → (client_id secret code redirect_uri verifier : String) → Result (ClientRow × CodeRow)
    unfolding get_oauth_client check_client verify_pkce trim
    check_exchange db now client_id secret code redirect_uri verifier = do
      client ← require (get_oauth_client db client_id) invalid_client
      check_client client secret
      row ← require (find (is_redeemable now (trim code) client_id) db.codes) expired_or_used_code
      reject_if (not (redirect_uri == "") && not (redirect_uri == row.redirect_uri))
          redirect_uri_mismatch
      reject_if
          (not (verify_pkce sha256_base64 row.code_challenge_method row.code_challenge verifier))
          invalid_code_verifier
      ok (client, row)

    module _ (sha256_hex : String → String) (codec : Codec) where
      -- The row of a token that was signed at `now`.
      abbrev pub new_token_row :
          (token client_id user_id scope jti : String) → (expiry : ℕ) → TokenRow
      new_token_row token client_id user_id scope jti expiry = record {
        token_hash = sha256_hex token;
        client_id = client_id;
        user_id = user_id;
        scope = scope;
        expires_at = unix expiry * 1000000000;
        jti = jti;
      }

      abbrev pub has_token_hash : String → TokenRow → Bool
      has_token_hash hash t = t.token_hash == hash

      -- `INSERT INTO auth.oauth_tokens ...` and the answer
      unfoldable pub store_token :
          Server
          → (client_id jti : String) → List String
          → User
          → String × ℕ
          → Result OauthGrant × Server
      unfolding format_scopes
      store_token s client_id jti granted u (token, expiry) =
          if any (has_token_hash (sha256_hex token)) s.db.tokens
          then (err database_conflict, s)
          else (
            ok (record {
              token = token;
              scope = format_scopes granted;
              expires_in = access_token_ttl / 1000000000;
              user = u;
            }),
            record s {
              db = record s.db {
                tokens =
                    s.db.tokens
                    ++ new_token_row token client_id u.id (format_scopes granted) jti expiry ∷ [];
              };
            },
          )

      abbrev pub stored :
          Server
          → (client_id jti : String) → List String
          → User
          → Result (String × ℕ)
          → Result OauthGrant × Server
      unfolding store_token
      stored s client_id jti granted u (err e) = (err e, s)
      stored s client_id jti granted u (ok signed) = store_token s client_id jti granted u signed

      -- `signOAuthToken` and the rest, with the row of the user that the query found
      unfoldable pub sign_for_user :
          Server
          → ℕ
          → (client_id jti : String) → List String
          → Option UserRow
          → Result OauthGrant × Server
      unfolding stored sign_oauth oauth_token_user
      sign_for_user s now client_id jti granted none = (err no_rows, s)
      sign_for_user s now client_id jti granted (some row) =
          stored s client_id jti granted (plain_user row) (
            sign_oauth codec s.issuer now jti (oauth_token_user (plain_user row) granted) client_id
              granted)

      -- What follows the mark.
      unfoldable pub issue_grant :
          Server → ℕ → (client_id jti : String) → ClientRow → CodeRow → Result OauthGrant × Server
      unfolding granted_now sign_for_user
      issue_grant s now client_id jti client row =
          let granted = granted_now client row in
          if is_empty granted
          then (err (invalid_scope ""), s)
          else sign_for_user s now client_id jti granted
              (find (λ (u : UserRow). u.id == row.user_id) s.db.users)

      unfoldable pub redeem :
          Server
          → ℕ
          → (client_id code jti : String) → Result (ClientRow × CodeRow)
          → Result OauthGrant × Server
      unfolding issue_grant mark_code_used trim
      redeem s now client_id code jti (err e) = (err e, s)
      redeem s now client_id code jti (ok (client, row)) =
          issue_grant (record s { db = mark_code_used s.db now (trim code) client_id }) now
            client_id jti client row

      -- `ExchangeOAuthCode` at `now` with the generated token id
      unfoldable pub exchange_oauth_code :
          Server
          → ℕ
          → (jti client_id secret code redirect_uri verifier : String) → Result OauthGrant × Server
      unfolding check_exchange redeem
      exchange_oauth_code s now jti client_id secret code redirect_uri verifier =
          redeem s now client_id code jti
            (check_exchange s.db now client_id secret code redirect_uri verifier)

module _ (sha256_hex : String → String) where
  abbrev pub is_shown_token : Database → ℕ → String → TokenRow → Bool
  is_shown_token db now hash t =
      t.token_hash == hash
      && (ltb now t.expires_at
          && (any (λ (c : ClientRow). c.id == t.client_id && not c.disabled) db.clients
              && any (λ (u : UserRow). u.id == t.user_id) db.users))

  abbrev shown_user : String → Option UserRow → Result (User × String)
  shown_user scope none = err invalid_token
  shown_user scope (some row) = ok (plain_user row, scope)

  -- `OAuthUserinfo` at `now`
  unfoldable pub oauth_userinfo : Database → ℕ → String → Result (User × String)
  unfolding trim
  oauth_userinfo db now raw =
      let shown : Result (User × String) =
        elim (find (is_shown_token db now (sha256_hex (trim raw))) db.tokens) [
          | none ↦ err invalid_token
          | some t ↦ shown_user t.scope (find (λ (u : UserRow). u.id == t.user_id) db.users)
        ] in
      if trim raw == "" then err invalid_token else shown

  -- `SELECT ... WHERE t.token_hash=$1 AND NOT u.banned AND t.expires_at>now()`
  abbrev pub is_usable_token : Database → ℕ → String → TokenRow → Bool
  is_usable_token db now hash t =
      t.token_hash == hash
      && (ltb now t.expires_at && any (λ (u : UserRow). u.id == t.user_id && not u.banned) db.users)

  -- `UserFromOAuthToken` at `now`
  unfoldable pub user_from_oauth_token : Database → ℕ → String → Result User
  unfolding oauth_token_user split_scopes
  user_from_oauth_token db now raw = do
    t ← require (find (is_usable_token db now (sha256_hex raw)) db.tokens) no_rows
    row ← require (find (λ (u : UserRow). u.id == t.user_id) db.users) no_rows
    ok (record (oauth_token_user (plain_user row) (split_scopes t.scope)) {
      token_use = oauth;
      client_id = t.client_id;
      scope = t.scope;
    })

-- `IDToken` at `now` with the generated token id
unfoldable pub id_token_for :
    Codec
    → TokenIssuer
    → ℕ
    → (jti : String) → User
    → (client_id : String) → List String
    → Result (String × ℕ) × TokenIssuer
unfolding sign_for_audience id_token_user
id_token_for codec t now jti u client_id scopes =
    sign_for_audience codec t now jti (id_token_user u scopes)
      (if client_id == "" then t.audience else client_id)
