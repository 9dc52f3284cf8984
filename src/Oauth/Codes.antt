-- ===== src/Oauth/Codes.antt =====
-- Authorisation codes: `CreateOAuthCode` and `verifyPKCE` of internal/store/oauth.go. The generated
-- code is an argument; the base64url of a SHA-256 and `strings.ToUpper` are parameters.
use metafusion_auth.Prelude.{
  ℕ, ◌+◌, String, Bool, true, false, not, ◌&&◌, ◌||◌, ◌==◌, [], ◌∷◌, ◌++◌, any, if◌then◌else◌,
  Result, ok, reject_if, ◌>>=◌, ◌>>◌, invalid_client, invalid_scope, invalid_redirect_uri,
  invalid_code_challenge_method, database_conflict, require,
}
use metafusion_auth.Text.{trim}
use metafusion_auth.Database.{Database, UserRow, ClientRow, CodeRow}
use metafusion_auth.Oauth.Scopes.{parse_scopes, converge_scopes, format_scopes, is_empty}
use metafusion_auth.Oauth.Clients.{redirect_uri_allowed}
use metafusion_auth.Oauth.Clients.Manage.{get_oauth_client}

-- Ten minutes
abbrev pub code_ttl : ℕ
code_ttl = 600000000000

abbrev pub has_code_text : String → CodeRow → Bool
has_code_text code r = r.code == code

-- The foreign keys of auth.oauth_codes
abbrev pub has_owner_rows : Database → String → String → Bool
has_owner_rows db client_id user_id =
    any (λ (c : ClientRow). c.id == client_id) db.clients
    && any (λ (u : UserRow). u.id == user_id) db.users

module _ (to_upper : String → String) where
  abbrev pub challenge_method : (challenge method : String) → String
  challenge_method challenge method = if challenge == "" then "" else to_upper (trim method)

  -- `CreateOAuthCode` at `now` with the generated code
  unfoldable pub create_oauth_code :
      Database
      → ℕ
      → (code client_id user_id redirect_uri scope challenge method : String)
      → Result (Database × String)
  unfolding get_oauth_client parse_scopes converge_scopes format_scopes redirect_uri_allowed trim
  create_oauth_code db now code client_id user_id redirect_uri requested_scope raw_challenge
        raw_method =
      do
        client ← require (get_oauth_client db client_id) invalid_client
        reject_if client.disabled invalid_client
        requested ← parse_scopes requested_scope
        let granted = converge_scopes requested client.scopes
        reject_if (is_empty granted) (invalid_scope "")
        reject_if (not (redirect_uri_allowed client.redirect_uris redirect_uri))
            invalid_redirect_uri
        let challenge = trim raw_challenge
        let method = challenge_method challenge raw_method
        reject_if (not (challenge == "") && not (method == "S256" || method == "PLAIN"))
            invalid_code_challenge_method
        reject_if (any (has_code_text code) db.codes || not (has_owner_rows db client_id user_id))
            database_conflict
        let row : CodeRow = record {
          code = code;
          client_id = client_id;
          user_id = user_id;
          redirect_uri = redirect_uri;
          scope = format_scopes granted;
          expires_at = now + code_ttl;
          used = false;
          code_challenge = challenge;
          code_challenge_method = method;
        }
        ok (record db { codes = db.codes ++ row ∷ [] }, format_scopes granted)

module _ (sha256_base64 : String → String) where
  -- `verifyPKCE`
  unfoldable pub verify_pkce : (method challenge verifier : String) → Bool
  unfolding trim
  verify_pkce method challenge raw_verifier =
      let verifier = trim raw_verifier in
      if challenge == ""
      then true
      else if verifier == ""
      then false
      else if method == "S256"
      then challenge == sha256_base64 verifier
      else if method == "PLAIN" || method == "plain"
      then challenge == verifier
      else false
