-- ===== src/Oauth/Revoke.antt =====
-- The ends of grants: `RevokeOAuthTokensByClient`, `RevokeOAuthTokensByUser` and
-- `RevokeOwnOAuthGrant` of internal/store/oauth.go.
use metafusion_auth.Prelude.{
  ℕ, String, Bool, not, ◌&&◌, ◌==◌, Option, [], count, keep, ltb, Result, ok, reject_if, require,
  ◌>>=◌, ◌>>◌, forbidden, invalid_revoke_target, authentication_required, invalid_client,
  client_not_found,
}
use metafusion_auth.Text.{trim}
use metafusion_auth.Access.{User}
use metafusion_auth.Database.{Database, CodeRow, TokenRow, tokens_revoked}
use metafusion_auth.Accounts.Bans.{Server, issued_where, revoke_issued}
use metafusion_auth.Pat.Plaintext.{prepend}
use metafusion_auth.Oauth.Clients.{can_manage_oauth}
use metafusion_auth.Oauth.Clients.Manage.{get_oauth_client, record_oauth_audit, actor_text}

-- The column that a revocation goes by.
pub data Column : Type 0 where
  client_id user_id : Column

abbrev pub code_column : Column → CodeRow → String
code_column client_id r = r.client_id
code_column user_id r = r.user_id

abbrev pub token_column : Column → TokenRow → String
token_column client_id t = t.client_id
token_column user_id t = t.user_id

-- The deletion of unexpired tokens and of codes that wait for their exchange.
unfoldable pub end_grants : Database → ℕ → (TokenRow → Bool) → (CodeRow → Bool) → Database
end_grants db now p q = record db {
  tokens = keep (λ (t : TokenRow). not (p t && ltb now t.expires_at)) db.tokens;
  codes = keep (λ (r : CodeRow). not (q r && (not r.used && ltb now r.expires_at))) db.codes;
}

abbrev pub ended_count : Database → ℕ → (TokenRow → Bool) → ℕ
ended_count db now p = count (λ (t : TokenRow). p t && ltb now t.expires_at) db.tokens

-- `revokeOAuthTokens` at `now`: how many tokens ended, and the server.
unfoldable pub revoke_oauth_tokens :
    Server → ℕ → Column → (value audit_client detail : String) → Option User → Result (ℕ × Server)
unfolding can_manage_oauth end_grants record_oauth_audit issued_where revoke_issued
revoke_oauth_tokens s now column value audit_client detail actor = do
  reject_if (not (can_manage_oauth actor)) forbidden
  reject_if (value == "") invalid_revoke_target
  let p : TokenRow → Bool = λ t. token_column column t == value
  let q : CodeRow → Bool = λ r. code_column column r == value
  ok (
    ended_count s.db now p,
    record s {
      db =
          record_oauth_audit (end_grants s.db now p q) (actor_text actor) "" audit_client
            tokens_revoked [] detail;
      issuer = revoke_issued s.issuer (issued_where p s.db now);
    },
  )

-- `RevokeOAuthTokensByClient`
unfoldable pub revoke_by_client : Server → ℕ → String → Option User → Result (ℕ × Server)
unfolding revoke_oauth_tokens trim
revoke_by_client s now id actor = revoke_oauth_tokens s now client_id (trim id) (trim id) "" actor

-- `RevokeOAuthTokensByUser`
unfoldable pub revoke_by_user : Server → ℕ → String → Option User → Result (ℕ × Server)
unfolding revoke_oauth_tokens trim
revoke_by_user s now id actor =
    revoke_oauth_tokens s now user_id (trim id) "" (prepend "user:" (trim id)) actor

-- `RevokeOwnOAuthGrant` at `now`
unfoldable pub revoke_own_grant : Server → ℕ → (user client : String) → Result (ℕ × Server)
unfolding trim get_oauth_client end_grants record_oauth_audit issued_where revoke_issued
revoke_own_grant s now raw_user raw_client = do
  let user = trim raw_user
  let client = trim raw_client
  reject_if (user == "") authentication_required
  reject_if (client == "") invalid_client
  found ← require (get_oauth_client s.db client) client_not_found
  let p : TokenRow → Bool = λ t. t.user_id == user && t.client_id == client
  let q : CodeRow → Bool = λ r. r.user_id == user && r.client_id == client
  ok (
    ended_count s.db now p,
    record s {
      db =
          record_oauth_audit (end_grants s.db now p q) user user client tokens_revoked []
            "self_service";
      issuer = revoke_issued s.issuer (issued_where p s.db now);
    },
  )
