-- ===== src/Oauth/Grants/Outcomes.antt =====
-- What an exchange answers and what it writes, on every branch.
use metafusion_auth.Prelude.{
  ℕ, String, Bool, not, ◌&&◌, ◌==◌, ◌≡◌, refl, sym, ap, ◌∙◌, if◌then◌else◌, Result, ok, err, Error,
  is_ok, Result-cases, Bool-cases, inl, inr, arith,
}
use metafusion_auth.Text.{trim}
use metafusion_auth.Database.{Database, CodeRow, ClientRow}
use metafusion_auth.Token.{Codec}
use metafusion_auth.Accounts.Bans.{Server}
use metafusion_auth.Oauth.Exchange.{OauthGrant, exchange_oauth_code, mark_code_used, check_exchange}
use metafusion_auth.Oauth.Grants.Redeem.{
  is_live, is_live-mark_code_used, Checked, check_exchange-Checked, Granted, Outcome,
  exchange-Outcome, exchange-refused, exchange-codes,
}

module _ (is_password : (stored password : String) → Bool)
    (sha256_base64 sha256_hex : String → String) (codec : Codec) where
  is_live-of_codes :
      (db db' : Database) (now : ℕ) (c client : String)
      → db.codes ≡ db'.codes
      → is_live db now c client ≡ is_live db' now c client
  unfolding is_live
  is_live-of_codes db db' now c client e = rw (e) refl

  -- An exchange acts on the codes that can be redeemed as on a set of one-time entries: when it passes
  -- its checks it takes the entry of this code and client out and leaves every other one, and when it
  -- does not it leaves all of them, whether or not a token is issued in the end.
  pub is_live-exchange_oauth_code :
      (s : Server) (now : ℕ) (jti client_id secret code uri verifier c client : String)
      → is_live
          (exchange_oauth_code is_password sha256_base64 sha256_hex codec s now jti client_id secret
            code uri verifier).1.db
          now
          c
          client
        ≡ (is_live s.db now c client
            && not (
                is_ok (
                  check_exchange is_password sha256_base64 s.db now client_id secret code uri
                    verifier)
                && (c == trim code && client == client_id)))
  is_live-exchange_oauth_code s now jti client_id secret code uri verifier c client =
      let written =
        exchange-codes is_password sha256_base64 sha256_hex codec s now jti client_id secret code
          uri verifier in
      elim (Bool-cases (
        is_ok
          (check_exchange is_password sha256_base64 s.db now client_id secret code uri verifier))) [
            | inl passed ↦
                sym (
                  is_live-of_codes (mark_code_used s.db now (trim code) client_id) _ now c client
                    (rw passed at written))
                ∙ (rw (passed) (is_live-mark_code_used s.db now (trim code) client_id c client))
            | inr failed ↦
                sym (is_live-of_codes s.db _ now c client (rw failed at written))
                ∙ (rw (failed) (ground arith))
          ]

  -- An exchange that returns a grant has passed every check, on one row of the codes and the row of
  -- its client, and has added to the tokens the row of the token that it returns, which no row had.
  pub exchange_oauth_code-Checked :
      (s : Server) (now : ℕ) (jti client_id secret code uri verifier : String) (grant : OauthGrant)
      → (exchange_oauth_code is_password sha256_base64 sha256_hex codec s now jti client_id secret
          code uri verifier).0
        ≡ ok grant
      → (client : ClientRow) × (row : CodeRow) × Checked is_password sha256_base64 sha256_hex codec
          s.db now client_id secret code uri verifier client row
        × Granted is_password sha256_base64 sha256_hex codec
            (record s { db = mark_code_used s.db now (trim code) client_id })
            (exchange_oauth_code is_password sha256_base64 sha256_hex codec s now jti client_id
              secret code uri verifier).1
            now
            client_id
            jti
            client
            row
            grant
  unfolding Outcome
  exchange_oauth_code-Checked s now jti client_id secret code uri verifier grant e =
      elim (Result-cases
        (check_exchange is_password sha256_base64 s.db now client_id secret code uri verifier)) [
          | inl (found, passed) ↦ (
            found.0,
            found.1,
            check_exchange-Checked is_password sha256_base64 sha256_hex codec s.db now client_id
                secret code uri verifier found passed,
            (let outcome =
                  exchange-Outcome is_password sha256_base64 sha256_hex codec s now jti client_id
                    secret code uri verifier found.0 found.1 passed in
                rw e at outcome),
          )
          | inr (x, failed) ↦
              let refused =
                exchange-refused is_password sha256_base64 sha256_hex codec s now jti client_id
                  secret code uri verifier x failed in
              cc
        ]

  -- An exchange that fails issues nothing: the server is as it was, save that the code is marked when
  -- the checks had passed.
  pub exchange_oauth_code-err :
      (s : Server) (now : ℕ) (jti client_id secret code uri verifier : String) (x : Error)
      → (exchange_oauth_code is_password sha256_base64 sha256_hex codec s now jti client_id secret
          code uri verifier).0
        ≡ err x
      → (exchange_oauth_code is_password sha256_base64 sha256_hex codec s now jti client_id secret
          code uri verifier).1
        ≡ (if is_ok
              (check_exchange is_password sha256_base64 s.db now client_id secret code uri verifier)
            then record s { db = mark_code_used s.db now (trim code) client_id }
            else s)
  unfolding Outcome
  exchange_oauth_code-err s now jti client_id secret code uri verifier x e =
      elim (Result-cases
        (check_exchange is_password sha256_base64 s.db now client_id secret code uri verifier)) [
          | inl (found, passed) ↦
              let outcome =
                exchange-Outcome is_password sha256_base64 sha256_hex codec s now jti client_id
                  secret code uri verifier found.0 found.1 passed in
              rw (passed) (sym (rw e at outcome))
          | inr (y, failed) ↦
              let refused =
                exchange-refused is_password sha256_base64 sha256_hex codec s now jti client_id
                  secret code uri verifier y failed in
              rw (failed) (ap (λ (r : Result OauthGrant × Server). r.1) refused)
        ]
