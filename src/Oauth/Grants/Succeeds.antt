-- ===== src/Oauth/Grants/Succeeds.antt =====
-- That a code that was issued can be exchanged.
use metafusion_auth.Prelude.{
  ℕ, ◌+◌, ◌<◌, String, Bool, true, false, not, ◌&&◌, ◌==◌, some, List, [], ◌∷◌, ◌++◌, ◌≡◌, refl, ap,
  ◌∙◌, any, find, map, contains, ok, is_ok, Result-cases, inl, inr, eq_iff, eq_refl, arith,
}
use metafusion_auth.Text.{trim}
use metafusion_auth.Access.{User}
use metafusion_auth.Database.{Database, CodeRow, ClientRow, UserRow}
use metafusion_auth.Token.{Codec, TokenIssuer, sign, sign_oauth}
use metafusion_auth.Accounts.Bans.{Server}
use metafusion_auth.Oauth.Scopes.{converge_scopes, is_empty, oauth_token_user}
use metafusion_auth.Oauth.Scopes.Laws.{converge_scopes-eq}
use metafusion_auth.Oauth.Clients.Manage.{get_oauth_client}
use metafusion_auth.Oauth.Codes.{
  create_oauth_code, challenge_method, verify_pkce, code_ttl, has_code_text,
}
use metafusion_auth.Oauth.Exchange.{
  exchange_oauth_code, is_redeemable, check_exchange, check_client, granted_now, mark_code_used,
  has_token_hash, plain_user, redeem, issue_grant, sign_for_user, store_token,
}
use metafusion_auth.Oauth.Grants.Steps.{create_oauth_code-Issued}
use metafusion_auth.Oauth.Grants.Scope.{granted_now-Issued}

-- Signing succeeds with a key.
sign_oauth-succeeds :
    (codec : Codec) (t : TokenIssuer) (now : ℕ) (jti : String) (u : User) (client_id : String)
    (scopes : List String)
    → t.has_key ≡ true
    → (trim client_id == "") ≡ false
    → (signed : String × ℕ) × (sign_oauth codec t now jti u client_id scopes ≡ ok signed)
unfolding sign_oauth sign
sign_oauth-succeeds codec t now jti u client_id scopes key named =
    elim (Result-cases (sign_oauth codec t now jti u client_id scopes)) [
      | inl signed ↦ signed
      | inr (x, e) ↦ let failed = rw (named, key) at e in cc
    ]

find-last :
    (rows : List CodeRow) (row : CodeRow) (now : ℕ) (code client : String)
    → any (has_code_text code) rows ≡ false
    → is_redeemable now code client row ≡ true
    → find (is_redeemable now code client) (rows ++ row ∷ []) ≡ some row
find-last [] row now code client fresh live = rw live refl
find-last (r ∷ rows) row now code client fresh live =
    let skipped : is_redeemable now code client r ≡ false = ground (arith, fresh) in
    rw skipped (find-last rows row now code client (ground (arith, fresh)) live)

not_empty : (xs : List String) (s : String) → contains xs s ≡ true → is_empty xs ≡ false
not_empty [] s h = cc
not_empty (x ∷ xs) s h = refl

again_from :
    (scopes allowed : List String)
    → map trim scopes ≡ scopes
    → ((s : String) → contains scopes s ≡ true → contains (map trim allowed) s ≡ true)
    → is_empty scopes ≡ false
    → is_empty (converge_scopes scopes allowed) ≡ false
again_from [] allowed trimmed among e = cc
again_from (w ∷ ws) allowed trimmed among e =
    let here : contains (w ∷ ws) w ≡ true = ground (arith, eq_refl w) in
    let (_, kept) = converge_scopes-eq (w ∷ ws) allowed w in
    not_empty _ w (
      kept
      ∙ (ap (λ scopes. contains scopes w && contains (map trim allowed) w) trimmed
          ∙ ground (arith, here, among w here)))

-- Scopes that a client may ask for are not lost when they are converged again.
converge_scopes-again :
    (requested allowed : List String)
    → map trim (converge_scopes requested allowed) ≡ converge_scopes requested allowed
    → is_empty (converge_scopes requested allowed) ≡ false
    → is_empty (converge_scopes (converge_scopes requested allowed) allowed) ≡ false
converge_scopes-again requested allowed trimmed =
    again_from (converge_scopes requested allowed) allowed trimmed
      λ s e. let (_, kept) = converge_scopes-eq requested allowed s in ground (arith, kept, e)

module _ (is_password : (stored password : String) → Bool)
    (sha256_base64 sha256_hex : String → String) (codec : Codec) where
  sign_for_user-succeeds :
      (s : Server) (now : ℕ) (client_id jti : String) (granted : List String) (owner : UserRow)
      → s.issuer.has_key ≡ true
      → (trim client_id == "") ≡ false
      → ((u : User) (scopes : List String) (signed : String × ℕ)
          → sign_oauth codec s.issuer now jti u client_id scopes ≡ ok signed
          → any
              (has_token_hash is_password sha256_base64 sha256_hex codec (sha256_hex signed.0))
              s.db.tokens
            ≡ false)
      → is_ok
          (sign_for_user is_password sha256_base64 sha256_hex codec s now client_id jti granted
            (some owner)).0
        ≡ true
  unfolding sign_for_user store_token
  sign_for_user-succeeds s now client_id jti granted owner key named new =
      let u = oauth_token_user (plain_user owner) granted in
      let (signed, e) = sign_oauth-succeeds codec s.issuer now jti u client_id granted key named in
      rw (e, new u granted signed e) refl

  issue_grant-succeeds :
      (s : Server) (now : ℕ) (client_id jti : String) (client : ClientRow) (row : CodeRow)
      (owner : UserRow)
      → is_empty (granted_now client row) ≡ false
      → find (λ (u : UserRow). u.id == row.user_id) s.db.users ≡ some owner
      → s.issuer.has_key ≡ true
      → (trim client_id == "") ≡ false
      → ((u : User) (scopes : List String) (signed : String × ℕ)
          → sign_oauth codec s.issuer now jti u client_id scopes ≡ ok signed
          → any
              (has_token_hash is_password sha256_base64 sha256_hex codec (sha256_hex signed.0))
              s.db.tokens
            ≡ false)
      → is_ok
          (issue_grant is_password sha256_base64 sha256_hex codec s now client_id jti client row).0
        ≡ true
  unfolding issue_grant
  issue_grant-succeeds s now client_id jti client row owner granted holder key named new =
      rw (granted, holder)
        (sign_for_user-succeeds s now client_id jti (granted_now client row) owner key named new)

  check_exchange-succeeds :
      (db : Database) (now : ℕ) (client_id secret code uri verifier : String) (client : ClientRow)
      (row : CodeRow)
      → get_oauth_client db client_id ≡ some client
      → check_client is_password client secret ≡ ok tt
      → find (is_redeemable now (trim code) client_id) db.codes ≡ some row
      → row.redirect_uri ≡ uri
      → verify_pkce sha256_base64 row.code_challenge_method row.code_challenge verifier ≡ true
      → check_exchange is_password sha256_base64 db now client_id secret code uri verifier
        ≡ ok (client, row)
  unfolding check_exchange
  check_exchange-succeeds db now client_id secret code uri verifier client row registered
        credentials live same verified =
      let same_uri : (not (uri == "") && not (uri == row.redirect_uri)) ≡ false =
        ground (arith, eq_iff uri row.redirect_uri, same) in
      rw (registered, credentials, live, same_uri, verified) refl

  -- While the server stays as the issue of a code left it, the code is exchanged for a grant: before
  -- it expires, by its client with the right credentials, with the redirect address of its issue and
  -- a verifier that fits the challenge, when the issuer has a key, the account exists and the token
  -- that is signed is new.
  pub exchange-create_oauth_code :
      (to_upper : String → String) (s : Server) (now later : ℕ)
      (jti code client_id user_id uri scope challenge method secret verifier : String)
      (r : Database × String) (client : ClientRow) (owner : UserRow)
      → create_oauth_code to_upper s.db now code client_id user_id uri scope challenge method ≡ ok r
      → trim code ≡ code
      → later < now + code_ttl
      → get_oauth_client s.db client_id ≡ some client
      → check_client is_password client secret ≡ ok tt
      → verify_pkce sha256_base64
          (challenge_method to_upper (trim challenge) method)
          (trim challenge)
          verifier
        ≡ true
      → find (λ (u : UserRow). u.id == user_id) s.db.users ≡ some owner
      → s.issuer.has_key ≡ true
      → (trim client_id == "") ≡ false
      → ((u : User) (scopes : List String) (signed : String × ℕ)
          → sign_oauth codec s.issuer later jti u client_id scopes ≡ ok signed
          → any
              (has_token_hash is_password sha256_base64 sha256_hex codec (sha256_hex signed.0))
              s.db.tokens
            ≡ false)
      → is_ok
          (exchange_oauth_code is_password sha256_base64 sha256_hex codec
            (record s { db = r.0 })
            later
            jti
            client_id
            secret
            code
            uri
            verifier).0
        ≡ true
  unfolding exchange_oauth_code redeem get_oauth_client mark_code_used
  exchange-create_oauth_code to_upper s now later jti code client_id user_id uri scope challenge
        method secret verifier r client owner e whole young registered credentials verified holder
        key named new =
      let issued =
        create_oauth_code-Issued to_upper s.db now code client_id user_id uri scope challenge method
          r e in
      let same_client : issued.client ≡ client = (let found = issued.found in cc) in
      let (again, trimmed) = granted_now-Issued issued client in
      let checked =
        check_exchange-succeeds (record s.db { codes = s.db.codes ++ issued.row ∷ [] }) later
          client_id secret code uri verifier client issued.row registered credentials
          (rw (whole) (
            find-last s.db.codes issued.row later code client_id issued.fresh (
              rw (issued.code_of, issued.client_of, issued.unused, issued.expiry)
                (ground (arith, young, eq_refl code, eq_refl client_id)))))
          issued.uri_of (rw (issued.method_of, issued.challenge_of) verified) in
      rw (← issued.added, checked)
        (issue_grant-succeeds _ later client_id jti client issued.row owner
          (rw (again, ← same_client)
            (converge_scopes-again issued.requested issued.client.scopes trimmed issued.granted))
          (rw (issued.user_of) holder) key named new)
