-- ===== src/Oauth/Grants/Redeem.antt =====
-- What an exchange has checked, and what it writes.
use metafusion_auth.Prelude.{
  ℕ, String, Bool, true, false, not, ◌&&◌, ◌||◌, ◌==◌, Option, none, some, List, [], ◌∷◌, ◌++◌, ◌≡◌,
  refl, ap, ◌∙◌, subst, any, find, update_where, if◌then◌else◌, Result, ok, err, Error, is_ok,
  reject_if-passes, ok-injective, >>=-eq-ok, Result-cases, Bool-cases, Option-cases, inl, inr,
  eq_iff, arith, require, ltb, invalid_client, expired_or_used_code, redirect_uri_mismatch,
  invalid_code_verifier, empty_client_id, token_issuer_unavailable, ◌+◌, sym,
}
use metafusion_auth.Text.{trim}
use metafusion_auth.Database.{Database, CodeRow, ClientRow, UserRow}
use metafusion_auth.Token.{Codec, TokenIssuer, access_token_ttl, sign, sign_oauth}
use metafusion_auth.Access.{User}
use metafusion_auth.Accounts.Bans.{Server}
use metafusion_auth.Oauth.Clients.Manage.{get_oauth_client}
use metafusion_auth.Oauth.Codes.{verify_pkce}
use metafusion_auth.Oauth.Exchange.{
  OauthGrant, exchange_oauth_code, is_redeemable, mark_code_used, redeem, issue_grant,
  check_exchange, check_client, sign_for_user, store_token, new_token_row, has_token_hash,
  granted_now, plain_user,
}
use metafusion_auth.Oauth.Scopes.{format_scopes, is_empty, oauth_token_user}

-- Whether a code can be redeemed by a client.
unfoldable pub is_live : Database → ℕ → (code client_id : String) → Bool
is_live db now code client_id = any (is_redeemable now code client_id) db.codes

any-update_where {ℓ} :
    {A : Type ℓ} (p q : A → Bool) (f : A → A) (b : Bool) (xs : List A)
    → ((x : A) → q (if p x then f x else x) ≡ (q x && b))
    → any q (update_where p f xs) ≡ (any q xs && b)
any-update_where p q f b [] h = refl
any-update_where p q f b (x ∷ xs) h = rw (h x, any-update_where p q f b xs h) ground arith

both_equal : (s t u : String) → (s == t && s == u) ≡ (s == t && u == t)
both_equal s t u = ground (arith, eq_iff s t, eq_iff s u, eq_iff u t)

both_equal_first : (s t u : String) → (s == u && s == t) ≡ (s == u && u == t)
both_equal_first s t u = ground (arith, eq_iff s t, eq_iff s u, eq_iff u t)

apply_if {ℓ κ} :
    {A : Type ℓ} {B : Type κ} (q : A → B) (p : Bool) (x y : A)
    → q (if p then x else y) ≡ (if p then q x else q y)
apply_if q true x y = refl
apply_if q false x y = refl

marked_tests :
    (x y x' y' u l e f : Bool)
    → (x && x') ≡ (x && e)
    → (x' && x) ≡ (x' && e)
    → (y && y') ≡ (y && f)
    → (y' && y) ≡ (y' && f)
    → (if x && (y && (u && l)) then x' && (y' && (false && l)) else x' && (y' && (u && l)))
      ≡ (x' && (y' && (u && l)) && not (e && f))
marked_tests x y x' y' u l e f h1 h2 h3 h4 = ground arith

is_redeemable-mark :
    (now : ℕ) (c client c' client' : String) (r : CodeRow)
    → is_redeemable now c' client'
        (if is_redeemable now c client r then record r { used = true } else r)
      ≡ (is_redeemable now c' client' r && not (c' == c && client' == client))
is_redeemable-mark now c client c' client' r =
    apply_if (is_redeemable now c' client') (is_redeemable now c client r)
      (record r { used = true }) r
    ∙ marked_tests (r.code == c) (r.client_id == client) (r.code == c') (r.client_id == client')
        (not r.used) (ltb now r.expires_at) (c' == c) (client' == client) (both_equal r.code c c')
        (both_equal_first r.code c c') (both_equal r.client_id client client')
        (both_equal_first r.client_id client client')

-- Marking a code takes it, and only it, from those that can be redeemed.
pub is_live-mark_code_used :
    (db : Database) (now : ℕ) (c client c' client' : String)
    → is_live (mark_code_used db now c client) now c' client'
      ≡ (is_live db now c' client' && not (c' == c && client' == client))
unfolding is_live mark_code_used
is_live-mark_code_used db now c client c' client' =
    any-update_where (is_redeemable now c client) (is_redeemable now c' client')
      (λ (r : CodeRow). record r { used = true }) _ db.codes
      (is_redeemable-mark now c client c' client')

-- A token that is signed lasts fifteen minutes.
sign_oauth-expiry :
    (codec : Codec) (t : TokenIssuer) (now : ℕ) (jti : String) (u : User) (client_id : String)
    (scopes : List String) (signed : String × ℕ)
    → sign_oauth codec t now jti u client_id scopes ≡ ok signed
    → signed.1 ≡ now + access_token_ttl
unfolding sign_oauth sign
sign_oauth-expiry codec t now jti u client_id scopes signed e =
    let (_, e1) = reject_if-passes (trim client_id == "") empty_client_id _ e in
    let (_, e2) = reject_if-passes (not t.has_key) token_issuer_unavailable _ e1 in
    sym (ap (λ (p : String × ℕ). p.1) (ok-injective _ signed e2))

module _ (is_password : (stored password : String) → Bool)
    (sha256_base64 sha256_hex : String → String) (codec : Codec) where
  -- What was checked before a code was marked.
  pub record Checked (db : Database) (now : ℕ)
      (client_id secret code redirect_uri verifier : String) (client : ClientRow) (row : CodeRow)
      : Type 0 where
    pub registered : get_oauth_client db client_id ≡ some client
    pub credentials : check_client is_password client secret ≡ ok tt
    pub redeemable : find (is_redeemable now (trim code) client_id) db.codes ≡ some row
    pub same_uri : (redirect_uri == "" || redirect_uri == row.redirect_uri) ≡ true
    pub verified :
        verify_pkce sha256_base64 row.code_challenge_method row.code_challenge verifier ≡ true

  require-some : {A : Type 0} (o : Option A) (x : Error) (a : A) → require o x ≡ ok a → o ≡ some a
  require-some none x a e = cc
  require-some (some b) x a e = ap some (ok-injective b a e)

  pub check_exchange-Checked :
      (db : Database) (now : ℕ) (client_id secret code uri verifier : String)
      (r : ClientRow × CodeRow)
      → check_exchange is_password sha256_base64 db now client_id secret code uri verifier ≡ ok r
      → Checked db now client_id secret code uri verifier r.0 r.1
  unfolding check_exchange
  check_exchange-Checked db now client_id secret code uri verifier r e =
      let (c, f, e1) = >>=-eq-ok (require (get_oauth_client db client_id) invalid_client) _ e in
      let (_, k, e2) = >>=-eq-ok (check_client is_password c secret) _ e1 in
      let (row, l, e3) =
        >>=-eq-ok
          (require (find (is_redeemable now (trim code) client_id) db.codes) expired_or_used_code) _
          e2 in
      let (u, e4) =
        reject_if-passes (not (uri == "") && not (uri == row.redirect_uri)) redirect_uri_mismatch _
          e3 in
      let (v, e5) =
        reject_if-passes
          (not (verify_pkce sha256_base64 row.code_challenge_method row.code_challenge verifier))
          invalid_code_verifier _ e4 in
      let here : Checked db now client_id secret code uri verifier c row = record {
        registered = require-some _ invalid_client c f;
        credentials = k;
        redeemable = require-some _ expired_or_used_code row l;
        same_uri = ground (arith, u);
        verified = ground (arith, v);
      } in
      subst (λ (r : ClientRow × CodeRow). Checked db now client_id secret code uri verifier r.0 r.1)
        (ok-injective (c, row) r e5) here

  -- What an exchange that returns a grant has written, after the mark: one token row.
  pub record Granted (s s' : Server) (now : ℕ) (client_id jti : String) (client : ClientRow)
      (row : CodeRow) (grant : OauthGrant) : Type 0 where
    pub expiry : ℕ
    pub expiry_of : expiry ≡ now + access_token_ttl
    pub owner : UserRow
    pub holder : find (λ (u : UserRow). u.id == row.user_id) s.db.users ≡ some owner
    pub user_of : plain_user owner ≡ grant.user
    pub scoped : is_empty (granted_now client row) ≡ false
    pub scope_of : format_scopes (granted_now client row) ≡ grant.scope
    pub fresh :
        any
          (has_token_hash is_password sha256_base64 sha256_hex codec (sha256_hex grant.token))
          s.db.tokens
        ≡ false
    pub added :
        record s {
          db = record s.db {
            tokens =
                s.db.tokens
                ++ new_token_row is_password sha256_base64 sha256_hex codec grant.token client_id
                    grant.user.id grant.scope jti expiry
                  ∷ [];
          };
        }
        ≡ s'

  -- The two ways in which what follows the mark ends.
  unfoldable pub Outcome :
      Server
      → ℕ
      → (client_id jti : String) → ClientRow
      → CodeRow
      → Result OauthGrant
      → Server
      → Type 0
  Outcome s now client_id jti client row (err x) s' = s ≡ s'
  Outcome s now client_id jti client row (ok grant) s' =
      Granted s s' now client_id jti client row grant

  issue_grant-Outcome :
      (s : Server) (now : ℕ) (client_id jti : String) (client : ClientRow) (row : CodeRow)
      → let done =
          issue_grant is_password sha256_base64 sha256_hex codec s now client_id jti client row in
        Outcome s now client_id jti client row done.0 done.1
  unfolding issue_grant sign_for_user store_token Outcome
  issue_grant-Outcome s now client_id jti client row =
      elim (Bool-cases (is_empty (granted_now client row))) [
        | inl none_left ↦ rw (none_left) refl
        | inr left ↦
            rw (left)
              (elim (Option-cases (find (λ (u : UserRow). u.id == row.user_id) s.db.users)) [
                | inl gone ↦ rw (gone) refl
                | inr (owner, here) ↦
                    rw (here)
                      (elim (Result-cases (
                        sign_oauth codec s.issuer now jti
                          (oauth_token_user (plain_user owner) (granted_now client row)) client_id
                          (granted_now client row))) [
                            | inr (x, unsigned) ↦ rw (unsigned) refl
                            | inl (signed, done) ↦
                                rw (done)
                                  (elim (Bool-cases (
                                    any
                                      (has_token_hash is_password sha256_base64 sha256_hex codec
                                        (sha256_hex signed.0))
                                      s.db.tokens)) [
                                        | inl taken ↦ rw (taken) refl
                                        | inr free ↦ rw (free) record {
                                          expiry = signed.1;
                                          expiry_of =
                                              sign_oauth-expiry codec s.issuer now jti
                                                (oauth_token_user (plain_user owner)
                                                  (granted_now client row))
                                                client_id (granted_now client row) signed done;
                                          owner = owner;
                                          holder = here;
                                          user_of = refl;
                                          scoped = left;
                                          scope_of = refl;
                                          fresh = free;
                                          added = refl;
                                        }
                                      ])
                          ])
              ])
      ]

  -- An exchange that has passed the checks marks the code, and what follows the mark is its outcome.
  pub exchange-Outcome :
      (s : Server) (now : ℕ) (jti client_id secret code uri verifier : String) (client : ClientRow)
      (row : CodeRow)
      → check_exchange is_password sha256_base64 s.db now client_id secret code uri verifier
        ≡ ok (client, row)
      → let done =
          exchange_oauth_code is_password sha256_base64 sha256_hex codec s now jti client_id secret
            code uri verifier in
        Outcome
          (record s { db = mark_code_used s.db now (trim code) client_id })
          now
          client_id
          jti
          client
          row
          done.0
          done.1
  unfolding exchange_oauth_code redeem
  exchange-Outcome s now jti client_id secret code uri verifier client row e =
      rw (e) (issue_grant-Outcome _ now client_id jti client row)

  -- An exchange that has not passed the checks fails and changes nothing.
  pub exchange-refused :
      (s : Server) (now : ℕ) (jti client_id secret code uri verifier : String) (x : Error)
      → check_exchange is_password sha256_base64 s.db now client_id secret code uri verifier ≡ err x
      → exchange_oauth_code is_password sha256_base64 sha256_hex codec s now jti client_id secret
          code uri verifier
        ≡ (err x, s)
  unfolding exchange_oauth_code redeem
  exchange-refused s now jti client_id secret code uri verifier x e = rw (e) refl

  Outcome-codes :
      (s s' : Server) (now : ℕ) (client_id jti : String) (client : ClientRow) (row : CodeRow)
      (r : Result OauthGrant)
      → Outcome s now client_id jti client row r s'
      → s.db.codes ≡ s'.db.codes
  unfolding Outcome
  Outcome-codes s s' now client_id jti client row (err x) o = ap (λ (s : Server). s.db.codes) o
  Outcome-codes s s' now client_id jti client row (ok grant) o =
      ap (λ (s : Server). s.db.codes) o.added

  -- The codes after an exchange.
  pub exchange-codes :
      (s : Server) (now : ℕ) (jti client_id secret code uri verifier : String)
      → (if is_ok
            (check_exchange is_password sha256_base64 s.db now client_id secret code uri verifier)
          then (mark_code_used s.db now (trim code) client_id).codes
          else s.db.codes)
        ≡ (exchange_oauth_code is_password sha256_base64 sha256_hex codec s now jti client_id secret
            code uri verifier).1.db.codes
  exchange-codes s now jti client_id secret code uri verifier =
      elim (Result-cases
        (check_exchange is_password sha256_base64 s.db now client_id secret code uri verifier)) [
          | inl (found, e) ↦ rw (e) (
              Outcome-codes _ _ _ _ _ _ _ _
                (exchange-Outcome s now jti client_id secret code uri verifier found.0 found.1 e))
          | inr (x, e) ↦
              rw (e, exchange-refused s now jti client_id secret code uri verifier x e) refl
        ]
