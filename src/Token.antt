-- ===== src/Token.antt =====
-- The signed account tokens of internal/store/token.go: claims, the issuer with its revoked token
-- ids and its registered audiences, signing, verification and revocation. Base64, JSON and RSA are
-- parameters: a `Codec` reads and writes the three parts of a token. A time is in nanoseconds;
-- claims and revocations hold whole seconds.
pub mod Final
use Prim.Native.Char.{Char, code}
use Prim.Native.String.{[], ◌∷◌}
use mathlib.Core.List as List
use metafusion_auth.Prelude.{
  ℕ, ◌+◌, ◌/◌, String, List, Bool, true, false, not, ◌&&◌, ◌||◌, ◌==◌, Option, none, some, any,
  keep, find, contains, ltb, leb, nat_eq, if◌then◌else◌, Result, ok, err, Error, reject_if, require,
  ◌>>=◌, ◌>>◌, token_issuer_unavailable, malformed_token, malformed_header, unexpected_algorithm,
  malformed_signature, bad_signature, malformed_payload, bad_token_use, token_expired, bad_issuer,
  bad_audience, missing_subject, token_revoked, empty_audience, empty_client_id,
}
use metafusion_auth.Text.{trim}
use metafusion_auth.Access.{TokenUse, session, oauth, id_token, User}
use metafusion_auth.Oauth.Scopes.{push_first, format_scopes, oauth_token_user}

pub record Claims : Type 0 where
  pub subject : String
  pub username : String
  pub email : String
  pub groups : List String
  pub permissions : List String
  pub issuer : String
  pub audience : String
  pub issued_at : ℕ
  pub expires : ℕ
  pub jti : String
  pub token_use : TokenUse
  pub client_id : String
  pub scope : String

-- `AccessTokenTTL`, fifteen minutes
abbrev pub access_token_ttl : ℕ
access_token_ttl = 900000000000

-- `Unix` of a time
abbrev pub unix : ℕ → ℕ
unix now = now / 1000000000

-- `validTokenUse`
abbrev pub valid_token_use : TokenUse → Bool
valid_token_use session = true
valid_token_use oauth = true
valid_token_use id_token = true
valid_token_use _ = false

-- An entry of the map `revoked`.
pub record Revocation : Type 0 where
  pub jti : String
  pub expires : ℕ

-- `TokenIssuer`. `has_key` says that the issuer stands and has its private key.
pub record TokenIssuer : Type 0 where
  pub has_key : Bool
  pub issuer : String
  pub audience : String
  pub revoked : List Revocation
  pub audiences : List String

-- What reads and writes the parts of a token. The readers give `none` for a part that is no
-- base64 or no JSON of the expected form; a negative expiry reads as 0.
pub record Codec : Type 0 where
  pub read_algorithm : String → Option String
  pub read_signature : String → Option String
  pub read_claims : String → Option Claims
  pub is_signed : (text signature : String) → Bool
  pub write_claims : Claims → String
  pub header : String
  pub sign_text : String → String

-- `strings.Split(token, ".")`
unfoldable pub split_dots : String → List String
split_dots [] = List.◌∷◌ [] List.[]
split_dots (c ∷ s) =
    let rest = split_dots s in if nat_eq (code c) 46 then List.◌∷◌ [] rest else push_first c rest

unfoldable pub join_dot : String → String → String
join_dot [] b = "." ∷ b
join_dot (c ∷ a) b = c ∷ join_dot a b

-- The part of `Verify` that reads three parts and checks their signature.
unfoldable pub read_parts : Codec → String → String → String → Result Claims
unfolding join_dot
read_parts codec header payload signature = do
  algorithm ← require (codec.read_algorithm header) malformed_header
  reject_if (not (algorithm == "RS256")) unexpected_algorithm
  sig ← require (codec.read_signature signature) malformed_signature
  reject_if (not (codec.is_signed (join_dot header payload) sig)) bad_signature
  require (codec.read_claims payload) malformed_payload

unfoldable pub read_list : Codec → List String → Result Claims
unfolding read_parts
read_list codec (List.◌∷◌ a (List.◌∷◌ b (List.◌∷◌ c List.[]))) = read_parts codec a b c
read_list codec _ = err malformed_token

unfoldable pub read_token : Codec → String → Result Claims
unfolding split_dots read_list
read_token codec token = read_list codec (split_dots token)

-- `exp, bad := t.revoked[jti]; bad && now < exp`
abbrev pub is_revoked : List Revocation → ℕ → String → Bool
is_revoked revoked now jti = elim (find (λ (r : Revocation). r.jti == jti) revoked) [
  | none ↦ false
  | some r ↦ ltb now r.expires
]

-- The part of `Verify` that judges the claims, at a time in seconds.
unfoldable pub check_claims : TokenIssuer → ℕ → Claims → Result Claims
check_claims t now claims = do
  reject_if (not (valid_token_use claims.token_use)) bad_token_use
  reject_if (nat_eq claims.expires 0 || leb claims.expires now) token_expired
  reject_if (not (claims.issuer == t.issuer)) bad_issuer
  reject_if (not (contains t.audiences claims.audience)) bad_audience
  reject_if (claims.subject == "") missing_subject
  reject_if (is_revoked t.revoked now claims.jti) token_revoked
  ok claims

-- The lazy clean-up at the end of `Verify`.
abbrev pub purge : ℕ → List Revocation → List Revocation
purge now revoked = keep (λ (r : Revocation). ltb now r.expires) revoked

abbrev pub after_verify : TokenIssuer → ℕ → Result Claims → TokenIssuer
after_verify t now (err e) = t
after_verify t now (ok c) = record t { revoked = purge now t.revoked }

-- The verdict of `Verify` at `now`.
unfoldable pub judge : Codec → TokenIssuer → ℕ → String → Result Claims
unfolding read_token check_claims
judge codec t now token = do
  reject_if (not t.has_key) token_issuer_unavailable
  claims ← read_token codec token
  check_claims t (unix now) claims

-- `Verify` at `now`: the verdict, and the issuer afterwards.
unfoldable pub verify : Codec → TokenIssuer → ℕ → String → Result Claims × TokenIssuer
unfolding judge
verify codec t now token =
    (judge codec t now token, after_verify t (unix now) (judge codec t now token))

-- `Revoke`; an entry of the map is replaced.
unfoldable pub revoke : TokenIssuer → String → ℕ → TokenIssuer
revoke t jti expires = if jti == "" then t else record t {
  revoked =
      List.◌∷◌ (record { jti = jti; expires = expires })
        (keep (λ (r : Revocation). not (r.jti == jti)) t.revoked);
}

abbrev pub revoke_claims : TokenIssuer → Result Claims → TokenIssuer
revoke_claims t (err e) = t
revoke_claims t (ok c) = revoke t c.jti c.expires

-- `RevokeToken`
unfoldable pub revoke_token : Codec → TokenIssuer → ℕ → String → TokenIssuer
unfolding verify
revoke_token codec t now token =
    let (verdict, t') = verify codec t now token in revoke_claims t' verdict

-- `sign` at `now` with the generated token id: the token and its expiry.
unfoldable pub sign : Codec → TokenIssuer → ℕ → String → User → String → Result (String × ℕ)
unfolding join_dot
sign codec t now jti u audience = do
  reject_if (not t.has_key) token_issuer_unavailable
  let claims : Claims = record {
    subject = u.id;
    username = u.username;
    email = u.email;
    groups = u.groups;
    permissions = u.permissions;
    issuer = t.issuer;
    audience = audience;
    issued_at = unix now;
    expires = unix (now + access_token_ttl);
    jti = jti;
    token_use = u.token_use;
    client_id = u.client_id;
    scope = u.scope;
  }
  let signing = join_dot codec.header (codec.write_claims claims)
  ok (join_dot signing (codec.sign_text signing), now + access_token_ttl)

-- `Sign`
unfoldable pub sign_session : Codec → TokenIssuer → ℕ → String → User → Result (String × ℕ)
unfolding sign
sign_session codec t now jti u =
    sign codec t now jti (record u { token_use = session; client_id = ""; scope = "" }) t.audience

-- `SignOAuth`
unfoldable pub sign_oauth :
    Codec → TokenIssuer → ℕ → String → User → String → List String → Result (String × ℕ)
unfolding sign format_scopes oauth_token_user
sign_oauth codec t now jti u client_id scopes = do
  reject_if (trim client_id == "") empty_client_id
  sign codec t now jti
      (record (oauth_token_user u scopes) {
        token_use = oauth;
        client_id = trim client_id;
        scope = format_scopes scopes;
      })
      t.audience

-- `SignForAudience`: the audience is registered before anything can fail.
unfoldable pub sign_for_audience :
    Codec → TokenIssuer → ℕ → String → User → String → Result (String × ℕ) × TokenIssuer
unfolding sign
sign_for_audience codec t now jti u audience =
    let t' = record t { audiences = List.◌∷◌ audience t.audiences } in
    if audience == "" then (err empty_audience, t) else (
      sign codec t' now jti (record u { token_use = id_token; client_id = ""; scope = "" })
          audience,
      t',
    )

-- `ClaimsToUser`
unfoldable pub claims_to_user : Claims → User
claims_to_user c = record {
  id = c.subject;
  username = c.username;
  email = c.email;
  display_name = "";
  bio = "";
  groups = c.groups;
  permissions = c.permissions;
  token_use = c.token_use;
  pat_id = "";
  client_id = c.client_id;
  scope = c.scope;
  banned = false;
}
