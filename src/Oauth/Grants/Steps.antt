-- ===== src/Oauth/Grants/Steps.antt =====
-- What the operations do to the codes.
use metafusion_auth.Prelude.{
  ℕ, ◌+◌, String, Bool, true, false, not, ◌&&◌, ◌||◌, ◌==◌, Option, none, some, List, [], ◌∷◌, ◌++◌,
  ◌≡◌, refl, ap, subst, any, keep, update_where, if◌then◌else◌, Result, ok, Error, reject_if-passes,
  ok-injective, >>=-eq-ok, arith, require, invalid_client, invalid_scope, invalid_redirect_uri,
  invalid_code_challenge_method, database_conflict, forbidden, invalid_client_id,
  invalid_client_name, client_exists, client_not_found, app_managed_fields, seeded_client_immutable,
  invalid_revoke_target, authentication_required,
}
use metafusion_auth.Text.{trim}
use metafusion_auth.Access.{User}
use metafusion_auth.Database.{Database, CodeRow, ClientRow}
use metafusion_auth.Accounts.Bans.{Server, write_ban}
use metafusion_auth.Oauth.Scopes.{
  parse_scopes, converge_scopes, format_scopes, is_empty, supported_scopes,
}
use metafusion_auth.Oauth.Clients.{
  Url, validate_client_scopes, validate_client_description, validate_homepage_url,
  validate_redirect_uris, valid_client_id, can_manage_oauth, redirect_uri_allowed,
}
use metafusion_auth.Oauth.Clients.Manage.{
  OauthClientInput, create_client, update_client, rotate_client, delete_client, record_oauth_audit,
  write_update, drop_client, get_oauth_client, bad_client_name, given, normalized, has_client_id,
  names_managed, check_update, locked_client,
}
use metafusion_auth.Oauth.Codes.{
  create_oauth_code, has_code_text, has_owner_rows, challenge_method, code_ttl,
}
use metafusion_auth.Oauth.Revoke.{revoke_own_grant, revoke_oauth_tokens, end_grants, Column}

-- The changes of the codes other than an issue.
pub data CodeStep (rows : List CodeRow) : List CodeRow → Type 0 where
  stay : CodeStep rows rows
  drop : (q : CodeRow → Bool) → CodeStep rows (keep q rows)
  spend :
      (p : CodeRow → Bool)
      → CodeStep rows (update_where p (λ (r : CodeRow). record r { used = true }) rows)

-- What an authorisation code that was issued has passed, and its row.
pub record Issued (db : Database) (now : ℕ)
    (code client_id user_id redirect_uri requested_scope challenge method : String) (db' : Database)
    (shown : String) : Type 0 where
  pub client : ClientRow
  pub requested : List String
  pub row : CodeRow
  pub found : get_oauth_client db client_id ≡ some client
  pub enabled : client.disabled ≡ false
  pub parsed : parse_scopes requested_scope ≡ ok requested
  pub granted : is_empty (converge_scopes requested client.scopes) ≡ false
  pub allowed : redirect_uri_allowed client.redirect_uris redirect_uri ≡ true
  pub fresh : any (has_code_text code) db.codes ≡ false
  pub added : record db { codes = db.codes ++ row ∷ [] } ≡ db'
  pub scope_shown : format_scopes (converge_scopes requested client.scopes) ≡ shown
  pub code_of : row.code ≡ code
  pub client_of : row.client_id ≡ client_id
  pub user_of : row.user_id ≡ user_id
  pub uri_of : row.redirect_uri ≡ redirect_uri
  pub scope_of : row.scope ≡ shown
  pub challenge_of : row.code_challenge ≡ challenge
  pub method_of : row.code_challenge_method ≡ method
  pub unused : row.used ≡ false
  pub expiry : row.expires_at ≡ now + code_ttl

require-some : {A : Type 0} (o : Option A) (x : Error) (a : A) → require o x ≡ ok a → o ≡ some a
require-some none x a e = cc
require-some (some b) x a e = ap some (ok-injective b a e)

pub create_oauth_code-Issued :
    (to_upper : String → String) (db : Database) (now : ℕ)
    (code client user uri scope challenge method : String) (r : Database × String)
    → create_oauth_code to_upper db now code client user uri scope challenge method ≡ ok r
    → Issued db now code client user uri scope
        (trim challenge)
        (challenge_method to_upper (trim challenge) method)
        r.0
        r.1
unfolding create_oauth_code
create_oauth_code-Issued to_upper db now code client user uri scope challenge method r e =
    let (c, f, e1) = >>=-eq-ok (require (get_oauth_client db client) invalid_client) _ e in
    let (d, e2) = reject_if-passes c.disabled invalid_client _ e1 in
    let (q, p, e3) = >>=-eq-ok (parse_scopes scope) _ e2 in
    let (g, e4) =
      reject_if-passes (is_empty (converge_scopes q c.scopes)) (invalid_scope "") _ e3 in
    let (u, e5) =
      reject_if-passes (not (redirect_uri_allowed c.redirect_uris uri)) invalid_redirect_uri _ e4 in
    let (_, e6) =
      reject_if-passes
        (not (trim challenge == "")
          && not (
              challenge_method to_upper (trim challenge) method == "S256"
              || challenge_method to_upper (trim challenge) method == "PLAIN"))
        invalid_code_challenge_method _ e5 in
    let (n, e7) =
      reject_if-passes (any (has_code_text code) db.codes || not (has_owner_rows db client user))
        database_conflict _ e6 in
    let done = ok-injective _ r e7 in
    record {
      client = c;
      requested = q;
      row = _;
      found = require-some (get_oauth_client db client) invalid_client c f;
      enabled = d;
      parsed = p;
      granted = g;
      allowed = ground (arith, u);
      fresh = ground (arith, n);
      added = ap (λ (r : Database × String). r.0) done;
      scope_shown = ap (λ (r : Database × String). r.1) done;
      code_of = refl;
      client_of = refl;
      user_of = refl;
      uri_of = refl;
      scope_of = ap (λ (r : Database × String). r.1) done;
      challenge_of = refl;
      method_of = refl;
      unused = refl;
      expiry = refl;
    }

module _ (parse_url : String → Option Url) (bcrypt : String → String) where
  pub create_client-codes :
      (db : Database) (now : ℕ) (generated secret : String) (input : OauthClientInput)
      (actor : Option User) (owner : String) (privileged : Bool) (r : Database × ClientRow)
      → create_client parse_url bcrypt db now generated secret input actor owner privileged ≡ ok r
      → db.codes ≡ r.0.codes
  unfolding create_client record_oauth_audit
  create_client-codes db now generated secret input actor owner privileged r e =
      let id = if trim input.id == "" then generated else trim input.id in
      let (_, e1) = reject_if-passes (not (valid_client_id id)) invalid_client_id _ e in
      let (_, e2) =
        reject_if-passes (bad_client_name (trim (given input.name ""))) invalid_client_name _ e1 in
      let (_, _, e3) =
        >>=-eq-ok (validate_client_description (trim (given input.description ""))) _ e2 in
      let (_, _, e4) =
        >>=-eq-ok (validate_homepage_url parse_url (trim (given input.homepage_url ""))) _ e3 in
      let (_, _, e5) =
        >>=-eq-ok (validate_client_scopes (given (normalized input.scopes) supported_scopes)) _
          e4 in
      let (_, _, e6) =
        >>=-eq-ok (validate_redirect_uris parse_url (given (normalized input.redirect_uris) [])) _
          e5 in
      let (_, e7) = reject_if-passes (any (has_client_id id) db.clients) client_exists _ e6 in
      ap (λ (r : Database × ClientRow). r.0.codes) (ok-injective _ r e7)

  write_update-codes :
      (db : Database) (id : String) (input : OauthClientInput) (actor : Option User)
      (privileged : Bool) (columns : List String)
      → db.codes ≡ (write_update parse_url bcrypt db id input actor privileged columns).codes
  unfolding write_update record_oauth_audit
  write_update-codes db id input actor privileged [] = refl
  write_update-codes db id input actor privileged (c ∷ cs) = refl

  pub update_client-codes :
      (db db' : Database) (id : String) (input : OauthClientInput) (actor : Option User)
      (privileged : Bool) (check : ClientRow → Result (Unit {0}))
      → update_client parse_url bcrypt db id input actor privileged check ≡ ok db'
      → db.codes ≡ db'.codes
  unfolding update_client
  update_client-codes db db' id input actor privileged check e =
      let (_, e1) = reject_if-passes (not (valid_client_id (trim id))) invalid_client_id _ e in
      let (_, e2) =
        reject_if-passes (not privileged && names_managed parse_url bcrypt input) app_managed_fields
          _ e1 in
      let (_, _, e3) = >>=-eq-ok (check_update parse_url bcrypt input) _ e2 in
      let (_, _, e4) = >>=-eq-ok (locked_client parse_url bcrypt db (trim id) check) _ e3 in
      rw (← ok-injective _ db' e4) (write_update-codes db (trim id) input actor privileged _)

  pub rotate_client-codes :
      (db db' : Database) (id secret : String) (actor : Option User)
      (check : ClientRow → Result (Unit {0}))
      → rotate_client parse_url bcrypt db id secret actor check ≡ ok db'
      → db.codes ≡ db'.codes
  unfolding rotate_client record_oauth_audit
  rotate_client-codes db db' id secret actor check e =
      let (_, e1) = reject_if-passes (not (valid_client_id (trim id))) invalid_client_id _ e in
      let (_, _, e2) = >>=-eq-ok (locked_client parse_url bcrypt db (trim id) check) _ e1 in
      ap (λ (db : Database). db.codes) (ok-injective _ db' e2)

  pub delete_client-codes :
      (s s' : Server) (now : ℕ) (id : String) (actor : Option User)
      (check : ClientRow → Result (Unit {0}))
      → delete_client parse_url bcrypt s now id actor check ≡ ok s'
      → keep (λ (c : CodeRow). not (c.client_id == trim id)) s.db.codes ≡ s'.db.codes
  unfolding delete_client record_oauth_audit drop_client
  delete_client-codes s s' now id actor check e =
      let (_, e1) = reject_if-passes _ seeded_client_immutable _ e in
      let (_, _, e2) = >>=-eq-ok (locked_client parse_url bcrypt s.db (trim id) check) _ e1 in
      ap (λ (s : Server). s.db.codes) (ok-injective _ s' e2)

pub revoke_oauth_tokens-codes :
    (s : Server) (now : ℕ) (column : Column) (value audit detail : String) (actor : Option User)
    (r : ℕ × Server)
    → revoke_oauth_tokens s now column value audit detail actor ≡ ok r
    → CodeStep s.db.codes r.1.db.codes
unfolding revoke_oauth_tokens end_grants record_oauth_audit
revoke_oauth_tokens-codes s now column value audit detail actor r e =
    let (_, e1) = reject_if-passes (not (can_manage_oauth actor)) forbidden _ e in
    let (_, e2) = reject_if-passes (value == "") invalid_revoke_target _ e1 in
    subst (λ (r : ℕ × Server). CodeStep s.db.codes r.1.db.codes) (ok-injective _ r e2) (drop _)

pub revoke_own_grant-codes :
    (s : Server) (now : ℕ) (user client : String) (r : ℕ × Server)
    → revoke_own_grant s now user client ≡ ok r
    → CodeStep s.db.codes r.1.db.codes
unfolding revoke_own_grant end_grants record_oauth_audit
revoke_own_grant-codes s now user client r e =
    let (_, e1) = reject_if-passes (trim user == "") authentication_required _ e in
    let (_, e2) = reject_if-passes (trim client == "") invalid_client _ e1 in
    let (_, _, e3) =
      >>=-eq-ok (require (get_oauth_client s.db (trim client)) client_not_found) _ e2 in
    subst (λ (r : ℕ × Server). CodeStep s.db.codes r.1.db.codes) (ok-injective _ r e3) (drop _)

pub write_ban-codes :
    (db : Database) (id : String) (banned : Bool) (now : ℕ)
    → CodeStep db.codes (write_ban db id banned now).codes
unfolding write_ban
write_ban-codes db id true now = drop _
write_ban-codes db id false now = stay
