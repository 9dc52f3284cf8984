-- ===== src/Oauth/Clients/Manage.antt =====
-- The writes of client rows: `createOAuthClient`, `updateOAuthClient`, `rotateOAuthClientSecret`,
-- `deleteOAuthClient` of internal/store/oauth.go with the entries of the administration.
use metafusion_auth.Prelude.{
  ℕ, String, Bool, true, false, not, ◌&&◌, ◌||◌, ◌==◌, Option, none, some, List, [], ◌∷◌, ◌++◌, any,
  contains, keep, find, update_where, sort_by, ltb, if◌then◌else◌, Result, ok, err, reject_if,
  ◌>>=◌, ◌>>◌, forbidden, invalid_client_id, invalid_client_name, client_exists, client_not_found,
  app_managed_fields, seeded_client_immutable,
}
use metafusion_auth.Text.{trim, rune_count}
use metafusion_auth.Access.{User}
use metafusion_auth.Database.{
  Database, ClientRow, CodeRow, TokenRow, OauthAction, client_create, client_update,
  client_secret_rotated, client_deleted, is_none,
}
use metafusion_auth.Pat.Lifecycle.{text_before}
use metafusion_auth.Pat.Plaintext.{prepend}
use metafusion_auth.Accounts.Bans.{Server, issued_where, revoke_issued}
use metafusion_auth.Oauth.Scopes.{supported_scopes}
use metafusion_auth.Oauth.Clients.{
  Url, validate_client_scopes, validate_client_description, validate_homepage_url,
  validate_redirect_uris, normalize_strings, valid_client_id, can_manage_oauth,
}

-- `OAuthClientInput`; a field is `none` where the request does not name it.
pub record OauthClientInput : Type 0 where
  pub id : String
  pub name : Option String
  pub description : Option String
  pub homepage_url : Option String
  pub redirect_uris : Option (List String)
  pub scopes : Option (List String)
  pub trusted : Option Bool
  pub disabled : Option Bool
  pub verified : Option Bool

abbrev pub seeded_client_ids : List String
seeded_client_ids = "metafusion-catalog" ∷ "metafusion-forum" ∷ "metafusion-resources" ∷ []

abbrev pub given {ℓ} : {A : Type ℓ} → Option A → A → A
given none a = a
given (some b) a = b

abbrev pub has_client_id : String → ClientRow → Bool
has_client_id id c = c.id == id

-- `GetOAuthClient`
unfoldable pub get_oauth_client : Database → String → Option ClientRow
get_oauth_client db id = find (has_client_id (trim id)) db.clients

-- `ListOAuthClients`, `ORDER BY c.id`
unfoldable pub list_oauth_clients : Database → List ClientRow
unfolding sort_by
list_oauth_clients db = sort_by (λ (c d : ClientRow). text_before c.id d.id) db.clients

-- `nullableUUID`
abbrev pub nullable_uuid : String → Option String
nullable_uuid id = if trim id == "" then none else some id

abbrev pub actor_text : Option User → String
actor_text none = ""
actor_text (some u) = u.id

-- `recordOAuthAuditTx`
unfoldable pub record_oauth_audit :
    Database → (actor subject client : String) → OauthAction → List String → String → Database
record_oauth_audit db actor subject client action scopes detail = record db {
  oauth_audit =
      db.oauth_audit
      ++ record {
        actor_user_id = nullable_uuid actor;
        subject_user_id = nullable_uuid subject;
        client_id = client;
        action = action;
        scopes = scopes;
        detail = detail;
      }
        ∷ [];
}

abbrev pub bad_client_name : String → Bool
bad_client_name name = name == "" || ltb 120 (rune_count name)

abbrev pub normalized : Option (List String) → Option (List String)
normalized none = none
normalized (some strings) = some (normalize_strings strings)

-- `strings.Join` with a comma
abbrev pub join_commas : List String → String
join_commas [] = ""
join_commas (w ∷ []) = w
join_commas (w ∷ v ∷ ws) = prepend w (prepend "," (join_commas (v ∷ ws)))

module _ (parse_url : String → Option Url) (bcrypt : String → String) where
  -- `createOAuthClient` at `now` with the generated id and secret
  unfoldable pub create_client :
      Database
      → ℕ
      → (generated secret : String) → OauthClientInput
      → Option User
      → (owner : String) → (privileged : Bool) → Result (Database × ClientRow)
  unfolding validate_client_description validate_homepage_url normalize_strings
      validate_client_scopes validate_redirect_uris record_oauth_audit
  create_client db now generated secret input actor owner privileged = do
    let id = if trim input.id == "" then generated else trim input.id
    reject_if (not (valid_client_id id)) invalid_client_id
    let name = trim (given input.name "")
    reject_if (bad_client_name name) invalid_client_name
    let description = trim (given input.description "")
    validate_client_description description
    let homepage = trim (given input.homepage_url "")
    validate_homepage_url parse_url homepage
    let scopes = given (normalized input.scopes) supported_scopes
    validate_client_scopes scopes
    let uris = given (normalized input.redirect_uris) []
    validate_redirect_uris parse_url uris
    reject_if (any (has_client_id id) db.clients) client_exists
    let client : ClientRow = record {
      id = id;
      secret_hash = bcrypt secret;
      name = name;
      description = description;
      homepage_url = homepage;
      redirect_uris = uris;
      scopes = scopes;
      trusted = privileged && given input.trusted false;
      disabled = privileged && given input.disabled false;
      verified = privileged && given input.verified false;
      owner_user_id = nullable_uuid owner;
      created_at = now;
    }
    ok (
      record_oauth_audit (record db { clients = db.clients ++ client ∷ [] }) (actor_text actor) ""
          id client_create scopes name,
      client,
    )

  -- The checks of the fields that the request names, in the order of `updateOAuthClient`.
  abbrev pub checked {ℓ} : {A : Type ℓ} → (A → Result (Unit {0})) → Option A → Result (Unit {0})
  checked check none = ok tt
  checked check (some a) = check a

  unfoldable pub check_update : OauthClientInput → Result (Unit {0})
  unfolding validate_client_description validate_homepage_url normalize_strings
      validate_client_scopes validate_redirect_uris
  check_update input = do
    checked (λ name. reject_if (bad_client_name (trim name)) invalid_client_name) input.name
    checked (λ text. validate_client_description (trim text)) input.description
    checked (λ address. validate_homepage_url parse_url (trim address)) input.homepage_url
    checked (λ uris. validate_redirect_uris parse_url (normalize_strings uris)) input.redirect_uris
    checked (λ scopes. validate_client_scopes (normalize_strings scopes)) input.scopes

  abbrev pub names_managed : OauthClientInput → Bool
  names_managed input =
      not (is_none input.trusted) || not (is_none input.disabled) || not (is_none input.verified)

  abbrev column {ℓ} : {A : Type ℓ} → String → Option A → List String
  column name none = []
  column name (some a) = name ∷ []

  abbrev column_if {ℓ} : {A : Type ℓ} → Bool → String → Option A → List String
  column_if false name field = []
  column_if true name field = column name field

  -- The columns that the request names, `changed`.
  unfoldable pub changed_columns : OauthClientInput → (privileged : Bool) → List String
  changed_columns input privileged =
      column "name" input.name
      ++ column "description" input.description
      ++ column "homepage_url" input.homepage_url
      ++ column "redirect_uris" input.redirect_uris
      ++ column "scopes" input.scopes
      ++ column_if privileged "trusted" input.trusted
      ++ column_if privileged "disabled" input.disabled
      ++ column_if privileged "verified" input.verified

  -- `UPDATE ... SET`, with the columns that the request names.
  abbrev pub trimmed : Option String → String → String
  trimmed none old = old
  trimmed (some text) old = trim text

  unfoldable pub set_columns : OauthClientInput → (privileged : Bool) → ClientRow → ClientRow
  unfolding normalize_strings
  set_columns input privileged c = record c {
    name = trimmed input.name c.name;
    description = trimmed input.description c.description;
    homepage_url = trimmed input.homepage_url c.homepage_url;
    redirect_uris = given (normalized input.redirect_uris) c.redirect_uris;
    scopes = given (normalized input.scopes) c.scopes;
    trusted = if privileged then given input.trusted c.trusted else c.trusted;
    disabled = if privileged then given input.disabled c.disabled else c.disabled;
    verified = if privileged then given input.verified c.verified else c.verified;
  }

  -- `lockedClient` and the test that the caller passes on.
  unfoldable pub locked_client :
      Database → String → (ClientRow → Result (Unit {0})) → Result ClientRow
  locked_client db id check = elim (find (has_client_id id) db.clients) [
    | none ↦ err client_not_found
    | some c ↦ check c >> ok c
  ]

  -- The transaction of `updateOAuthClient` on a client that may be changed.
  unfoldable pub write_update :
      Database → String → OauthClientInput → Option User → Bool → List String → Database
  unfolding set_columns record_oauth_audit
  write_update db id input actor privileged [] = db
  write_update db id input actor privileged (c ∷ cs) =
      record_oauth_audit
        (record db {
          clients = update_where (has_client_id id) (set_columns input privileged) db.clients;
        })
        (actor_text actor) "" id client_update [] (join_commas (c ∷ cs))

  -- `updateOAuthClient`
  unfoldable pub update_client :
      Database
      → String
      → OauthClientInput
      → Option User
      → (privileged : Bool) → (ClientRow → Result (Unit {0}))
      → Result Database
  unfolding check_update locked_client changed_columns write_update
  update_client db raw_id input actor privileged check = do
    let id = trim raw_id
    reject_if (not (valid_client_id id)) invalid_client_id
    reject_if (not privileged && names_managed input) app_managed_fields
    check_update input
    c ← locked_client db id check
    ok (write_update db id input actor privileged (changed_columns input privileged))

  -- `rotateOAuthClientSecret`
  unfoldable pub rotate_client :
      Database
      → String
      → (secret : String) → Option User
      → (ClientRow → Result (Unit {0}))
      → Result Database
  unfolding locked_client record_oauth_audit
  rotate_client db raw_id secret actor check = do
    let id = trim raw_id
    reject_if (not (valid_client_id id)) invalid_client_id
    c ← locked_client db id check
    ok (
        record_oauth_audit
          (record db {
            clients =
                update_where (has_client_id id)
                  (λ (c : ClientRow). record c { secret_hash = bcrypt secret }) db.clients;
          })
          (actor_text actor) "" id client_secret_rotated [] "")

  -- The client's row and, by the cascade, its codes and tokens go.
  unfoldable pub drop_client : Database → String → Database
  drop_client db id = record db {
    clients = keep (λ (c : ClientRow). not (c.id == id)) db.clients;
    codes = keep (λ (c : CodeRow). not (c.client_id == id)) db.codes;
    tokens = keep (λ (t : TokenRow). not (t.client_id == id)) db.tokens;
  }

  -- `deleteOAuthClient` at `now`
  unfoldable pub delete_client :
      Server → ℕ → String → Option User → (ClientRow → Result (Unit {0})) → Result Server
  unfolding locked_client record_oauth_audit drop_client issued_where revoke_issued
  delete_client s now raw_id actor check = do
    let id = trim raw_id
    reject_if (contains seeded_client_ids id) seeded_client_immutable
    c ← locked_client s.db id check
    ok (record s {
      db =
          record_oauth_audit (drop_client s.db id) (actor_text actor) "" id client_deleted []
            c.name;
      issuer = revoke_issued s.issuer (issued_where (λ (t : TokenRow). t.client_id == id) s.db now);
    })

  abbrev pub no_check : ClientRow → Result (Unit {0})
  no_check c = ok tt

  -- `CreateOAuthClient`
  unfoldable pub create_oauth_client :
      Database
      → ℕ
      → String
      → String
      → OauthClientInput
      → Option User
      → Result (Database × ClientRow)
  unfolding create_client can_manage_oauth
  create_oauth_client db now generated secret input actor =
      reject_if (not (can_manage_oauth actor)) forbidden
      >> create_client db now generated secret input actor "" true

  -- `UpdateOAuthClient`
  unfoldable pub update_oauth_client :
      Database → String → OauthClientInput → Option User → Result Database
  unfolding update_client can_manage_oauth
  update_oauth_client db id input actor =
      reject_if (not (can_manage_oauth actor)) forbidden
      >> update_client db id input actor true no_check

  -- `RotateOAuthClientSecret`
  unfoldable pub rotate_oauth_client_secret :
      Database → String → String → Option User → Result Database
  unfolding rotate_client can_manage_oauth
  rotate_oauth_client_secret db id secret actor =
      reject_if (not (can_manage_oauth actor)) forbidden
      >> rotate_client db id secret actor no_check

  -- `DeleteOAuthClient`
  unfoldable pub delete_oauth_client : Server → ℕ → String → Option User → Result Server
  unfolding delete_client can_manage_oauth
  delete_oauth_client s now id actor =
      reject_if (not (can_manage_oauth actor)) forbidden >> delete_client s now id actor no_check
