-- ===== src/Developer/Steps.antt =====
-- What each event does to the rows of the clients.
use metafusion_auth.Prelude.{
  ℕ, String, Bool, true, false, not, ◌||◌, ◌==◌, Option, none, some, List, [], ◌∷◌, ◌++◌, ◌≡◌, any,
  find, keep, update_where, count, leb, Result, ok, reject_if-passes, ok-injective, >>=-eq-ok, inl,
  inr, Bool-cases, forbidden, app_quota_exceeded,
}
use metafusion_auth.Text.{trim}
use metafusion_auth.Access.{User}
use metafusion_auth.Database.{Database, ClientRow}
use metafusion_auth.Accounts.Bans.{Server}
use metafusion_auth.Oauth.Clients.{Url, can_manage_oauth}
use metafusion_auth.Oauth.Clients.Manage.{
  OauthClientInput, create_oauth_client, update_oauth_client, rotate_oauth_client_secret,
  delete_oauth_client, has_client_id, set_columns, nullable_uuid, check_update, no_check,
  actor_text, create_client,
}
use metafusion_auth.Oauth.Clients.Laws.{
  IsClient, Created, Updated, create_client-Created, update_client-Updated, rotate_client-clients,
  delete_client-clients,
}
use metafusion_auth.Developer.{
  to_client_input, create_developer_app, update_developer_app, rotate_developer_app_secret,
  delete_developer_app, can_edit_app, owner_text, is_owned_by, require_app_editable,
  check_developer_app_quota, max_developer_apps_per_user,
}
use metafusion_auth.Developer.Histories as H
use metafusion_auth.Developer.Histories.{ClientEvent, is_privileged, apply_client_event}
use metafusion_auth.Oauth.Grants.{settled-keeps, settled_db-keeps}

module _ (parse_url : String → Option Url) (bcrypt : String → String) where
  -- Who may change a client: the administration every one, an account its own.
  abbrev pub Right : Bool → Option User → ClientRow → Type 0
  Right true who c = Unit {0}
  Right false who c = can_edit_app who (owner_text c) ≡ true

  abbrev pub owner_for : Bool → Option User → String
  owner_for true who = ""
  owner_for false who = actor_text who

  -- What an operation adds.
  pub record Adds (privileged : Bool) (who : Option User) (rows : List ClientRow) (c : ClientRow)
      : Type 0 where
    pub well_formed : IsClient parse_url bcrypt c
    pub fresh : any (has_client_id c.id) rows ≡ false
    pub owned : c.owner_user_id ≡ nullable_uuid (owner_for privileged who)
    pub plain : privileged ≡ false → (c.trusted || (c.disabled || c.verified)) ≡ false
    pub within :
        privileged ≡ false
        → leb max_developer_apps_per_user (count (is_owned_by (actor_text who)) rows) ≡ false

  -- The changes of the rows that an account, or the administration, may make.
  pub data ClientStep (privileged : Bool) (who : Option User) (rows : List ClientRow)
      : List ClientRow → Type 0 where
    stays : ClientStep privileged who rows rows
    adds :
        (c : ClientRow)
        → Adds privileged who rows c
        → ClientStep privileged who rows (rows ++ c ∷ [])
    edits :
        (id : String) (input : OauthClientInput) (c : ClientRow)
        → find (has_client_id id) rows ≡ some c
        → Right privileged who c
        → check_update parse_url bcrypt input ≡ ok tt
        → ClientStep privileged who rows
            (update_where (has_client_id id) (set_columns parse_url bcrypt input privileged) rows)
    rekeys :
        (id hash : String) (c : ClientRow)
        → find (has_client_id id) rows ≡ some c
        → Right privileged who c
        → ClientStep privileged who rows (
            update_where
              (has_client_id id)
              (λ (c : ClientRow). record c { secret_hash = hash })
              rows)
    drops :
        (id : String) (c : ClientRow)
        → find (has_client_id id) rows ≡ some c
        → Right privileged who c
        → ClientStep privileged who rows (keep (λ (c : ClientRow). not (c.id == id)) rows)

  editable-Right :
      (who : Option User) (c : ClientRow) → require_app_editable who c ≡ ok tt → Right false who c
  unfolding require_app_editable
  editable-Right none c e = cc
  editable-Right (some u) c e = elim (Bool-cases (can_edit_app (some u) (owner_text c))) [
    | inl owned ↦ owned
    | inr foreign ↦ let failed = rw foreign at e in cc
  ]

  ClientStep-of_update :
      (privileged : Bool) (who : Option User) (db db' : Database) (id : String)
      (input : OauthClientInput) (check : ClientRow → Result (Unit {0})) (c : ClientRow)
      → ((c : ClientRow) → check c ≡ ok tt → Right privileged who c)
      → Updated parse_url bcrypt db db' id input privileged check c
      → ClientStep privileged who db.clients db'.clients
  ClientStep-of_update privileged who db db' id input check c right u = elim u.written [
    | inl same ↦ rw (← same) stays
    | inr changed ↦ rw (← changed) (edits id input c u.found (right c u.passed) u.fields_ok)
  ]

  any_client : (c : ClientRow) → no_check parse_url bcrypt c ≡ ok tt → Unit {0}
  any_client c e = tt

  ClientStep-of_create :
      (privileged : Bool) (who : Option User) (db db' : Database) (c : ClientRow)
      → Created parse_url bcrypt db db' (owner_for privileged who) privileged c
      → (privileged ≡ false
          → leb max_developer_apps_per_user (count (is_owned_by (actor_text who)) db.clients)
            ≡ false)
      → ClientStep privileged who db.clients db'.clients
  ClientStep-of_create privileged who db db' c created within = rw (← created.added) (
      adds c record {
        well_formed = created.well_formed;
        fresh = created.fresh;
        owned = created.owned;
        plain = created.plain;
        within = within;
      })

  -- What an event of the developer centre or of the administration does to the rows.
  pub apply_client_event-ClientStep :
      (s : Server) (now : ℕ) (who : Option User) (e : ClientEvent)
      → ClientStep
          (is_privileged e)
          who
          s.db.clients
          (apply_client_event parse_url bcrypt s now who e).db.clients
  unfolding apply_client_event create_developer_app update_developer_app rotate_developer_app_secret
      delete_developer_app create_oauth_client update_oauth_client rotate_oauth_client_secret
      delete_oauth_client check_developer_app_quota
  apply_client_event-ClientStep s now none (H.create_app generated secret input) = stays
  apply_client_event-ClientStep s now (some u) (H.create_app generated secret input) =
      settled_db-keeps (λ s'. ClientStep false (some u) s.db.clients s'.db.clients) _ s
        (create_developer_app parse_url bcrypt s.db now generated secret input (some u)) stays
        λ r e.
          let (q, e1) =
            reject_if-passes
              (leb max_developer_apps_per_user (count (is_owned_by u.id) s.db.clients))
              app_quota_exceeded _ e in
          let (made, m, e2) =
            >>=-eq-ok
              (create_client parse_url bcrypt s.db now generated secret (to_client_input input)
                (some u) u.id false)
              _ e1 in
          rw (← ok-injective _ r e2) (
            ClientStep-of_create false (some u) s.db made.0 made.1
              (create_client-Created parse_url bcrypt s.db now generated secret
                (to_client_input input) (some u) u.id false made m)
              λ p. q)
  apply_client_event-ClientStep s now who (H.edit_app id input) =
      settled_db-keeps (λ s'. ClientStep false who s.db.clients s'.db.clients) _ s
        (update_developer_app parse_url bcrypt s.db id input who) stays
        λ db e.
          let (c, u) =
            update_client-Updated parse_url bcrypt s.db db id
              (to_client_input (record input { id = "" })) who false (require_app_editable who) e in
          ClientStep-of_update false who s.db db (trim id)
            (to_client_input (record input { id = "" })) (require_app_editable who) c
            (editable-Right who) u
  apply_client_event-ClientStep s now who (H.rotate_app id secret) =
      settled_db-keeps (λ s'. ClientStep false who s.db.clients s'.db.clients) _ s
        (rotate_developer_app_secret parse_url bcrypt s.db id secret who) stays
        λ db e.
          let (c, found, passed, done) =
            rotate_client-clients parse_url bcrypt s.db db id secret who (require_app_editable who)
              e in
          rw (← done) (rekeys (trim id) (bcrypt secret) c found (editable-Right who c passed))
  apply_client_event-ClientStep s now who (H.delete_app id secret) =
      settled-keeps (λ s'. ClientStep false who s.db.clients s'.db.clients) _ s
        (delete_developer_app parse_url bcrypt s now id who) stays
        λ s' e.
          let (c, found, passed, done) =
            delete_client-clients parse_url bcrypt s s' now id who (require_app_editable who) e in
          rw (← done) (drops (trim id) c found (editable-Right who c passed))
  apply_client_event-ClientStep s now who (H.create_client generated secret input) =
      settled_db-keeps (λ s'. ClientStep true who s.db.clients s'.db.clients) _ s
        (create_oauth_client parse_url bcrypt s.db now generated secret input who) stays
        λ r e.
          let (_, e1) = reject_if-passes (not (can_manage_oauth who)) forbidden _ e in
          ClientStep-of_create true who s.db r.0 r.1
            (create_client-Created parse_url bcrypt s.db now generated secret input who "" true r
              e1)
            (λ p. cc)
  apply_client_event-ClientStep s now who (H.edit_client id input) =
      settled_db-keeps (λ s'. ClientStep true who s.db.clients s'.db.clients) _ s
        (update_oauth_client parse_url bcrypt s.db id input who) stays
        λ db e.
          let (_, e1) = reject_if-passes (not (can_manage_oauth who)) forbidden _ e in
          let (c, u) =
            update_client-Updated parse_url bcrypt s.db db id input who true
              (no_check parse_url bcrypt) e1 in
          ClientStep-of_update true who s.db db (trim id) input (no_check parse_url bcrypt) c
            any_client u
  apply_client_event-ClientStep s now who (H.rotate_client id secret) =
      settled_db-keeps (λ s'. ClientStep true who s.db.clients s'.db.clients) _ s
        (rotate_oauth_client_secret parse_url bcrypt s.db id secret who) stays
        λ db e.
          let (_, e1) = reject_if-passes (not (can_manage_oauth who)) forbidden _ e in
          let (c, found, passed, done) =
            rotate_client-clients parse_url bcrypt s.db db id secret who (no_check parse_url bcrypt)
              e1 in
          rw (← done) (rekeys (trim id) (bcrypt secret) c found tt)
  apply_client_event-ClientStep s now who (H.delete_client id secret) =
      settled-keeps (λ s'. ClientStep true who s.db.clients s'.db.clients) _ s
        (delete_oauth_client parse_url bcrypt s now id who) stays
        λ s' e.
          let (_, e1) = reject_if-passes (not (can_manage_oauth who)) forbidden _ e in
          let (c, found, passed, done) =
            delete_client-clients parse_url bcrypt s s' now id who (no_check parse_url bcrypt) e1 in
          rw (← done) (drops (trim id) c found tt)
