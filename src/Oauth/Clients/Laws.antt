-- ===== src/Oauth/Clients/Laws.antt =====
-- What the writes of client rows have checked, and the rows after them.
use metafusion_auth.Prelude.{
  ℕ, String, Bool, true, false, not, ◌&&◌, ◌||◌, ◌==◌, Option, some, List, [], ◌∷◌, ◌++◌, ◌≡◌, ◌⊎◌,
  refl, ap, subst, any, find, keep, update_where, if◌then◌else◌, Result, ok, reject_if-passes,
  ok-injective, >>=-eq-ok, inl, inr, Option-cases, arith, invalid_client_id, invalid_client_name,
  client_exists, app_managed_fields, seeded_client_immutable,
}
use metafusion_auth.Text.{trim}
use metafusion_auth.Access.{User}
use metafusion_auth.Database.{Database, ClientRow}
use metafusion_auth.Accounts.Bans.{Server}
use metafusion_auth.Oauth.Scopes.{supported_scopes}
use metafusion_auth.Oauth.Clients.{
  Url, validate_client_scopes, validate_client_description, validate_homepage_url,
  validate_redirect_uris, valid_client_id,
}
use metafusion_auth.Oauth.Clients.Manage.{
  OauthClientInput, create_client, update_client, rotate_client, delete_client, record_oauth_audit,
  write_update, drop_client, bad_client_name, given, normalized, has_client_id, names_managed,
  check_update, locked_client, set_columns, nullable_uuid,
}

module _ (parse_url : String → Option Url) (bcrypt : String → String) where
  -- The fields of a client that the checks are about.
  pub record IsClient (c : ClientRow) : Type 0 where
    pub id_ok : valid_client_id c.id ≡ true
    pub name_ok : bad_client_name c.name ≡ false
    pub description_ok : validate_client_description c.description ≡ ok tt
    pub homepage_ok : validate_homepage_url parse_url c.homepage_url ≡ ok tt
    pub scopes_ok : validate_client_scopes c.scopes ≡ ok tt
    pub uris_ok : validate_redirect_uris parse_url c.redirect_uris ≡ ok tt

  -- What the creation of a client leaves.
  pub record Created (db db' : Database) (owner : String) (privileged : Bool) (c : ClientRow)
      : Type 0 where
    pub well_formed : IsClient c
    pub fresh : any (has_client_id c.id) db.clients ≡ false
    pub added : db.clients ++ c ∷ [] ≡ db'.clients
    pub owned : c.owner_user_id ≡ nullable_uuid owner
    pub plain : privileged ≡ false → (c.trusted || (c.disabled || c.verified)) ≡ false

  unit_of : (r : Result (Unit {0})) (done : Unit {0}) → r ≡ ok done → r ≡ ok tt
  unit_of r tt e = e

  pub create_client-Created :
      (db : Database) (now : ℕ) (generated secret : String) (input : OauthClientInput)
      (actor : Option User) (owner : String) (privileged : Bool) (r : Database × ClientRow)
      → create_client parse_url bcrypt db now generated secret input actor owner privileged ≡ ok r
      → Created db r.0 owner privileged r.1
  unfolding create_client record_oauth_audit
  create_client-Created db now generated secret input actor owner privileged r e =
      let id = if trim input.id == "" then generated else trim input.id in
      let scopes = given (normalized input.scopes) supported_scopes in
      let uris = given (normalized input.redirect_uris) [] in
      let (i, e1) = reject_if-passes (not (valid_client_id id)) invalid_client_id _ e in
      let (n, e2) =
        reject_if-passes (bad_client_name (trim (given input.name ""))) invalid_client_name _ e1 in
      let (_, d, e3) =
        >>=-eq-ok (validate_client_description (trim (given input.description ""))) _ e2 in
      let (_, h, e4) =
        >>=-eq-ok (validate_homepage_url parse_url (trim (given input.homepage_url ""))) _ e3 in
      let (_, s, e5) = >>=-eq-ok (validate_client_scopes scopes) _ e4 in
      let (_, u, e6) = >>=-eq-ok (validate_redirect_uris parse_url uris) _ e5 in
      let (f, e7) = reject_if-passes (any (has_client_id id) db.clients) client_exists _ e6 in
      subst (λ (r : Database × ClientRow). Created db r.0 owner privileged r.1)
        (ok-injective _ r e7)
        record {
          well_formed = record {
            id_ok = ground (arith, i);
            name_ok = n;
            description_ok = unit_of _ _ d;
            homepage_ok = unit_of _ _ h;
            scopes_ok = unit_of _ _ s;
            uris_ok = unit_of _ _ u;
          };
          fresh = f;
          added = refl;
          owned = refl;
          plain = λ p. rw (p) refl;
        }

  locked_client-found :
      (db : Database) (id : String) (check : ClientRow → Result (Unit {0})) (c : ClientRow)
      → locked_client parse_url bcrypt db id check ≡ ok c
      → (find (has_client_id id) db.clients ≡ some c) × (check c ≡ ok tt)
  unfolding locked_client
  locked_client-found db id check c e = elim (Option-cases (find (has_client_id id) db.clients)) [
    | inl gone ↦ let failed = rw (locked_client, gone) at e in cc
    | inr (d, found) ↦
        let (_, passed, same) = >>=-eq-ok (check d) _ (rw (locked_client, found) at e) in
        let here = ok-injective d c same in (rw (← here) found, rw (← here) (unit_of _ _ passed))
  ]

  -- What an update has passed.
  pub record Updated (db db' : Database) (id : String) (input : OauthClientInput)
      (privileged : Bool) (check : ClientRow → Result (Unit {0})) (c : ClientRow) : Type 0 where
    pub found : find (has_client_id id) db.clients ≡ some c
    pub passed : check c ≡ ok tt
    pub fields_ok : check_update parse_url bcrypt input ≡ ok tt
    pub unmanaged : (not privileged && names_managed parse_url bcrypt input) ≡ false
    pub written :
        (db.clients ≡ db'.clients)
        ⊎ (update_where
              (has_client_id id)
              (set_columns parse_url bcrypt input privileged)
              db.clients
            ≡ db'.clients)

  write_update-clients :
      (db : Database) (id : String) (input : OauthClientInput) (actor : Option User)
      (privileged : Bool) (columns : List String)
      → let db' = write_update parse_url bcrypt db id input actor privileged columns in
        (db.clients ≡ db'.clients)
        ⊎ (update_where
              (has_client_id id)
              (set_columns parse_url bcrypt input privileged)
              db.clients
            ≡ db'.clients)
  unfolding write_update record_oauth_audit
  write_update-clients db id input actor privileged [] = inl refl
  write_update-clients db id input actor privileged (c ∷ cs) = inr refl

  pub update_client-Updated :
      (db db' : Database) (id : String) (input : OauthClientInput) (actor : Option User)
      (privileged : Bool) (check : ClientRow → Result (Unit {0}))
      → update_client parse_url bcrypt db id input actor privileged check ≡ ok db'
      → (c : ClientRow) × Updated db db' (trim id) input privileged check c
  unfolding update_client
  update_client-Updated db db' id input actor privileged check e =
      let (_, e1) = reject_if-passes (not (valid_client_id (trim id))) invalid_client_id _ e in
      let (m, e2) =
        reject_if-passes (not privileged && names_managed parse_url bcrypt input) app_managed_fields
          _ e1 in
      let (_, f, e3) = >>=-eq-ok (check_update parse_url bcrypt input) _ e2 in
      let (c, l, e4) = >>=-eq-ok (locked_client parse_url bcrypt db (trim id) check) _ e3 in
      let (found, passed) = locked_client-found db (trim id) check c l in
      (
        c,
        record {
          found = found;
          passed = passed;
          fields_ok = unit_of _ _ f;
          unmanaged = m;
          written =
              rw (← ok-injective _ db' e4)
                (write_update-clients db (trim id) input actor privileged _);
        },
      )

  pub rotate_client-clients :
      (db db' : Database) (id secret : String) (actor : Option User)
      (check : ClientRow → Result (Unit {0}))
      → rotate_client parse_url bcrypt db id secret actor check ≡ ok db'
      → (c : ClientRow) × (find (has_client_id (trim id)) db.clients ≡ some c)
        × (check c ≡ ok tt)
        × (update_where
              (has_client_id (trim id))
              (λ (c : ClientRow). record c { secret_hash = bcrypt secret })
              db.clients
            ≡ db'.clients)
  unfolding rotate_client record_oauth_audit
  rotate_client-clients db db' id secret actor check e =
      let (_, e1) = reject_if-passes (not (valid_client_id (trim id))) invalid_client_id _ e in
      let (c, l, e2) = >>=-eq-ok (locked_client parse_url bcrypt db (trim id) check) _ e1 in
      let (found, passed) = locked_client-found db (trim id) check c l in
      (c, found, passed, ap (λ (db : Database). db.clients) (ok-injective _ db' e2))

  pub delete_client-clients :
      (s s' : Server) (now : ℕ) (id : String) (actor : Option User)
      (check : ClientRow → Result (Unit {0}))
      → delete_client parse_url bcrypt s now id actor check ≡ ok s'
      → (c : ClientRow) × (find (has_client_id (trim id)) s.db.clients ≡ some c)
        × (check c ≡ ok tt)
        × (keep (λ (c : ClientRow). not (c.id == trim id)) s.db.clients ≡ s'.db.clients)
  unfolding delete_client record_oauth_audit drop_client
  delete_client-clients s s' now id actor check e =
      let (_, e1) = reject_if-passes _ seeded_client_immutable _ e in
      let (c, l, e2) = >>=-eq-ok (locked_client parse_url bcrypt s.db (trim id) check) _ e1 in
      let (found, passed) = locked_client-found s.db (trim id) check c l in
      (c, found, passed, ap (λ (s : Server). s.db.clients) (ok-injective _ s' e2))
