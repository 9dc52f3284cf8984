-- ===== src/Developer/Table.antt =====
-- The rows of the clients stay well formed.
use metafusion_auth.Prelude.{
  ℕ, ◌+◌, String, Bool, true, false, not, ◌==◌, Option, none, some, List, [], ◌∷◌, ◌++◌, ◌≡◌, refl,
  any, keep, update_where, map, contains, All, All-append, All-keep, Distinct, Distinct-snoc,
  Result, ok, reject_if, >>=-eq-ok, inl, inr, Bool-cases, arith, invalid_client_name,
}
use metafusion_auth.Text.{trim}
use metafusion_auth.Access.{User}
use metafusion_auth.Database.{ClientRow}
use metafusion_auth.Accounts.Bans.{Server}
use metafusion_auth.Oauth.Clients.{
  Url, validate_client_scopes, validate_client_description, validate_homepage_url,
  validate_redirect_uris, normalize_strings,
}
use metafusion_auth.Oauth.Clients.Manage.{
  OauthClientInput, has_client_id, set_columns, check_update, checked, trimmed, given, normalized,
  bad_client_name,
}
use metafusion_auth.Oauth.Clients.Laws.{IsClient}
use metafusion_auth.Developer.Histories.{ClientEvent, apply_client_event, run_clients}
use metafusion_auth.Developer.Steps.{
  ClientStep, stays, adds, edits, rekeys, drops, apply_client_event-ClientStep,
}

not_rejected : (b : Bool) → reject_if b invalid_client_name ≡ ok tt → b ≡ false
not_rejected true h = cc
not_rejected false h = refl

map-update_where :
    (p : ClientRow → Bool) (f : ClientRow → ClientRow) (rows : List ClientRow)
    → ((c : ClientRow) → (f c).id ≡ c.id)
    → map (λ (c : ClientRow). c.id) (update_where p f rows) ≡ map (λ (c : ClientRow). c.id) rows
map-update_where p f [] h = refl
map-update_where p f (c ∷ rows) h = elim (Bool-cases (p c)) [
  | inl hit ↦ rw (hit, h c, map-update_where p f rows h) refl
  | inr miss ↦ rw (miss, map-update_where p f rows h) refl
]

All-update_where {ℓ κ} :
    {A : Type ℓ} (P : A → Type κ) (p : A → Bool) (f : A → A) (xs : List A)
    → ((a : A) → P a → P (f a))
    → All P xs
    → All P (update_where p f xs)
All-update_where P p f [] h k = tt
All-update_where P p f (x ∷ xs) h (here, rest) = elim (Bool-cases (p x)) [
  | inl hit ↦ rw hit (h x here, All-update_where P p f xs h rest)
  | inr miss ↦ rw miss (here, All-update_where P p f xs h rest)
]

pub ids_fresh :
    (rows : List ClientRow) (id : String)
    → any (has_client_id id) rows ≡ contains (map (λ (c : ClientRow). c.id) rows) id
ids_fresh [] id = refl
ids_fresh (c ∷ rows) id = rw (ids_fresh rows id) refl

absent-keep :
    (rows : List ClientRow) (q : ClientRow → Bool) (id : String)
    → contains (map (λ (c : ClientRow). c.id) rows) id ≡ false
    → contains (map (λ (c : ClientRow). c.id) (keep q rows)) id ≡ false
absent-keep [] q id h = refl
absent-keep (c ∷ rows) q id h = ground (arith, absent-keep rows q id)

Distinct-keep :
    (rows : List ClientRow) (q : ClientRow → Bool)
    → Distinct (map (λ (c : ClientRow). c.id) rows)
    → Distinct (map (λ (c : ClientRow). c.id) (keep q rows))
Distinct-keep [] q d = tt
Distinct-keep (c ∷ rows) q (fresh, d) = elim (Bool-cases (q c)) [
  | inl kept ↦ rw kept (absent-keep rows q c.id fresh, Distinct-keep rows q d)
  | inr gone ↦ rw gone (Distinct-keep rows q d)
]

map-append :
    (rows : List ClientRow) (c : ClientRow)
    → map (λ (c : ClientRow). c.id) (rows ++ c ∷ [])
      ≡ map (λ (c : ClientRow). c.id) rows ++ c.id ∷ []
map-append [] c = refl
map-append (d ∷ rows) c = rw (map-append rows c) refl

module _ (parse_url : String → Option Url) (bcrypt : String → String) where
  -- Every row passes the checks of a client, and no two have the same id.
  pub record IsTable (rows : List ClientRow) : Type 0 where
    pub clients : All (IsClient parse_url bcrypt) rows
    pub ids : Distinct (map (λ (c : ClientRow). c.id) rows)

  trimmed-keeps :
      (check : String → Result (Unit {0})) (field : Option String) (old : String)
      → checked parse_url bcrypt (λ text. check (trim text)) field ≡ ok tt
      → check old ≡ ok tt
      → check (trimmed parse_url bcrypt field old) ≡ ok tt
  trimmed-keeps check none old h k = k
  trimmed-keeps check (some text) old h k = h

  given-keeps :
      (check : List String → Result (Unit {0})) (field : Option (List String)) (old : List String)
      → checked parse_url bcrypt (λ texts. check (normalize_strings texts)) field ≡ ok tt
      → check old ≡ ok tt
      → check (given (normalized field) old) ≡ ok tt
  given-keeps check none old h k = k
  given-keeps check (some texts) old h k = h

  set_columns-IsClient :
      (input : OauthClientInput) (privileged : Bool) (c : ClientRow)
      → check_update parse_url bcrypt input ≡ ok tt
      → IsClient parse_url bcrypt c
      → IsClient parse_url bcrypt (set_columns parse_url bcrypt input privileged c)
  unfolding check_update set_columns
  set_columns-IsClient input privileged c e h =
      let (n, n_ok, e1) =
        >>=-eq-ok
          (checked parse_url bcrypt
            (λ name. reject_if (bad_client_name (trim name)) invalid_client_name) input.name)
          _ e in
      let (_, d_ok, e2) =
        >>=-eq-ok
          (checked parse_url bcrypt (λ text. validate_client_description (trim text))
            input.description)
          _ e1 in
      let (_, h_ok, e3) =
        >>=-eq-ok
          (checked parse_url bcrypt (λ address. validate_homepage_url parse_url (trim address))
            input.homepage_url)
          _ e2 in
      let (_, u_ok, s_ok) =
        >>=-eq-ok
          (checked parse_url bcrypt
            (λ uris. validate_redirect_uris parse_url (normalize_strings uris)) input.redirect_uris)
          _ e3 in
      record {
        id_ok = h.id_ok;
        name_ok = not_rejected _ (
            trimmed-keeps (λ name. reject_if (bad_client_name name) invalid_client_name) input.name
              c.name n_ok (rw (h.name_ok) refl));
        description_ok =
            trimmed-keeps validate_client_description input.description c.description d_ok
              h.description_ok;
        homepage_ok =
            trimmed-keeps (validate_homepage_url parse_url) input.homepage_url c.homepage_url h_ok
              h.homepage_ok;
        scopes_ok = given-keeps validate_client_scopes input.scopes c.scopes s_ok h.scopes_ok;
        uris_ok =
            given-keeps (validate_redirect_uris parse_url) input.redirect_uris c.redirect_uris u_ok
              h.uris_ok;
      }

  set_columns-id :
      (input : OauthClientInput) (privileged : Bool) (c : ClientRow)
      → (set_columns parse_url bcrypt input privileged c).id ≡ c.id
  unfolding set_columns
  set_columns-id input privileged c = refl

  -- Every change of the clients keeps them well formed.
  pub ClientStep-IsTable :
      {privileged : Bool} {who : Option User} {rows rows' : List ClientRow}
      → ClientStep parse_url bcrypt privileged who rows rows'
      → IsTable rows
      → IsTable rows'
  ClientStep-IsTable stays t = t
  ClientStep-IsTable {rows} (adds c a) t = record {
    clients = All-append (IsClient parse_url bcrypt) rows (c ∷ []) t.clients (a.well_formed, tt);
    ids = rw (map-append rows c) (Distinct-snoc _ c.id t.ids (rw (← ids_fresh rows c.id) a.fresh));
  }
  ClientStep-IsTable {privileged} {rows} (edits id input c found right fields_ok) t = record {
    clients =
        All-update_where (IsClient parse_url bcrypt) (has_client_id id)
          (set_columns parse_url bcrypt input privileged) rows
          (λ d h. set_columns-IsClient input privileged d fields_ok h) t.clients;
    ids =
        rw
          (map-update_where (has_client_id id) (set_columns parse_url bcrypt input privileged) rows
            (λ d. set_columns-id input privileged d))
          (t.ids);
  }
  ClientStep-IsTable {rows} (rekeys id hash c found right) t = record {
    clients =
        All-update_where (IsClient parse_url bcrypt) (has_client_id id)
          (λ (c : ClientRow). record c { secret_hash = hash }) rows
          (λ d h. record {
            id_ok = h.id_ok;
            name_ok = h.name_ok;
            description_ok = h.description_ok;
            homepage_ok = h.homepage_ok;
            scopes_ok = h.scopes_ok;
            uris_ok = h.uris_ok;
          })
          t.clients;
    ids =
        rw
          (map-update_where (has_client_id id) (λ (c : ClientRow). record c { secret_hash = hash })
            rows (λ d. refl))
          (t.ids);
  }
  ClientStep-IsTable {rows} (drops id c found right) t = record {
    clients =
        All-keep (IsClient parse_url bcrypt) (λ (c : ClientRow). not (c.id == id)) rows t.clients;
    ids = Distinct-keep rows _ t.ids;
  }

  -- Whatever the administration and the accounts do, in any order, every client keeps a valid id,
  -- name, description, homepage, redirect addresses and scopes, and no two have the same id.
  pub run_clients-IsTable :
      (s : Server) (now : ℕ) (events : List (ℕ × (Option User × ClientEvent)))
      → IsTable s.db.clients
      → IsTable (run_clients parse_url bcrypt s now events).db.clients
  unfolding run_clients
  run_clients-IsTable s now [] t = t
  run_clients-IsTable s now ((elapsed, (who, e)) ∷ rest) t =
      run_clients-IsTable (apply_client_event parse_url bcrypt s (now + elapsed) who e)
        (now + elapsed) rest
        (ClientStep-IsTable (apply_client_event-ClientStep parse_url bcrypt s (now + elapsed) who e)
          t)
