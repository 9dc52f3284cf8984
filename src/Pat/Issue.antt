-- ===== src/Pat/Issue.antt =====
-- A token that has been issued is accepted, with the identity and the scopes of its issue.
use metafusion_auth.Prelude.{
  ℕ, String, true, false, ◌==◌, Option, some, List, [], ◌∷◌, ◌++◌, ◌≡◌, refl, any, count, arith,
  Bool-cases, inl, inr, not, ok, err, Error, sym, ◌∙◌, ok-injective, leb, find, >>=-eq-ok, eq_refl,
  reject_if, ap, any_of_find, find-append,
}
use metafusion_auth.Text.{trim, has_prefix}
use metafusion_auth.Access.{User}
use metafusion_auth.Database.{Database, PatRow, UserRow, Purpose, unexpired}
use metafusion_auth.Pat.Scopes.{normalize_pat_scopes}
use metafusion_auth.Pat.Plaintext.{hash_token, pat_prefix, pat_prefix_of}
use metafusion_auth.Pat.Store.{
  PatState, PersonalAccessToken, set_pats, insert_pat, create_access_token, new_row, conflicts,
  counts_for, actor_id, may_issue, valid_token_name, expiry,
}
use metafusion_auth.Pat.Introspect.{
  introspect_personal_access_token, is_accepted, is_active_user, principal,
}

-- Rows that do not clash with a new one are not accepted for its hash.
accepted_elsewhere :
    (db : Database) (now : ℕ) (row : PatRow) (rows : List PatRow)
    → any (conflicts row) rows ≡ false
    → any (is_accepted db now row.token_hash) rows ≡ false
accepted_elsewhere db now row [] h = refl
accepted_elsewhere db now row (r ∷ rows) h = ground (arith, accepted_elsewhere db now row rows)

insert_pat-eq-ok :
    (s s' : PatState) (now limit : ℕ) (row : PatRow)
    → insert_pat s now limit row ≡ ok s'
    → (any (conflicts row) s.db.pats ≡ false) × (s' ≡ set_pats s (s.db.pats ++ row ∷ []))
unfolding insert_pat
insert_pat-eq-ok s s' now limit row e =
    elim (Bool-cases (leb limit (count (counts_for now row.user_id row.purpose) s.db.pats))) [
      | inl full ↦ refused (rw full at e)
      | inr room ↦ elim (Bool-cases (any (conflicts row) s.db.pats)) [
        | inl clash ↦ refused (rw (room, clash) at e)
        | inr fresh ↦ (fresh, sym (ok-injective _ s' (rw (room, fresh) at e)))
      ]
    ]
  where
    refused :
        {x : Error}
        → err x ≡ ok s'
        → (any (conflicts row) s.db.pats ≡ false) × (s' ≡ set_pats s (s.db.pats ++ row ∷ []))
    refused h = cc

module _ (sha256_hex : String → String) where
  abbrev pub issued_row :
      ℕ → String → String → Option User → String → List String → ℕ → Purpose → PatRow
  issued_row now plain id actor name norm expires_in purpose =
      new_row now id (actor_id actor) (trim name) (hash_token sha256_hex plain)
        (pat_prefix_of plain) norm expires_in purpose

  -- An accepted request has appended one row, with the normalised scopes.
  create_access_token-eq-ok :
      (s s' : PatState) (now : ℕ) (plain plain' id name : String) (actor : Option User)
      (scopes : List String) (expires_in limit : ℕ) (purpose : Purpose) (t : PersonalAccessToken)
      → create_access_token sha256_hex s now plain id actor name scopes expires_in purpose limit
        ≡ ok (s', t, plain')
      → (norm : List String) × (normalize_pat_scopes scopes actor ≡ ok norm)
        × (plain ≡ plain')
        × (any (conflicts (issued_row now plain id actor name norm expires_in purpose)) s.db.pats
            ≡ false)
        × (s'
            ≡ set_pats s
                (s.db.pats ++ issued_row now plain id actor name norm expires_in purpose ∷ []))
  unfolding create_access_token
  create_access_token-eq-ok s s' now plain plain' id name actor scopes expires_in limit purpose t
        e =
      let (_, _, e1) = >>=-eq-ok (reject_if (not (may_issue actor)) _) _ e in
      let (_, _, e2) = >>=-eq-ok (reject_if (not (valid_token_name (trim name))) _) _ e1 in
      let (norm, normal, e3) = >>=-eq-ok (normalize_pat_scopes scopes actor) _ e2 in
      let row = issued_row now plain id actor name norm expires_in purpose in
      let (s'', inserted, e4) = >>=-eq-ok (insert_pat s now limit row) _ e3 in
      let (fresh, after) = insert_pat-eq-ok s s'' now limit row inserted in
      let same : s'' ≡ s' = cc in
      let same_plain : plain ≡ plain' = cc in (norm, normal, same_plain, fresh, sym same ∙ after)

  introspected :
      (s : PatState) (now : ℕ) (raw : String) (r : PatRow) (owner : UserRow)
      → has_prefix (trim raw) pat_prefix ≡ true
      → trim raw == "" ≡ false
      → find (is_accepted s.db now (hash_token sha256_hex (trim raw))) s.db.pats ≡ some r
      → find (is_active_user r.user_id) s.db.users ≡ some owner
      → (introspect_personal_access_token sha256_hex s now raw).0
        ≡ ok (principal s.db r owner (trim raw))
  unfolding introspect_personal_access_token
  introspected s now raw r owner prefixed full found active = rw (full, prefixed, found, active)

  accepted_new :
      (db : Database) (now later : ℕ) (plain id name : String) (actor : Option User)
      (norm : List String) (expires_in : ℕ) (purpose : Purpose) (owner : UserRow)
      → unexpired later (expiry now expires_in) ≡ true
      → find (is_active_user (actor_id actor)) db.users ≡ some owner
      → is_accepted db later
          (hash_token sha256_hex plain)
          (issued_row now plain id actor name norm expires_in purpose)
        ≡ true
  accepted_new db now later plain id name actor norm expires_in purpose owner valid active = rw (
    eq_refl (sha256_hex (trim plain)),
    valid,
    any_of_find (is_active_user (actor_id actor)) db.users owner active,
  )

  -- While the tables stay as the issue left them, a token that was issued to an active account is
  -- accepted until it expires: introspection returns the id, the name and the account of the issue,
  -- with the normalised scopes.
  pub introspect-create :
      (s s' : PatState) (now later : ℕ) (plain plain' id name : String) (actor : Option User)
      (scopes : List String) (expires_in limit : ℕ) (purpose : Purpose) (t : PersonalAccessToken)
      (owner : UserRow)
      → trim plain ≡ plain
      → has_prefix plain pat_prefix ≡ true
      → plain == "" ≡ false
      → find (is_active_user (actor_id actor)) s.db.users ≡ some owner
      → unexpired later (expiry now expires_in) ≡ true
      → create_access_token sha256_hex s now plain id actor name scopes expires_in purpose limit
        ≡ ok (s', t, plain')
      → (norm : List String) × (normalize_pat_scopes scopes actor ≡ ok norm)
        × ((introspect_personal_access_token sha256_hex s' later plain').0
            ≡ ok (
                principal s'.db
                  (issued_row now plain id actor name norm expires_in purpose)
                  owner
                  plain))
  introspect-create s s' now later plain plain' id name actor scopes expires_in limit purpose t
        owner trimmed prefixed full active valid e =
      let (norm, normal, same_plain, fresh, after) =
        create_access_token-eq-ok s s' now plain plain' id name actor scopes expires_in limit
          purpose t e in
      let row = issued_row now plain id actor name norm expires_in purpose in
      let found : find (is_accepted s.db later (hash_token sha256_hex plain))
            (s.db.pats ++ row ∷ [])
          ≡ some row =
        find-append (is_accepted s.db later (hash_token sha256_hex plain)) s.db.pats row
          (accepted_elsewhere s.db later row s.db.pats fresh)
          (accepted_new s.db now later plain id name actor norm expires_in purpose owner valid
            active) in
      let there : PatState = set_pats s (s.db.pats ++ row ∷ []) in
      let answer : (introspect_personal_access_token sha256_hex there later plain).0
          ≡ ok (principal there.db row owner (trim plain)) =
        introspected there later plain row owner (rw trimmed prefixed) (rw trimmed full)
          (rw (ap (hash_token sha256_hex) trimmed) found) active in
      (
        norm,
        normal,
        rw (after, ← same_plain) (answer ∙ ap (λ x. ok (principal there.db row owner x)) trimmed),
      )
