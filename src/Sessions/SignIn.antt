-- ===== src/Sessions/SignIn.antt =====
-- That a login leads to a session.
use metafusion_auth.Prelude.{
  ℕ, ◌+◌, ◌<◌, String, Bool, true, false, ◌==◌, some, List, [], ◌∷◌, ◌++◌, ◌≡◌, refl, ◌∙◌, any,
  keep, find, ok, Result-cases, Bool-cases, inl, inr, eq_refl, eq_iff, arith, ok-injective,
}
use metafusion_auth.Text.{trim}
use metafusion_auth.Access.{User, session, with_access}
use metafusion_auth.Database.{Database, UserRow, SessionRow, load_access}
use metafusion_auth.Token.{Codec, sign_session}
use metafusion_auth.Accounts.Bans.{Server}
use metafusion_auth.Sessions.{
  user_of_token, session_identity, is_open_session, is_open_account, named_user,
}
use metafusion_auth.Sessions.Login.{
  session_ttl, full_user, has_session_hash, insert_session, signed_in, sign_in, login_found,
  open_session, is_login_name,
}

-- A row that a query keeps is a row of the table.
any-of_keep {ℓ} :
    {A : Type ℓ} (p q : A → Bool) (xs : List A) (x : A) (rest : List A)
    → keep p xs ≡ x ∷ rest
    → q x ≡ true
    → any q xs ≡ true
any-of_keep p q [] x rest e h = cc
any-of_keep p q (y ∷ xs) x rest e h = elim (Bool-cases (p y)) [
  | inl kept ↦ let e' = rw kept at e in let head : y ≡ x = cc in rw (head, h) refl
  | inr dropped ↦ let ih = any-of_keep p q xs x rest (rw dropped at e) h in ground (arith, ih)
]

find_of_any {ℓ} :
    {A : Type ℓ} (p : A → Bool) (xs : List A)
    → any p xs ≡ true
    → (x : A) × (find p xs ≡ some x) × (p x ≡ true)
find_of_any p [] h = cc
find_of_any p (x ∷ xs) h = elim (Bool-cases (p x)) [
  | inl here ↦ (x, rw here refl, here)
  | inr there ↦
      let (y, found, holds) = find_of_any p xs (rw there at h) in (y, rw there found, holds)
]

load_access-id : (db : Database) (u : User) → (load_access db u).id ≡ u.id
unfolding load_access with_access
load_access-id db u = elim (Bool-cases (u.id == "")) [
  | inl blank ↦ rw blank refl
  | inr named ↦ rw named refl
]

module _ (sha256_hex : String → String) where
  find-new_session :
      (db : Database) (rows : List SessionRow) (new : SessionRow) (hash : String) (later : ℕ)
      → any (has_session_hash sha256_hex hash) rows ≡ false
      → is_open_session db hash later new ≡ true
      → find (is_open_session db hash later) (rows ++ new ∷ []) ≡ some new
  find-new_session db [] new hash later fresh live = rw live refl
  find-new_session db (r ∷ rows) new hash later fresh live =
      let skipped : is_open_session db hash later r ≡ false = ground (arith, fresh) in
      rw skipped (find-new_session db rows new hash later (ground (arith, fresh)) live)

  -- The session that `insert_session` adds is found.
  user_of_token-insert_session :
      (s : Server) (now later : ℕ) (token : String) (u : User) (r : String × User)
      → (insert_session sha256_hex s now token u).0 ≡ ok r
      → any (is_open_account u.id) s.db.users ≡ true
      → later < now + session_ttl
      → (v : User) × (user_of_token sha256_hex
            (insert_session sha256_hex s now token u).1.db
            later
            r.0
          ≡ ok v)
        × (v.id ≡ r.1.id)
  unfolding insert_session user_of_token session_identity
  user_of_token-insert_session s now later token u r e unbanned young =
      elim (Bool-cases (any (has_session_hash sha256_hex (sha256_hex token)) s.db.sessions)) [
        | inl taken ↦ let failed = rw taken at e in cc
        | inr fresh ↦
            let (row, found, holds) = find_of_any (is_open_account u.id) s.db.users unbanned in
            let same : ◌≡◌ {A = String × User} (token, u) r =
              ok-injective (token, u) r (rw fresh at e) in
            let new : SessionRow = record {
              token_hash = sha256_hex token;
              user_id = u.id;
              expires_at = now + session_ttl;
            } in
            let db : Database = record s.db { sessions = s.db.sessions ++ new ∷ [] } in
            let live : is_open_session db (sha256_hex token) later new ≡ true =
              rw (eq_refl (sha256_hex token), unbanned) (ground (arith, young)) in
            let new_found =
              find-new_session db s.db.sessions new (sha256_hex token) later fresh live in
            rw (← same, fresh)
              (
                load_access db (record (named_user row) { token_use = session }),
                (rw (user_of_token, new_found, found) refl),
                load_access-id db (record (named_user row) { token_use = session })
                    ∙ (eq_iff row.id u.id).0 (ground (arith, holds)),
              )
      ]

  -- The session of a token is found, for the account of the user.
  IsSignedIn : Server → ℕ → String × User → Type 0
  IsSignedIn s later r =
      (v : User) × (user_of_token sha256_hex s.db later r.0 ≡ ok v) × (v.id ≡ r.1.id)

  open_session-IsSignedIn :
      (codec : Codec) (s : Server) (now later : ℕ) (jti : String) (u : User) (r : String × User)
      → (open_session sha256_hex codec s now jti u).0 ≡ ok r
      → any (is_open_account u.id) s.db.users ≡ true
      → later < now + session_ttl
      → IsSignedIn (open_session sha256_hex codec s now jti u).1 later r
  unfolding open_session signed_in IsSignedIn
  open_session-IsSignedIn codec s now later jti u r e unbanned young =
      elim (Result-cases (sign_session codec s.issuer now jti u)) [
        | inr (x, unsigned) ↦ let failed = rw unsigned at e in cc
        | inl (made, signed) ↦
            rw (signed)
              (user_of_token-insert_session s now later made.0 u r (rw signed at e) unbanned young)
      ]

  module _ (lower : String → String) (is_password : (stored password : String) → Bool) where
    login_found-IsSignedIn :
        (codec : Codec) (s : Server) (now later : ℕ) (jti password : String) (rows : List UserRow)
        (r : String × User)
        → ((row : UserRow) (rest : List UserRow)
            → rows ≡ row ∷ rest
            → row.banned ≡ false
            → any (is_open_account row.id) s.db.users ≡ true)
        → (login_found sha256_hex lower is_password codec s now jti password rows).0 ≡ ok r
        → later < now + session_ttl
        → IsSignedIn
            (login_found sha256_hex lower is_password codec s now jti password rows).1
            later
            r
    unfolding login_found
    login_found-IsSignedIn codec s now later jti password [] r stored e young = cc
    login_found-IsSignedIn codec s now later jti password (row ∷ other ∷ rest) r stored e young = cc
    login_found-IsSignedIn codec s now later jti password (row ∷ []) r stored e young =
        elim (Bool-cases (is_password row.password_hash password)) [
          | inr wrong ↦ let failed = rw wrong at e in cc
          | inl right ↦ elim (Bool-cases row.banned) [
            | inl banned ↦ let failed = rw (right, banned) at e in cc
            | inr free ↦
                let u = load_access s.db (full_user row) in
                let unbanned : any (is_open_account u.id) s.db.users ≡ true =
                  rw (load_access-id s.db (full_user row)) (stored row [] refl free) in
                rw (right, free)
                  (open_session-IsSignedIn codec s now later jti u r (rw (right, free) at e)
                    unbanned young)
          ]
        ]

    -- A login that succeeds opens a session: for twenty-four hours, while the tables stay, `User`
    -- finds the account of the login by the token that it gave.
    pub sign_in-IsSignedIn :
        (codec : Codec) (s : Server) (now later : ℕ) (jti username password token : String)
        (u : User)
        → (sign_in sha256_hex lower is_password codec s now jti username password).0 ≡ ok (token, u)
        → later < now + session_ttl
        → (v : User) × (user_of_token sha256_hex
              (sign_in sha256_hex lower is_password codec s now jti username password).1.db
              later
              token
            ≡ ok v)
          × (v.id ≡ u.id)
    unfolding sign_in IsSignedIn
    sign_in-IsSignedIn codec s now later jti username password token u e young =
        login_found-IsSignedIn codec s now later jti password _ (token, u)
          (λ row rest kept free.
            any-of_keep (is_login_name sha256_hex lower is_password (trim username))
              (is_open_account row.id) s.db.users row rest kept
              (ground (arith, free, eq_refl row.id)))
          e young
