-- ===== src/Sessions/Renewal.antt =====
-- What `Refresh` of internal/store/identity.go gives.
use metafusion_auth.Prelude.{
  ℕ, String, Bool, false, not, ◌==◌, some, List, [], ◌∷◌, ◌≡◌, refl, subst, any, keep, find, Result,
  ok, err, Bool-cases, inl, inr, ok-injective, arith,
}
use metafusion_auth.Text.{trim}
use metafusion_auth.Access.{User}
use metafusion_auth.Database.{Database, UserRow, SessionRow, load_access}
use metafusion_auth.Token.{Codec, sign_session}
use metafusion_auth.Accounts.Bans.{Server}
use metafusion_auth.Sessions.{authenticate}
use metafusion_auth.Sessions.Login.{
  full_user, has_session_hash, insert_session, retire_token, refresh, refresh_found, refresh_as,
  renewed,
}

module _ (sha256_hex : String → String) where
  authenticate-db :
      (codec : Codec) (s : Server) (now : ℕ) (token : String)
      → (authenticate sha256_hex codec s now token).1.db ≡ s.db
  unfolding authenticate
  authenticate-db codec s now token = elim (Bool-cases (trim token == "")) [
    | inl blank ↦ rw blank refl
    | inr some_token ↦ rw some_token refl
  ]

  unsigned_yet :
      (hash : String) (p : SessionRow → Bool) (rows : List SessionRow)
      → any (has_session_hash sha256_hex hash) rows ≡ false
      → any (has_session_hash sha256_hex hash) (keep p rows) ≡ false
  unsigned_yet hash p [] h = refl
  unsigned_yet hash p (r ∷ rows) h = ground (arith, h, unsigned_yet hash p rows)

  refresh_found-answers :
      (codec : Codec) (s : Server) (now : ℕ) (jti token : String) (row : UserRow) (next : String)
      (expiry : ℕ)
      → sign_session codec s.issuer now jti (load_access s.db (full_user row)) ≡ ok (next, expiry)
      → any (has_session_hash sha256_hex (sha256_hex next)) s.db.sessions ≡ false
      → (refresh_found sha256_hex codec s now jti token (some row)).0
        ≡ ok (next, load_access s.db (full_user row))
  unfolding refresh_found renewed insert_session retire_token
  refresh_found-answers codec s now jti token row next expiry signed fresh =
      rw
        (
          signed,
          unsigned_yet (sha256_hex next)
              (λ (r : SessionRow). not (r.token_hash == sha256_hex token)) s.db.sessions fresh,
        )
        refl

  refresh_as-answers :
      (codec : Codec) (now : ℕ) (jti token : String) (u : User) (row : UserRow) (next : String)
      (expiry : ℕ) (p : Result User × Server)
      → p.0 ≡ ok u
      → find (λ (row : UserRow). row.id == u.id) p.1.db.users ≡ some row
      → sign_session codec p.1.issuer now jti (load_access p.1.db (full_user row))
        ≡ ok (next, expiry)
      → any (has_session_hash sha256_hex (sha256_hex next)) p.1.db.sessions ≡ false
      → (refresh_as sha256_hex codec now jti token p).0
        ≡ ok (next, load_access p.1.db (full_user row))
  unfolding refresh_as
  refresh_as-answers codec now jti token u row next expiry (err x, s) h found signed fresh = cc
  refresh_as-answers codec now jti token u row next expiry (ok v, s) h found signed fresh =
      rw (ok-injective v u h, found)
        (refresh_found-answers codec s now jti token row next expiry signed fresh)

  -- `Refresh` asks only who the account is: every token that `Authenticate` accepts for an account
  -- that exists, a third party's with any scopes too, is answered with the account as the database
  -- has it, with all its groups and permissions, and with the session token that is signed for it,
  -- when that token can be signed and is new.
  pub refresh-session :
      (codec : Codec) (s : Server) (now : ℕ) (jti token : String) (u : User) (row : UserRow)
      (next : String) (expiry : ℕ)
      → (authenticate sha256_hex codec s now token).0 ≡ ok u
      → find (λ (row : UserRow). row.id == u.id) s.db.users ≡ some row
      → sign_session codec
          (authenticate sha256_hex codec s now token).1.issuer
          now
          jti
          (load_access s.db (full_user row))
        ≡ ok (next, expiry)
      → any (has_session_hash sha256_hex (sha256_hex next)) s.db.sessions ≡ false
      → (refresh sha256_hex codec s now jti token).0 ≡ ok (next, load_access s.db (full_user row))
  unfolding refresh
  refresh-session codec s now jti token u row next expiry accepted found signed fresh =
      let same = authenticate-db codec s now token in
      subst
        (λ (db : Database).
          (refresh sha256_hex codec s now jti token).0 ≡ ok (next, load_access db (full_user row)))
        same
        (refresh_as-answers codec now jti token u row next expiry
          (authenticate sha256_hex codec s now token) accepted (rw same found) (rw same signed)
          (rw same fresh))
