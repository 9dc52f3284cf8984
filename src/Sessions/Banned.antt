-- ===== src/Sessions/Banned.antt =====
-- A banned account is not authenticated.
use metafusion_auth.Prelude.{
  ℕ, String, Bool, true, false, not, ◌&&◌, ◌==◌, Option, some, List, [], ◌∷◌, ◌≡◌, refl, sym, ◌∙◌,
  ap, All, find, All-find, update_where, ok, err, Error, arith, Bool-cases, Option-cases,
  Result-cases, inl, inr, eq_iff, ok-injective,
}
use metafusion_auth.Text.{trim}
use metafusion_auth.Text.Laws.{trim_idem}
use metafusion_auth.Access.{User}
use metafusion_auth.Database.{Database, UserRow, TokenRow, load_access}
use metafusion_auth.Oauth.Scopes.{oauth_token_user}
use metafusion_auth.Token.{Codec, verify, claims_to_user}
use metafusion_auth.Accounts.Bans.{Server, BannedEntry, is_banned, set_user_banned, write_ban}
use metafusion_auth.Accounts.BanLaws.{is_banned-set_user_banned, set_user_banned-passes}
use metafusion_auth.Sessions.{
  is_open_account, is_open_session, is_open_token, session_identity, token_identity,
  third_party_identity, user_of_token, identify, authenticate,
}

-- Every row of the account is banned.
abbrev IsClosed : String → List UserRow → Type 0
IsClosed id users = All (λ (u : UserRow). (u.id == id && not u.banned) ≡ false) users

write_ban-IsClosed :
    (users : List UserRow) (id : String)
    → IsClosed id (
        update_where
          (λ (u : UserRow). u.id == id)
          (λ (u : UserRow). record u { banned = true })
          users)
write_ban-IsClosed [] id = tt
write_ban-IsClosed (u ∷ users) id = (ground arith, write_ban-IsClosed users id)

pub find-holds {ℓ} :
    {A : Type ℓ} (p : A → Bool) (xs : List A) (x : A) → find p xs ≡ some x → p x ≡ true
find-holds p [] x e = cc
find-holds p (y ∷ ys) x e = ground (arith, find-holds p ys x)

-- An account that a join finds open is not the closed one.
other_account :
    (users : List UserRow) (id holder : String) (row : UserRow)
    → IsClosed id users
    → find (is_open_account holder) users ≡ some row
    → (row.id == id) ≡ false
other_account users id holder row closed e =
    let shut =
      All-find (λ (u : UserRow). (u.id == id && not u.banned) ≡ false) (is_open_account holder)
        users row e closed in
    let open_row = find-holds (is_open_account holder) users row e in ground (arith, shut, open_row)

pub load_access-id : (db : Database) (u : User) → (load_access db u).id ≡ u.id
unfolding load_access
load_access-id db u = elim (Bool-cases (u.id == "")) [
  | inl blank ↦ rw blank refl
  | inr named ↦ rw named refl
]

pub refused {ℓ} : {A : Type ℓ} {x : Error} {u : User} → err x ≡ ok u → A
refused h = cc

session_identity-other :
    (db : Database) (id holder : String) (u : User)
    → IsClosed id db.users
    → session_identity db (find (is_open_account holder) db.users) ≡ ok u
    → (u.id == id) ≡ false
unfolding session_identity
session_identity-other db id holder u closed e =
    elim (Option-cases (find (is_open_account holder) db.users)) [
      | inl missing ↦ refused (rw missing at e)
      | inr (row, found) ↦
          let same = ap (λ (v : User). v.id) (ok-injective _ u (rw found at e)) in
          rw (← same, load_access-id db _) (other_account db.users id holder row closed found)
    ]

third_party_identity-other :
    (db : Database) (id : String) (t : TokenRow) (u : User)
    → IsClosed id db.users
    → third_party_identity t (find (is_open_account t.user_id) db.users) ≡ ok u
    → (u.id == id) ≡ false
unfolding third_party_identity oauth_token_user
third_party_identity-other db id t u closed e =
    elim (Option-cases (find (is_open_account t.user_id) db.users)) [
      | inl missing ↦ refused (rw missing at e)
      | inr (row, found) ↦
          let same = ap (λ (v : User). v.id) (ok-injective _ u (rw found at e)) in
          rw (← same) (other_account db.users id t.user_id row closed found)
    ]

is_banned-trim :
    (db : Database) (cache : List BannedEntry) (id : String) (now : ℕ)
    → is_banned db cache (trim id) now ≡ is_banned db cache id now
unfolding is_banned
is_banned-trim db cache id now = rw (trim_idem id) refl

IsClosed-after_ban :
    (s s' : Server) (id : String) (actor : Option User) (now : ℕ)
    → set_user_banned s id true actor now ≡ ok s'
    → IsClosed (trim id) s'.db.users
unfolding write_ban
IsClosed-after_ban s s' id actor now e =
    let (_, _, tables, _) = set_user_banned-passes s s' id true actor now e in
    rw (← tables) (write_ban-IsClosed s.db.users (trim id))

module _ (sha256_hex : String → String) where
  user_of_token-other :
      (db : Database) (id : String) (now : ℕ) (token : String) (u : User)
      → IsClosed id db.users
      → user_of_token sha256_hex db now token ≡ ok u
      → (u.id == id) ≡ false
  unfolding user_of_token token_identity
  user_of_token-other db id now token u closed e =
      elim (Option-cases (find (is_open_session db (sha256_hex token) now) db.sessions)) [
        | inr (r, found) ↦
            session_identity-other db id r.user_id u closed (rw (found, user_of_token) at e)
        | inl none_open ↦
            elim (Option-cases (find (is_open_token db (sha256_hex token) now) db.tokens)) [
              | inl missing ↦ refused (rw (none_open, missing, user_of_token) at e)
              | inr (t, found) ↦
                  third_party_identity-other db id t u closed
                    (rw (none_open, found, user_of_token) at e)
            ]
      ]

  -- After `SetUserBanned` has banned an account, no token is authenticated as that account, neither a
  -- signed one nor one of the tables, at any time while the server stays as that call left it.
  pub authenticate-set_user_banned :
      (codec : Codec) (s s' : Server) (id : String) (actor : Option User) (now later : ℕ)
      (token : String) (u : User)
      → set_user_banned s id true actor now ≡ ok s'
      → (trim id == "") ≡ false
      → (authenticate sha256_hex codec s' later token).0 ≡ ok u
      → (u.id == trim id) ≡ false
  unfolding authenticate identify claims_to_user
  authenticate-set_user_banned codec s s' id actor now later token u e named answer =
      elim (Bool-cases (trim token == "")) [
        | inl blank ↦ refused (rw blank at answer)
        | inr text ↦ elim (Result-cases (verify codec s'.issuer later (trim token)).0) [
          | inr (x, judged) ↦
              user_of_token-other s'.db (trim id) later (trim token) u
                (IsClosed-after_ban s s' id actor now e) (rw (text, judged) at answer)
          | inl (c, judged) ↦ elim (Bool-cases (is_banned s'.db s'.cache c.subject later).0) [
            | inl banned ↦ refused (rw (text, judged, banned) at answer)
            | inr free ↦
                let same =
                  ap (λ (v : User). v.id) (ok-injective _ u (rw (text, judged, free) at answer)) in
                rw (← same) (other_subject c.subject free)
          ]
        ]
      ]
    where
      clash : {A : Type 0} → true ≡ false → A
      clash h = cc

      bans : (is_banned s'.db s'.cache (trim id) later).0 ≡ true
      bans =
          rw (is_banned-trim s'.db s'.cache id later)
            (is_banned-set_user_banned s s' id actor now later e named)

      other_subject :
          (subject : String)
          → (is_banned s'.db s'.cache subject later).0 ≡ false
          → (subject == trim id) ≡ false
      other_subject subject free = elim (Bool-cases (subject == trim id)) [
        | inr other ↦ other
        | inl hit ↦
            let at_id : subject ≡ trim id = ground (arith, hit, eq_iff subject (trim id)) in
            clash (sym bans ∙ rw at_id at free)
      ]
