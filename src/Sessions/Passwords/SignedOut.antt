-- ===== src/Sessions/Passwords/SignedOut.antt =====
-- A new password ends what was signed in before.
use metafusion_auth.Prelude.{
  ℕ, String, Bool, true, false, not, ◌==◌, Option, some, List, [], ◌∷◌, ◌≡◌, ap, any, keep, find,
  ok, err, Error, reject_if-passes, ok-injective, arith, Bool-cases, Option-cases, inl, inr, eq_iff,
  invalid_password_length, forbidden, user_not_found,
}
use metafusion_auth.Access.{User, can}
use metafusion_auth.Database.{Database, UserRow, SessionRow, TokenRow}
use metafusion_auth.Oauth.Scopes.{oauth_token_user}
use metafusion_auth.Sessions.{
  is_open_account, is_open_session, is_open_token, session_identity, token_identity,
  third_party_identity, user_of_token,
}
use metafusion_auth.Sessions.Banned.{find-holds, load_access-id, refused}
use metafusion_auth.Sessions.Passwords.{
  bad_length, byte_length, logout_all, set_password, change_found, change_password,
  reset_user_password,
}

find-keep {ℓ} :
    {A : Type ℓ} (p q : A → Bool) (xs : List A) (x : A) → find p (keep q xs) ≡ some x → q x ≡ true
find-keep p q [] x e = cc
find-keep p q (y ∷ ys) x e = elim (Bool-cases (q y)) [
  | inr out ↦ find-keep p q ys x (rw out at e)
  | inl kept ↦ elim (Bool-cases (p y)) [
    | inl hit ↦ ground (arith, kept, hit, e)
    | inr miss ↦ find-keep p q ys x (rw (kept, miss) at e)
  ]
]

-- The identity of a join is that of the id that was joined on.
session_identity-id :
    (db : Database) (holder : String) (u : User)
    → session_identity db (find (is_open_account holder) db.users) ≡ ok u
    → (u.id == holder) ≡ true
unfolding session_identity
session_identity-id db holder u e = elim (Option-cases (find (is_open_account holder) db.users)) [
  | inl missing ↦ refused (rw missing at e)
  | inr (row, found) ↦
      let same = ap (λ (v : User). v.id) (ok-injective _ u (rw found at e)) in
      let hit = find-holds (is_open_account holder) db.users row found in
      rw (← same, load_access-id db _) (ground (arith, hit))
]

third_party_identity-id :
    (db : Database) (t : TokenRow) (u : User)
    → third_party_identity t (find (is_open_account t.user_id) db.users) ≡ ok u
    → (u.id == t.user_id) ≡ true
unfolding third_party_identity oauth_token_user
third_party_identity-id db t u e = elim (Option-cases (find (is_open_account t.user_id) db.users)) [
  | inl missing ↦ refused (rw missing at e)
  | inr (row, found) ↦
      let same = ap (λ (v : User). v.id) (ok-injective _ u (rw found at e)) in
      let hit = find-holds (is_open_account t.user_id) db.users row found in
      rw (← same) (ground (arith, hit))
]

apart_id :
    (a holder id : String) → (a == holder) ≡ true → not (holder == id) ≡ true → (a == id) ≡ false
apart_id a holder id h k = ground (arith, h, k, eq_iff a holder, eq_iff holder id, eq_iff a id)

module _ (sha256_hex : String → String) where
  -- After `LogoutAll` no stored session and no stored third-party token is that account's.
  user_of_token-logout_all :
      (db : Database) (id : String) (now : ℕ) (token : String) (u : User)
      → user_of_token sha256_hex (logout_all db id) now token ≡ ok u
      → (u.id == id) ≡ false
  unfolding user_of_token token_identity logout_all
  user_of_token-logout_all db id now token u e =
      let after = logout_all db id in
      elim (Option-cases (find (is_open_session after (sha256_hex token) now) after.sessions)) [
        | inr (r, found) ↦
            apart_id u.id r.user_id id
              (session_identity-id after r.user_id u (rw (found, user_of_token) at e))
              (find-keep _ (λ (s : SessionRow). not (s.user_id == id)) db.sessions r found)
        | inl none_open ↦
            elim (Option-cases (find (is_open_token after (sha256_hex token) now) after.tokens)) [
              | inl missing ↦ refused (rw (none_open, missing, user_of_token) at e)
              | inr (t, found) ↦
                  apart_id u.id t.user_id id
                    (third_party_identity-id after t u (rw (none_open, found, user_of_token) at e))
                    (find-keep _ (λ (s : TokenRow). not (s.user_id == id)) db.tokens t found)
            ]
      ]

  module _ (bcrypt : String → String) (is_password : String → String → Bool) where
    -- After `ChangePassword` has succeeded for an account, `User` finds that account for no token, by
    -- a session row or by a third-party row, while the tables stay as that call left them.
    pub user_of_token-change_password :
        (db db' : Database) (id old new : String) (later : ℕ) (token : String) (u : User)
        → change_password bcrypt is_password db id old new ≡ ok db'
        → user_of_token sha256_hex db' later token ≡ ok u
        → (u.id == id) ≡ false
    unfolding change_password change_found
    user_of_token-change_password db db' id old new later token u e signed_in =
        let (_, e1) = reject_if-passes (bad_length (byte_length new)) invalid_password_length _ e in
        elim (Option-cases (find (λ (v : UserRow). v.id == id) db.users)) [
          | inl missing ↦ absurd_ok (rw missing at e1)
          | inr (row, found) ↦ elim (Bool-cases (is_password row.password_hash old)) [
            | inr wrong ↦ absurd_ok (rw (found, wrong) at e1)
            | inl right ↦
                let same = ok-injective _ db' (rw (found, right) at e1) in
                user_of_token-logout_all (set_password id (bcrypt new) db) id later token u
                  (rw (← same) at signed_in)
          ]
        ]
      where
        absurd_ok : {A : Type 0} {x : Error} → err x ≡ ok db' → A
        absurd_ok h = cc

    -- After `ResetUserPassword` has succeeded for an account, `User` finds that account for no token,
    -- by a session row or by a third-party row, while the tables stay as that call left them.
    pub user_of_token-reset_user_password :
        (db db' : Database) (id new : String) (actor : Option User) (later : ℕ) (token : String)
        (u : User)
        → reset_user_password bcrypt is_password db id new actor ≡ ok db'
        → user_of_token sha256_hex db' later token ≡ ok u
        → (u.id == id) ≡ false
    unfolding reset_user_password
    user_of_token-reset_user_password db db' id new actor later token u e signed_in =
        let (_, e1) = reject_if-passes (not (can actor "auth.users.manage")) forbidden _ e in
        let (_, e2) =
          reject_if-passes (bad_length (byte_length new)) invalid_password_length _ e1 in
        let (_, e3) =
          reject_if-passes (not (any (λ (v : UserRow). v.id == id) db.users)) user_not_found _ e2 in
        let same = ok-injective _ db' e3 in
        user_of_token-logout_all (set_password id (bcrypt new) db) id later token u
          (rw (← same) at signed_in)
