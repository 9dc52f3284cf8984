-- ===== src/Sessions/Passwords.antt =====
-- Passwords and the end of sessions: `ChangePassword`, `LogoutAll` and `ResetUserPassword` of
-- internal/store/identity.go. bcrypt is a pair of parameters.
pub mod SignedOut
use Prim.Native.Char.{code}
use Prim.Native.String.{[], ◌∷◌}
use metafusion_auth.Prelude.{
  ℕ, ◌+◌, String, Bool, true, false, not, ◌||◌, ◌==◌, Option, none, some, any, keep, find,
  update_where, ltb, if◌then◌else◌, Result, ok, err, reject_if, ◌>>=◌, ◌>>◌, forbidden,
  user_not_found, invalid_password_length, invalid_old_password,
}
use metafusion_auth.Access.{User, can}
use metafusion_auth.Database.{Database, UserRow, SessionRow, TokenRow}

-- `len` of a text: the bytes of its UTF-8 form
unfoldable pub byte_length : String → ℕ
byte_length [] = 0
byte_length (c ∷ s) =
    (if ltb (code c) 128
      then 1
      else if ltb (code c) 2048
      then 2
      else if ltb (code c) 65536
      then 3
      else 4)
    + byte_length s

abbrev pub bad_length : ℕ → Bool
bad_length n = ltb n 12 || ltb 72 n

-- `LogoutAll`
unfoldable pub logout_all : Database → String → Database
logout_all db user_id = record db {
  sessions = keep (λ (s : SessionRow). not (s.user_id == user_id)) db.sessions;
  tokens = keep (λ (t : TokenRow). not (t.user_id == user_id)) db.tokens;
}

abbrev pub set_password : String → String → Database → Database
set_password user_id hash db = record db {
  users =
      update_where (λ (u : UserRow). u.id == user_id)
        (λ (u : UserRow). record u { password_hash = hash }) db.users;
}

module _ (bcrypt : String → String) (is_password : (stored password : String) → Bool) where
  -- The rest of `ChangePassword`, with the row that the query found.
  unfoldable pub change_found :
      Database → String → String → String → Option UserRow → Result Database
  unfolding logout_all
  change_found db user_id old new none = err user_not_found
  change_found db user_id old new (some row) =
      if is_password row.password_hash old
      then ok (logout_all (set_password user_id (bcrypt new) db) user_id)
      else err invalid_old_password

  -- `ChangePassword`
  unfoldable pub change_password : Database → String → String → String → Result Database
  unfolding change_found byte_length
  change_password db user_id old new = do
    reject_if (bad_length (byte_length new)) invalid_password_length
    change_found db user_id old new (find (λ (u : UserRow). u.id == user_id) db.users)

  -- `ResetUserPassword`
  unfoldable pub reset_user_password : Database → String → String → Option User → Result Database
  unfolding logout_all byte_length
  reset_user_password db user_id new actor = do
    reject_if (not (can actor "auth.users.manage")) forbidden
    reject_if (bad_length (byte_length new)) invalid_password_length
    reject_if (not (any (λ (u : UserRow). u.id == user_id) db.users)) user_not_found
    ok (logout_all (set_password user_id (bcrypt new) db) user_id)
