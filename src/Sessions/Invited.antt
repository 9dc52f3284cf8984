-- ===== src/Sessions/Invited.antt =====
-- Registration with an invitation that was revoked.
use metafusion_auth.Prelude.{
  ℕ, String, true, false, Option, List, [], ◌∷◌, ◌++◌, ◌≡◌, refl, any, Result, ok, err, Error,
  is_ok, Bool-cases, inl, inr, ◌>>◌,
}
use metafusion_auth.Text.{trim}
use metafusion_auth.Access.{User}
use metafusion_auth.Database.{Database}
use metafusion_auth.Token.{Codec}
use metafusion_auth.Accounts.Bans.{Server}
use metafusion_auth.Invites.{revoke_invite}
use metafusion_auth.Invites.Final.{
  InviteEvent, IsEnded, run_invites, consume_invite-IsEnded, run_invites-revoke_invite,
}
use metafusion_auth.Sessions.Accounts.{
  RegistrationSettings, register, register_account, check_registration, is_taken, clashes,
  stored_email, new_row,
}

failed : {A : Type 0} (r : Result A) → is_ok r ≡ false → (x : Error) × (r ≡ err x)
failed (ok a) h = cc
failed (err x) h = (x, refl)

failed_then :
    {A : Type 0} (m : Result (Unit {0})) (r : Result A)
    → is_ok r ≡ false
    → (x : Error) × ((m >> r) ≡ err x)
failed_then (ok tt) r h = failed r h
failed_then (err x) r h = (x, refl)

module _ (bcrypt lower to_upper : String → String) where
  register_account-IsEnded :
      (db : Database) (now : ℕ) (settings : RegistrationSettings bcrypt lower)
      (id username email password invite_code : String)
      → settings.invite_required ≡ true
      → IsEnded (to_upper (trim invite_code)) db.invites
      → is_ok (
          register_account bcrypt lower to_upper db now settings id username email password
            invite_code)
        ≡ false
  unfolding register_account
  register_account-IsEnded db now settings id username email password invite_code asks ended =
      let (x, refused) = failed _ (
        consume_invite-IsEnded to_upper
          (record db { users = db.users ++ new_row bcrypt lower id username email password ∷ [] })
          now invite_code id ended) in
      elim (Bool-cases (any (is_taken bcrypt lower username email) db.users)) [
        | inl taken ↦ rw taken refl
        | inr free ↦ elim (Bool-cases (any (clashes bcrypt lower id username) db.users)) [
          | inl clash ↦ rw (free, clash) refl
          | inr new ↦ rw (free, new, asks, refused) refl
        ]
      ]

  -- Once `RevokeInvite` has succeeded, every later registration with its code, however it is spelled,
  -- fails and changes nothing while the settings ask for an invitation, whatever happened to the
  -- invitations and the other tables in between.
  pub register-revoke_invite :
      (sha256_hex : String → String) (codec : Codec) (db db' : Database) (raw : String)
      (actor : Option User) (history : List (ℕ × InviteEvent)) (s : Server) (later : ℕ)
      (settings : RegistrationSettings bcrypt lower)
      (id jti username email password invite_code : String)
      → revoke_invite to_upper db raw actor ≡ ok db'
      → (run_invites to_upper db' history).invites ≡ s.db.invites
      → to_upper (trim invite_code) ≡ to_upper (trim raw)
      → settings.invite_required ≡ true
      → (x : Error) × (register bcrypt lower to_upper sha256_hex codec s later settings id jti
            username email password invite_code
          ≡ (err x, s))
  unfolding register
  register-revoke_invite sha256_hex codec db db' raw actor history s later settings id jti username
        email password invite_code e kept same asks =
      let ended : IsEnded (to_upper (trim invite_code)) s.db.invites =
        rw (same, ← kept) (run_invites-revoke_invite to_upper db db' raw actor history e) in
      let (x, refused) =
        failed_then (check_registration bcrypt lower to_upper settings (trim username) password)
          (register_account bcrypt lower to_upper s.db later settings id (trim username)
            (stored_email (trim username) (trim email)) password invite_code)
          (register_account-IsEnded s.db later settings id (trim username)
            (stored_email (trim username) (trim email)) password invite_code asks ended) in
      (x, rw refused refl)
