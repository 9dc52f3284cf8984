-- ===== src/Invites.antt =====
-- Invitation codes: `CreateInvite`, `RevokeInvite` and `consumeInvite` of internal/store/groups.go.
-- The generated code is an argument; `strings.ToUpper` is a parameter.
pub mod Final
use metafusion_auth.Prelude.{
  ℕ, ◌+◌, String, Bool, true, false, not, ◌&&◌, ◌==◌, Option, none, some, List, [], ◌∷◌, ◌++◌, any,
  update_where, ltb, leb, if◌then◌else◌, Result, ok, err, reject_if, ◌>>=◌, ◌>>◌, forbidden,
  database_conflict, invite_not_found, invite_required, invalid_invite_code, invite_exhausted,
}
use metafusion_auth.Text.{trim}
use metafusion_auth.Access.{User, can}
use metafusion_auth.Database.{Database, InviteRow, InviteUse, unexpired}
use metafusion_auth.Pat.Store.{expiry, actor_id}

-- `maxUses` between 1 and 1000; a negative number counts as 0.
abbrev pub clamp_uses : ℕ → ℕ
clamp_uses n = if leb n 0 then 1 else if ltb 1000 n then 1000 else n

abbrev pub has_invite_code : String → InviteRow → Bool
has_invite_code code r = r.code == code

abbrev pub new_invite : ℕ → String → String → String → ℕ → ℕ → InviteRow
new_invite now code creator note max_uses expires_in = record {
  code = code;
  created_by = creator;
  note = trim note;
  max_uses = clamp_uses max_uses;
  used_count = 0;
  revoked = false;
  expires_at = expiry now expires_in;
}

-- `CreateInvite` at `now` with the generated code
unfoldable pub create_invite :
    Database → ℕ → String → String → ℕ → ℕ → Option User → Result Database
create_invite db now code note max_uses expires_in actor = do
  reject_if (not (can actor "auth.invites.manage")) forbidden
  reject_if (any (has_invite_code code) db.invites) database_conflict
  ok (record db {
    invites = db.invites ++ new_invite now code (actor_id actor) note max_uses expires_in ∷ [];
  })

-- What `consumeInvite` looks for.
abbrev pub is_usable : ℕ → String → InviteRow → Bool
is_usable now code r =
    r.code == code && (not r.revoked && (unexpired now r.expires_at && ltb r.used_count r.max_uses))

-- The row that the conditional UPDATE counts up.
abbrev pub has_room : String → InviteRow → Bool
has_room code r = r.code == code && ltb r.used_count r.max_uses

abbrev pub count_use : InviteRow → InviteRow
count_use r = record r { used_count = r.used_count + 1 }

-- `ON CONFLICT DO NOTHING`
abbrev pub add_use : InviteUse → List InviteUse → List InviteUse
add_use u us =
    if any (λ (x : InviteUse). x.invite_code == u.invite_code && x.user_id == u.user_id) us
    then us
    else us ++ u ∷ []

module _ (to_upper : String → String) where
  -- `RevokeInvite`
  unfoldable pub revoke_invite : Database → String → Option User → Result Database
  revoke_invite db raw_code actor = do
    reject_if (not (can actor "auth.invites.manage")) forbidden
    let code = to_upper (trim raw_code)
    reject_if (not (any (has_invite_code code) db.invites)) invite_not_found
    ok (record db {
      invites =
          update_where (has_invite_code code) (λ (r : InviteRow). record r { revoked = true })
            db.invites;
    })

  -- `consumeInvite` at `now`
  unfoldable pub consume_invite : Database → ℕ → String → String → Result Database
  consume_invite db now raw_code user_id = do
    let code = to_upper (trim raw_code)
    reject_if (code == "") invite_required
    reject_if (not (any (is_usable now code) db.invites)) invalid_invite_code
    reject_if (not (any (has_room code) db.invites)) invite_exhausted
    ok (record db {
      invites = update_where (has_room code) count_use db.invites;
      invite_uses = add_use (record { invite_code = code; user_id = user_id }) db.invite_uses;
    })
