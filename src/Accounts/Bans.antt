-- ===== src/Accounts/Bans.antt =====
-- Banning: `IsBanned` and `SetUserBanned` of internal/store/identity.go, with the memory of ban
-- decisions that the server keeps, and the revocation of the tokens that a ban removes.
use metafusion_auth.Prelude.{
  ℕ, ◌+◌, String, Bool, true, false, not, ◌&&◌, ◌==◌, Option, none, some, List, [], ◌∷◌, any, keep,
  find, update_where, ltb, leb, if◌then◌else◌, Result, ok, reject_if, ◌>>◌, forbidden,
  user_not_found, cannot_ban_self, cannot_ban_sole_admin,
}
use metafusion_auth.Text.{trim}
use metafusion_auth.Access.{User, can}
use metafusion_auth.Database.{Database, UserRow, SessionRow, CodeRow, TokenRow, in_admin_group}
use metafusion_auth.Token.{TokenIssuer, revoke, unix}
use metafusion_auth.Accounts.Groups.{active_admin_count}

-- `bannedEntry`, under the id of its user
pub record BannedEntry : Type 0 where
  pub user_id : String
  pub banned : Bool
  pub expires_at : ℕ

-- `bannedCacheTTL`, five seconds in nanoseconds
abbrev pub banned_cache_ttl : ℕ
banned_cache_ttl = 5000000000

-- `cacheBan` at `now`
abbrev pub cache_ban : List BannedEntry → String → Bool → ℕ → List BannedEntry
cache_ban cache id banned now =
    record { user_id = id; banned = banned; expires_at = now + banned_cache_ttl }
    ∷ keep (λ (e : BannedEntry). not (e.user_id == id)) cache

abbrev pub cached : List BannedEntry → String → ℕ → Option BannedEntry
cached cache id now = find (λ (e : BannedEntry). e.user_id == id && ltb now e.expires_at) cache

-- The query of `IsBanned` after a miss in the memory.
unfoldable pub look_up_ban :
    List BannedEntry → String → ℕ → Option UserRow → Bool × List BannedEntry
look_up_ban cache id now none = (false, cache)
look_up_ban cache id now (some u) = (u.banned, cache_ban cache id u.banned now)

unfoldable pub answer_ban :
    Database → List BannedEntry → String → ℕ → Option BannedEntry → Bool × List BannedEntry
unfolding look_up_ban
answer_ban db cache id now (some e) = (e.banned, cache)
answer_ban db cache id now none =
    look_up_ban cache id now (find (λ (u : UserRow). u.id == id) db.users)

-- `IsBanned` at `now`: the answer and the memory afterwards.
unfoldable pub is_banned : Database → List BannedEntry → String → ℕ → Bool × List BannedEntry
unfolding answer_ban
is_banned db cache raw_id now =
    let id = trim raw_id in
    if id == "" then (false, cache) else answer_ban db cache id now (cached cache id now)

-- The tables after the transaction of `SetUserBanned` at `now`.
unfoldable pub write_ban : Database → String → Bool → ℕ → Database
write_ban db id false now = record db {
  users =
      update_where (λ (u : UserRow). u.id == id) (λ (u : UserRow). record u { banned = false })
        db.users;
}
write_ban db id true now = record db {
  users =
      update_where (λ (u : UserRow). u.id == id) (λ (u : UserRow). record u { banned = true })
        db.users;
  sessions = keep (λ (s : SessionRow). not (s.user_id == id)) db.sessions;
  tokens = keep (λ (t : TokenRow). not (t.user_id == id)) db.tokens;
  codes =
      keep (λ (c : CodeRow). not (c.user_id == id && (not c.used && ltb now c.expires_at)))
        db.codes;
}

-- Whether the actor is the target.
abbrev pub is_self : Option User → String → Bool
is_self none id = false
is_self (some u) id = u.id == id

-- What the server keeps: its tables, its memory of ban decisions and its token issuer.
pub record Server : Type 0 where
  pub db : Database
  pub cache : List BannedEntry
  pub issuer : TokenIssuer

-- `issuedTokensFor`, with the test of the column
unfoldable pub issued_where : (TokenRow → Bool) → Database → ℕ → List TokenRow
issued_where p db now =
    keep (λ (t : TokenRow). p t && (ltb now t.expires_at && not (t.jti == ""))) db.tokens

-- `issuedTokensFor` with the column `user_id`
unfoldable pub issued_tokens_for : Database → String → ℕ → List TokenRow
unfolding issued_where
issued_tokens_for db id now = issued_where (λ (t : TokenRow). t.user_id == id) db now

-- `revokeIssued`
unfoldable pub revoke_issued : TokenIssuer → List TokenRow → TokenIssuer
unfolding revoke
revoke_issued issuer [] = issuer
revoke_issued issuer (t ∷ ts) = revoke_issued (revoke issuer t.jti (unix t.expires_at)) ts

-- The tokens that a ban revokes; lifting a ban revokes none.
abbrev pub revoked_by : Database → String → Bool → ℕ → List TokenRow
revoked_by db id banned now = if banned then issued_tokens_for db id now else []

-- The refusal of a ban that would leave no administrator who may log in.
unfoldable pub bans_sole_admin : Database → String → Bool → Bool
unfolding active_admin_count in_admin_group
bans_sole_admin db id banned = banned && (in_admin_group db id && leb (active_admin_count db) 1)

-- `SetUserBanned` at `now`
unfoldable pub set_user_banned : Server → String → Bool → Option User → ℕ → Result Server
unfolding bans_sole_admin write_ban issued_tokens_for revoke_issued
set_user_banned s raw_id banned actor now = do
  reject_if (not (can actor "auth.users.manage")) forbidden
  let id = trim raw_id
  reject_if (banned && is_self actor id) cannot_ban_self
  reject_if (not (any (λ (u : UserRow). u.id == id) s.db.users)) user_not_found
  reject_if (bans_sole_admin s.db id banned) cannot_ban_sole_admin
  ok (record {
    db = write_ban s.db id banned now;
    cache = cache_ban s.cache id banned now;
    issuer = revoke_issued s.issuer (revoked_by s.db id banned now);
  })
