-- ===== src/Pat/Events.antt =====
-- Histories of the token table: every operation of internal/store/pat.go and
-- internal/store/access_token_management.go as an event, and the three shapes of change to the
-- rows that they come to.
pub mod Steps
use metafusion_auth.Prelude.{
  ℕ, ◌+◌, ◌<◌, String, Bool, true, false, ◌&&◌, ◌==◌, Option, none, some, List, [], ◌∷◌, ◌++◌, ◌≡◌,
  refl, any, count, find, update_where, Result, ok, err, leb, arith, Bool-cases, Option-cases, inl,
  inr, reject_if, not, ◌>>=◌, if◌then◌else◌, Error, ◌||◌, ok-injective,
}
use metafusion_auth.Access.{User}
use metafusion_auth.Database.{Database, PatRow, UserRow, Purpose, personal, mcp, is_none, unexpired}
use metafusion_auth.Pat.Store
use metafusion_auth.Pat.Store.{
  PatState, PersonalAccessToken, counts_for, conflicts, insert_pat, create_access_token,
  create_personal_access_token, create_mcp_token, max_personal_access_tokens_per_user,
  max_mcp_tokens, set_pats,
}
use metafusion_auth.Pat.Lifecycle.{
  AccessTokenUpdate, apply_update, update_access_token, update_personal_access_token,
  update_mcp_token, revoke_access_token, delete_personal_access_token, revoke_mcp_token_by_value,
  mark_revoked, mark_deleted, mark_coalesced, coalesce, retitle,
}
use metafusion_auth.Pat.Introspect.{
  introspect_personal_access_token, touch_personal_access_token, mark_used, joined,
}

pub data PatEvent : Type 0 where
  create_personal : (plain id : String) → Option User → (name : String) → List String → ℕ → PatEvent
  create_mcp : (plain id : String) → Option User → (name : String) → List String → PatEvent
  update_personal : Option User → (id : String) → AccessTokenUpdate → PatEvent
  update_mcp : Option User → (id : String) → List String → PatEvent
  revoke : (user_id id : String) → Purpose → PatEvent
  delete : (user_id id : String) → PatEvent
  revoke_value introspect : (token : String) → PatEvent

-- A failed operation leaves the state as it was.
abbrev pub committed : PatState → Result PatState → PatState
committed s (ok s') = s'
committed s (err e) = s

abbrev pub created : PatState → Result (PatState × PersonalAccessToken × String) → PatState
created s (ok (s', t, plain)) = s'
created s (err e) = s

-- Not revoked and not deleted.
abbrev pub is_standing : PatRow → Bool
is_standing r = is_none r.revoked_at && is_none r.deleted_at

-- An edit that changes neither the secret, the owner, the kind nor the expiry, and that never
-- lifts a revocation.
pub record IsTame (f : PatRow → PatRow) : Type 0 where
  pub hash : (r : PatRow) → (f r).token_hash ≡ r.token_hash
  pub owner : (r : PatRow) → (f r).user_id ≡ r.user_id
  pub purpose : (r : PatRow) → (f r).purpose ≡ r.purpose
  pub expires : (r : PatRow) → (f r).expires_at ≡ r.expires_at
  pub standing : (r : PatRow) → is_standing (f r) ≡ true → is_standing r ≡ true

abbrev pub quota : Purpose → ℕ
quota personal = max_personal_access_tokens_per_user
quota mcp = max_mcp_tokens

-- What one operation at a time does to the rows.
pub data RowStep (now : ℕ) (rows : List PatRow) : List PatRow → Type 0 where
  stay : RowStep now rows rows
  add :
      (row : PatRow)
      → any (conflicts row) rows ≡ false
      → count (counts_for now row.user_id row.purpose) rows < quota row.purpose
      → RowStep now rows (rows ++ row ∷ [])
  edit :
      (p : PatRow → Bool) (f : PatRow → PatRow)
      → IsTame f
      → RowStep now rows (update_where p f rows)

pub mark_revoked-IsTame : (now : ℕ) → IsTame (mark_revoked now)
mark_revoked-IsTame now = record {
  hash = λ r. refl;
  owner = λ r. refl;
  purpose = λ r. refl;
  expires = λ r. refl;
  standing = λ r h. cc;
}

pub coalesce-some : (o : Option ℕ) (now : ℕ) → is_none (coalesce o now) ≡ false
coalesce-some none now = refl
coalesce-some (some t) now = refl

mark_coalesced-IsTame : (now : ℕ) → IsTame (mark_coalesced now)
mark_coalesced-IsTame now = record {
  hash = λ r. refl;
  owner = λ r. refl;
  purpose = λ r. refl;
  expires = λ r. refl;
  standing = λ r h. ground (arith, coalesce-some r.revoked_at now);
}

pub mark_deleted-IsTame : (now : ℕ) → IsTame (mark_deleted now)
mark_deleted-IsTame now = record {
  hash = λ r. refl;
  owner = λ r. refl;
  purpose = λ r. refl;
  expires = λ r. refl;
  standing = λ r h. ground (arith, coalesce-some r.revoked_at now);
}

mark_used-IsTame : (now : ℕ) → IsTame (mark_used now)
mark_used-IsTame now = record {
  hash = λ r. refl;
  owner = λ r. refl;
  purpose = λ r. refl;
  expires = λ r. refl;
  standing = λ r h. h;
}

retitle-IsTame : (name : String) (scopes : List String) → IsTame (retitle name scopes)
retitle-IsTame name scopes = record {
  hash = λ r. refl;
  owner = λ r. refl;
  purpose = λ r. refl;
  expires = λ r. refl;
  standing = λ r h. h;
}

module _ (sha256_hex : String → String) (is_uuid : String → Bool) where
  unfoldable pub apply_event : PatState → ℕ → PatEvent → PatState
  apply_event s now (create_personal plain id actor name scopes expires_in) =
      created s
        (create_personal_access_token sha256_hex s now plain id actor name scopes expires_in)
  apply_event s now (create_mcp plain id actor name scopes) =
      created s (create_mcp_token sha256_hex s now plain id actor name scopes)
  apply_event s now (update_personal actor id change) =
      committed s (update_personal_access_token is_uuid s actor id change)
  apply_event s now (update_mcp actor id scopes) =
      committed s (update_mcp_token is_uuid s actor id scopes)
  apply_event s now (revoke user_id id purpose) =
      committed s (revoke_access_token is_uuid s now user_id id purpose)
  apply_event s now (delete user_id id) =
      committed s (delete_personal_access_token is_uuid s now user_id id)
  apply_event s now (revoke_value token) = (revoke_mcp_token_by_value sha256_hex s now token).0
  apply_event s now (introspect token) = (introspect_personal_access_token sha256_hex s now token).1

  -- A history: each event with the time that passed before it.
  unfoldable pub run : PatState → ℕ → List (ℕ × PatEvent) → PatState
  unfolding apply_event
  run s now [] = s
  run s now ((elapsed, e) ∷ rest) = run (apply_event s (now + elapsed) e) (now + elapsed) rest

-- The time at which a history ends.
abbrev pub clock : ℕ → List (ℕ × PatEvent) → ℕ
clock now [] = now
clock now ((elapsed, e) ∷ rest) = clock (now + elapsed) rest
