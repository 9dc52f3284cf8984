-- ===== src/Pat/Lifecycle.antt =====
-- Listing, renaming, narrowing, revoking and deleting tokens: the rest of internal/store/pat.go
-- and internal/store/access_token_management.go. `is_uuid` stands for `uuid.Parse` succeeding.
use Prim.Native.String.{len}
use Prim.Native.Nat.{Ordering}
use Prim.Native.String as Text
use metafusion_auth.Prelude.{
  ℕ, ◌+◌, String, Bool, true, false, not, ◌&&◌, ◌||◌, ◌==◌, Option, none, some, List, ◌∷◌, any,
  keep, find, update_where, sort_by, contains, Result, ok, err, reject_if, ◌>>=◌, ◌>>◌, forbidden,
  forbidden_pat_scope, invalid_token_name, token_not_found, invalid_request,
  scope_expansion_requires_authorization, ltb, nat_eq, if◌then◌else◌, map,
}
use metafusion_auth.Text.{trim, has_prefix}
use metafusion_auth.Access.{User, is_third_party}
use metafusion_auth.Database.{PatRow, Purpose, personal, mcp, same_purpose, is_none}
use metafusion_auth.Pat.Scopes.{normalize_pat_scopes}
use metafusion_auth.Pat.Plaintext.{pat_prefix, pat_secret_chars, hash_token}
use metafusion_auth.Pat.Store.{
  PatState, PersonalAccessToken, set_pats, project, is_pat_use, valid_token_name, actor_id,
}

-- `user_id=$2 AND purpose=$3 AND deleted_at IS NULL`, at the given id
abbrev pub owns : String → String → Purpose → PatRow → Bool
owns user_id id purpose r =
    r.id == id && r.user_id == user_id && same_purpose r.purpose purpose && is_none r.deleted_at

-- `ORDER BY created_at DESC, id DESC`
abbrev pub text_before : String → String → Bool
text_before s t = elim (Text.compare s t) [ Ordering.lt ↦ true | _ ↦ false ]

abbrev newer : PatRow → PatRow → Bool
newer r q =
    ltb q.created_at r.created_at || (nat_eq q.created_at r.created_at && text_before q.id r.id)

unfoldable pub list_personal_access_tokens : PatState → ℕ → String → List PersonalAccessToken
unfolding sort_by project
list_personal_access_tokens s now user_id = map (project now) (
    sort_by newer (
      keep
        (λ (r : PatRow).
          r.user_id == user_id && same_purpose r.purpose personal && is_none r.deleted_at)
        s.db.pats))

-- `RevokedAt = now`
abbrev pub mark_revoked : ℕ → PatRow → PatRow
mark_revoked now r = record r { revoked_at = some now }

-- `coalesce(x, now())`
abbrev pub coalesce : Option ℕ → ℕ → Option ℕ
coalesce none now = some now
coalesce (some t) now = some t

abbrev pub mark_deleted : ℕ → PatRow → PatRow
mark_deleted now r = record r {
  revoked_at = coalesce r.revoked_at now;
  deleted_at = coalesce r.deleted_at now;
}

abbrev pub mark_coalesced : ℕ → PatRow → PatRow
mark_coalesced now r = record r { revoked_at = coalesce r.revoked_at now }

abbrev pub retitle : String → List String → PatRow → PatRow
retitle name scopes r = record r { name = name; scopes = scopes }

pub record AccessTokenUpdate : Type 0 where
  pub name : Option String
  pub scopes : Option (List String)

-- The name after the update; `none` in the update keeps the stored one.
abbrev pub updated_name : Option String → String → Result String
updated_name none stored = ok stored
updated_name (some raw) stored =
    if valid_token_name (trim raw) then ok (trim raw) else err invalid_token_name

-- `for _, scope := range scopes { if !slices.Contains(previous, scope) ... }`
abbrev pub check_narrowing : Purpose → List String → List String → Result (Unit {0})
check_narrowing personal previous scopes = ok tt
check_narrowing mcp previous scopes =
    reject_if (any (λ s. not (contains previous s)) scopes) scope_expansion_requires_authorization

abbrev pub updated_scopes :
    Option User → Purpose → Option (List String) → List String → Result (List String)
updated_scopes actor purpose none previous = ok previous
updated_scopes actor purpose (some asked) previous = do
  scopes ← normalize_pat_scopes asked actor
  check_narrowing purpose previous scopes
  ok scopes

-- `actor == nil || actor.ID == "" || actor.IsThirdParty() || actor.TokenUse == "pat"`
unfoldable pub may_edit : Option User → Bool
unfolding is_third_party
may_edit none = false
may_edit (some u) = not (u.id == "") && not (is_third_party u) && not (is_pat_use u.token_use)

-- The transaction of `updateAccessToken`, with the row that `FOR UPDATE` locked.
unfoldable pub apply_update :
    PatState → Option User → String → Purpose → AccessTokenUpdate → Option PatRow → Result PatState
apply_update s actor id purpose change none = err token_not_found
apply_update s actor id purpose change (some row) = do
  name ← updated_name change.name row.name
  scopes ← updated_scopes actor purpose change.scopes row.scopes
  ok (set_pats s (update_where (owns (actor_id actor) id purpose) (retitle name scopes) s.db.pats))

abbrev pub asks_for_mcp : Option (List String) → Bool
asks_for_mcp none = false
asks_for_mcp (some scopes) = any (λ scope. trim scope == "mcp.connect") scopes

-- The row that `UPDATE ... AND revoked_at IS NULL` changes.
abbrev pub revocable : String → String → Purpose → PatRow → Bool
revocable user_id id purpose r = owns user_id id purpose r && is_none r.revoked_at

-- `id=$1 AND user_id=$2 AND purpose='personal'`
abbrev pub deletable : String → String → PatRow → Bool
deletable user_id id r = r.id == id && r.user_id == user_id && same_purpose r.purpose personal

module _ (is_uuid : String → Bool) where
  unfoldable pub update_access_token :
      PatState → Option User → String → Purpose → AccessTokenUpdate → Result PatState
  unfolding may_edit apply_update
  update_access_token s actor id purpose change = do
    reject_if (not (may_edit actor)) forbidden
    reject_if (not (is_uuid id)) token_not_found
    reject_if (is_none change.name && is_none change.scopes) invalid_request
    apply_update s actor id purpose change (find (owns (actor_id actor) id purpose) s.db.pats)

  unfoldable pub update_personal_access_token :
      PatState → Option User → String → AccessTokenUpdate → Result PatState
  unfolding update_access_token
  update_personal_access_token s actor id change = do
    reject_if (asks_for_mcp change.scopes) forbidden_pat_scope
    update_access_token s actor id personal change

  unfoldable pub update_mcp_token : PatState → Option User → String → List String → Result PatState
  unfolding update_access_token
  update_mcp_token s actor id scopes =
      update_access_token s actor id mcp
        (record { name = none; scopes = some ("mcp.connect" ∷ scopes) })

  -- `revokeAccessToken`: idempotent on a token that is revoked already.
  unfoldable pub revoke_access_token : PatState → ℕ → String → String → Purpose → Result PatState
  revoke_access_token s now user_id raw_id purpose =
      let id = trim raw_id in
      if not (is_uuid id)
      then err token_not_found
      else if any (revocable user_id id purpose) s.db.pats
      then ok
          (set_pats s (update_where (revocable user_id id purpose) (mark_revoked now) s.db.pats))
      else if any (owns user_id id purpose) s.db.pats
      then ok s
      else err token_not_found

  unfoldable pub delete_personal_access_token : PatState → ℕ → String → String → Result PatState
  delete_personal_access_token s now user_id id =
      if not (is_uuid id)
      then err token_not_found
      else if any (deletable user_id id) s.db.pats
      then ok (set_pats s (update_where (deletable user_id id) (mark_deleted now) s.db.pats))
      else err token_not_found

module _ (sha256_hex : String → String) where
  abbrev pub has_value : String → PatRow → Bool
  has_value token r = r.token_hash == hash_token sha256_hex token && same_purpose r.purpose mcp

  -- `RevokeMCPTokenByValue`: the state, and the owner and the id of the token, or two blanks.
  unfoldable pub revoke_mcp_token_by_value : PatState → ℕ → String → PatState × String × String
  unfolding has_prefix
  revoke_mcp_token_by_value s now raw =
      let token = trim raw in
      if not (has_prefix token pat_prefix)
        || not (nat_eq (len token) (len pat_prefix + pat_secret_chars))
      then (s, "", "")
      else elim (find (has_value token) s.db.pats) [
        | none ↦ (s, "", "")
        | some r ↦ (
          set_pats s (update_where (has_value token) (mark_coalesced now) s.db.pats),
          r.user_id,
          r.id,
        )
      ]
