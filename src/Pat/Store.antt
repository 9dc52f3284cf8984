-- ===== src/Pat/Store.antt =====
-- The table auth.personal_access_tokens and the operations on it: internal/store/pat.go and
-- internal/store/access_token_management.go. A failing operation leaves the state as it was (a
-- transaction that is rolled back). SHA-256 and `uuid.Parse` are parameters.
use metafusion_auth.Prelude.{
  ℕ, ◌+◌, ◌*◌, String, Bool, true, false, not, ◌&&◌, ◌||◌, ◌==◌, Option, none, some, List, [], ◌∷◌,
  ◌++◌, any, count, Result, ok, err, reject_if, ◌>>=◌, ◌>>◌, forbidden, forbidden_pat_scope,
  invalid_token_name, token_limit_reached, database_conflict, ltb, leb, if◌then◌else◌,
}
use metafusion_auth.Text.{trim, rune_count}
use metafusion_auth.Access.{User, TokenUse, pat, is_third_party}
use metafusion_auth.Database.{
  Database, PatRow, Purpose, personal, mcp, same_purpose, is_none, unexpired,
}
use metafusion_auth.Pat.Scopes.{normalize_pat_scopes}
use metafusion_auth.Pat.Plaintext.{pat_prefix_of, hash_token}

-- The projection that leaves the service: no hash and no plaintext.
pub record PersonalAccessToken : Type 0 where
  pub id : String
  pub name : String
  pub token_prefix : String
  pub scopes : List String
  pub expires_at : Option ℕ
  pub last_used_at : Option ℕ
  pub created_at : ℕ
  pub revoked_at : Option ℕ
  pub active : Bool

pub record PatPrincipal : Type 0 where
  pub token_id : String
  pub token_name : String
  pub user_id : String
  pub username : String
  pub groups : List String
  pub permissions : List String
  pub catalog_review_exempt : Bool
  pub scopes : List String
  pub expires_at : Option ℕ
  pub token_prefix : String

-- The database and `patTouched`.
pub record PatState : Type 0 where
  pub db : Database
  pub touched : List (String × ℕ)

abbrev pub pat_name_max_runes : ℕ
pat_name_max_runes = 64

abbrev pub max_personal_access_tokens_per_user : ℕ
max_personal_access_tokens_per_user = 10

abbrev pub max_mcp_tokens : ℕ
max_mcp_tokens = 50

-- `time.Minute`
abbrev pub pat_last_used_ttl : ℕ
pat_last_used_ttl = 60 * 1000000000

-- `revoked_at IS NULL AND deleted_at IS NULL AND (expires_at IS NULL OR expires_at>now())`
abbrev pub is_live : ℕ → PatRow → Bool
is_live now r = is_none r.revoked_at && is_none r.deleted_at && unexpired now r.expires_at

-- `user_id=$1 AND purpose=$2` and alive
abbrev pub counts_for : ℕ → String → Purpose → PatRow → Bool
counts_for now user_id purpose r =
    r.user_id == user_id && same_purpose r.purpose purpose && is_live now r

abbrev pub set_pats : PatState → List PatRow → PatState
set_pats s rows = record s { db = record s.db { pats = rows } }

abbrev pub is_pat_use : TokenUse → Bool
is_pat_use pat = true
is_pat_use _ = false

-- `actor == nil || strings.TrimSpace(actor.ID) == "" || actor.IsThirdParty() || TokenUse == "pat"`
unfoldable pub may_issue : Option User → Bool
unfolding is_third_party
may_issue none = false
may_issue (some u) = not (trim u.id == "") && not (is_third_party u) && not (is_pat_use u.token_use)

abbrev pub actor_id : Option User → String
actor_id none = ""
actor_id (some u) = u.id

abbrev pub valid_token_name : String → Bool
valid_token_name name = not (name == "") && leb (rune_count name) pat_name_max_runes

-- `expiresIn <= 0` is no expiry.
abbrev pub expiry : ℕ → ℕ → Option ℕ
expiry now expires_in = if ltb 0 expires_in then some (now + expires_in) else none

-- The unique keys of the table.
abbrev pub conflicts : PatRow → PatRow → Bool
conflicts new old = old.token_hash == new.token_hash || old.id == new.id

abbrev pub new_row :
    ℕ → String → String → String → String → String → List String → ℕ → Purpose → PatRow
new_row now id user_id name hash prefix scopes expires_in purpose = record {
  id = id;
  user_id = user_id;
  name = name;
  token_hash = hash;
  token_prefix = prefix;
  scopes = scopes;
  expires_at = expiry now expires_in;
  last_used_at = none;
  created_at = now;
  revoked_at = none;
  purpose = purpose;
  deleted_at = none;
}

-- The transaction of `createAccessToken`: the quota, then the insertion.
unfoldable pub insert_pat : PatState → ℕ → ℕ → PatRow → Result PatState
insert_pat s now limit row =
    if leb limit (count (counts_for now row.user_id row.purpose) s.db.pats)
    then err token_limit_reached
    else if any (conflicts row) s.db.pats
    then err database_conflict
    else ok (set_pats s (s.db.pats ++ row ∷ []))

abbrev pub active_at : ℕ → PatRow → Bool
active_at now r = is_none r.revoked_at && unexpired now r.expires_at

unfoldable pub project : ℕ → PatRow → PersonalAccessToken
project now r = record {
  id = r.id;
  name = r.name;
  token_prefix = r.token_prefix;
  scopes = r.scopes;
  expires_at = r.expires_at;
  last_used_at = r.last_used_at;
  created_at = r.created_at;
  revoked_at = r.revoked_at;
  active = active_at now r;
}

module _ (sha256_hex : String → String) where
  -- `createAccessToken`, given the plaintext and the id that the generators returned.
  unfoldable pub create_access_token :
      PatState
      → ℕ
      → String
      → String
      → Option User
      → String
      → List String
      → ℕ
      → Purpose
      → ℕ
      → Result (PatState × PersonalAccessToken × String)
  unfolding may_issue insert_pat project
  create_access_token s now plain id actor raw_name scopes expires_in purpose limit = do
    reject_if (not (may_issue actor)) forbidden
    let name = trim raw_name
    reject_if (not (valid_token_name name)) invalid_token_name
    norm ← normalize_pat_scopes scopes actor
    let row =
        new_row now id (actor_id actor) name (hash_token sha256_hex plain) (pat_prefix_of plain)
          norm expires_in purpose
    s' ← insert_pat s now limit row
    ok (s', project now row, plain)

  unfoldable pub create_personal_access_token :
      PatState
      → ℕ
      → String
      → String
      → Option User
      → String
      → List String
      → ℕ
      → Result (PatState × PersonalAccessToken × String)
  unfolding create_access_token
  create_personal_access_token s now plain id actor name scopes expires_in = do
    reject_if (any (λ scope. trim scope == "mcp.connect") scopes) forbidden_pat_scope
    create_access_token s now plain id actor name scopes expires_in personal
        max_personal_access_tokens_per_user

  unfoldable pub create_mcp_token :
      PatState
      → ℕ
      → String
      → String
      → Option User
      → String
      → List String
      → Result (PatState × PersonalAccessToken × String)
  unfolding create_access_token
  create_mcp_token s now plain id actor name scopes =
      create_access_token s now plain id actor name ("mcp.connect" ∷ scopes) 0 mcp max_mcp_tokens
