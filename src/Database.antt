-- ===== src/Database.antt =====
-- The tables of the auth schema that the modelled code reads and writes, as lists of rows, and the
-- queries that several components share (the `schema` constant of internal/store/store.go). Times
-- are nanoseconds of one clock, which is passed to each operation.
use Prim.Native.Nat.{Ordering}
use Prim.Native.String as Text
use metafusion_auth.Prelude.{
  ℕ, String, Bool, true, false, ◌&&◌, ◌||◌, ◌==◌, Option, none, some, List, [], any, keep, sort_by,
  ltb, nat_eq,
}
use metafusion_auth.Access.{User, Group, with_access}

pub record UserRow : Type 0 where
  pub id : String
  pub username : String
  pub email : String
  pub password_hash : String
  pub banned : Bool
  pub display_name : String
  pub bio : String

-- auth.user_groups
pub record Membership : Type 0 where
  pub user_id : String
  pub group_id : String
  pub granted_by : Option String

pub data Purpose : Type 0 where
  personal mcp : Purpose

abbrev pub same_purpose : Purpose → Purpose → Bool
same_purpose personal personal = true
same_purpose mcp mcp = true
same_purpose _ _ = false

-- auth.personal_access_tokens
pub record PatRow : Type 0 where
  pub id : String
  pub user_id : String
  pub name : String
  pub token_hash : String
  pub token_prefix : String
  pub scopes : List String
  pub expires_at : Option ℕ
  pub last_used_at : Option ℕ
  pub created_at : ℕ
  pub revoked_at : Option ℕ
  pub purpose : Purpose
  pub deleted_at : Option ℕ

-- auth.sessions
pub record SessionRow : Type 0 where
  pub token_hash : String
  pub user_id : String
  pub expires_at : ℕ

-- auth.oauth_codes
pub record CodeRow : Type 0 where
  pub code : String
  pub client_id : String
  pub user_id : String
  pub redirect_uri : String
  pub scope : String
  pub expires_at : ℕ
  pub used : Bool
  pub code_challenge : String
  pub code_challenge_method : String

-- auth.oauth_tokens
pub record TokenRow : Type 0 where
  pub token_hash : String
  pub client_id : String
  pub user_id : String
  pub scope : String
  pub expires_at : ℕ
  pub jti : String

-- auth.oauth_clients
pub record ClientRow : Type 0 where
  pub id : String
  pub secret_hash : String
  pub name : String
  pub description : String
  pub homepage_url : String
  pub redirect_uris : List String
  pub scopes : List String
  pub trusted : Bool
  pub disabled : Bool
  pub verified : Bool
  pub owner_user_id : Option String
  pub created_at : ℕ

-- The actions of auth.oauth_audit.
pub data OauthAction : Type 0 where
  consent_allow consent_deny trusted_allow : OauthAction
  client_create client_update client_secret_rotated client_deleted tokens_revoked : OauthAction

-- auth.oauth_audit
pub record OauthAuditRow : Type 0 where
  pub actor_user_id : Option String
  pub subject_user_id : Option String
  pub client_id : String
  pub action : OauthAction
  pub scopes : List String
  pub detail : String

-- auth.invites
pub record InviteRow : Type 0 where
  pub code : String
  pub created_by : String
  pub note : String
  pub max_uses : ℕ
  pub used_count : ℕ
  pub revoked : Bool
  pub expires_at : Option ℕ

-- auth.invite_uses
pub record InviteUse : Type 0 where
  pub invite_code : String
  pub user_id : String

pub record Database : Type 0 where
  pub users : List UserRow
  pub groups : List Group
  pub user_groups : List Membership
  pub sessions : List SessionRow
  pub pats : List PatRow
  pub codes : List CodeRow
  pub tokens : List TokenRow
  pub invites : List InviteRow
  pub invite_uses : List InviteUse
  pub clients : List ClientRow
  pub oauth_audit : List OauthAuditRow

abbrev pub empty_database : Database
empty_database = record {
  users = [];
  groups = [];
  user_groups = [];
  sessions = [];
  pats = [];
  codes = [];
  tokens = [];
  invites = [];
  invite_uses = [];
  clients = [];
  oauth_audit = [];
}

abbrev pub is_none {ℓ} : {A : Type ℓ} → Option A → Bool
is_none none = true
is_none (some a) = false

-- `expires_at IS NULL OR expires_at>now()`
abbrev pub unexpired : ℕ → Option ℕ → Bool
unexpired now none = true
unexpired now (some t) = ltb now t

abbrev text_before : String → String → Bool
text_before s t = elim (Text.compare s t) [ Ordering.lt ↦ true | _ ↦ false ]

-- `ORDER BY g.sort_order, g.code`
abbrev group_before : Group → Group → Bool
group_before g h =
    ltb g.sort_order h.sort_order || (nat_eq g.sort_order h.sort_order && text_before g.code h.code)

-- `ug.user_id=$1 AND ug.group_id=g.id`
abbrev pub is_member : List Membership → String → Group → Bool
is_member memberships user_id g =
    any (λ (m : Membership). m.user_id == user_id && m.group_id == g.id) memberships

-- `GroupsForUser`
unfoldable pub groups_for_user : Database → String → List Group
unfolding sort_by
groups_for_user db user_id =
    sort_by group_before (keep (is_member db.user_groups user_id) db.groups)

-- `(*Store).WithAccess`
unfoldable pub load_access : Database → User → User
unfolding with_access groups_for_user
load_access db u = with_access u (groups_for_user db u.id)

-- `EXISTS(SELECT 1 FROM auth.user_groups ug JOIN auth.groups g ... AND g.code='admin')`
unfoldable pub in_admin_group : Database → String → Bool
in_admin_group db user_id =
    any (λ (g : Group). g.code == "admin" && is_member db.user_groups user_id g) db.groups
