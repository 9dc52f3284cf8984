-- ===== src/Accounts/Groups.antt =====
-- Permission groups and their members: `CreateGroup`, `UpdateGroup`, `DeleteGroup` and
-- `SetUserGroups` of internal/store/groups.go. A failing operation leaves the tables as they were.
-- The display names of a group are left out.
use metafusion_auth.Prelude.{
  ℕ, String, Bool, false, not, ◌&&◌, ◌==◌, Option, none, some, List, [], ◌∷◌, ◌++◌, any, keep,
  count, find, update_where, leb, if◌then◌else◌, Result, ok, err, reject_if, ◌>>=◌, ◌>>◌, forbidden,
  user_not_found, cannot_demote_sole_admin, group_not_found, invalid_group_code,
  invalid_permission_code, group_exists, system_group_immutable, cannot_strip_admin_wildcard,
}
use metafusion_auth.Text.{trim}
use metafusion_auth.Access.{
  User, Group, can, has_permission, valid_group_code, valid_permission_code,
}
use metafusion_auth.Database.{Database, UserRow, Membership, in_admin_group}

abbrev pub has_code : String → Group → Bool
has_code code g = g.code == code

-- The id of an actor that has passed the guard, `actor.ID`
abbrev pub granter : Option User → Option String
granter none = none
granter (some u) = some u.id

-- `validatePermissionCodes`
unfoldable pub validate_permission_codes : List String → Result (Unit {0})
validate_permission_codes [] = ok tt
validate_permission_codes (c ∷ cs) =
    let rest = validate_permission_codes cs in
    if valid_permission_code c then rest else err (invalid_permission_code c)

-- `CreateGroup`, with the generated id.
unfoldable pub create_group : Database → String → Group → Option User → Result Database
unfolding validate_permission_codes
create_group db id input actor = do
  reject_if (not (can actor "auth.groups.manage")) forbidden
  let code = trim input.code
  reject_if (not (valid_group_code code)) invalid_group_code
  validate_permission_codes input.permissions
  reject_if (any (has_code code) db.groups) group_exists
  let row = record input { id = id; code = code; is_system = false }
  ok (record db { groups = db.groups ++ row ∷ [] })

-- `UpdateGroup`: the permissions and the order.
unfoldable pub update_group : Database → String → Group → Option User → Result Database
unfolding validate_permission_codes has_permission
update_group db raw_code input actor = do
  reject_if (not (can actor "auth.groups.manage")) forbidden
  validate_permission_codes input.permissions
  let code = trim raw_code
  reject_if (code == "admin" && not (has_permission input.permissions "*"))
      cannot_strip_admin_wildcard
  reject_if (not (any (has_code code) db.groups)) (group_not_found "")
  ok (record db {
    groups =
        update_where (has_code code)
          (λ (g : Group). record g {
            permissions = input.permissions;
            sort_order = input.sort_order;
          })
          db.groups;
  })

-- The rest of `DeleteGroup`, with the row that the query found; memberships go by the cascade.
unfoldable pub delete_found : Database → String → Option Group → Result Database
delete_found db code none = err (group_not_found "")
delete_found db code (some g) =
    if g.is_system
    then err system_group_immutable
    else ok (record db {
      groups = keep (λ (h : Group). not (has_code code h)) db.groups;
      user_groups = keep (λ (m : Membership). not (m.group_id == g.id)) db.user_groups;
    })

unfoldable pub delete_group : Database → String → Option User → Result Database
unfolding delete_found
delete_group db raw_code actor = do
  reject_if (not (can actor "auth.groups.manage")) forbidden
  delete_found db (trim raw_code) (find (has_code (trim raw_code)) db.groups)

-- The membership is in a group with the code `admin`.
abbrev pub is_admin_row : List Group → Membership → Bool
is_admin_row groups m = any (λ (g : Group). g.id == m.group_id && g.code == "admin") groups

abbrev pub belongs_to : String → Membership → Bool
belongs_to user_id m = m.user_id == user_id

-- `count(*) FROM auth.user_groups ug JOIN auth.groups g ... WHERE g.code='admin'`
unfoldable pub admin_count : Database → ℕ
admin_count db = count (is_admin_row db.groups) db.user_groups

-- `ON CONFLICT DO NOTHING`
abbrev pub add_membership : Membership → List Membership → List Membership
add_membership m ms =
    if any (λ (x : Membership). x.user_id == m.user_id && x.group_id == m.group_id) ms
    then ms
    else ms ++ m ∷ []

-- `for _, code := range codes { ... }`
unfoldable pub assign_groups :
    List Group → String → Option String → List String → List Membership → Result (List Membership)
assign_groups groups user_id by [] ms = ok ms
assign_groups groups user_id by (raw ∷ rest) ms =
    let code = trim raw in
    let next = assign_groups groups user_id by rest ms in
    let found : Result (List Membership) = elim (find (has_code code) groups) [
      | none ↦ err (group_not_found code)
      | some g ↦
          assign_groups groups user_id by rest
            (add_membership (record { user_id = user_id; group_id = g.id; granted_by = by }) ms)
    ] in
    if code == "" then next else found

-- Whether the guard against demoting the last administrator stops the change.
unfoldable pub demotes_sole_admin : Database → String → List String → Bool
unfolding admin_count in_admin_group
demotes_sole_admin db user_id codes =
    not (any (λ c. trim c == "admin") codes) && in_admin_group db user_id && leb (admin_count db) 1

unfoldable pub set_user_groups : Database → String → List String → Option User → Result Database
unfolding demotes_sole_admin assign_groups
set_user_groups db user_id codes actor = do
  reject_if (not (can actor "auth.users.manage")) forbidden
  reject_if (not (any (λ (u : UserRow). u.id == user_id) db.users)) user_not_found
  reject_if (demotes_sole_admin db user_id codes) cannot_demote_sole_admin
  ms ←
      assign_groups db.groups user_id (granter actor) codes
        (keep (λ (m : Membership). not (belongs_to user_id m)) db.user_groups)
  ok (record db { user_groups = ms })

-- A membership of an administrator who may still log in.
abbrev pub is_active_admin : Database → Membership → Bool
is_active_admin db m =
    is_admin_row db.groups m && any (λ (u : UserRow). u.id == m.user_id && not u.banned) db.users

-- `count(*) FROM auth.users u JOIN ... WHERE g.code='admin' AND NOT u.banned`
unfoldable pub active_admin_count : Database → ℕ
active_admin_count db = count (is_active_admin db) db.user_groups
