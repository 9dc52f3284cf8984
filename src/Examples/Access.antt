-- ===== src/Examples/Access.antt =====
-- Groups, permissions and scopes.
use metafusion_auth.Prelude.{
  some, All, String, List, [], ◌∷◌, ◌≡◌, refl, Distinct, contains, any, map, ◌&&◌, true, false, ◌⊎◌,
}
use metafusion_auth.Text.{trim}
use metafusion_auth.Access.{Group, User, bare_user, has_permission, expand_permissions, can}
use metafusion_auth.Access.Laws.{
  has_permission-expand_permissions, group_grants, expand_permissions-IsPermissionSet,
  IsPermissionSet,
}
use metafusion_auth.Oauth.Scopes.{converge_scopes, parse_scopes, is_empty, fields, valid_scope}
use metafusion_auth.Oauth.Scopes.Laws.{converge_scopes-eq, parse_scopes-accepts}
use metafusion_auth.Pat.Scopes.{normalize_pat_scopes, effective_pat_permissions}
use metafusion_auth.Pat.ScopeLaws.{
  IsNormal, normalize_pat_scopes-IsNormal, has_permission-effective, delegates, effective-can,
}

abbrev group_of : String → List String → Group
group_of code permissions = record {
  id = code;
  code = code;
  permissions = permissions;
  is_system = false;
  sort_order = 0;
}

abbrev groups : List Group
groups =
    group_of "editors" ("catalog.edit" ∷ " catalog.read " ∷ []) ∷ group_of "admin" ("*" ∷ []) ∷ []

abbrev editor : User
editor = record (bare_user "u1" "ada") { permissions = "catalog.edit" ∷ "catalog.read" ∷ [] }

has_permission-expand_permissions_example :
    has_permission (expand_permissions groups) "catalog.read"
    ≡ any (group_grants "catalog.read") groups
has_permission-expand_permissions_example = has_permission-expand_permissions groups "catalog.read"

expand_permissions-IsPermissionSet_example : IsPermissionSet (expand_permissions groups)
expand_permissions-IsPermissionSet_example = expand_permissions-IsPermissionSet groups

normalize_pat_scopes-IsNormal_example :
    IsNormal editor (" catalog.read" ∷ "" ∷ "catalog.read" ∷ []) ("catalog.read" ∷ [])
unfolding normalize_pat_scopes trim metafusion_auth.Access.valid_permission_code can
normalize_pat_scopes-IsNormal_example =
    normalize_pat_scopes-IsNormal editor (" catalog.read" ∷ "" ∷ "catalog.read" ∷ [])
      ("catalog.read" ∷ []) refl

has_permission-effective_example :
    has_permission
      (effective_pat_permissions editor ("catalog.read" ∷ "other.read" ∷ []))
      "other.read"
    ≡ any (delegates editor "other.read") ("catalog.read" ∷ "other.read" ∷ [])
has_permission-effective_example =
    has_permission-effective editor ("catalog.read" ∷ "other.read" ∷ []) "other.read"

effective-can_example : can (some editor) "catalog.read" ≡ true
unfolding effective_pat_permissions has_permission can
effective-can_example = effective-can editor ("catalog.read" ∷ []) "catalog.read" refl refl

converge_scopes-eq_example :
    Distinct (converge_scopes ("openid" ∷ " email" ∷ "openid" ∷ []) ("openid" ∷ []))
    × (contains (converge_scopes ("openid" ∷ " email" ∷ "openid" ∷ []) ("openid" ∷ [])) "email" ≡ (
        contains (map trim ("openid" ∷ " email" ∷ "openid" ∷ [])) "email"
        && contains (map trim ("openid" ∷ [])) "email"))
converge_scopes-eq_example =
    converge_scopes-eq ("openid" ∷ " email" ∷ "openid" ∷ []) ("openid" ∷ []) "email"

parse_scopes-accepts_example :
    Distinct ("openid" ∷ "email" ∷ [])
    × All (λ c. valid_scope c ≡ true) ("openid" ∷ "email" ∷ [])
    × (is_empty ("openid" ∷ "email" ∷ []) ≡ false)
    × (is_empty (fields "openid  email openid") ≡ true
        ⊎ contains ("openid" ∷ "email" ∷ []) "email"
          ≡ contains (fields "openid  email openid") "email")
unfolding parse_scopes trim
parse_scopes-accepts_example =
    parse_scopes-accepts "openid  email openid" ("openid" ∷ "email" ∷ []) "email" refl
