-- ===== src/Pat/Scopes.antt =====
-- Which scopes a token may be issued with, and what it authorises later: `NormalizePATScopes` and
-- `EffectivePATPermissions` of internal/store/pat.go.
use metafusion_auth.Prelude.{
  String, Bool, ◌||◌, ◌==◌, Option, none, some, List, [], ◌∷◌, ◌++◌, contains, Result, ok, err,
  forbidden, invalid_scope, forbidden_pat_scope, scope_not_granted, invalid_scope_empty,
  if◌then◌else◌, not,
}
use metafusion_auth.Text.{trim, has_suffix}
use metafusion_auth.Access.{User, valid_permission_code, can, wildcard_permission}

-- The codes that no new machine token may carry.
unfoldable pub forbidden_scope : String → Bool
unfolding has_suffix
forbidden_scope s =
    s == wildcard_permission || s == "catalog.review.bypass" || has_suffix s ".manage"

-- `for _, raw := range scopes { ... }`; the map `seen` holds exactly the codes in `out`.
unfoldable pub normalize_from : User → List String → List String → Result (List String)
unfolding forbidden_scope
normalize_from actor out [] = ok out
normalize_from actor out (raw ∷ rest) =
    let s = trim raw in
    let next = normalize_from actor out rest in
    let added = normalize_from actor (out ++ s ∷ []) rest in
    if s == ""
    then next
    else if not (valid_permission_code s)
    then err (invalid_scope s)
    else if forbidden_scope s
    then err forbidden_pat_scope
    else if contains out s
    then next
    else if not (can (some actor) s)
    then err (scope_not_granted s)
    else added

-- `if len(out) == 0 { return nil, invalid_scope: empty }`
abbrev pub require_some : Result (List String) → Result (List String)
require_some (ok []) = err invalid_scope_empty
require_some (ok (s ∷ out)) = ok (s ∷ out)
require_some (err e) = err e

unfoldable pub normalize_pat_scopes : List String → Option User → Result (List String)
unfolding normalize_from
normalize_pat_scopes scopes none = err forbidden
normalize_pat_scopes scopes (some actor) = require_some (normalize_from actor [] scopes)

-- `for _, s := range scopes { ... }` of `EffectivePATPermissions`.
unfoldable pub effective_from : User → List String → List String → List String
effective_from u out [] = out
effective_from u out (s ∷ rest) =
    let next = effective_from u out rest in
    let added = effective_from u (out ++ s ∷ []) rest in
    if not (can (some u) s)
    then next
    else if s == wildcard_permission
    then wildcard_permission ∷ []
    else added

unfoldable pub effective_pat_permissions : User → List String → List String
unfolding effective_from
effective_pat_permissions u scopes = effective_from u [] scopes
