-- ===== src/Oauth/Scopes.antt =====
-- Scopes of third-party authorisation and the identity they show: the first part of
-- internal/store/oauth.go.
pub mod Laws
pub mod RoundTrip
use Prim.Native.Char.{Char}
use Prim.Native.String.{[], ◌∷◌}
use mathlib.Core.List as List
use metafusion_auth.Prelude.{
  String, List, Bool, true, false, not, ◌&&◌, ◌||◌, ◌==◌, ◌++◌, any, keep, contains, map,
  if◌then◌else◌, Result, ok, err, reject_if, ◌>>=◌, ◌>>◌, invalid_scope,
}
use metafusion_auth.Text.{trim, is_space}
use metafusion_auth.Access.{User, bare_user}

abbrev pub supported_scopes : List String
supported_scopes = List.◌∷◌ "openid" (List.◌∷◌ "profile" (List.◌∷◌ "email" List.[]))

abbrev pub default_scope : String
default_scope = "profile"

-- `ValidScope`
unfoldable pub valid_scope : String → Bool
valid_scope code = contains supported_scopes (trim code)

abbrev pub starts_word : String → Bool
starts_word [] = false
starts_word (c ∷ s) = not (is_space c)

-- Puts a character before the first of several texts.
abbrev pub push_first : Char → List String → List String
push_first c List.[] = List.◌∷◌ (c ∷ []) List.[]
push_first c (List.◌∷◌ w ws) = List.◌∷◌ (c ∷ w) ws

-- `strings.Fields`
unfoldable pub fields : String → List String
unfolding is_space
fields [] = List.[]
fields (c ∷ s) =
    let rest = fields s in
    if is_space c then rest else if starts_word s then push_first c rest else List.◌∷◌ (c ∷ []) rest

-- The loop of `SplitScopes`; what has been seen is what stands in `out`.
unfoldable pub split_from : List String → List String → List String
split_from out List.[] = out
split_from out (List.◌∷◌ code rest) =
    let skipped = split_from out rest in
    let added = split_from (out ++ List.◌∷◌ code List.[]) rest in
    if contains out code then skipped else added

-- `SplitScopes`
unfoldable pub split_scopes : String → List String
unfolding fields split_from
split_scopes raw = split_from List.[] (fields raw)

-- `UnsupportedScopes`
unfoldable pub unsupported_scopes : String → List String
unfolding split_scopes valid_scope
unsupported_scopes raw = keep (λ code. not (valid_scope code)) (split_scopes raw)

-- `SupportedSubset`
unfoldable pub supported_subset : List String → List String
unfolding valid_scope
supported_subset codes = keep valid_scope codes

abbrev pub is_empty : List String → Bool
is_empty List.[] = true
is_empty (List.◌∷◌ x xs) = false

-- `ParseScopes`
unfoldable pub parse_scopes : String → Result (List String)
unfolding unsupported_scopes
parse_scopes raw = do
  reject_if (not (is_empty (unsupported_scopes raw))) (invalid_scope "")
  ok (if is_empty (split_scopes raw) then List.◌∷◌ default_scope List.[] else split_scopes raw)

-- The loop of `ConvergeScopes`; what has been seen is what stands in `out`.
unfoldable pub converge_from : List String → List String → List String → List String
converge_from allow out List.[] = out
converge_from allow out (List.◌∷◌ raw rest) =
    let code = trim raw in
    let skipped = converge_from allow out rest in
    let added = converge_from allow (out ++ List.◌∷◌ code List.[]) rest in
    if not (contains allow code) || contains out code then skipped else added

-- `ConvergeScopes`
unfoldable pub converge_scopes : List String → List String → List String
unfolding converge_from
converge_scopes requested allowed = converge_from (map trim allowed) List.[] requested

abbrev pub join_with_space : String → String → String
join_with_space [] rest = " " ∷ rest
join_with_space (c ∷ w) rest = c ∷ join_with_space w rest

-- `FormatScopes`
unfoldable pub format_scopes : List String → String
format_scopes List.[] = ""
format_scopes (List.◌∷◌ w List.[]) = w
format_scopes (List.◌∷◌ w (List.◌∷◌ v ws)) = join_with_space w (format_scopes (List.◌∷◌ v ws))

-- `HasOAuthScope`
unfoldable pub has_oauth_scope : List String → String → Bool
has_oauth_scope scopes code = any (λ s. trim s == code) scopes

-- `OAuthTokenUser`
unfoldable pub oauth_token_user : User → List String → User
unfolding has_oauth_scope
oauth_token_user u scopes =
    record (bare_user u.id (if has_oauth_scope scopes "profile" then u.username else "")) {
      email = if has_oauth_scope scopes "email" then u.email else "";
    }

-- `IDTokenUser`
unfoldable pub id_token_user : User → List String → User
unfolding has_oauth_scope
id_token_user u scopes =
    record (bare_user u.id (if has_oauth_scope scopes "profile" then u.username else "")) {
      email = if has_oauth_scope scopes "email" then u.email else "";
    }
