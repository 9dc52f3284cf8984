-- ===== src/Oauth/Clients.antt =====
-- OAuth clients: the checks of internal/store/oauth.go, and the creation, update, rotation and
-- deletion of clients, which the administration and the developer centre share. `url.Parse` and
-- bcrypt are parameters; the generated id and secret are arguments.
pub mod Manage
pub mod Laws
use Prim.Native.Char.{code}
use Prim.Native.String.{[], ◌∷◌}
use mathlib.Core.List as List
use metafusion_auth.Prelude.{
  String, List, Bool, true, false, not, ◌&&◌, ◌||◌, ◌==◌, ◌++◌, Option, none, some, any, contains,
  find, ltb, if◌then◌else◌, Result, ok, err, reject_if, ◌>>=◌, ◌>>◌, nat_eq, is_ok, invalid_scopes,
  invalid_scope, invalid_client_description, invalid_homepage_url, invalid_redirect_uris,
  bad_redirect_uri,
}
use metafusion_auth.Text.{trim, rune_count}
use metafusion_auth.Text.Regex.{Regex, class, seq, at_most, matches}
use metafusion_auth.Access.{User, can, lower, group_code_char}
use metafusion_auth.Database.{ClientRow}
use metafusion_auth.Oauth.Scopes.{valid_scope}

-- What the code reads of a parsed address.
pub record Url : Type 0 where
  pub scheme : String
  pub host : String
  pub fragment : String
  pub has_user : Bool

-- `ValidateClientScopes`
unfoldable pub check_scopes : List String → Result (Unit {0})
unfolding valid_scope
check_scopes List.[] = ok tt
check_scopes (List.◌∷◌ c cs) =
    let rest = check_scopes cs in if valid_scope c then rest else err (invalid_scope c)

unfoldable pub validate_client_scopes : List String → Result (Unit {0})
unfolding check_scopes
validate_client_scopes List.[] = err invalid_scopes
validate_client_scopes (List.◌∷◌ c cs) = check_scopes (List.◌∷◌ c cs)

-- `RedirectURIAllowed`
unfoldable pub redirect_uri_allowed : List String → String → Bool
redirect_uri_allowed allowed uri = contains allowed uri

-- `ValidateClientDescription`
unfoldable pub validate_client_description : String → Result (Unit {0})
unfolding trim rune_count
validate_client_description desc =
    reject_if (ltb 500 (rune_count (trim desc))) invalid_client_description

-- `strings.Contains(s, "*")`
unfoldable pub has_star : String → Bool
has_star [] = false
has_star (c ∷ s) = nat_eq (code c) 42 || has_star s

-- `^[a-z][a-z0-9_-]{2,63}$`
abbrev pub client_id_re : Regex
client_id_re = seq lower (seq group_code_char (seq group_code_char (at_most 61 group_code_char)))

-- `ValidClientID`
unfoldable pub valid_client_id : String → Bool
unfolding trim matches
valid_client_id id = matches client_id_re (trim id)

-- `canManageOAuth`
unfoldable pub can_manage_oauth : Option User → Bool
unfolding can
can_manage_oauth actor = can actor "auth.oauth.manage"

-- The loop of `normalizeStrings`; what has been seen is what stands in `out`.
unfoldable pub normalize_strings_from : List String → List String → List String
unfolding trim
normalize_strings_from out List.[] = out
normalize_strings_from out (List.◌∷◌ raw rest) =
    let s = trim raw in
    let skipped = normalize_strings_from out rest in
    let added = normalize_strings_from (out ++ List.◌∷◌ s List.[]) rest in
    if s == "" || contains out s then skipped else added

-- `normalizeStrings`
unfoldable pub normalize_strings : List String → List String
unfolding normalize_strings_from
normalize_strings strings = normalize_strings_from List.[] strings

abbrev is_web : Url → Bool
is_web u = (u.scheme == "http" || u.scheme == "https") && (not (u.host == "") && not u.has_user)

module _ (parse_url : String → Option Url) where
  abbrev pub is_homepage : Option Url → Bool
  is_homepage none = false
  is_homepage (some u) = is_web u

  abbrev pub is_callback : Option Url → Bool
  is_callback none = false
  is_callback (some u) = is_web u && u.fragment == ""

  -- `ValidateHomepageURL`
  unfoldable pub validate_homepage_url : String → Result (Unit {0})
  validate_homepage_url raw =
      reject_if (not (trim raw == "") && not (is_homepage (parse_url (trim raw))))
        (invalid_homepage_url (trim raw))

  unfoldable pub check_redirect_uris : List String → Result (Unit {0})
  unfolding has_star
  check_redirect_uris List.[] = ok tt
  check_redirect_uris (List.◌∷◌ raw rest) =
      let next = check_redirect_uris rest in
      let uri = trim raw in
      if uri == "" || (has_star uri || not (is_callback (parse_url uri)))
      then err (bad_redirect_uri raw)
      else next

  -- `ValidateRedirectURIs`
  unfoldable pub validate_redirect_uris : List String → Result (Unit {0})
  unfolding check_redirect_uris
  validate_redirect_uris List.[] = err invalid_redirect_uris
  validate_redirect_uris (List.◌∷◌ u us) = check_redirect_uris (List.◌∷◌ u us)
