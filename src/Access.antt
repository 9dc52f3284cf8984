-- ===== src/Access.antt =====
-- internal/store/access.go (permission codes, expansion, the authorisation predicate) and the
-- account projection `User` of internal/store/store.go.
pub mod Laws
use mathlib.Core.List.{[], ◌∷◌}
use metafusion_auth.Prelude.{
  ℕ, String, Bool, true, false, not, ◌&&◌, ◌||◌, ◌==◌, Option, none, some, List, ◌++◌, map,
  if◌then◌else◌, any, contains,
}
use metafusion_auth.Text.{trim}
use metafusion_auth.Text.Regex.{Regex, class, seq, alt, star, at_most, matches}

-- The values of `User.TokenUse` that the code names; `unset` is the empty text.
pub data TokenUse : Type 0 where
  unset session oauth id_token pat : TokenUse
  other : String → TokenUse

pub record User : Type 0 where
  pub id : String
  pub username : String
  pub email : String
  pub display_name : String
  pub bio : String
  pub groups : List String
  pub permissions : List String
  pub token_use : TokenUse
  pub pat_id : String
  pub client_id : String
  pub scope : String
  pub banned : Bool

-- `User{ID: id, Username: username}`
abbrev pub bare_user : String → String → User
bare_user id username = record {
  id = id;
  username = username;
  email = "";
  display_name = "";
  bio = "";
  groups = [];
  permissions = [];
  token_use = unset;
  pat_id = "";
  client_id = "";
  scope = "";
  banned = false;
}

abbrev pub is_third_party_use : TokenUse → Bool
is_third_party_use oauth = true
is_third_party_use id_token = true
is_third_party_use _ = false

unfoldable pub is_third_party : User → Bool
is_third_party u = is_third_party_use u.token_use

-- The columns of a permission group that the account service reads.
pub record Group : Type 0 where
  pub id : String
  pub code : String
  pub permissions : List String
  pub is_system : Bool
  pub sort_order : ℕ

abbrev pub wildcard_permission : String
wildcard_permission = "*"

-- `[a-z]` and `[a-z0-9_]`
abbrev pub lower : Regex
lower = class ((b'a', b'z') ∷ [])

abbrev pub word : Regex
word = class ((b'a', b'z') ∷ (b'0', b'9') ∷ (b'_', b'_') ∷ [])

abbrev pub segment : Regex
segment = seq lower (star word)

abbrev pub dot_segment : Regex
dot_segment = seq (class ((b'.', b'.') ∷ [])) segment

-- `^\*$|^[a-z][a-z0-9_]*(\.[a-z][a-z0-9_]*){1,3}$`
abbrev pub permission_re : Regex
permission_re =
    alt (class ((b'*', b'*') ∷ [])) (seq segment (seq dot_segment (at_most 2 dot_segment)))

-- `^[a-z][a-z0-9_-]{1,63}$`
abbrev pub group_code_char : Regex
group_code_char = class ((b'a', b'z') ∷ (b'0', b'9') ∷ (b'_', b'_') ∷ (b'-', b'-') ∷ [])

abbrev pub group_code_re : Regex
group_code_re = seq lower (seq group_code_char (at_most 62 group_code_char))

unfoldable pub valid_permission_code : String → Bool
unfolding trim matches
valid_permission_code code = matches permission_re (trim code)

unfoldable pub valid_group_code : String → Bool
unfolding trim matches
valid_group_code code = matches group_code_re (trim code)

-- What a run of the inner loop of `ExpandPermissions` comes to: `return []string{"*"}`, or the
-- codes gathered so far. The map `seen` holds exactly the codes in `out`.
pub data Expansion : Type 0 where
  everything : Expansion
  codes : List String → Expansion

-- `for _, p := range g.Permissions { ... }`
unfoldable pub expand_codes : List String → List String → Expansion
expand_codes out [] = codes out
expand_codes out (raw ∷ rest) =
    let p = trim raw in
    let next = expand_codes out rest in
    let added = expand_codes (out ++ p ∷ []) rest in
    if p == "" || contains out p then next else if p == "*" then everything else added

-- `for _, g := range groups { ... }`
unfoldable pub expand_groups : List String → List Group → Expansion
unfolding expand_codes
expand_groups out [] = codes out
expand_groups out (g ∷ gs) = elim (expand_codes out g.permissions) [
  | everything ↦ everything
  | codes out' ↦ expand_groups out' gs
]

abbrev pub expanded : Expansion → List String
expanded everything = "*" ∷ []
expanded (codes out) = out

unfoldable pub expand_permissions : List Group → List String
unfolding expand_groups
expand_permissions groups = expanded (expand_groups [] groups)

unfoldable pub has_permission : List String → String → Bool
has_permission perms code = any (λ p. p == "*" || p == code) perms

-- `Can`: the only authorisation predicate of the service; `none` is the nil user.
unfoldable pub can : Option User → String → Bool
unfolding is_third_party has_permission
can none code = false
can (some u) code =
    if is_third_party u
    then false
    else if code == "mcp.connect"
    then not (u.id == "") && not u.banned
    else has_permission u.permissions code

-- `(*Store).WithAccess`, given the rows that `GroupsForUser` reads.
unfoldable pub with_access : User → List Group → User
unfolding expand_permissions
with_access u gs =
    if u.id == ""
    then u
    else record u { groups = map (λ (g : Group). g.code) gs; permissions = expand_permissions gs }
