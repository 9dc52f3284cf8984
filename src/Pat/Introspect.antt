-- ===== src/Pat/Introspect.antt =====
-- `IntrospectPersonalAccessToken` and `touchPersonalAccessToken` of internal/store/pat.go. SHA-256
-- is a parameter.
use metafusion_auth.Prelude.{
  ℕ, ◌-◌, String, Bool, false, not, ◌&&◌, ◌||◌, ◌==◌, Option, none, some, List, [], ◌∷◌, any, keep,
  find, update_where, length, Result, ok, err, invalid_token, ltb, if◌then◌else◌,
}
use metafusion_auth.Text.{trim, has_prefix}
use metafusion_auth.Access.{can, bare_user}
use metafusion_auth.Database.{Database, PatRow, UserRow, load_access}
use metafusion_auth.Pat.Scopes.{effective_pat_permissions}
use metafusion_auth.Pat.Plaintext.{pat_prefix, pat_prefix_of, hash_token}
use metafusion_auth.Pat.Store.{PatState, PatPrincipal, set_pats, is_live, pat_last_used_ttl}

abbrev pub last_touch : String → List (String × ℕ) → Option ℕ
last_touch hash [] = none
last_touch hash ((h, at) ∷ touched) = if h == hash then some at else last_touch hash touched

-- `now.Sub(last) < patLastUsedTTL`
abbrev pub is_recent : ℕ → Option ℕ → Bool
is_recent now none = false
is_recent now (some last) = ltb (now - last) pat_last_used_ttl

abbrev pub set_touch : String → ℕ → List (String × ℕ) → List (String × ℕ)
set_touch hash now touched = (hash, now) ∷ keep (λ (e : String × ℕ). not (e.0 == hash)) touched

-- Past 4096 entries the stale ones are dropped.
abbrev pub prune_touched : ℕ → List (String × ℕ) → List (String × ℕ)
prune_touched now touched =
    if ltb 4096 (length touched)
    then keep (λ (e : String × ℕ). ltb (now - e.1) pat_last_used_ttl) touched
    else touched

abbrev pub mark_used : ℕ → PatRow → PatRow
mark_used now r = record r { last_used_at = some now }

unfoldable pub touch_personal_access_token : PatState → ℕ → String → PatState
touch_personal_access_token s now hash =
    if is_recent now (last_touch hash s.touched)
    then s
    else record (set_pats s
        (update_where (λ (r : PatRow). r.token_hash == hash) (mark_used now) s.db.pats)) {
          touched = prune_touched now (set_touch hash now s.touched);
        }

abbrev pub is_user : String → UserRow → Bool
is_user id u = u.id == id

-- `JOIN auth.users u ON u.id=t.user_id ... AND NOT u.banned`
abbrev pub is_active_user : String → UserRow → Bool
is_active_user id u = is_user id u && not u.banned

-- The rows that the query of the introspection accepts.
abbrev pub is_accepted : Database → ℕ → String → PatRow → Bool
is_accepted db now hash r =
    r.token_hash == hash && is_live now r && any (is_active_user r.user_id) db.users

abbrev pub principal : Database → PatRow → UserRow → String → PatPrincipal
principal db r owner token =
    let u = load_access db (bare_user owner.id owner.username) in
    record {
      token_id = r.id;
      token_name = r.name;
      user_id = owner.id;
      username = owner.username;
      groups = u.groups;
      permissions = effective_pat_permissions u r.scopes;
      catalog_review_exempt = can (some u) "catalog.review.bypass";
      scopes = r.scopes;
      expires_at = r.expires_at;
      token_prefix = pat_prefix_of token;
    }

-- The row and its owner, as the joined query gives them.
abbrev pub joined : Database → Option PatRow → Option (PatRow × UserRow)
joined db none = none
joined db (some r) = elim (find (is_active_user r.user_id) db.users) [
  | none ↦ none
  | some owner ↦ some (r, owner)
]

module _ (sha256_hex : String → String) where
  unfoldable pub introspect_personal_access_token :
      PatState → ℕ → String → Result PatPrincipal × PatState
  unfolding has_prefix touch_personal_access_token
  introspect_personal_access_token s now raw =
      let token = trim raw in
      let hash = hash_token sha256_hex token in
      if token == "" || not (has_prefix token pat_prefix)
      then (err invalid_token, s)
      else elim (joined s.db (find (is_accepted s.db now hash) s.db.pats)) [
        | none ↦ (err invalid_token, s)
        | some (r, owner) ↦
            (ok (principal s.db r owner token), touch_personal_access_token s now hash)
      ]
