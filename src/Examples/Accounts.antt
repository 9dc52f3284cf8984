-- ===== src/Examples/Accounts.antt =====
-- An instance with two administrators, one of them banned, and one member.
use metafusion_auth.Prelude.{
  ◌<◌, String, [], ◌∷◌, ◌≡◌, refl, none, some, Bool, ok, true, false, arith, Bool-cases, inl, inr,
  eq_iff, ◌==◌,
}
use metafusion_auth.Access.{User, Group, bare_user}
use metafusion_auth.Database.{Database, UserRow, Membership, empty_database}
use metafusion_auth.Accounts.Groups.{set_user_groups, admin_count, active_admin_count}
use metafusion_auth.Accounts.GroupLaws.{Single, set_user_groups-keeps_admin}
use metafusion_auth.Accounts.Stranded.{set_user_groups-strands}
use metafusion_auth.Accounts.Bans.{Server, set_user_banned, is_banned}
use metafusion_auth.Accounts.BanLaws.{set_user_banned-keeps_admin, is_banned-set_user_banned}
use metafusion_auth.Token.{TokenIssuer}

abbrev pub user_row : String → Bool → UserRow
user_row id banned = record {
  id = id;
  username = id;
  email = "";
  password_hash = "";
  banned = banned;
  display_name = "";
  bio = "";
}

abbrev admins : Group
admins = record {
  id = "g1";
  code = "admin";
  permissions = "*" ∷ [];
  is_system = true;
  sort_order = 0;
}

abbrev membership : String → Membership
membership id = record { user_id = id; group_id = "g1"; granted_by = none }

-- The administrators `ada` and `bob`, and the member `eve`.
abbrev pub instance_of : (bob_banned : Bool) → Database
instance_of bob_banned = record empty_database {
  users = user_row "ada" false ∷ user_row "bob" bob_banned ∷ user_row "eve" false ∷ [];
  groups = admins ∷ [];
  user_groups = membership "ada" ∷ membership "bob" ∷ [];
}

abbrev pub manager : User
manager = record (bare_user "ada" "ada") { permissions = "*" ∷ [] }

abbrev issuer : TokenIssuer
issuer = record {
  has_key = true;
  issuer = "auth";
  audience = "platform";
  revoked = [];
  audiences = "platform" ∷ [];
}

abbrev pub server : Server
server = record { db = instance_of false; cache = []; issuer = issuer }

abbrev pub banned_server : Server
banned_server = record {
  db = instance_of true;
  cache = record { user_id = "bob"; banned = true; expires_at = 5000000007 } ∷ [];
  issuer = issuer;
}

instance_of-Single : (bob_banned : Bool) → Single (instance_of bob_banned)
unfolding Single
instance_of-Single bob_banned user_id = elim (Bool-cases ("ada" == user_id)) [
  | inl ada ↦ rw (← ada_is user_id ada) (omega arith)
  | inr other ↦ ground (arith, other)
]
  where
    ada_is : (id : String) → ("ada" == id) ≡ true → "ada" ≡ id
    ada_is id h = ground (arith, eq_iff "ada" id)

set_user_groups-keeps_admin_example :
    0 < admin_count (record (instance_of false) { user_groups = membership "bob" ∷ [] })
unfolding set_user_groups metafusion_auth.Access.can
set_user_groups-keeps_admin_example =
    set_user_groups-keeps_admin (instance_of false)
      (record (instance_of false) { user_groups = membership "bob" ∷ [] }) "ada" [] (some manager)
      refl (instance_of-Single false) (omega arith)

set_user_groups-strands_example :
    (db' : Database) × (set_user_groups (instance_of true) "ada" [] (some manager) ≡ ok db')
    × (active_admin_count db' ≡ 0)
unfolding metafusion_auth.Access.can admin_count
set_user_groups-strands_example =
    set_user_groups-strands (instance_of true) "ada" (some manager) refl refl (omega arith) refl

set_user_banned-keeps_admin_example : 0 < active_admin_count (instance_of true)
unfolding set_user_banned metafusion_auth.Access.can metafusion_auth.Text.trim
set_user_banned-keeps_admin_example =
    set_user_banned-keeps_admin server banned_server "bob" true (some manager) 7 refl
      (instance_of-Single false) (omega arith)

is_banned-set_user_banned_example :
    (is_banned (instance_of true) banned_server.cache "bob" 9000000000).0 ≡ true
unfolding set_user_banned metafusion_auth.Access.can metafusion_auth.Text.trim
is_banned-set_user_banned_example =
    is_banned-set_user_banned server banned_server "bob" (some manager) 7 9000000000 refl refl
