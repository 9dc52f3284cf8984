-- ===== src/Accounts/Stranded.antt =====
-- What the guard of `SetUserGroups` lets through: it counts administrators who are banned.
use metafusion_auth.Prelude.{
  ◌<◌, String, Bool, true, false, not, ◌&&◌, ◌==◌, Option, List, [], ◌∷◌, ◌≡◌, refl, any, keep,
  count, ok, arith,
}
use metafusion_auth.Access.{User, can}
use metafusion_auth.Database.{Database, UserRow, Membership}
use metafusion_auth.Accounts.Groups.{
  admin_count, belongs_to, demotes_sole_admin, assign_groups, set_user_groups, is_active_admin,
  active_admin_count,
}

count-keep_none {ℓ} :
    {A : Type ℓ} (p q : A → Bool) (xs : List A)
    → any (λ x. not (p x) && q x) xs ≡ false
    → count q (keep (λ x. not (p x)) xs) ≡ 0
count-keep_none p q [] h = refl
count-keep_none p q (x ∷ xs) h = ground (arith, count-keep_none p q xs)

-- When a user holds the only memberships of the group `admin` whose holder is not banned, and
-- there are two or more memberships of that group with the banned ones, `SetUserGroups` takes all
-- groups from that user, and no administrator who may log in is left.
pub set_user_groups-strands :
    (db : Database) (user_id : String) (actor : Option User)
    → can actor "auth.users.manage" ≡ true
    → any (λ (u : UserRow). u.id == user_id) db.users ≡ true
    → 1 < admin_count db
    → any (λ m. not (belongs_to user_id m) && is_active_admin db m) db.user_groups ≡ false
    → (db' : Database) × (set_user_groups db user_id [] actor ≡ ok db')
      × (active_admin_count db' ≡ 0)
unfolding set_user_groups demotes_sole_admin assign_groups active_admin_count admin_count
set_user_groups-strands db user_id actor may here many alone = (
  record db { user_groups = keep (λ (m : Membership). not (belongs_to user_id m)) db.user_groups },
  rw (may, here, guard) refl,
  count-keep_none (belongs_to user_id) (is_active_admin db) db.user_groups alone,
)
  where
    guard : demotes_sole_admin db user_id [] ≡ false
    guard = ground (arith, many)
