-- ===== src/Accounts/BanLaws.antt =====
-- What a ban keeps and what it ends.
use metafusion_auth.Prelude.{
  ℕ, ◌≤◌, ◌<◌, ◌+◌, String, Bool, true, false, not, ◌&&◌, ◌==◌, Option, none, some, List, [], ◌∷◌,
  ◌≡◌, refl, ap, any, keep, count, find, update_where, ltb, ok, arith, Bool-cases, inl, inr, eq_iff,
  eq_refl, reject_if-passes, ok-injective, forbidden, cannot_ban_self, user_not_found,
  cannot_ban_sole_admin,
}
use metafusion_auth.Text.{trim}
use metafusion_auth.Access.{User, can}
use metafusion_auth.Database.{Database, UserRow, Membership, in_admin_group}
use metafusion_auth.Accounts.Groups.{belongs_to, is_admin_row, is_active_admin, active_admin_count}
use metafusion_auth.Accounts.GroupLaws.{
  count-pos, any_of_count-pos, any-weaken, both, in_admin_group-of_row, Single,
}
use metafusion_auth.Accounts.Bans.{
  Server, BannedEntry, banned_cache_ttl, cache_ban, cached, look_up_ban, answer_ban, is_banned,
  is_self, bans_sole_admin, write_ban, set_user_banned,
}

-- What a ban that is not refused has passed, and the tables and the memory after it.
pub set_user_banned-passes :
    (s s' : Server) (id : String) (banned : Bool) (actor : Option User) (now : ℕ)
    → set_user_banned s id banned actor now ≡ ok s'
    → (any (λ (u : UserRow). u.id == trim id) s.db.users ≡ true)
      × (bans_sole_admin s.db (trim id) banned ≡ false)
      × (write_ban s.db (trim id) banned now ≡ s'.db)
      × (cache_ban s.cache (trim id) banned now ≡ s'.cache)
unfolding set_user_banned
set_user_banned-passes s s' id banned actor now e =
    let (_, e1) = reject_if-passes (not (can actor "auth.users.manage")) forbidden _ e in
    let (_, e2) = reject_if-passes (banned && is_self actor (trim id)) cannot_ban_self _ e1 in
    let (user, e3) =
      reject_if-passes (not (any (λ (u : UserRow). u.id == trim id) s.db.users)) user_not_found _
        e2 in
    let (guard, e4) =
      reject_if-passes (bans_sole_admin s.db (trim id) banned) cannot_ban_sole_admin _ e3 in
    let done = ok-injective _ s' e4 in
    (ground (arith, user), guard, ap (λ (s : Server). s.db) done, ap (λ (s : Server). s.cache) done)

find-banned :
    (users : List UserRow) (id : String)
    → any (λ (u : UserRow). u.id == id) users ≡ true
    → (row : UserRow) × (find
          (λ (u : UserRow). u.id == id)
          (update_where
            (λ (u : UserRow). u.id == id)
            (λ (u : UserRow). record u { banned = true })
            users)
        ≡ some row)
      × (row.banned ≡ true)
find-banned [] id h = cc
find-banned (u ∷ users) id h = elim (Bool-cases (u.id == id)) [
  | inl here ↦ (record u { banned = true }, rw (here, here) refl, refl)
  | inr there ↦
      let (row, found, b) = find-banned users id (rw there at h) in
      (row, rw (there, there) found, b)
]

find-forgotten :
    (cache : List BannedEntry) (id : String) (now : ℕ)
    → cached (keep (λ (e : BannedEntry). not (e.user_id == id)) cache) id now ≡ none
find-forgotten [] id now = refl
find-forgotten (e ∷ cache) id now = ground (arith, find-forgotten cache id now)

-- After `SetUserBanned` has banned an account, `IsBanned` says so at every time, from the memory
-- or from the table, while the tables and the memory stay as that call left them.
pub is_banned-set_user_banned :
    (s s' : Server) (id : String) (actor : Option User) (now later : ℕ)
    → set_user_banned s id true actor now ≡ ok s'
    → (trim id == "") ≡ false
    → (is_banned s'.db s'.cache id later).0 ≡ true
unfolding is_banned answer_ban look_up_ban write_ban
is_banned-set_user_banned s s' id actor now later e named =
    let (user, _, tables, memory) = set_user_banned-passes s s' id true actor now e in
    let (row, found, b) = find-banned s.db.users (trim id) user in
    rw (← tables, ← memory, named)
      (elim (Bool-cases (ltb later (now + banned_cache_ttl))) [
        | inl kept ↦ rw (eq_refl (trim id), kept) refl
        | inr over ↦ rw (eq_refl (trim id), over, find-forgotten s.cache (trim id) later, found) b
      ])

-- An administrator's membership stays active under a ban of another account, and under the
-- lifting of any ban.
is_active-update_where :
    (users : List UserRow) (id holder : String) (banned : Bool)
    → (banned && holder == id) ≡ false
    → any (λ (u : UserRow). u.id == holder && not u.banned) users ≡ true
    → any
        (λ (u : UserRow). u.id == holder && not u.banned)
        (update_where
          (λ (u : UserRow). u.id == id)
          (λ (u : UserRow). record u { banned = banned })
          users)
      ≡ true
is_active-update_where [] id holder banned h a = cc
is_active-update_where (u ∷ users) id holder banned h a = ground (
  arith,
  is_active-update_where users id holder banned h,
  eq_iff u.id holder,
  eq_iff u.id id,
  eq_iff holder id,
)

count-split {ℓ} :
    {A : Type ℓ} (p q : A → Bool) (xs : List A)
    → count q xs ≡ count (λ x. p x && q x) xs + count (λ x. not (p x) && q x) xs
count-split p q [] = refl
count-split p q (x ∷ xs) = let ih = count-split p q xs in ground arith

count_narrower {ℓ} :
    {A : Type ℓ} (p q r : A → Bool) (xs : List A)
    → count (λ x. p x && (q x && r x)) xs ≤ count (λ x. p x && q x) xs
count_narrower p q r [] = omega arith
count_narrower p q r (x ∷ xs) = let ih = count_narrower p q r xs in ground arith

-- Some active administrator is not the account that is banned.
spared :
    (db : Database) (id : String) (banned : Bool)
    → bans_sole_admin db id banned ≡ false
    → Single db
    → 0 < active_admin_count db
    → any (λ m. not (banned && belongs_to id m) && is_active_admin db m) db.user_groups ≡ true
unfolding bans_sole_admin active_admin_count Single
spared db id false guard single had = any_of_count-pos _ db.user_groups had
spared db id true guard single had =
    any_of_count-pos _ db.user_groups (elim (Bool-cases (in_admin_group db id)) [
      | inl member ↦ ground (arith, split, fewer, one, member, guard)
      | inr stranger ↦ ground (arith, split, fewer, in_admin_group-of_row db id, stranger)
    ])
  where
    one : count (λ m. belongs_to id m && is_admin_row db.groups m) db.user_groups ≤ 1
    one = single id

    split :
        count (is_active_admin db) db.user_groups
        ≡ count (λ m. belongs_to id m && is_active_admin db m) db.user_groups
          + count (λ m. not (belongs_to id m) && is_active_admin db m) db.user_groups
    split = count-split (belongs_to id) (is_active_admin db) db.user_groups

    fewer :
        count (λ m. belongs_to id m && is_active_admin db m) db.user_groups
        ≤ count (λ m. belongs_to id m && is_admin_row db.groups m) db.user_groups
    fewer = count_narrower (belongs_to id) (is_admin_row db.groups) _ db.user_groups

write_ban-active :
    (db : Database) (id : String) (banned : Bool) (now : ℕ) (m : Membership)
    → (not (banned && belongs_to id m) && is_active_admin db m) ≡ true
    → is_active_admin (write_ban db id banned now) m ≡ true
unfolding write_ban
write_ban-active db id false now m h =
    let (admin, active) = both (is_admin_row db.groups m) _ h in
    rw admin (is_active-update_where db.users id m.user_id false refl active)
write_ban-active db id true now m h =
    let (other, rest) = both (not (belongs_to id m)) (is_active_admin db m) h in
    let (admin, active) = both (is_admin_row db.groups m) _ rest in
    rw admin (is_active-update_where db.users id m.user_id true (ground (arith, other)) active)

same_rows :
    (db : Database) (id : String) (banned : Bool) (now : ℕ)
    → db.user_groups ≡ (write_ban db id banned now).user_groups
unfolding write_ban
same_rows db id false now = refl
same_rows db id true now = refl

-- `SetUserBanned` never leaves the instance without an administrator who may log in, when it had
-- one and no user has two memberships of the group `admin`.
pub set_user_banned-keeps_admin :
    (s s' : Server) (id : String) (banned : Bool) (actor : Option User) (now : ℕ)
    → set_user_banned s id banned actor now ≡ ok s'
    → Single s.db
    → 0 < active_admin_count s.db
    → 0 < active_admin_count s'.db
unfolding active_admin_count
set_user_banned-keeps_admin s s' id banned actor now e single had =
    let (_, guard, tables, _) = set_user_banned-passes s s' id banned actor now e in
    rw (← tables, ← same_rows s.db (trim id) banned now)
      (count-pos _ s.db.user_groups (
        any-weaken _ _ (write_ban-active s.db (trim id) banned now) s.db.user_groups
          (spared s.db (trim id) banned guard single had)))
