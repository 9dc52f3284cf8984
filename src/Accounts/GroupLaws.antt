-- ===== src/Accounts/GroupLaws.antt =====
-- The guard of `SetUserGroups`: what it keeps, and what it lets through.
use metafusion_auth.Prelude.{
  ◌+◌, ◌≤◌, ◌<◌, String, Bool, true, false, not, ◌&&◌, ◌==◌, Option, some, List, [], ◌∷◌, ◌≡◌, refl,
  any, any-append, keep, count, find, All, ok, err, Error, >>=-eq-ok, ok-injective, arith, eq_iff,
  eq_refl, Bool-cases, Option-cases, inl, inr,
}
use metafusion_auth.Text.{trim}
use metafusion_auth.Access.{User, Group, can}
use metafusion_auth.Database.{Database, UserRow, Membership, in_admin_group, is_member}
use metafusion_auth.Accounts.Groups.{
  has_code, granter, is_admin_row, belongs_to, admin_count, add_membership, assign_groups,
  demotes_sole_admin, set_user_groups,
}

pub count-pos {ℓ} : {A : Type ℓ} (p : A → Bool) (xs : List A) → any p xs ≡ true → 0 < count p xs
count-pos p [] h = cc
count-pos p (x ∷ xs) h = let ih = count-pos p xs in ground (arith, ih)

pub any_of_count-pos {ℓ} :
    {A : Type ℓ} (p : A → Bool) (xs : List A) → 0 < count p xs → any p xs ≡ true
any_of_count-pos p [] h = absurd (omega arith)
any_of_count-pos p (x ∷ xs) h = let ih = any_of_count-pos p xs in ground (arith, ih)

-- What is counted is counted on one side of a filter or on the other.
count-keep_split {ℓ} :
    {A : Type ℓ} (p q : A → Bool) (xs : List A)
    → count q xs ≡ count (λ x. p x && q x) xs + count q (keep (λ x. not (p x)) xs)
count-keep_split p q [] = omega arith
count-keep_split p q (x ∷ xs) = let ih = count-keep_split p q xs in ground arith

count-none {ℓ} :
    {A : Type ℓ} (p : A → Bool) (xs : List A) → All (λ x. p x ≡ false) xs → count p xs ≡ 0
count-none p [] h = refl
count-none p (x ∷ xs) (e, h) = rw (e, count-none p xs h) refl

any-add_membership :
    (q : Membership → Bool) (m : Membership) (ms : List Membership)
    → any q ms ≡ true
    → any q (add_membership m ms) ≡ true
any-add_membership q m ms h = ground (arith, any-append q ms (m ∷ []))

pub any-weaken {ℓ} :
    {A : Type ℓ} (p q : A → Bool)
    → ((x : A) → p x ≡ true → q x ≡ true)
    → (xs : List A) → any p xs ≡ true
    → any q xs ≡ true
any-weaken p q f [] h = cc
any-weaken p q f (x ∷ xs) h = ground (arith, f x, any-weaken p q f xs)

-- The group of a found code makes an administrator.
admin_of_find :
    (groups : List Group) (g : Group)
    → find (has_code "admin") groups ≡ some g
    → (h : String) → h ≡ g.id
    → any (λ (x : Group). x.id == h && x.code == "admin") groups ≡ true
admin_of_find [] g e h same = cc
admin_of_find (x ∷ groups) g e h same = elim (Bool-cases (has_code "admin" x)) [
  | inl here ↦
      let first : x ≡ g = ground (arith, here) in
      rw (same, ← first) (ground (arith, here, eq_refl x.id))
  | inr there ↦ ground (arith, admin_of_find groups g (rw there at e) h same)
]

admin_added :
    (groups : List Group) (g : Group) (user_id : String) (by : Option String) (ms : List Membership)
    → find (has_code "admin") groups ≡ some g
    → any
        (is_admin_row groups)
        (add_membership (record { user_id = user_id; group_id = g.id; granted_by = by }) ms)
      ≡ true
admin_added groups g user_id by ms e =
    let m : Membership = record { user_id = user_id; group_id = g.id; granted_by = by } in
    let fresh : is_admin_row groups m ≡ true = admin_of_find groups g e g.id refl in
    elim (Bool-cases (any (λ (x : Membership). x.user_id == user_id && x.group_id == g.id) ms)) [
      | inl there ↦ rw there (
          any-weaken _ (is_admin_row groups)
            (λ x t. admin_of_find groups g e x.group_id (in_group x.user_id x.group_id t)) ms there)
      | inr new ↦ rw (new, any-append (is_admin_row groups) ms (m ∷ [])) (ground (arith, fresh))
    ]
  where
    in_group : (a b : String) → (a == user_id && b == g.id) ≡ true → b ≡ g.id
    in_group a b t = ground (arith, eq_iff b g.id)

module _ (groups : List Group) (user_id : String) (by : Option String) where
  assign_groups-keeps :
      (q : Membership → Bool) (codes : List String) (ms ms' : List Membership)
      → assign_groups groups user_id by codes ms ≡ ok ms'
      → any q ms ≡ true
      → any q ms' ≡ true
  unfolding assign_groups
  assign_groups-keeps q [] ms ms' e h = let same : ms ≡ ms' = ok-injective ms ms' e in rw (← same) h
  assign_groups-keeps q (raw ∷ rest) ms ms' e h = elim (Bool-cases (trim raw == "")) [
    | inl blank ↦ assign_groups-keeps q rest ms ms' (rw blank at e) h
    | inr code ↦ elim (Option-cases (find (has_code (trim raw)) groups)) [
      | inl missing ↦ refused (rw (code, missing) at e)
      | inr (g, found) ↦
          assign_groups-keeps q rest _ ms' (rw (code, found) at e) (any-add_membership q _ ms h)
    ]
  ]
    where
      refused : {x : Error} → err x ≡ ok ms' → any q ms' ≡ true
      refused h = cc

  assign_groups-admin :
      (codes : List String) (ms ms' : List Membership)
      → assign_groups groups user_id by codes ms ≡ ok ms'
      → any (λ c. trim c == "admin") codes ≡ true
      → any (is_admin_row groups) ms' ≡ true
  unfolding assign_groups
  assign_groups-admin [] ms ms' e h = cc
  assign_groups-admin (raw ∷ rest) ms ms' e h = elim (Bool-cases (trim raw == "")) [
    | inl blank ↦
        assign_groups-admin rest ms ms' (rw blank at e) (rest_of (not_admin (trim raw) blank))
    | inr code ↦ elim (Option-cases (find (has_code (trim raw)) groups)) [
      | inl missing ↦ refused (rw (code, missing) at e)
      | inr (g, found) ↦ elim (Bool-cases (trim raw == "admin")) [
        | inl admin ↦
            assign_groups-keeps (is_admin_row groups) rest _ ms' (rw (code, found) at e)
              (admin_added groups g user_id by ms (rw (found_admin (trim raw) admin) at found))
        | inr other ↦ assign_groups-admin rest _ ms' (rw (code, found) at e) (rest_of other)
      ]
    ]
  ]
    where
      refused : {x : Error} → err x ≡ ok ms' → any (is_admin_row groups) ms' ≡ true
      refused h = cc

      rest_of : (trim raw == "admin") ≡ false → any (λ c. trim c == "admin") rest ≡ true
      rest_of n = ground (arith, h, n)

      found_admin : (c : String) → (c == "admin") ≡ true → c ≡ "admin"
      found_admin c b = ground (arith, eq_iff c "admin")

      is_blank : (c : String) → (c == "") ≡ true → c ≡ ""
      is_blank c b = ground (arith, eq_iff c "")

      not_admin : (c : String) → (c == "") ≡ true → (c == "admin") ≡ false
      not_admin c b = rw (is_blank c b) refl

-- No user has two memberships of an administrator's group.
unfoldable pub Single : Database → Type 0
Single db =
    (user_id : String)
    → count (λ m. belongs_to user_id m && is_admin_row db.groups m) db.user_groups ≤ 1

any-swap {ℓ κ} :
    {A : Type ℓ} {B : Type κ} (r : A → B → Bool) (xs : List A) (ys : List B)
    → any (λ x. any (λ y. r x y) ys) xs ≡ true
    → any (λ y. any (λ x. r x y) xs) ys ≡ true
any-swap r [] ys h = cc
any-swap r (x ∷ xs) ys h = elim (Bool-cases (any (λ y. r x y) ys)) [
  | inl here ↦ any-weaken _ _ (λ y t. ground (arith, t)) ys here
  | inr there ↦ any-weaken _ _ (λ y t. ground (arith, t)) ys (any-swap r xs ys (rw there at h))
]

any_and {ℓ} :
    {A : Type ℓ} (b : Bool) (q : A → Bool) (xs : List A)
    → any (λ x. b && q x) xs ≡ true
    → (b && any q xs) ≡ true
any_and b q [] h = cc
any_and b q (x ∷ xs) h = ground (arith, any_and b q xs)

pub both : (a b : Bool) → (a && b) ≡ true → (a ≡ true) × (b ≡ true)
both true true h = (refl, refl)
both true false h = cc
both false b h = cc

-- A user with a membership of an administrator's group is found in that group.
pub in_admin_group-of_row :
    (db : Database) (user_id : String)
    → 0 < count (λ m. belongs_to user_id m && is_admin_row db.groups m) db.user_groups
    → in_admin_group db user_id ≡ true
unfolding in_admin_group
in_admin_group-of_row db user_id h =
    any-weaken _ _ (λ g t. by_group g t) db.groups
      (any-swap pair db.user_groups db.groups
        (any-weaken _ _ (λ m t. by_row m t) db.user_groups (any_of_count-pos _ db.user_groups h)))
  where
    pair : Membership → Group → Bool
    pair m g = g.code == "admin" && (m.user_id == user_id && m.group_id == g.id)

    by_row :
        (m : Membership)
        → (belongs_to user_id m && is_admin_row db.groups m) ≡ true
        → any (λ g. pair m g) db.groups ≡ true
    by_row m t =
        let (mine, admin) = both (belongs_to user_id m) (is_admin_row db.groups m) t in
        any-weaken (λ (g : Group). g.id == m.group_id && g.code == "admin") (λ g. pair m g)
          (λ g u. ground (arith, mine, u, eq_iff g.id m.group_id, eq_iff m.group_id g.id)) db.groups
          admin

    by_group :
        (g : Group)
        → any (λ m. pair m g) db.user_groups ≡ true
        → (g.code == "admin" && is_member db.user_groups user_id g) ≡ true
    by_group g t =
        any_and (g.code == "admin") (λ (m : Membership). m.user_id == user_id && m.group_id == g.id)
          db.user_groups t

module _ (db : Database) (user_id : String) where
  abbrev others : List Membership
  others = keep (λ (m : Membership). not (belongs_to user_id m)) db.user_groups

  kept_admin :
      (codes : List String)
      → Single db
      → 0 < admin_count db
      → demotes_sole_admin db user_id codes ≡ false
      → any (λ c. trim c == "admin") codes ≡ false
      → any (is_admin_row db.groups) others ≡ true
  unfolding admin_count demotes_sole_admin Single
  kept_admin codes single had guard unnamed =
      any_of_count-pos _ others (elim (Bool-cases (in_admin_group db user_id)) [
        | inl member ↦ ground (arith, split, one, member, guard, unnamed)
        | inr stranger ↦ ground (arith, split, in_admin_group-of_row db user_id, stranger)
      ])
    where
      one : count (λ m. belongs_to user_id m && is_admin_row db.groups m) db.user_groups ≤ 1
      one = single user_id

      split :
          count (is_admin_row db.groups) db.user_groups
          ≡ count (λ m. belongs_to user_id m && is_admin_row db.groups m) db.user_groups
            + count (is_admin_row db.groups) others
      split = count-keep_split (belongs_to user_id) (is_admin_row db.groups) db.user_groups

-- What a change that is not refused has passed.
set_user_groups-passes :
    (db db' : Database) (user_id : String) (codes : List String) (actor : Option User)
    → set_user_groups db user_id codes actor ≡ ok db'
    → (ms : List Membership) × (demotes_sole_admin db user_id codes ≡ false)
      × (assign_groups db.groups user_id (granter actor) codes (others db user_id) ≡ ok ms)
      × (record db { user_groups = ms } ≡ db')
unfolding set_user_groups
set_user_groups-passes db db' user_id codes actor e =
    elim (Bool-cases (can actor "auth.users.manage")) [
      | inr bad ↦ absurd_err (rw bad at e)
      | inl may ↦ elim (Bool-cases (any (λ (u : UserRow). u.id == user_id) db.users)) [
        | inr bad ↦ absurd_err (rw (may, bad) at e)
        | inl user ↦ elim (Bool-cases (demotes_sole_admin db user_id codes)) [
          | inl bad ↦ absurd_err (rw (may, user, bad) at e)
          | inr guard ↦
              let (ms, given, done) =
                >>=-eq-ok
                  (assign_groups db.groups user_id (granter actor) codes (others db user_id))
                  (λ ms. ok (record db { user_groups = ms })) (rw (may, user, guard) at e) in
              (ms, guard, given, ok-injective _ _ done)
        ]
      ]
    ]
  where
    absurd_err : {A : Type 0} {x : Error} → err x ≡ ok db' → A
    absurd_err h = cc

-- `SetUserGroups` never leaves the instance without a member of the group `admin`, when it had
-- one and no user has two memberships of that group.
pub set_user_groups-keeps_admin :
    (db db' : Database) (user_id : String) (codes : List String) (actor : Option User)
    → set_user_groups db user_id codes actor ≡ ok db'
    → Single db
    → 0 < admin_count db
    → 0 < admin_count db'
unfolding set_user_groups admin_count
set_user_groups-keeps_admin db db' user_id codes actor e single had =
    let (ms, guard, given, done) = set_user_groups-passes db db' user_id codes actor e in
    rw (← done) (
      count-pos (is_admin_row db.groups) ms
        (elim (Bool-cases (any (λ c. trim c == "admin") codes)) [
          | inl named ↦ assign_groups-admin db.groups user_id (granter actor) codes _ ms given named
          | inr unnamed ↦
              assign_groups-keeps db.groups user_id (granter actor) (is_admin_row db.groups) codes _
                ms given (kept_admin db user_id codes single had guard unnamed)
        ]))
