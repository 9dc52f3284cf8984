-- ===== src/Sessions/Setup.antt =====
-- The first account of an instance.
use metafusion_auth.Prelude.{
  String, Bool, true, false, not, ◌&&◌, ◌==◌, Option, none, some, Option-cases, map, List, [], ◌∷◌,
  ◌≡◌, refl, ap, any, any-append, find, length, nat_eq, ok, Bool-cases, inl, inr, eq_refl, arith,
  ok-injective, reject_if-passes, forbidden, invalid_credentials_format, setup_complete,
  database_conflict,
}
use metafusion_auth.Text.{trim}
use metafusion_auth.Access.{User, Group, can}
use metafusion_auth.Database.{Database, Membership, UserRow, in_admin_group}
use metafusion_auth.Accounts.Groups.{has_code, add_membership}
use metafusion_auth.Sessions.Accounts.{
  setup_needed, create_user, bad_credentials, stored_email, clashes, insert_user, join_groups,
  nullable_actor,
}

none_stored : {A : Type 0} (xs : List A) → nat_eq (length xs) 0 ≡ true → xs ≡ []
none_stored [] h = refl
none_stored (x ∷ xs) h = ground (arith, h)

member-add_membership :
    (m : Membership) (ms : List Membership)
    → any
        (λ (n : Membership). n.user_id == m.user_id && n.group_id == m.group_id)
        (add_membership m ms)
      ≡ true
member-add_membership m ms =
    elim (Bool-cases
      (any (λ (n : Membership). n.user_id == m.user_id && n.group_id == m.group_id) ms)) [
        | inl there ↦ rw (there) there
        | inr missing ↦ rw (missing) (
            ground (
              arith,
              any-append (λ (n : Membership). n.user_id == m.user_id && n.group_id == m.group_id) ms
                  (m ∷ []),
              eq_refl m.user_id,
              eq_refl m.group_id,
            ))
      ]

join_groups-admin :
    (groups : List Group) (id : String) (by : Option String) (ms : List Membership) (g : Group)
    → find (has_code "admin") groups ≡ some g
    → join_groups groups id by ("admin" ∷ []) ms
      ≡ add_membership (record { user_id = id; group_id = g.id; granted_by = by }) ms
unfolding join_groups
join_groups-admin groups id by ms g found = rw (join_groups, found) refl

any-of_find :
    (groups : List Group) (f : Group → Bool) (g : Group)
    → find (has_code "admin") groups ≡ some g
    → f g ≡ true
    → any (λ (g : Group). g.code == "admin" && f g) groups ≡ true
any-of_find [] f g found h = cc
any-of_find (d ∷ groups) f g found h = elim (Bool-cases (d.code == "admin")) [
  | inl here ↦
      let same : d ≡ g = (let first = rw here at found in cc) in rw (here) (rw (same, h) refl)
  | inr there ↦ let ih = any-of_find groups f g (rw there at found) h in ground (arith, there, ih)
]

no_admin_group :
    (groups : List Group) (f : Group → Bool)
    → find (has_code "admin") groups ≡ none
    → (any (λ (g : Group). g.code == "admin" && f g) groups ≡ false)
      × (any (has_code "admin") groups ≡ false)
no_admin_group [] f missing = (refl, refl)
no_admin_group (d ∷ groups) f missing = elim (Bool-cases (d.code == "admin")) [
  | inl here ↦ let found = rw here at missing in cc
  | inr there ↦
      let (a, b) = no_admin_group groups f (rw there at missing) in
      (ground (arith, there, a), ground (arith, there, b))
]

any_of_first :
    (groups : List Group) (g : Group)
    → find (has_code "admin") groups ≡ some g
    → any (has_code "admin") groups ≡ true
any_of_first [] g found = cc
any_of_first (d ∷ groups) g found = ground (arith, any_of_first groups g)

-- Joining the administrators makes a member of them exactly when they are a group.
joined_admins :
    (db : Database) (users : List UserRow) (id : String) (by : Option String)
    → in_admin_group
        (record db {
          users = users;
          user_groups = join_groups db.groups id by ("admin" ∷ []) db.user_groups;
        })
        id
      ≡ any (has_code "admin") db.groups
unfolding in_admin_group
joined_admins db users id by = elim (Option-cases (find (has_code "admin") db.groups)) [
  | inl missing ↦
      let (outside, none_there) = no_admin_group db.groups _ missing in rw (none_there) outside
  | inr (admins, found) ↦ rw (any_of_first db.groups admins found) (
      any-of_find db.groups _ admins found (
        rw (join_groups-admin db.groups id by db.user_groups admins found) (
          member-add_membership (record { user_id = id; group_id = admins.id; granted_by = by })
            db.user_groups)))
]

module _ (bcrypt lower : String → String) where
  create_user-passes :
      (db : Database) (id username email password : String) (setup : Bool) (actor : Option User)
      (r : Database × User)
      → create_user bcrypt lower db id username email password setup actor ≡ ok r
      → ((not setup && not (can actor "auth.users.manage")) ≡ false)
        × ((setup && not (setup_needed db)) ≡ false)
        × (insert_user bcrypt lower db id
              (trim username)
              (stored_email (trim username) (trim email))
              password
              setup
              actor
            ≡ r.0)
  unfolding create_user
  create_user-passes db id username email password setup actor r e =
      let (_, e1) =
        reject_if-passes (bad_credentials (trim username) password) invalid_credentials_format _
          e in
      let (f, e2) =
        reject_if-passes (not setup && not (can actor "auth.users.manage")) forbidden _ e1 in
      let (n, e3) = reject_if-passes (setup && not (setup_needed db)) setup_complete _ e2 in
      let (_, e4) =
        reject_if-passes (any (clashes bcrypt lower id (trim username)) db.users) database_conflict
          _ e3 in
      (f, n, ap (λ (r : Database × User). r.0) (ok-injective _ r e4))

  -- A setup that succeeds has found no account and leaves exactly the new one; the instance no
  -- longer asks for a setup, and the account is an administrator exactly when the group of
  -- administrators exists.
  pub create_user-setup :
      (db : Database) (id username email password : String) (actor : Option User)
      (r : Database × User)
      → create_user bcrypt lower db id username email password true actor ≡ ok r
      → (db.users ≡ [])
        × (map (λ (u : UserRow). u.id) r.0.users ≡ id ∷ [])
        × (setup_needed r.0 ≡ false)
        × (in_admin_group r.0 id ≡ any (has_code "admin") db.groups)
  unfolding insert_user
  create_user-setup db id username email password actor r e =
      let (_, n, done) = create_user-passes db id username email password true actor r e in
      let empty = none_stored db.users (ground (arith, n)) in
      (
        empty,
        rw (← done, empty) refl,
        rw (← done, empty) refl,
        rw (← done) (joined_admins db _ id (nullable_actor actor)),
      )
