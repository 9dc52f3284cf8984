-- ===== src/Sessions/Accounts.antt =====
-- New accounts: `SetupNeeded` and `CreateUser` of internal/store/identity.go, `Register` of
-- internal/store/groups.go. The generated account id and token id are arguments.
use metafusion_auth.Prelude.{
  ℕ, String, Bool, false, not, ◌&&◌, ◌||◌, ◌==◌, Option, none, some, List, ◌++◌, any, find, ltb,
  nat_eq, length, map, if◌then◌else◌, Result, ok, err, reject_if, ◌>>=◌, ◌>>◌, forbidden,
  invalid_credentials_format, setup_complete, registration_closed, username_or_email_taken,
  database_conflict,
}
use Prim.Native.Char.{code}
use Prim.Native.String.{[], ◌∷◌}
use metafusion_auth.Text.{trim}
use metafusion_auth.Access.{User, bare_user, can, Group}
use metafusion_auth.Database.{Database, UserRow, Membership, load_access}
use metafusion_auth.Accounts.Bans.{Server}
use metafusion_auth.Accounts.Groups.{has_code, add_membership}
use metafusion_auth.Invites.{consume_invite}
use metafusion_auth.Pat.Plaintext.{prepend}
use metafusion_auth.Token.{Codec}
use metafusion_auth.Sessions.Passwords.{byte_length, bad_length}
use metafusion_auth.Sessions.Login.{open_session}

-- `SetupNeeded`
abbrev pub setup_needed : Database → Bool
setup_needed db = nat_eq (length db.users) 0

-- The name and the address as they are stored.
abbrev pub stored_email : (username email : String) → String
stored_email username email = if email == "" then prepend username "@findverse.cc" else email

abbrev pub bad_credentials : (username password : String) → Bool
bad_credentials username password =
    ltb (byte_length username) 2
    || (ltb 80 (byte_length username) || bad_length (byte_length password))

-- `nullableActor`
abbrev pub nullable_actor : Option User → Option String
nullable_actor none = none
nullable_actor (some u) = if u.id == "" then none else some u.id

-- The groups of a new account: a code without a group is passed over.
unfoldable pub join_groups :
    List Group → String → Option String → List String → List Membership → List Membership
join_groups groups user_id by List.[] ms = ms
join_groups groups user_id by (List.◌∷◌ name rest) ms =
    let next = join_groups groups user_id by rest ms in
    elim (find (has_code name) groups) [
      | none ↦ next
      | some g ↦
          join_groups groups user_id by rest
            (add_membership (record { user_id = user_id; group_id = g.id; granted_by = by }) ms)
    ]

-- `strings.ContainsAny(s, " \t")`
unfoldable pub has_blank : String → Bool
has_blank [] = false
has_blank (c ∷ s) = nat_eq (code c) 32 || (nat_eq (code c) 9 || has_blank s)

module _ (bcrypt lower : String → String) where
  abbrev pub new_row : (id username email password : String) → UserRow
  new_row id username email password = record {
    id = id;
    username = username;
    email = email;
    password_hash = bcrypt password;
    banned = false;
    display_name = "";
    bio = "";
  }

  -- The unique columns of auth.users.
  abbrev pub clashes : (id username : String) → UserRow → Bool
  clashes id username u = u.id == id || lower u.username == lower username

  abbrev pub new_user : (id username email : String) → User
  new_user id username email = record (bare_user id username) { email = email }

  -- The transaction of `CreateUser`.
  unfoldable pub insert_user :
      Database → (id username email password : String) → Bool → Option User → Database
  unfolding join_groups
  insert_user db id username email password setup actor = record db {
    users = db.users ++ List.◌∷◌ (new_row id username email password) List.[];
    user_groups =
        join_groups db.groups id (nullable_actor actor)
          (List.◌∷◌ (if setup then "admin" else "member") List.[]) db.user_groups;
  }

  -- `CreateUser` with the generated id
  unfoldable pub create_user :
      Database
      → (id username email password : String) → (setup : Bool) → Option User
      → Result (Database × User)
  unfolding insert_user trim byte_length can load_access prepend
  create_user db id raw_username raw_email password setup actor = do
    let username = trim raw_username
    let email = stored_email username (trim raw_email)
    reject_if (bad_credentials username password) invalid_credentials_format
    reject_if (not setup && not (can actor "auth.users.manage")) forbidden
    reject_if (setup && not (setup_needed db)) setup_complete
    reject_if (any (clashes id username) db.users) database_conflict
    let db' = insert_user db id username email password setup actor
    ok (db', load_access db' (new_user id username email))

  -- The settings that `Register` reads.
  pub record RegistrationSettings : Type 0 where
    pub registration_enabled : Bool
    pub invite_required : Bool
    pub registration_default_groups : List String

  abbrev pub default_groups : List String → List String
  default_groups List.[] = List.◌∷◌ "member" List.[]
  default_groups (List.◌∷◌ g gs) = List.◌∷◌ g gs

  -- `lower(username)=lower($1) OR (email<>'' AND lower(email)=lower($2))`
  abbrev pub is_taken : (username email : String) → UserRow → Bool
  is_taken username email u =
      lower u.username == lower username || (not (u.email == "") && lower u.email == lower email)

  module _ (to_upper : String → String) where
    -- The transaction of `Register`, at `now`.
    unfoldable pub register_account :
        Database
        → ℕ
        → RegistrationSettings
        → (id username email password invite_code : String) → Result Database
    unfolding consume_invite join_groups trim
    register_account db now settings id username email password invite_code = do
      reject_if (any (is_taken username email) db.users) username_or_email_taken
      reject_if (any (clashes id username) db.users) username_or_email_taken
      let inserted = record db {
        users = db.users ++ List.◌∷◌ (new_row id username email password) List.[];
      }
      let admitted : Result Database =
          if settings.invite_required
          then consume_invite to_upper inserted now invite_code id
          else ok inserted
      paid ← admitted
      ok (record paid {
        user_groups =
            join_groups paid.groups id none
              (map trim (default_groups settings.registration_default_groups)) paid.user_groups;
      })

    abbrev pub welcome :
        (sha256_hex : String → String)
        → Codec
        → Server
        → ℕ
        → (jti : String) → User
        → Result Database
        → Result (String × User) × Server
    unfolding open_session load_access
    welcome sha256_hex codec s now jti u (err e) = (err e, s)
    welcome sha256_hex codec s now jti u (ok db) =
        open_session sha256_hex codec (record s { db = db }) now jti (load_access db u)

    -- What `Register` checks before it writes.
    unfoldable pub check_registration :
        RegistrationSettings → (username password : String) → Result (Unit {0})
    unfolding byte_length has_blank
    check_registration settings username password = do
      reject_if (not settings.registration_enabled) registration_closed
      reject_if (bad_credentials username password) invalid_credentials_format
      reject_if (has_blank username) invalid_credentials_format

    -- `Register` at `now` with the generated account id and token id
    unfoldable pub register :
        (sha256_hex : String → String)
        → Codec
        → Server
        → ℕ
        → RegistrationSettings
        → (id jti username email password invite_code : String) → Result (String × User) × Server
    unfolding welcome check_registration register_account trim prepend
    register sha256_hex codec s now settings id jti raw_username raw_email password invite_code =
        let username = trim raw_username in
        let email = stored_email username (trim raw_email) in
        welcome sha256_hex codec s now jti (new_user id username email) (
          check_registration settings username password
          >> register_account s.db now settings id username email password invite_code)
