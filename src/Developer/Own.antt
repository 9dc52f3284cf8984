-- ===== src/Developer/Own.antt =====
-- What an account can do to the clients in the developer centre.
use metafusion_auth.Prelude.{
  ℕ, ◌+◌, ◌≤◌, String, Bool, true, false, not, ◌&&◌, ◌||◌, ◌==◌, Option, List, [], ◌∷◌, ◌++◌, ◌≡◌,
  refl, sym, ◌∙◌, any, any-append, keep, update_where, count, leb, if◌then◌else◌, inl, inr,
  Bool-cases, arith, eq_iff,
}
use metafusion_auth.Text.{trim}
use metafusion_auth.Access.{User}
use metafusion_auth.Database.{ClientRow}
use metafusion_auth.Accounts.Bans.{Server}
use metafusion_auth.Oauth.Clients.{Url}
use metafusion_auth.Oauth.Clients.Manage.{
  OauthClientInput, has_client_id, set_columns, nullable_uuid, actor_text,
}
use metafusion_auth.Developer.{is_owned_by, max_developer_apps_per_user}
use metafusion_auth.Developer.Histories.{
  ClientEvent, apply_client_event, run_clients, is_privileged,
}
use metafusion_auth.Developer.Steps.{
  ClientStep, stays, adds, edits, rekeys, drops, apply_client_event-ClientStep,
}

count-append {ℓ} :
    {A : Type ℓ} (p : A → Bool) (xs : List A) (x : A)
    → count p (xs ++ x ∷ []) ≡ count p xs + (if p x then 1 else 0)
count-append p [] x = ground arith
count-append p (y ∷ xs) x = ground (arith, count-append p xs x)

count-update_where {ℓ} :
    {A : Type ℓ} (q p : A → Bool) (f : A → A) (xs : List A)
    → ((x : A) → q (f x) ≡ q x)
    → count q (update_where p f xs) ≡ count q xs
count-update_where q p f [] h = refl
count-update_where q p f (x ∷ xs) h = elim (Bool-cases (p x)) [
  | inl hit ↦ rw (hit, h x, count-update_where q p f xs h) refl
  | inr miss ↦ rw (miss, count-update_where q p f xs h) refl
]

count-keep {ℓ} : {A : Type ℓ} (q p : A → Bool) (xs : List A) → count q (keep p xs) ≤ count q xs
count-keep q p [] = ground arith
count-keep q p (x ∷ xs) = ground (arith, count-keep q p xs)

any-update_where {ℓ} :
    {A : Type ℓ} (q p : A → Bool) (f : A → A) (xs : List A)
    → ((x : A) → q (f x) ≡ q x)
    → any q (update_where p f xs) ≡ any q xs
any-update_where q p f [] h = refl
any-update_where q p f (x ∷ xs) h = elim (Bool-cases (p x)) [
  | inl hit ↦ rw (hit, h x, any-update_where q p f xs h) refl
  | inr miss ↦ rw (miss, any-update_where q p f xs h) refl
]

any-keep {ℓ} :
    {A : Type ℓ} (q p : A → Bool) (xs : List A) → any q (keep p xs) ≡ true → any q xs ≡ true
any-keep q p [] h = cc
any-keep q p (x ∷ xs) h = ground (arith, h, any-keep q p xs)

-- The two badges of an application.
pub data Badge : Type 0 where
  first_party verified : Badge

abbrev badge_of : Badge → ClientRow → Bool
badge_of first_party c = c.trusted
badge_of verified c = c.verified

-- Whether a row of this id is shown with the badge.
abbrev pub is_badged : Badge → String → ClientRow → Bool
is_badged badge id c = c.id == id && badge_of badge c

same_badge :
    (badge : Badge) (id : String) (c c' : ClientRow)
    → c.id ≡ c'.id
    → c.trusted ≡ c'.trusted
    → c.verified ≡ c'.verified
    → is_badged badge id c ≡ is_badged badge id c'
same_badge first_party id c c' i t v = rw (i, t) refl
same_badge verified id c c' i t v = rw (i, v) refl

unbadged :
    (badge : Badge) (id : String) (c : ClientRow)
    → (c.trusted || (c.disabled || c.verified)) ≡ false
    → is_badged badge id c ≡ false
unbadged first_party id c h = ground (arith, h)
unbadged verified id c h = ground (arith, h)

abbrev pub IsWithin : List ClientRow → String → Type 0
IsWithin rows v = count (is_owned_by v) rows ≤ max_developer_apps_per_user

pub owned_by-for :
    (who : String) (c : ClientRow) (v : String)
    → c.owner_user_id ≡ nullable_uuid who
    → is_owned_by v c ≡ (not (trim who == "") && who == v)
owned_by-for who c v e =
    rw (e)
      (elim (Bool-cases (trim who == "")) [ inl blank ↦ rw blank refl | inr named ↦ rw named refl ])

module _ (parse_url : String → Option Url) (bcrypt : String → String) where
  same_owner :
      (input : OauthClientInput) (privileged : Bool) (v : String) (c : ClientRow)
      → is_owned_by v (set_columns parse_url bcrypt input privileged c) ≡ is_owned_by v c
  unfolding set_columns
  same_owner input privileged v c = refl

  ClientStep-IsWithin :
      {privileged : Bool} {who : Option User} {rows rows' : List ClientRow} (v : String)
      → ClientStep parse_url bcrypt privileged who rows rows'
      → IsWithin rows v
      → IsWithin rows' v
  unfolding trim
  ClientStep-IsWithin v stays h = h
  ClientStep-IsWithin {privileged = true} {who} {rows} v (adds c a) h =
      let owner = owned_by-for "" c v a.owned in
      ground (arith, owner, count-append (is_owned_by v) rows c)
  ClientStep-IsWithin {privileged = false} {who} {rows} v (adds c a) h =
      let owner = owned_by-for (actor_text who) c v a.owned in
      let added = count-append (is_owned_by v) rows c in
      elim (Bool-cases (actor_text who == v)) [
        | inl same ↦
            let room : leb max_developer_apps_per_user (count (is_owned_by v) rows) ≡ false =
              rw (← (eq_iff (actor_text who) v).0 same) (a.within refl) in
            ground (arith, room, added)
        | inr other ↦ ground (arith, owner, other, added, h)
      ]
  ClientStep-IsWithin {privileged} {rows} v (edits id input c found right fields_ok) h =
      rw
        (count-update_where (is_owned_by v) (has_client_id id)
          (set_columns parse_url bcrypt input privileged) rows (same_owner input privileged v))
        h
  ClientStep-IsWithin {rows} v (rekeys id hash c found right) h =
      rw
        (count-update_where (is_owned_by v) (has_client_id id)
          (λ (c : ClientRow). record c { secret_hash = hash }) rows (λ c. refl))
        h
  ClientStep-IsWithin {rows} v (drops id c found right) h =
      let fewer = count-keep (is_owned_by v) (λ (c : ClientRow). not (c.id == id)) rows in
      omega arith

  -- No history gives an account more applications than the quota.
  pub run_clients-IsWithin :
      (s : Server) (now : ℕ) (events : List (ℕ × (Option User × ClientEvent))) (v : String)
      → IsWithin s.db.clients v
      → IsWithin (run_clients parse_url bcrypt s now events).db.clients v
  unfolding run_clients
  run_clients-IsWithin s now [] v h = h
  run_clients-IsWithin s now ((elapsed, (who, e)) ∷ rest) v h =
      run_clients-IsWithin (apply_client_event parse_url bcrypt s (now + elapsed) who e)
        (now + elapsed) rest v
        (ClientStep-IsWithin v
          (apply_client_event-ClientStep parse_url bcrypt s (now + elapsed) who e) h)

  -- The rows of the others are not touched.
  ClientStep-badges :
      {who : Option User} {rows rows' : List ClientRow} (badge : Badge) (id : String)
      → ClientStep parse_url bcrypt false who rows rows'
      → any (is_badged badge id) rows' ≡ true
      → any (is_badged badge id) rows ≡ true
  unfolding set_columns
  ClientStep-badges badge id stays h = h
  ClientStep-badges {rows} badge id (adds c a) h =
      let plain = unbadged badge id c (a.plain refl) in
      ground (arith, h, plain, any-append (is_badged badge id) rows (c ∷ []))
  ClientStep-badges {rows} badge id (edits name input c found right fields_ok) h =
      sym (
        any-update_where (is_badged badge id) (has_client_id name)
          (set_columns parse_url bcrypt input false) rows
          (λ c. same_badge badge id _ c refl refl refl))
      ∙ h
  ClientStep-badges {rows} badge id (rekeys name hash c found right) h =
      sym (
        any-update_where (is_badged badge id) (has_client_id name)
          (λ (c : ClientRow). record c { secret_hash = hash }) rows
          (λ c. same_badge badge id _ c refl refl refl))
      ∙ h
  ClientStep-badges {rows} badge id (drops name c found right) h =
      any-keep (is_badged badge id) (λ (c : ClientRow). not (c.id == name)) rows h

  -- The developer centre gives no application a badge, of a first-party or of a verified one: after
  -- a history without an event of the administration, a client with either badge had the same badge
  -- before.
  pub run_clients-badges :
      (s : Server) (now : ℕ) (events : List (ℕ × (Option User × ClientEvent))) (badge : Badge)
      (id : String)
      → any (λ (e : ℕ × (Option User × ClientEvent)). is_privileged e.1.1) events ≡ false
      → any (is_badged badge id) (run_clients parse_url bcrypt s now events).db.clients ≡ true
      → any (is_badged badge id) s.db.clients ≡ true
  unfolding run_clients
  run_clients-badges s now [] badge id n h = h
  run_clients-badges s now ((elapsed, (who, e)) ∷ rest) badge id n h =
      let plain : is_privileged e ≡ false = ground (arith, n) in
      ClientStep-badges badge id
        (rw (plain) at (apply_client_event-ClientStep parse_url bcrypt s (now + elapsed) who e))
        (run_clients-badges (apply_client_event parse_url bcrypt s (now + elapsed) who e)
          (now + elapsed) rest badge id (ground (arith, n)) h)
