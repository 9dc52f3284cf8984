-- ===== src/Developer/Others.antt =====
-- An account does not touch the applications of the others.
use metafusion_auth.Prelude.{
  ℕ, ◌+◌, String, true, false, not, ◌==◌, Option, none, some, List, [], ◌∷◌, ◌++◌, ◌≡◌, refl, ◌∙◌,
  any, find, keep, update_where, map, Distinct, inl, inr, Bool-cases, arith, eq_iff, eq_refl,
}
use metafusion_auth.Text.{trim}
use metafusion_auth.Access.{User}
use metafusion_auth.Database.{ClientRow}
use metafusion_auth.Accounts.Bans.{Server}
use metafusion_auth.Oauth.Clients.{Url}
use metafusion_auth.Oauth.Clients.Manage.{has_client_id, set_columns}
use metafusion_auth.Developer.{is_owned_by, can_edit_app, owner_text}
use metafusion_auth.Developer.Histories.{
  ClientEvent, apply_client_event, run_clients, is_privileged,
}
use metafusion_auth.Developer.Steps.{
  ClientStep, stays, adds, edits, rekeys, drops, apply_client_event-ClientStep,
}
use metafusion_auth.Developer.Table.{IsTable, ClientStep-IsTable, ids_fresh}
use metafusion_auth.Developer.Own.{owned_by-for}

-- The rows that an account does not own.
abbrev pub others : String → List ClientRow → List ClientRow
others v rows = keep (λ (c : ClientRow). not (is_owned_by v c)) rows

editable_owned :
    (u : User) (c : ClientRow)
    → can_edit_app (some u) (owner_text c) ≡ true
    → is_owned_by u.id c ≡ true
unfolding can_edit_app
editable_owned u c h = go c.owner_user_id h
  where
    go :
        (owner : Option String)
        → can_edit_app (some u) (elim owner [ none ↦ "" | some id ↦ id ]) ≡ true
        → (elim owner [ none ↦ false | some id ↦ id == u.id ]) ≡ true
    go none h = ground (arith, h)
    go (some id) h = ground (arith, h)

others-append :
    (v : String) (rows : List ClientRow) (c : ClientRow)
    → is_owned_by v c ≡ true
    → others v (rows ++ c ∷ []) ≡ others v rows
others-append v [] c h = rw h refl
others-append v (d ∷ rows) c h = rw (others-append v rows c h) refl

update_where-absent :
    (rows : List ClientRow) (id : String) (f : ClientRow → ClientRow)
    → any (has_client_id id) rows ≡ false
    → update_where (has_client_id id) f rows ≡ rows
update_where-absent [] id f h = refl
update_where-absent (d ∷ rows) id f h =
    let miss : (d.id == id) ≡ false = ground arith in
    rw (miss, update_where-absent rows id f (ground arith)) refl

keep-absent :
    (rows : List ClientRow) (id : String)
    → any (has_client_id id) rows ≡ false
    → keep (λ (c : ClientRow). not (c.id == id)) rows ≡ rows
keep-absent [] id h = refl
keep-absent (d ∷ rows) id h =
    let miss : (d.id == id) ≡ false = ground arith in
    rw (miss, keep-absent rows id (ground arith)) refl

-- The row that is found is the first; when ids are distinct, no later row has its id.
absent_after :
    (d : ClientRow) (rows : List ClientRow) (id : String)
    → (d.id == id) ≡ true
    → Distinct (map (λ (c : ClientRow). c.id) (d ∷ rows))
    → any (has_client_id id) rows ≡ false
absent_after d rows id hit (fresh, _) = rw (← (eq_iff d.id id).0 hit) (ids_fresh rows d.id ∙ fresh)

found_owned :
    (v : String) (d : ClientRow) (rows : List ClientRow) (id : String) (c : ClientRow)
    → (d.id == id) ≡ true
    → find (has_client_id id) (d ∷ rows) ≡ some c
    → is_owned_by v c ≡ true
    → is_owned_by v d ≡ true
found_owned v d rows id c hit found owned = let same = rw hit at found in cc

others-update_where :
    (v : String) (rows : List ClientRow) (id : String) (f : ClientRow → ClientRow) (c : ClientRow)
    → ((d : ClientRow) → is_owned_by v (f d) ≡ is_owned_by v d)
    → Distinct (map (λ (c : ClientRow). c.id) rows)
    → find (has_client_id id) rows ≡ some c
    → is_owned_by v c ≡ true
    → others v (update_where (has_client_id id) f rows) ≡ others v rows
others-update_where v [] id f c h d found owned = refl
others-update_where v (d ∷ rows) id f c h distinct found owned = elim (Bool-cases (d.id == id)) [
  | inl hit ↦
      rw
        (
          hit,
          h d,
          found_owned v d rows id c hit found owned,
          update_where-absent rows id f (absent_after d rows id hit distinct),
        )
        refl
  | inr miss ↦
      let rest = others-update_where v rows id f c h distinct.1 (rw miss at found) owned in
      rw (miss, rest) refl
]

others-keep :
    (v : String) (rows : List ClientRow) (id : String) (c : ClientRow)
    → Distinct (map (λ (c : ClientRow). c.id) rows)
    → find (has_client_id id) rows ≡ some c
    → is_owned_by v c ≡ true
    → others v (keep (λ (c : ClientRow). not (c.id == id)) rows) ≡ others v rows
others-keep v [] id c d found owned = refl
others-keep v (d ∷ rows) id c distinct found owned = elim (Bool-cases (d.id == id)) [
  | inl hit ↦
      rw
        (
          hit,
          found_owned v d rows id c hit found owned,
          keep-absent rows id (absent_after d rows id hit distinct),
        )
        refl
  | inr miss ↦
      let rest = others-keep v rows id c distinct.1 (rw miss at found) owned in rw (miss, rest) refl
]

module _ (parse_url : String → Option Url) (bcrypt : String → String) where
  ClientStep-others :
      {rows rows' : List ClientRow} (u : User)
      → (trim u.id == "") ≡ false
      → IsTable parse_url bcrypt rows
      → ClientStep parse_url bcrypt false (some u) rows rows'
      → others u.id rows' ≡ others u.id rows
  unfolding set_columns
  ClientStep-others u named t stays = refl
  ClientStep-others {rows} u named t (adds c a) =
      others-append u.id rows c (owned_by-for u.id c u.id a.owned ∙ (rw (named, eq_refl u.id) refl))
  ClientStep-others {rows} u named t (edits id input c found right fields_ok) =
      others-update_where u.id rows id (set_columns parse_url bcrypt input false) c (λ d. refl)
        t.ids found (editable_owned u c right)
  ClientStep-others {rows} u named t (rekeys id hash c found right) =
      others-update_where u.id rows id (λ (c : ClientRow). record c { secret_hash = hash }) c
        (λ d. refl) t.ids found (editable_owned u c right)
  ClientStep-others {rows} u named t (drops id c found right) =
      others-keep u.id rows id c t.ids found (editable_owned u c right)

  abbrev pub by_user : User → List (ℕ × ClientEvent) → List (ℕ × (Option User × ClientEvent))
  by_user u [] = []
  by_user u ((elapsed, e) ∷ rest) = (elapsed, (some u, e)) ∷ by_user u rest

  -- Whatever an account does in the developer centre, the clients that it does not own stay as they
  -- were, row by row, when the clients were well formed before.
  pub run_clients-others :
      (s : Server) (now : ℕ) (u : User) (events : List (ℕ × ClientEvent))
      → (trim u.id == "") ≡ false
      → IsTable parse_url bcrypt s.db.clients
      → any (λ (e : ℕ × ClientEvent). is_privileged e.1) events ≡ false
      → others u.id (run_clients parse_url bcrypt s now (by_user u events)).db.clients
        ≡ others u.id s.db.clients
  unfolding run_clients
  run_clients-others s now u [] named t n = refl
  run_clients-others s now u ((elapsed, e) ∷ rest) named t n =
      let plain : is_privileged e ≡ false = ground (arith, n) in
      let step = apply_client_event-ClientStep parse_url bcrypt s (now + elapsed) (some u) e in
      run_clients-others (apply_client_event parse_url bcrypt s (now + elapsed) (some u) e)
        (now + elapsed) u rest named (ClientStep-IsTable parse_url bcrypt step t)
        (ground (arith, n))
      ∙ ClientStep-others u named t (rw plain at step)
