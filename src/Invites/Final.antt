-- ===== src/Invites/Final.antt =====
-- Invitation codes over any history: the limit of uses, and the end of a revoked code.
use metafusion_auth.Prelude.{
  ℕ, ◌≤◌, String, Bool, true, false, not, ◌&&◌, ◌==◌, Option, List, [], ◌∷◌, ◌++◌, ◌≡◌, refl, ap,
  any, All, All-append, update_where, Result, ok, err, is_ok, reject_if-passes, Result-cases, inl,
  inr, eq_iff, ok-injective, arith, Bool-cases, any-append, forbidden, database_conflict,
  invite_not_found, invite_required, invalid_invite_code, invite_exhausted,
}
use metafusion_auth.Text.{trim}
use metafusion_auth.Access.{User, can}
use metafusion_auth.Database.{Database, InviteRow}
use metafusion_auth.Pat.Store.{actor_id}
use metafusion_auth.Invites.{
  create_invite, revoke_invite, consume_invite, new_invite, has_invite_code, has_room, is_usable,
  count_use,
}

pub data InviteEvent : Type 0 where
  create : (code note : String) → (max_uses expires_in : ℕ) → Option User → InviteEvent
  revoke : (code : String) → Option User → InviteEvent
  consume : (code user_id : String) → InviteEvent

-- A failed operation leaves the tables as they were.
abbrev settled : Database → Result Database → Database
settled db (ok db') = db'
settled db (err e) = db

-- No code has been used more often than it allows.
abbrev pub IsBounded : List InviteRow → Type 0
IsBounded rows = All (λ (r : InviteRow). r.used_count ≤ r.max_uses) rows

-- The code has a row, and each row of it is revoked.
abbrev pub IsEnded : String → List InviteRow → Type 0
IsEnded code rows =
    (any (has_invite_code code) rows ≡ true)
    × All (λ (r : InviteRow). (r.code == code && not r.revoked) ≡ false) rows

-- What both invariants are kept by.
data InviteStep (rows : List InviteRow) : List InviteRow → Type 0 where
  stay : InviteStep rows rows
  add :
      (row : InviteRow)
      → any (has_invite_code row.code) rows ≡ false
      → row.used_count ≤ row.max_uses
      → InviteStep rows (rows ++ row ∷ [])
  end :
      (code : String)
      → InviteStep rows (
          update_where (has_invite_code code) (λ (r : InviteRow). record r { revoked = true }) rows)
  use_up : (code : String) → InviteStep rows (update_where (has_room code) count_use rows)

IsBounded-revoked_rows :
    (code : String) (rows : List InviteRow)
    → IsBounded rows
    → IsBounded
        (update_where (has_invite_code code) (λ (r : InviteRow). record r { revoked = true }) rows)
IsBounded-revoked_rows code [] h = tt
IsBounded-revoked_rows code (r ∷ rows) (b, h) =
    (ground (arith, b), IsBounded-revoked_rows code rows h)

IsBounded-used_rows :
    (code : String) (rows : List InviteRow)
    → IsBounded rows
    → IsBounded (update_where (has_room code) count_use rows)
IsBounded-used_rows code [] h = tt
IsBounded-used_rows code (r ∷ rows) (b, h) = (ground (arith, b), IsBounded-used_rows code rows h)

InviteStep-IsBounded :
    {rows rows' : List InviteRow} → InviteStep rows rows' → IsBounded rows → IsBounded rows'
InviteStep-IsBounded stay h = h
InviteStep-IsBounded {rows} (add row fresh fits) h = All-append _ rows (row ∷ []) h (fits, tt)
InviteStep-IsBounded {rows} (end code) h = IsBounded-revoked_rows code rows h
InviteStep-IsBounded {rows} (use_up code) h = IsBounded-used_rows code rows h

-- Rewriting rows without changing their codes, and without lifting a revocation.
record IsLasting (f : InviteRow → InviteRow) : Type 0 where
  code : (r : InviteRow) → (f r).code ≡ r.code
  revoked : (r : InviteRow) → r.revoked ≡ true → (f r).revoked ≡ true

ended_row :
    (code : String) (f : InviteRow → InviteRow) (r : InviteRow)
    → IsLasting f
    → (r.code == code && not r.revoked) ≡ false
    → ((f r).code == code && not (f r).revoked) ≡ false
ended_row code f r last h = elim (Bool-cases r.revoked) [
  | inl over ↦ rw (last.revoked r over) (ground arith)
  | inr open_row ↦
      let apart : (r.code == code) ≡ false = ground (arith, h, open_row) in
      rw (last.code r, apart) refl
]

lasting-any :
    (code : String) (p : InviteRow → Bool) (f : InviteRow → InviteRow) (rows : List InviteRow)
    → IsLasting f
    → any (has_invite_code code) rows ≡ true
    → any (has_invite_code code) (update_where p f rows) ≡ true
lasting-any code p f [] last h = h
lasting-any code p f (r ∷ rows) last h = elim (Bool-cases (p r)) [
  | inl edited ↦ rw (edited, last.code r) (ground (arith, lasting-any code p f rows last))
  | inr same ↦ rw same (ground (arith, lasting-any code p f rows last))
]

lasting-All :
    (code : String) (p : InviteRow → Bool) (f : InviteRow → InviteRow) (rows : List InviteRow)
    → IsLasting f
    → All (λ (r : InviteRow). (r.code == code && not r.revoked) ≡ false) rows
    → All (λ (r : InviteRow). (r.code == code && not r.revoked) ≡ false) (update_where p f rows)
lasting-All code p f [] last h = tt
lasting-All code p f (r ∷ rows) last (ended, h) = elim (Bool-cases (p r)) [
  | inl edited ↦ rw edited (ended_row code f r last ended, lasting-All code p f rows last h)
  | inr same ↦ rw same (ended, lasting-All code p f rows last h)
]

lasting-IsEnded :
    (code : String) (p : InviteRow → Bool) (f : InviteRow → InviteRow) (rows : List InviteRow)
    → IsLasting f
    → IsEnded code rows
    → IsEnded code (update_where p f rows)
lasting-IsEnded code p f rows last (there, ended) =
    (lasting-any code p f rows last there, lasting-All code p f rows last ended)

revoking-IsLasting : IsLasting (λ (r : InviteRow). record r { revoked = true })
revoking-IsLasting = record { code = λ r. refl; revoked = λ r h. refl }

revoked_rows :
    (code : String) (rows : List InviteRow)
    → All
        (λ (r : InviteRow). (r.code == code && not r.revoked) ≡ false)
        (update_where (has_invite_code code) (λ (r : InviteRow). record r { revoked = true }) rows)
revoked_rows code [] = tt
revoked_rows code (r ∷ rows) = (ground arith, revoked_rows code rows)

IsEnded-revoked_rows :
    (code : String) (rows : List InviteRow)
    → any (has_invite_code code) rows ≡ true
    → IsEnded code
        (update_where (has_invite_code code) (λ (r : InviteRow). record r { revoked = true }) rows)
IsEnded-revoked_rows code rows h =
    (lasting-any code (has_invite_code code) _ rows revoking-IsLasting h, revoked_rows code rows)

fresh_apart :
    (code other : String) (rows : List InviteRow)
    → any (has_invite_code other) rows ≡ false
    → any (has_invite_code code) rows ≡ true
    → (other == code) ≡ false
fresh_apart code other [] h k = cc
fresh_apart code other (r ∷ rows) h k =
    ground (
      arith,
      fresh_apart code other rows,
      eq_iff r.code other,
      eq_iff r.code code,
      eq_iff other code,
    )

IsEnded-unusable :
    (code : String) (later : ℕ) (rows : List InviteRow)
    → All (λ (r : InviteRow). (r.code == code && not r.revoked) ≡ false) rows
    → any (is_usable later code) rows ≡ false
IsEnded-unusable code later [] h = refl
IsEnded-unusable code later (r ∷ rows) (ended, h) =
    ground (arith, ended, IsEnded-unusable code later rows h)

InviteStep-IsEnded :
    (code : String) {rows rows' : List InviteRow}
    → InviteStep rows rows'
    → IsEnded code rows
    → IsEnded code rows'
InviteStep-IsEnded code stay h = h
InviteStep-IsEnded code {rows} (add row fresh fits) (there, ended) =
    let apart = fresh_apart code row.code rows fresh there in
    (
      rw (any-append (has_invite_code code) rows (row ∷ []), there) refl,
      All-append _ rows (row ∷ []) ended (rw apart refl, tt),
    )
InviteStep-IsEnded code {rows} (end other) h = lasting-IsEnded code _ _ rows revoking-IsLasting h
InviteStep-IsEnded code {rows} (use_up other) h =
    lasting-IsEnded code _ _ rows (record { code = λ r. refl; revoked = λ r h. h }) h

module _ (to_upper : String → String) where
  created_step :
      (db db' : Database) (now : ℕ) (code note : String) (max_uses expires_in : ℕ)
      (actor : Option User)
      → create_invite db now code note max_uses expires_in actor ≡ ok db'
      → InviteStep db.invites db'.invites
  unfolding create_invite
  created_step db db' now code note max_uses expires_in actor e =
      let (_, e1) = reject_if-passes (not (can actor "auth.invites.manage")) forbidden _ e in
      let (fresh, e2) =
        reject_if-passes (any (has_invite_code code) db.invites) database_conflict _ e1 in
      rw (← ap (λ (d : Database). d.invites) (ok-injective _ db' e2))
        (add (new_invite now code (actor_id actor) note max_uses expires_in) fresh (omega arith))

  revoke_invite-rows :
      (db db' : Database) (raw : String) (actor : Option User)
      → revoke_invite to_upper db raw actor ≡ ok db'
      → update_where
          (has_invite_code (to_upper (trim raw)))
          (λ (r : InviteRow). record r { revoked = true })
          db.invites
        ≡ db'.invites
  unfolding revoke_invite
  revoke_invite-rows db db' raw actor e =
      let (_, e1) = reject_if-passes (not (can actor "auth.invites.manage")) forbidden _ e in
      let (_, e2) =
        reject_if-passes (not (any (has_invite_code (to_upper (trim raw))) db.invites))
          invite_not_found _ e1 in
      ap (λ (d : Database). d.invites) (ok-injective _ db' e2)

  -- The code of a revocation that succeeds is ended.
  revoke_invite-IsEnded :
      (db db' : Database) (raw : String) (actor : Option User)
      → revoke_invite to_upper db raw actor ≡ ok db'
      → IsEnded (to_upper (trim raw)) db'.invites
  unfolding revoke_invite
  revoke_invite-IsEnded db db' raw actor e =
      let (_, e1) = reject_if-passes (not (can actor "auth.invites.manage")) forbidden _ e in
      let (there, _) =
        reject_if-passes (not (any (has_invite_code (to_upper (trim raw))) db.invites))
          invite_not_found _ e1 in
      rw (← revoke_invite-rows db db' raw actor e)
        (IsEnded-revoked_rows (to_upper (trim raw)) db.invites (ground (arith, there)))

  consume_invite-rows :
      (db db' : Database) (now : ℕ) (raw user_id : String)
      → consume_invite to_upper db now raw user_id ≡ ok db'
      → update_where (has_room (to_upper (trim raw))) count_use db.invites ≡ db'.invites
  unfolding consume_invite
  consume_invite-rows db db' now raw user_id e =
      let code = to_upper (trim raw) in
      let (_, e1) = reject_if-passes (code == "") invite_required _ e in
      let (_, e2) =
        reject_if-passes (not (any (is_usable now code) db.invites)) invalid_invite_code _ e1 in
      let (_, e3) = reject_if-passes (not (any (has_room code) db.invites)) invite_exhausted _ e2 in
      ap (λ (d : Database). d.invites) (ok-injective _ db' e3)

  unfoldable pub apply_invite_event : Database → ℕ → InviteEvent → Database
  unfolding create_invite revoke_invite consume_invite
  apply_invite_event db now (create code note max_uses expires_in actor) =
      settled db (create_invite db now code note max_uses expires_in actor)
  apply_invite_event db now (revoke code actor) = settled db (revoke_invite to_upper db code actor)
  apply_invite_event db now (consume code user_id) =
      settled db (consume_invite to_upper db now code user_id)

  -- A history: each event with the time at which it happens.
  unfoldable pub run_invites : Database → List (ℕ × InviteEvent) → Database
  unfolding apply_invite_event
  run_invites db [] = db
  run_invites db ((now, e) ∷ rest) = run_invites (apply_invite_event db now e) rest

  apply_invite_event-InviteStep :
      (db : Database) (now : ℕ) (e : InviteEvent)
      → InviteStep db.invites (apply_invite_event db now e).invites
  unfolding apply_invite_event
  apply_invite_event-InviteStep db now (create code note max_uses expires_in actor) =
      elim (Result-cases (create_invite db now code note max_uses expires_in actor)) [
        | inr (x, e) ↦ rw e stay
        | inl (db', e) ↦ rw e (created_step db db' now code note max_uses expires_in actor e)
      ]
  apply_invite_event-InviteStep db now (revoke code actor) =
      elim (Result-cases (revoke_invite to_upper db code actor)) [
        | inr (x, e) ↦ rw e stay
        | inl (db', e) ↦
            rw (e, ← revoke_invite-rows db db' code actor e) (end (to_upper (trim code)))
      ]
  apply_invite_event-InviteStep db now (consume code user_id) =
      elim (Result-cases (consume_invite to_upper db now code user_id)) [
        | inr (x, e) ↦ rw e stay
        | inl (db', e) ↦
            rw (e, ← consume_invite-rows db db' now code user_id e) (use_up (to_upper (trim code)))
      ]

  -- Whatever invitations are created, revoked and used, and in whatever order, no code is used more
  -- often than it allows, if that held before.
  pub run_invites-IsBounded :
      (db : Database) (history : List (ℕ × InviteEvent))
      → IsBounded db.invites
      → IsBounded (run_invites db history).invites
  unfolding run_invites
  run_invites-IsBounded db [] h = h
  run_invites-IsBounded db ((now, e) ∷ rest) h =
      run_invites-IsBounded (apply_invite_event db now e) rest
        (InviteStep-IsBounded (apply_invite_event-InviteStep db now e) h)

  run_invites-IsEnded :
      (code : String) (db : Database) (history : List (ℕ × InviteEvent))
      → IsEnded code db.invites
      → IsEnded code (run_invites db history).invites
  unfolding run_invites
  run_invites-IsEnded code db [] h = h
  run_invites-IsEnded code db ((now, e) ∷ rest) h =
      run_invites-IsEnded code (apply_invite_event db now e) rest
        (InviteStep-IsEnded code (apply_invite_event-InviteStep db now e) h)

  -- A code that is ended is not consumed.
  pub consume_invite-IsEnded :
      (db : Database) (later : ℕ) (raw user_id : String)
      → IsEnded (to_upper (trim raw)) db.invites
      → is_ok (consume_invite to_upper db later raw user_id) ≡ false
  unfolding consume_invite
  consume_invite-IsEnded db later raw user_id ended =
      let unusable = IsEnded-unusable (to_upper (trim raw)) later db.invites ended.1 in
      elim (Bool-cases (to_upper (trim raw) == "")) [
        | inl blank ↦ rw blank refl
        | inr named ↦ rw (named, unusable) refl
      ]

  -- Once `RevokeInvite` has succeeded, its code stays ended, whatever happens to the invitations.
  pub run_invites-revoke_invite :
      (db db' : Database) (raw : String) (actor : Option User) (history : List (ℕ × InviteEvent))
      → revoke_invite to_upper db raw actor ≡ ok db'
      → IsEnded (to_upper (trim raw)) (run_invites db' history).invites
  run_invites-revoke_invite db db' raw actor history e =
      run_invites-IsEnded (to_upper (trim raw)) db' history
        (revoke_invite-IsEnded db db' raw actor e)
