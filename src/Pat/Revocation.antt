-- ===== src/Pat/Revocation.antt =====
-- A revoked or deleted token is refused for good, over every history of the table.
use metafusion_auth.Prelude.{
  ℕ, ◌+◌, String, Bool, true, false, ◌&&◌, ◌||◌, ◌==◌, none, List, [], ◌∷◌, ◌≡◌, refl, any,
  any-append, update_where, arith, Bool-cases, inl, inr, not, err, invalid_token, ◌∙◌, eq_iff, find,
  All,
}
use metafusion_auth.Text.{trim, has_prefix}
use metafusion_auth.Database.{Database, PatRow, Purpose, same_purpose}
use metafusion_auth.Pat.Store.{PatState, conflicts}
use metafusion_auth.Pat.Introspect.{introspect_personal_access_token, is_accepted}
use metafusion_auth.Pat.Plaintext.{hash_token, pat_prefix}
use metafusion_auth.Pat.Events.{
  PatEvent, RowStep, stay, add, edit, IsTame, apply_event, run, is_standing,
}
use metafusion_auth.Pat.Events.Steps.{apply_event-RowStep}

abbrev pub has_hash : String → PatRow → Bool
has_hash hash r = r.token_hash == hash

-- A usable row with this hash, apart from its expiry.
abbrev pub stands : String → PatRow → Bool
stands hash r = has_hash hash r && is_standing r

-- The hash is taken, and by no usable token.
abbrev pub IsDead : String → List PatRow → Type 0
IsDead hash rows = (any (has_hash hash) rows ≡ true) × (any (stands hash) rows ≡ false)

pub any-update_where {ℓ} :
    {A : Type ℓ} (p q : A → Bool) (f : A → A) (xs : List A)
    → ((x : A) → q (f x) ≡ q x)
    → any q (update_where p f xs) ≡ any q xs
any-update_where p q f [] h = refl
any-update_where p q f (x ∷ xs) h = ground (arith, h x, any-update_where p q f xs h)

any-update_where-false {ℓ} :
    {A : Type ℓ} (p q : A → Bool) (f : A → A) (xs : List A)
    → ((x : A) → q (f x) ≡ true → q x ≡ true)
    → any q xs ≡ false
    → any q (update_where p f xs) ≡ false
any-update_where-false p q f [] h e = refl
any-update_where-false p q f (x ∷ xs) h e =
    let ih = any-update_where-false p q f xs h in ground (arith, h x)

clash_of_hash :
    (row : PatRow) (rows : List PatRow)
    → any (has_hash row.token_hash) rows ≡ true
    → any (conflicts row) rows ≡ true
clash_of_hash row (r ∷ rows) h = ground (arith, clash_of_hash row rows)
clash_of_hash row [] h = cc

pub has_hash-edited :
    (hash : String) (f : PatRow → PatRow) (r : PatRow)
    → IsTame f
    → has_hash hash (f r) ≡ has_hash hash r
has_hash-edited hash f r t = rw (t.hash r)

stands-edited :
    (hash : String) (f : PatRow → PatRow) (r : PatRow)
    → IsTame f
    → stands hash (f r) ≡ true
    → stands hash r ≡ true
stands-edited hash f r t h = ground (arith, t.hash r, t.standing r)

RowStep-IsDead :
    {now : ℕ} {rows rows' : List PatRow} (hash : String)
    → RowStep now rows rows'
    → IsDead hash rows
    → IsDead hash rows'
RowStep-IsDead hash stay d = d
RowStep-IsDead {now} {rows} hash (edit p f tame) (taken, down) = (
  any-update_where p (has_hash hash) f rows (λ r. has_hash-edited hash f r tame) ∙ taken,
  any-update_where-false p (stands hash) f rows (λ r. stands-edited hash f r tame) down,
)
RowStep-IsDead {now} {rows} hash (add row fresh room) (taken, down) = (
  rw (any-append (has_hash hash) rows (row ∷ []), taken),
  elim (Bool-cases (row.token_hash == hash)) [
    | inl same ↦
        let same' : row.token_hash ≡ hash = (eq_iff row.token_hash hash).0 same in
        let clash = clash_of_hash row rows (rw same' taken) in cc
    | inr other ↦ ground (arith, any-append (stands hash) rows (row ∷ []), other, down)
  ],
)

find-none {ℓ} : {A : Type ℓ} (p : A → Bool) (xs : List A) → any p xs ≡ false → find p xs ≡ none
find-none p [] h = refl
find-none p (x ∷ xs) h = ground (arith, find-none p xs)

any-narrower {ℓ} :
    {A : Type ℓ} (p q : A → Bool) (xs : List A)
    → ((x : A) → p x ≡ true → q x ≡ true)
    → any q xs ≡ false
    → any p xs ≡ false
any-narrower p q [] h e = refl
any-narrower p q (x ∷ xs) h e = let ih = any-narrower p q xs h in ground (arith, h x)

accepted-stands :
    (db : Database) (now : ℕ) (hash : String) (r : PatRow)
    → is_accepted db now hash r ≡ true
    → stands hash r ≡ true
accepted-stands db now hash r h = ground arith

module _ (sha256_hex : String → String) (is_uuid : String → Bool) where
  pub run-IsDead :
      (hash : String) (s : PatState) (now : ℕ) (history : List (ℕ × PatEvent))
      → IsDead hash s.db.pats
      → IsDead hash (run sha256_hex is_uuid s now history).db.pats
  unfolding run
  run-IsDead hash s now [] d = d
  run-IsDead hash s now ((elapsed, e) ∷ rest) d =
      run-IsDead hash (apply_event sha256_hex is_uuid s (now + elapsed) e) (now + elapsed) rest
        (RowStep-IsDead hash (apply_event-RowStep sha256_hex is_uuid s (now + elapsed) e) d)

  pub introspect-IsDead :
      (s : PatState) (now : ℕ) (raw : String)
      → IsDead (hash_token sha256_hex (trim raw)) s.db.pats
      → (introspect_personal_access_token sha256_hex s now raw).0 ≡ err invalid_token
  unfolding introspect_personal_access_token
  introspect-IsDead s now raw (taken, down) =
      let hash = hash_token sha256_hex (trim raw) in
      let none_left : find (is_accepted s.db now hash) s.db.pats ≡ none =
        find-none (is_accepted s.db now hash) s.db.pats (
          any-narrower (is_accepted s.db now hash) (stands hash) s.db.pats
            (accepted-stands s.db now hash) down) in
      elim (Bool-cases (trim raw == "" || not (has_prefix (trim raw) pat_prefix))) [
        | inl bad ↦ rw bad
        | inr good ↦ rw (good, none_left)
      ]

-- The token with this hash is the one with this id, owner and kind, and no other row has it.
abbrev pub IsTokenOf : String → String → String → Purpose → List PatRow → Type 0
IsTokenOf hash user_id id purpose rows =
    (any (has_hash hash) rows ≡ true)
    × All
        (λ (r : PatRow).
          has_hash hash r ≡ true
          → (r.id == id && r.user_id == user_id && same_purpose r.purpose purpose) ≡ true)
        rows
