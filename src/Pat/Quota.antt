-- ===== src/Pat/Quota.antt =====
-- The quota of usable tokens, over every history of the table.
use metafusion_auth.Prelude.{
  ℕ, ◌+◌, ◌<◌, ◌≤◌, String, Bool, true, List, [], ◌∷◌, ◌++◌, ◌≡◌, count, update_where, arith,
  Bool-cases, inl, inr, eq_iff,
}
use metafusion_auth.Database.{PatRow, Purpose, personal, mcp}
use metafusion_auth.Pat.Store.{PatState, counts_for}
use metafusion_auth.Pat.Events.{
  PatEvent, RowStep, stay, add, edit, IsTame, quota, apply_event, run, clock,
}
use metafusion_auth.Pat.Events.Steps.{apply_event-RowStep}

count-append {ℓ} :
    {A : Type ℓ} (p : A → Bool) (xs ys : List A) → count p (xs ++ ys) ≡ count p xs + count p ys
count-append p [] ys = omega arith
count-append p (x ∷ xs) ys = omega (arith, count-append p xs ys)

-- A narrower test counts no more.
count_mono {ℓ} :
    {A : Type ℓ} (p q : A → Bool) (xs : List A)
    → ((x : A) → p x ≡ true → q x ≡ true)
    → count p xs ≤ count q xs
count_mono p q [] h = omega arith
count_mono p q (x ∷ xs) h = let ih = count_mono p q xs h in ground (arith, h x)

-- An edit under which the test only narrows counts no more.
count-update_where {ℓ} :
    {A : Type ℓ} (p q : A → Bool) (f : A → A) (xs : List A)
    → ((x : A) → q (f x) ≡ true → q x ≡ true)
    → count q (update_where p f xs) ≤ count q xs
count-update_where p q f [] h = omega arith
count-update_where p q f (x ∷ xs) h = let ih = count-update_where p q f xs h in ground (arith, h x)

counts_for_later :
    (now later : ℕ) (user_id : String) (purpose : Purpose) (r : PatRow)
    → now ≤ later
    → counts_for later user_id purpose r ≡ true
    → counts_for now user_id purpose r ≡ true
counts_for_later now later user_id purpose r le h = ground arith

counts_for_edited :
    (f : PatRow → PatRow) (now : ℕ) (user_id : String) (purpose : Purpose) (r : PatRow)
    → IsTame f
    → counts_for now user_id purpose (f r) ≡ true
    → counts_for now user_id purpose r ≡ true
counts_for_edited f now user_id purpose r t h =
    ground (arith, t.owner r, t.purpose r, t.expires r, t.standing r)

-- At no later time does an account have more usable tokens of a kind than the quota.
abbrev pub HasQuota : ℕ → List PatRow → Type 0
HasQuota now rows =
    (later : ℕ)
    → now ≤ later
    → (user_id : String) (purpose : Purpose)
    → count (counts_for later user_id purpose) rows ≤ quota purpose

counts_for_own :
    (row : PatRow) (t : ℕ) (user_id : String) (purpose : Purpose)
    → counts_for t user_id purpose row ≡ true
    → (row.user_id ≡ user_id) × (row.purpose ≡ purpose)
counts_for_own row t user_id personal h = (ground (arith, eq_iff row.user_id user_id), ground arith)
counts_for_own row t user_id mcp h = (ground (arith, eq_iff row.user_id user_id), ground arith)

RowStep-HasQuota :
    {now : ℕ} {rows rows' : List PatRow}
    → RowStep now rows rows'
    → HasQuota now rows
    → HasQuota now rows'
RowStep-HasQuota stay q = q
RowStep-HasQuota {now} {rows} (edit p f tame) q = λ later le user_id purpose.
    let fewer =
      count-update_where p (counts_for later user_id purpose) f rows
        (λ r. counts_for_edited f later user_id purpose r tame) in
    omega (arith, fewer, q later le user_id purpose)
RowStep-HasQuota {now} {rows} (add row fresh room) q = λ later le user_id purpose.
    let split = count-append (counts_for later user_id purpose) rows (row ∷ []) in
    elim (Bool-cases (counts_for later user_id purpose row)) [
      | inr apart ↦ rw (split, apart) (omega (arith, q later le user_id purpose))
      | inl own ↦
          let (same_user, same_kind) = counts_for_own row later user_id purpose own in
          let fewer =
            count_mono (counts_for later user_id purpose) (counts_for now user_id purpose) rows
              (λ r. counts_for_later now later user_id purpose r le) in
          let room' : count (counts_for now user_id purpose) rows < quota purpose =
            rw (← same_user, ← same_kind) room in
          rw (split, own) (omega (arith, fewer, room'))
    ]

HasQuota-later :
    (now later : ℕ) (rows : List PatRow) → now ≤ later → HasQuota now rows → HasQuota later rows
HasQuota-later now later rows le q = λ t h. q t (omega arith)

module _ (sha256_hex : String → String) (is_uuid : String → Bool) where
  run-HasQuota :
      (s : PatState) (now : ℕ) (history : List (ℕ × PatEvent))
      → HasQuota now s.db.pats
      → HasQuota (clock now history) (run sha256_hex is_uuid s now history).db.pats
  unfolding run
  run-HasQuota s now [] q = q
  run-HasQuota s now ((elapsed, e) ∷ rest) q =
      run-HasQuota (apply_event sha256_hex is_uuid s (now + elapsed) e) (now + elapsed) rest (
        RowStep-HasQuota (apply_event-RowStep sha256_hex is_uuid s (now + elapsed) e)
          (HasQuota-later now (now + elapsed) s.db.pats (omega arith) q))

  -- After any history of operations no account has more than 10 usable personal tokens or more
  -- than 50 usable MCP tokens, then or later, if that held before.
  pub run-le-quota :
      (s : PatState) (now later : ℕ) (history : List (ℕ × PatEvent)) (user_id : String)
      (purpose : Purpose)
      → HasQuota now s.db.pats
      → clock now history ≤ later
      → count (counts_for later user_id purpose) (run sha256_hex is_uuid s now history).db.pats
        ≤ quota purpose
  run-le-quota s now later history user_id purpose q le =
      run-HasQuota s now history q later le user_id purpose
