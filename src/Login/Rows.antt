-- ===== src/Login/Rows.antt =====
-- What the statements on the failure table do to the row of one key.
use metafusion_auth.Prelude.{
  ℕ, suc, ◌+◌, ◌≤◌, ◌<◌, Bool, true, false, Option, some, List, [], ◌∷◌, ◌≡◌, refl, sym, ◌∙◌, any,
  keep, find, All, arith, Bool-cases, inl, inr, eq_iff, eq_refl,
}
use metafusion_auth.Login.Table.{
  Dimension, account, ip, Key, FailureRow, same_dimension, same_key, is_row, bumped, upsert,
  upsert_all,
}

same_dimension-eq : (d e : Dimension) → same_dimension d e ≡ true → d ≡ e
same_dimension-eq account account h = refl
same_dimension-eq ip ip h = refl
same_dimension-eq account ip h = cc
same_dimension-eq ip account h = cc

pub same_dimension_refl : (d : Dimension) → same_dimension d d ≡ true
same_dimension_refl account = refl
same_dimension_refl ip = refl

pub same_key-eq : (k j : Key) → same_key k j ≡ true → k ≡ j
same_key-eq k j h =
    let d : k.dimension ≡ j.dimension = same_dimension-eq k.dimension j.dimension (ground arith) in
    let e : k.hash ≡ j.hash = (eq_iff k.hash j.hash).0 (ground arith) in
    λ i. record { dimension = d i; hash = e i }

pub same_key_refl : (k : Key) → same_key k k ≡ true
same_key_refl k = rw (same_dimension_refl k.dimension, eq_refl k.hash)

-- The row of a key.
abbrev pub lookup : Key → List FailureRow → Option FailureRow
lookup j rows = find (is_row j) rows

pub key-lookup :
    (j : Key) (rows : List FailureRow) (r : FailureRow) → lookup j rows ≡ some r → r.key ≡ j
key-lookup j [] r e = cc
key-lookup j (q ∷ rows) r e = elim (Bool-cases (is_row j q)) [
  | inl here ↦ let same : q ≡ r = ground (arith, here) in rw (← same) (same_key-eq q.key j here)
  | inr there ↦ key-lookup j rows r (rw there at e)
]

is_row-bumped :
    (j : Key) (now window : ℕ) (q : FailureRow) → is_row j (bumped now window q) ≡ is_row j q
is_row-bumped j now window q = ground arith

key-bumped : (now window : ℕ) (q : FailureRow) → (bumped now window q).key ≡ q.key
key-bumped now window q = ground arith

apart_ne : (j k : Key) → same_key j k ≡ false → k ≡ j → ⊥
apart_ne j k apart same = let clash : same_key j k ≡ true = rw same (same_key_refl j) in cc

-- A row of one key is not a row of another.
is_row_other :
    (j k : Key) (q : FailureRow) → same_key j k ≡ false → is_row k q ≡ true → is_row j q ≡ false
is_row_other j k q apart mine = elim (Bool-cases (is_row j q)) [
  | inr other ↦ other
  | inl both ↦
      let e : j ≡ k = sym (same_key-eq q.key j both) ∙ same_key-eq q.key k mine in
      let clash : same_key j k ≡ true = rw e (same_key_refl k) in cc
]

-- The key has no row that lasts past the start.
abbrev pub IsStale : Key → ℕ → List FailureRow → Type 0
IsStale j start rows = All (λ (r : FailureRow). r.key ≡ j → r.expires_at ≤ start) rows

module _ (j : Key) (horizon : ℕ) where
  -- The key has a row that counts at least n failures and lasts to the horizon.
  abbrev pub IsArmed : ℕ → List FailureRow → Type 0
  IsArmed n rows =
      (r : FailureRow) × (lookup j rows ≡ some r) × (n ≤ r.failures) × (horizon ≤ r.expires_at)

  pub IsArmed-keep :
      (n : ℕ) (p : FailureRow → Bool) (rows : List FailureRow)
      → ((r : FailureRow) → r.key ≡ j → horizon ≤ r.expires_at → p r ≡ true)
      → IsArmed n rows
      → IsArmed n (keep p rows)
  IsArmed-keep n p [] h (r, e, _, _) = cc
  IsArmed-keep n p (q ∷ rows) h (r, e, counted, lasting) = elim (Bool-cases (is_row j q)) [
    | inl here ↦
        let same : q ≡ r = ground (arith, here) in
        let kept : p q ≡ true = h q (same_key-eq q.key j here) (rw same lasting) in
        rw kept (r, rw here (ground (arith, same)), counted, lasting)
    | inr there ↦
        let ih = IsArmed-keep n p rows h (r, rw there at e, counted, lasting) in
        elim (Bool-cases (p q)) [
          | inl kept ↦ rw kept (ih.0, rw there ih.1, ih.2, ih.3)
          | inr dropped ↦ rw dropped ih
        ]
  ]

  -- A failure of another key leaves the row.
  IsArmed-upsert_other :
      (n now window : ℕ) (k : Key) (rows : List FailureRow)
      → same_key j k ≡ false
      → IsArmed n rows
      → IsArmed n (upsert now window k rows)
  unfolding upsert
  IsArmed-upsert_other n now window k [] apart (r, e, _, _) = cc
  IsArmed-upsert_other n now window k (q ∷ rows) apart (r, e, counted, lasting) =
      elim (Bool-cases (is_row k q)) [
        | inl mine ↦
            let other = is_row_other j k q apart mine in
            rw mine (r, rw (is_row-bumped j now window q, other) (rw other at e), counted, lasting)
        | inr not_mine ↦ elim (Bool-cases (is_row j q)) [
          | inl here ↦ rw not_mine (r, rw here (rw here at e), counted, lasting)
          | inr there ↦
              let ih =
                IsArmed-upsert_other n now window k rows apart
                  (r, rw there at e, counted, lasting) in
              rw not_mine (ih.0, rw there ih.1, ih.2, ih.3)
        ]
      ]

  -- A failure of the key adds to the row.
  IsArmed-upsert_self :
      (n now window : ℕ) (rows : List FailureRow)
      → now < horizon
      → n < 1000000
      → IsArmed n rows
      → IsArmed (suc n) (upsert now window j rows)
  unfolding upsert
  IsArmed-upsert_self n now window [] before room (r, e, _, _) = cc
  IsArmed-upsert_self n now window (q ∷ rows) before room (r, e, counted, lasting) =
      elim (Bool-cases (is_row j q)) [
        | inl here ↦
            let same : q ≡ r = ground (arith, here) in
            let lasting' : horizon ≤ q.expires_at = rw same lasting in
            let counted' : n ≤ q.failures = rw same counted in
            rw here (
              bumped now window q,
              rw (is_row-bumped j now window q, here),
              ground arith,
              ground arith,
            )
        | inr there ↦
            let ih =
              IsArmed-upsert_self n now window rows before room
                (r, rw there at e, counted, lasting) in
            rw there (ih.0, rw there ih.1, ih.2, ih.3)
      ]

  IsArmed-weaken : (n : ℕ) (rows : List FailureRow) → IsArmed (suc n) rows → IsArmed n rows
  IsArmed-weaken n rows (r, e, counted, lasting) = (r, e, omega arith, lasting)

  IsArmed-upsert :
      (n now window : ℕ) (k : Key) (rows : List FailureRow)
      → now < horizon
      → n < 1000000
      → IsArmed n rows
      → IsArmed n (upsert now window k rows)
  IsArmed-upsert n now window k rows before room armed = elim (Bool-cases (same_key j k)) [
    | inr apart ↦ IsArmed-upsert_other n now window k rows apart armed
    | inl same ↦ rw (← same_key-eq j k same) (
        IsArmed-weaken n (upsert now window j rows)
          (IsArmed-upsert_self n now window rows before room armed))
  ]

  pub IsArmed-upsert_all :
      (n now window : ℕ) (keys : List Key) (rows : List FailureRow)
      → now < horizon
      → n < 1000000
      → IsArmed n rows
      → IsArmed n (upsert_all now window keys rows)
  unfolding upsert_all
  IsArmed-upsert_all n now window [] rows before room armed = armed
  IsArmed-upsert_all n now window (k ∷ ks) rows before room armed =
      IsArmed-upsert_all n now window ks (upsert now window k rows) before room
        (IsArmed-upsert n now window k rows before room armed)

  -- A failure that names the key adds to its row.
  pub IsArmed-upsert_all_self :
      (n now window : ℕ) (keys : List Key) (rows : List FailureRow)
      → now < horizon
      → suc n < 1000000
      → any (same_key j) keys ≡ true
      → IsArmed n rows
      → IsArmed (suc n) (upsert_all now window keys rows)
  unfolding upsert_all
  IsArmed-upsert_all_self n now window [] rows before room named armed = cc
  IsArmed-upsert_all_self n now window (k ∷ ks) rows before room named armed =
      elim (Bool-cases (same_key j k)) [
        | inl same ↦
            IsArmed-upsert_all (suc n) now window ks (upsert now window k rows) before room (
              rw (← same_key-eq j k same)
                (IsArmed-upsert_self n now window rows before (omega arith) armed))
        | inr apart ↦
            IsArmed-upsert_all_self n now window ks (upsert now window k rows) before room
              (rw apart at named) (IsArmed-upsert_other n now window k rows apart armed)
      ]

  IsStale-upsert_other :
      (start now window : ℕ) (k : Key) (rows : List FailureRow)
      → same_key j k ≡ false
      → IsStale j start rows
      → IsStale j start (upsert now window k rows)
  unfolding upsert
  IsStale-upsert_other start now window k [] apart stale =
      (λ same. absurd (apart_ne j k apart same), tt)
  IsStale-upsert_other start now window k (q ∷ rows) apart (h, stale) =
      elim (Bool-cases (is_row k q)) [
        | inl mine ↦ rw mine (
          λ same. absurd (
              apart_ne j k apart
                (sym (same_key-eq q.key k mine) ∙ sym (key-bumped now window q) ∙ same)),
          stale,
        )
        | inr other ↦ rw other (h, IsStale-upsert_other start now window k rows apart stale)
      ]

  -- The first failure of the key starts a window.
  IsArmed-upsert_self' :
      (start now window : ℕ) (rows : List FailureRow)
      → start ≤ now
      → horizon ≤ now + window
      → IsStale j start rows
      → IsArmed 1 (upsert now window j rows)
  unfolding upsert
  IsArmed-upsert_self' start now window [] le ends stale = (
    record { key = j; failures = 1; expires_at = now + window },
    rw (same_key_refl j),
    omega arith,
    ends,
  )
  IsArmed-upsert_self' start now window (q ∷ rows) le ends (h, stale) =
      elim (Bool-cases (is_row j q)) [
        | inl here ↦
            let old : q.expires_at ≤ start = h (same_key-eq q.key j here) in
            rw here (
              bumped now window q,
              rw (is_row-bumped j now window q, here),
              ground arith,
              ground arith,
            )
        | inr there ↦
            let ih = IsArmed-upsert_self' start now window rows le ends stale in
            rw there (ih.0, rw there ih.1, ih.2, ih.3)
      ]

  pub IsStale-upsert_all :
      (start now window : ℕ) (keys : List Key) (rows : List FailureRow)
      → any (same_key j) keys ≡ false
      → IsStale j start rows
      → IsStale j start (upsert_all now window keys rows)
  unfolding upsert_all
  IsStale-upsert_all start now window [] rows apart stale = stale
  IsStale-upsert_all start now window (k ∷ ks) rows apart stale =
      IsStale-upsert_all start now window ks (upsert now window k rows) (ground arith)
        (IsStale-upsert_other start now window k rows (ground arith) stale)

  -- The first failure that names the key starts a window.
  pub IsArmed-upsert_all' :
      (start now window : ℕ) (keys : List Key) (rows : List FailureRow)
      → start ≤ now
      → now < horizon
      → horizon ≤ now + window
      → any (same_key j) keys ≡ true
      → IsStale j start rows
      → IsArmed 1 (upsert_all now window keys rows)
  unfolding upsert_all
  IsArmed-upsert_all' start now window [] rows le before ends named stale = cc
  IsArmed-upsert_all' start now window (k ∷ ks) rows le before ends named stale =
      elim (Bool-cases (same_key j k)) [
        | inl same ↦
            IsArmed-upsert_all 1 now window ks (upsert now window k rows) before (omega arith) (
              rw (← same_key-eq j k same)
                (IsArmed-upsert_self' start now window rows le ends stale))
        | inr apart ↦
            IsArmed-upsert_all' start now window ks (upsert now window k rows) le before ends
              (rw apart at named) (IsStale-upsert_other start now window k rows apart stale)
      ]
