-- ===== src/Login/Spent.antt =====
-- How many wrong guesses at one key the table has recorded since a start, kept through each
-- statement; and when a spent budget blocks.
use metafusion_auth.Prelude.{
  ℕ, suc, ◌+◌, ◌≤◌, ◌<◌, Bool, true, false, not, ◌&&◌, ◌||◌, ◌==◌, Option, none, some, List, [],
  ◌∷◌, ◌≡◌, ◌⊎◌, ◌∙◌, any, keep, All-keep, ltb, leb, arith, Bool-cases, inl, inr, ap,
}
use metafusion_auth.Login.Table.{
  Dimension, account, ip, Key, FailureRow, Bucket, same_dimension, same_key, remove_expired,
  record_rows, login_failure_buckets, bucket_of, cleared_row,
}
use metafusion_auth.Login.Guard.{
  Tally, no_tally, tally_bucket, tally_buckets, limit_of, block, admit, check_buckets,
}
use metafusion_auth.Login.Rows.{
  lookup, key-lookup, IsArmed, IsArmed-keep, IsStale, IsArmed-upsert_all, IsArmed-upsert_all_self,
  IsStale-upsert_all, IsArmed-upsert_all', same_key-eq,
}

abbrev pub is_over : Bucket → Bool
is_over b = leb (limit_of b.dimension) b.failures

-- The loop blocks exactly when some bucket has reached the limit of its dimension.
pub blocked-tally_buckets :
    (t : Tally) (bs : List Bucket) → (tally_buckets t bs).blocked ≡ (t.blocked || any is_over bs)
unfolding tally_buckets
blocked-tally_buckets t [] = ground arith
blocked-tally_buckets t (b ∷ bs) = ground (arith, blocked-tally_buckets (tally_bucket t b) bs)

any_over-bucket_of :
    (now : ℕ) (o : Option FailureRow) (rest : List Bucket)
    → any is_over rest ≡ true
    → any is_over (bucket_of now o rest) ≡ true
any_over-bucket_of now none rest h = h
any_over-bucket_of now (some r) rest h = ground arith

module _ (j : Key) (start horizon : ℕ) where
  abbrev pub IsSpent : ℕ → List FailureRow → Type 0
  IsSpent n rows = (IsStale j start rows × (n ≡ 0)) ⊎ IsArmed j horizon n rows

  IsSpent-keep :
      (n : ℕ) (p : FailureRow → Bool) (rows : List FailureRow)
      → ((r : FailureRow) → r.key ≡ j → horizon ≤ r.expires_at → p r ≡ true)
      → IsSpent n rows
      → IsSpent n (keep p rows)
  IsSpent-keep n p rows h (inl (stale, z)) = inl (All-keep _ p rows stale, z)
  IsSpent-keep n p rows h (inr armed) = inr (IsArmed-keep j horizon n p rows h armed)

  IsSpent-remove_expired :
      (n now : ℕ) (doomed : List Key) (rows : List FailureRow)
      → now < horizon
      → IsSpent n rows
      → IsSpent n (remove_expired now doomed rows)
  IsSpent-remove_expired n now doomed rows before spent =
      IsSpent-keep n _ rows (λ r same lasting. ground arith) spent

  -- A failure that does not name the key.
  pub IsSpent-record_other :
      (n now window : ℕ) (keys : List Key) (rows : List FailureRow)
      → now < horizon
      → n < 1000000
      → any (same_key j) keys ≡ false
      → IsSpent n rows
      → IsSpent n (record_rows now window keys rows)
  unfolding record_rows
  IsSpent-record_other n now window [] rows before room apart spent = spent
  IsSpent-record_other n now window (k ∷ ks) rows before room apart (inl (stale, z)) =
      IsSpent-remove_expired n now _ _ before
        (inl (IsStale-upsert_all j horizon start now window (k ∷ ks) rows apart stale, z))
  IsSpent-record_other n now window (k ∷ ks) rows before room apart (inr armed) =
      IsSpent-remove_expired n now _ _ before
        (inr (IsArmed-upsert_all j horizon n now window (k ∷ ks) rows before room armed))

  -- A failure that names the key.
  pub IsSpent-record_self :
      (n now window : ℕ) (keys : List Key) (rows : List FailureRow)
      → start ≤ now
      → now < horizon
      → horizon ≤ now + window
      → suc n < 1000000
      → any (same_key j) keys ≡ true
      → IsSpent n rows
      → IsSpent (suc n) (record_rows now window keys rows)
  unfolding record_rows
  IsSpent-record_self n now window [] rows le before ends room named spent = cc
  IsSpent-record_self n now window (k ∷ ks) rows le before ends room named (inl (stale, z)) =
      IsSpent-remove_expired (suc n) now _ _ before (
        rw z (
          inr (
            IsArmed-upsert_all' j horizon start now window (k ∷ ks) rows le before ends named
              stale)))
  IsSpent-record_self n now window (k ∷ ks) rows le before ends room named (inr armed) =
      IsSpent-remove_expired (suc n) now _ _ before
        (inr (IsArmed-upsert_all_self j horizon n now window (k ∷ ks) rows before room named armed))

  -- A success that does not clear the key.
  pub IsSpent-clear :
      (n : ℕ) (keys : List Key) (rows : List FailureRow)
      → (same_dimension j.dimension account && any (λ (k : Key). k.hash == j.hash) keys) ≡ false
      → IsSpent n rows
      → IsSpent n (keep (λ (r : FailureRow). not (cleared_row keys r)) rows)
  IsSpent-clear n keys rows apart spent =
      IsSpent-keep n _ rows (λ r same lasting. rw (same, apart)) spent

  -- A spent key has a bucket over its limit.
  over_of_armed :
      (now : ℕ) (keys : List Key) (rows : List FailureRow)
      → now < horizon
      → any (same_key j) keys ≡ true
      → IsArmed j horizon (limit_of j.dimension) rows
      → any is_over (login_failure_buckets now rows keys) ≡ true
  unfolding login_failure_buckets
  over_of_armed now [] rows before named armed = cc
  over_of_armed now (k ∷ ks) rows before named (r, e, counted, lasting) =
      elim (Bool-cases (same_key j k)) [
        | inl same ↦
            let d : r.key.dimension ≡ j.dimension =
              ap (λ (x : Key). x.dimension) (key-lookup j rows r e) in
            rw (← same_key-eq j k same, e) (ground (arith, d))
        | inr apart ↦
            any_over-bucket_of now (lookup k rows) (login_failure_buckets now rows ks)
              (over_of_armed now ks rows before (rw apart at named) (r, e, counted, lasting))
      ]

  limit-pos : (d : Dimension) → 0 < limit_of d
  limit-pos account = omega arith
  limit-pos ip = omega arith

  -- Where the verdict admits, the budget is not spent.
  pub room_of_admit :
      (n now delay : ℕ) (keys : List Key) (rows : List FailureRow)
      → now < horizon
      → any (same_key j) keys ≡ true
      → n ≤ limit_of j.dimension
      → IsSpent n rows
      → check_buckets (login_failure_buckets now rows keys) ≡ admit delay
      → n < limit_of j.dimension
  unfolding check_buckets
  room_of_admit n now delay keys rows before named le (inl (stale, z)) e =
      omega (arith, z, limit-pos j.dimension)
  room_of_admit n now delay keys rows before named le (inr armed) e =
      elim (Bool-cases (ltb n (limit_of j.dimension))) [
        | inl room ↦ ground (arith, room)
        | inr full ↦
            let same : n ≡ limit_of j.dimension = ground (arith, full) in
            let over = over_of_armed now keys rows before named (rw (← same) armed) in
            let stop =
              blocked-tally_buckets no_tally (login_failure_buckets now rows keys) ∙ over in
            blocks (rw stop at e)
      ]
    where
      blocks : {m : ℕ} → block m ≡ admit delay → n < limit_of j.dimension
      blocks h = cc
