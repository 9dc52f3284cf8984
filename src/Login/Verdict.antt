-- ===== src/Login/Verdict.antt =====
-- The verdict of the login guard against its description by the largest counts, and the delay
-- by its table.
use metafusion_auth.Prelude.{
  ℕ, List, [], ◌∷◌, ◌≡◌, any, ltb, if◌then◌else◌, arith, Bool-cases, inl, inr, ap,
}
use metafusion_auth.Login.Delay.{second, delay_table, login_guard_delay-eq-table}
use metafusion_auth.Login.Table.{Bucket}
use metafusion_auth.Login.Guard.{
  Tally, no_tally, tally_bucket, tally_buckets, block, admit, check_buckets,
}
use metafusion_auth.Login.Spent.{is_over, blocked-tally_buckets}

abbrev pub greater : ℕ → ℕ → ℕ
greater a b = if ltb a b then b else a

-- The most failures of any bucket.
abbrev pub most_failures : List Bucket → ℕ
most_failures [] = 0
most_failures (b ∷ bs) = greater b.failures (most_failures bs)

-- The longest wait of the buckets that have reached their limit.
abbrev pub longest_retry : List Bucket → ℕ
longest_retry [] = 0
longest_retry (b ∷ bs) =
    let rest = longest_retry bs in if is_over b then greater b.retry_after rest else rest

worst-tally_buckets :
    (t : Tally) (bs : List Bucket) → (tally_buckets t bs).worst ≡ greater t.worst (most_failures bs)
unfolding tally_buckets
worst-tally_buckets t [] = ground arith
worst-tally_buckets t (b ∷ bs) = ground (arith, worst-tally_buckets (tally_bucket t b) bs)

retry-tally_buckets :
    (t : Tally) (bs : List Bucket) → (tally_buckets t bs).retry ≡ greater t.retry (longest_retry bs)
unfolding tally_buckets
retry-tally_buckets t [] = ground arith
retry-tally_buckets t (b ∷ bs) = ground (arith, retry-tally_buckets (tally_bucket t b) bs)

greater_zero : (n : ℕ) → greater 0 n ≡ n
greater_zero n = ground arith

longest_wait :
    (n : ℕ) → (if ltb (greater 0 n) second then second else greater 0 n) ≡ greater second n
longest_wait n = ground arith

-- The guard blocks exactly when some bucket has reached the limit of its dimension, for the longest
-- wait among those buckets and at least a second; otherwise it admits, with the delay of the table
-- at the most failures of any bucket.
pub check_buckets-eq :
    (bs : List Bucket)
    → check_buckets bs ≡ (
        if any is_over bs
        then block (greater second (longest_retry bs))
        else admit (delay_table (most_failures bs)))
unfolding check_buckets
check_buckets-eq bs = elim (Bool-cases (any is_over bs)) [
  | inl over ↦
      rw (blocked-tally_buckets no_tally bs, over, retry-tally_buckets no_tally bs)
        (ap block (longest_wait (longest_retry bs)))
  | inr room ↦ rw (
    blocked-tally_buckets no_tally bs,
    room,
    worst-tally_buckets no_tally bs,
    greater_zero (most_failures bs),
    login_guard_delay-eq-table (most_failures bs),
  )
]
