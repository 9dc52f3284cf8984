-- ===== src/Login/Guard.antt =====
-- The login guard of internal/handler/login_guard.go over the shared table: `checkContext` before
-- the login, `completeLoginAttempt` after it, and the middleware that joins them.
use metafusion_auth.Prelude.{
  ℕ, ◌*◌, String, Bool, true, false, ◌||◌, ◌==◌, Option, none, some, List, [], ◌∷◌, ◌++◌, contains,
  ltb, leb, if◌then◌else◌, Result, ok, err,
}
use metafusion_auth.Text.{trim}
use metafusion_auth.Login.Delay.{second, login_guard_delay}
use metafusion_auth.Login.Table.{
  Dimension, account, ip, Bucket, Key, FailureRow, login_failure_keys, login_failure_buckets,
  record_login_failure, clear_login_failures,
}

-- 15 minutes
abbrev pub login_guard_window : ℕ
login_guard_window = 900 * 1000000000

abbrev pub login_guard_account_max_failure : ℕ
login_guard_account_max_failure = 5

abbrev pub login_guard_ip_max_failure : ℕ
login_guard_ip_max_failure = 20

abbrev pub limit_of : Dimension → ℕ
limit_of account = login_guard_account_max_failure
limit_of ip = login_guard_ip_max_failure

-- The variables of the loop of `checkContext`.
pub record Tally : Type 0 where
  pub blocked : Bool
  pub retry : ℕ
  pub worst : ℕ

abbrev pub no_tally : Tally
no_tally = record { blocked = false; retry = 0; worst = 0 }

abbrev pub larger : ℕ → ℕ → ℕ
larger new old = if ltb old new then new else old

-- One round of the loop.
unfoldable pub tally_bucket : Tally → Bucket → Tally
tally_bucket t b =
    if leb (limit_of b.dimension) b.failures
    then record {
      blocked = true;
      retry = larger b.retry_after t.retry;
      worst = larger b.failures t.worst;
    }
    else record t { worst = larger b.failures t.worst }

unfoldable pub tally_buckets : Tally → List Bucket → Tally
unfolding tally_bucket
tally_buckets t [] = t
tally_buckets t (b ∷ bs) = tally_buckets (tally_bucket t b) bs

-- `blocked, retryAfter, delay`
pub data Verdict : Type 0 where
  block : (retry_after : ℕ) → Verdict
  admit : (delay : ℕ) → Verdict

abbrev pub verdict_of : Tally → Verdict
verdict_of t =
    if t.blocked
    then block (if ltb t.retry second then second else t.retry)
    else admit (login_guard_delay t.worst)

unfoldable pub check_buckets : List Bucket → Verdict
unfolding tally_buckets
check_buckets buckets = verdict_of (tally_buckets no_tally buckets)

-- How the login itself ended: no error, the error `invalid_credentials`, another error.
pub data Outcome : Type 0 where
  success invalid_credentials failed_otherwise : Outcome

-- What the database does during the attempt.
pub data Fault : Type 0 where
  works read_fails write_fails : Fault

abbrev pub accepts_writes : Fault → Bool
accepts_writes write_fails = false
accepts_writes _ = true

-- The answer: let through without a record (no identifier), 503, 429 with `Retry-After`, or the
-- login's own answer after a delay.
pub data Reply : Type 0 where
  unguarded unavailable : Reply
  blocked : (retry_after : ℕ) → Reply
  handled : (delay : ℕ) → Outcome → Reply

-- One attempt, as the middleware and the handler see it.
pub record Attempt : Type 0 where
  pub now : ℕ
  pub username : String
  pub email : String
  pub address : String
  pub outcome : Outcome
  pub fault : Fault

module _ (sha256_hex : String → String) (to_lower : String → String) where
  -- `loginIdentifiers`: both identifiers in lower case, without blanks and repetition.
  abbrev add_identifier : String → List String → List String
  add_identifier raw keys =
      let key = to_lower (trim raw) in
      if key == "" || contains keys key then keys else keys ++ key ∷ []

  unfoldable pub login_identifiers : String → String → List String
  login_identifiers username email = add_identifier email (add_identifier username [])

  -- The keys whose failures the table counts for the attempt.
  abbrev pub attempt_keys : List String → String → List Key
  attempt_keys identifiers address = login_failure_keys sha256_hex to_lower identifiers address

  -- `checkContext`; a failed query is an error.
  unfoldable pub check_context : Fault → ℕ → List FailureRow → List String → String → Option Verdict
  unfolding check_buckets login_failure_buckets
  check_context read_fails now rows identifiers address = none
  check_context _ now rows identifiers address =
      some (check_buckets (login_failure_buckets now rows (attempt_keys identifiers address)))

  abbrev pub recorded : Result (List FailureRow) → List FailureRow → Bool × List FailureRow
  recorded (ok rows') rows = (true, rows')
  recorded (err e) rows = (false, rows)

  -- `completeLoginAttempt`: whether the answer may be sent, and the table. The first argument says
  -- whether the database accepts the write.
  unfoldable pub complete_login_attempt :
      Bool → ℕ → Outcome → List String → String → List FailureRow → Bool × List FailureRow
  unfolding record_login_failure clear_login_failures
  complete_login_attempt accepts now failed_otherwise identifiers address rows = (true, rows)
  complete_login_attempt false now success identifiers address rows = (false, rows)
  complete_login_attempt false now invalid_credentials identifiers address rows = (false, rows)
  complete_login_attempt true now success identifiers address rows =
      (true, clear_login_failures sha256_hex to_lower identifiers rows)
  complete_login_attempt true now invalid_credentials identifiers address rows =
      recorded
        (record_login_failure sha256_hex to_lower now login_guard_window identifiers address rows)
        rows

  -- The answer of the handler once the attempt is completed.
  abbrev pub finish : ℕ → Outcome → Bool × List FailureRow → Reply × List FailureRow
  finish delay outcome (sent, rows) = (if sent then handled delay outcome else unavailable, rows)

  -- The middleware, once the identifiers are known.
  unfoldable pub guarded_login : Attempt → List String → List FailureRow → Reply × List FailureRow
  unfolding check_context complete_login_attempt
  guarded_login a [] rows = (unguarded, rows)
  guarded_login a (i ∷ is) rows = elim (check_context a.fault a.now rows (i ∷ is) a.address) [
    | none ↦ (unavailable, rows)
    | some (block retry_after) ↦ (blocked retry_after, rows)
    | some (admit delay) ↦
        finish delay a.outcome
          (complete_login_attempt (accepts_writes a.fault) a.now a.outcome (i ∷ is) a.address rows)
  ]

  unfoldable pub login : Attempt → List FailureRow → Reply × List FailureRow
  unfolding guarded_login login_identifiers
  login a rows = guarded_login a (login_identifiers a.username a.email) rows
