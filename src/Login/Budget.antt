-- ===== src/Login/Budget.antt =====
-- The budget of wrong passwords: whatever the other attempts, and however many addresses or
-- spellings are tried, one identifier or address has a bounded number of answered guesses in a
-- window. An attempt whose record fails is answered as unavailable, whether or not the password was
-- right, and is not counted.
use metafusion_auth.Prelude.{
  ℕ, suc, ◌+◌, ◌≤◌, ◌<◌, String, Bool, true, false, ◌&&◌, ◌==◌, some, List, [], ◌∷◌, ◌≡◌, any, All,
}
use metafusion_auth.Login.Table.{
  Key, FailureRow, account, same_dimension, same_key, login_failure_buckets, login_failure_keys,
}
use metafusion_auth.Login.Guard.{
  Attempt, Outcome, success, invalid_credentials, Fault, works, read_fails, write_fails, Reply,
  handled, Verdict, admit, limit_of, login_guard_window, login_identifiers, attempt_keys,
  check_context, check_buckets, login,
}
use metafusion_auth.Login.Spent.{IsSpent}

abbrev pub is_wrong : Outcome → Bool
is_wrong invalid_credentials = true
is_wrong _ = false

abbrev pub is_success : Outcome → Bool
is_success success = true
is_success _ = false

-- The login was tried and its answer was sent.
abbrev pub is_handled : Reply → Bool
is_handled (handled delay outcome) = true
is_handled _ = false

abbrev one_if : Bool → ℕ
one_if true = 1
one_if false = 0

abbrev bump : Bool → ℕ → ℕ
bump true n = suc n
bump false n = n

some-eq : (v w : Verdict) → some v ≡ some w → v ≡ w
some-eq v w e = cc

module _ (sha256_hex : String → String) (to_lower : String → String) where
  abbrev identifiers_of : Attempt → List String
  identifiers_of a = login_identifiers sha256_hex to_lower a.username a.email

  -- The attempt names the key, as an account or as the address.
  abbrev pub names : Key → Attempt → Bool
  names j a = any (same_key j) (attempt_keys sha256_hex to_lower (identifiers_of a) a.address)

  -- A success on the account of the key clears it.
  abbrev pub clears : Key → Attempt → Bool
  clears j a =
      is_success a.outcome
      && (same_dimension j.dimension account
          && any (λ (k : Key). k.hash == j.hash)
              (login_failure_keys sha256_hex to_lower (identifiers_of a) ""))

  -- How many attempts on the key were answered that the password is wrong.
  unfoldable pub guesses : Key → List Attempt → List FailureRow → ℕ
  guesses j [] rows = 0
  guesses j (a ∷ rest) rows =
      let (reply, rows') = login sha256_hex to_lower a rows in
      one_if (is_handled reply && (is_wrong a.outcome && names j a)) + guesses j rest rows'

  admitted :
      (fault : Fault) (now delay : ℕ) (rows : List FailureRow) (ids : List String)
      (address : String)
      → check_context sha256_hex to_lower fault now rows ids address ≡ some (admit delay)
      → check_buckets
          (login_failure_buckets now rows (attempt_keys sha256_hex to_lower ids address))
        ≡ admit delay
  unfolding check_context
  admitted works now delay rows ids address e = some-eq _ (admit delay) e
  admitted read_fails now delay rows ids address e = cc
  admitted write_fails now delay rows ids address e = some-eq _ (admit delay) e

  module _ (j : Key) (start horizon : ℕ) where
    -- The state after an attempt counts one more guess exactly when one was answered.
    abbrev Counted : ℕ → Outcome → Bool → Reply × List FailureRow → Type 0
    Counted n outcome named (reply, rows) =
        let m = bump (is_handled reply && (is_wrong outcome && named)) n in
        IsSpent j start horizon m rows × (m ≤ limit_of j.dimension)

    -- All attempts of the list fall into the window, and none of them clears the key.
    abbrev pub InWindow : List Attempt → Type 0
    InWindow attempts =
        All
          (λ (a : Attempt).
            (start ≤ a.now)
            × (a.now < horizon)
            × (horizon ≤ a.now + login_guard_window)
            × (clears j a ≡ false))
          attempts

  -- Every attempt falls into the 15 minutes from the start, and none of them is a success that
  -- clears the key.
  abbrev pub Within : Key → ℕ → List Attempt → Type 0
  Within j start attempts =
      All
        (λ (a : Attempt).
          (start ≤ a.now) × (a.now < start + login_guard_window) × (clears j a ≡ false))
        attempts
