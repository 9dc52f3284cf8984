-- ===== src/Login/Table.antt =====
-- The table auth.login_failures and the statements on it: internal/store/login_failures.go. The
-- table has one row for each key. SHA-256 and `strings.ToLower` are parameters; times are
-- nanoseconds of the database clock.
use Prim.Native.Nat.{Ordering}
use Prim.Native.String as Text
use metafusion_auth.Prelude.{
  ℕ, zero, suc, ◌+◌, ◌-◌, String, Bool, true, false, not, ◌&&◌, ◌==◌, Option, none, some, List, [],
  ◌∷◌, any, keep, find, sort_by, ltb, leb, if◌then◌else◌, map, Result, ok, err,
  invalid_login_failure_window,
}
use metafusion_auth.Text.{trim}

pub data Dimension : Type 0 where
  account ip : Dimension

abbrev pub same_dimension : Dimension → Dimension → Bool
same_dimension account account = true
same_dimension ip ip = true
same_dimension _ _ = false

-- A dimension and the hash of an identifier in it.
pub record Key : Type 0 where
  pub dimension : Dimension
  pub hash : String

abbrev pub same_key : Key → Key → Bool
same_key k j = same_dimension k.dimension j.dimension && k.hash == j.hash

pub record FailureRow : Type 0 where
  pub key : Key
  pub failures : ℕ
  pub expires_at : ℕ

-- `LoginFailureBucket`
pub record Bucket : Type 0 where
  pub dimension : Dimension
  pub failures : ℕ
  pub retry_after : ℕ

-- The order of the texts "account:<hash>" and "ip:<hash>".
abbrev compare_keys : Key → Key → Ordering
compare_keys k j = compare_parts k.dimension j.dimension (Text.compare k.hash j.hash)
  where
    compare_parts : Dimension → Dimension → Ordering → Ordering
    compare_parts account ip o = Ordering.lt
    compare_parts ip account o = Ordering.gt
    compare_parts _ _ o = o

-- `keys[key] = dimension`, then `sort.Strings`: a set in the order of its keys.
unfoldable pub insert_key : Key → List Key → List Key
insert_key k [] = k ∷ []
insert_key k (j ∷ ks) =
    let later = j ∷ insert_key k ks in
    elim (compare_keys k j) [
      | Ordering.lt ↦ k ∷ j ∷ ks
      | Ordering.eq ↦ j ∷ ks
      | Ordering.gt ↦ later
    ]

abbrev pub dimension_name : Dimension → String
dimension_name account = "account"
dimension_name ip = "ip"

module _ (sha256_hex : String → String) (to_lower : String → String) where
  -- The identifier as it is hashed: accounts in lower case.
  abbrev pub normalized : Dimension → String → String
  normalized account identifier = to_lower (trim identifier)
  normalized ip identifier = trim identifier

  -- `sha256(dimension + "\x00" + identifier)`
  abbrev pub key_of : Dimension → String → Key
  key_of d identifier = record {
    dimension = d;
    hash = sha256_hex (Text.◌++◌ (dimension_name d) (Text.◌++◌ "\0" (normalized d identifier)));
  }

  -- The closure `add`.
  abbrev pub add_key : Dimension → String → List Key → List Key
  add_key d identifier ks =
      if trim identifier == "" then ks else insert_key (key_of d identifier) ks

  unfoldable pub login_failure_keys : List String → String → List Key
  unfolding insert_key
  login_failure_keys [] address = add_key ip address []
  login_failure_keys (a ∷ accounts) address =
      add_key account a (login_failure_keys accounts address)

abbrev pub is_row : Key → FailureRow → Bool
is_row k r = same_key r.key k

abbrev pub bucket_of : ℕ → Option FailureRow → List Bucket → List Bucket
bucket_of now none rest = rest
bucket_of now (some r) rest =
    if ltb now r.expires_at
    then record {
      dimension = r.key.dimension;
      failures = r.failures;
      retry_after = r.expires_at - now;
    }
      ∷ rest
    else rest

-- The query of `LoginFailureBuckets`: the unexpired rows of the keys.
unfoldable pub login_failure_buckets : ℕ → List FailureRow → List Key → List Bucket
login_failure_buckets now rows [] = []
login_failure_buckets now rows (k ∷ ks) =
    bucket_of now (find (is_row k) rows) (login_failure_buckets now rows ks)

abbrev pub max_failures : ℕ
max_failures = 1000000

-- `LEAST(f.failures+1,1000000)`
abbrev pub least_next : ℕ → ℕ
least_next n = if ltb (n + 1) max_failures then n + 1 else max_failures

-- `ON CONFLICT ... DO UPDATE`: an expired row starts again.
abbrev pub bumped : ℕ → ℕ → FailureRow → FailureRow
bumped now window r =
    if leb r.expires_at now
    then record r { failures = 1; expires_at = now + window }
    else record r { failures = least_next r.failures }

-- The insertion of one key.
unfoldable pub upsert : ℕ → ℕ → Key → List FailureRow → List FailureRow
upsert now window k [] = record { key = k; failures = 1; expires_at = now + window } ∷ []
upsert now window k (r ∷ rows) =
    let further = r ∷ upsert now window k rows in
    if is_row k r then bumped now window r ∷ rows else further

unfoldable pub upsert_all : ℕ → ℕ → List Key → List FailureRow → List FailureRow
unfolding upsert
upsert_all now window [] rows = rows
upsert_all now window (k ∷ ks) rows = upsert_all now window ks (upsert now window k rows)

abbrev take {ℓ} : {A : Type ℓ} → ℕ → List A → List A
take zero xs = []
take (suc n) [] = []
take (suc n) (x ∷ xs) = x ∷ take n xs

abbrev sooner : FailureRow → FailureRow → Bool
sooner r q = ltb r.expires_at q.expires_at

-- The rows that the bounded cleanup deletes: the 128 that expired first.
unfoldable pub expired_keys : ℕ → List FailureRow → List Key
unfolding sort_by
expired_keys now rows =
    map (λ (r : FailureRow). r.key)
      (take 128 (sort_by sooner (keep (λ (r : FailureRow). leb r.expires_at now) rows)))

-- `DELETE ... WHERE (dimension,key_hash) IN (...)`
abbrev pub remove_expired : ℕ → List Key → List FailureRow → List FailureRow
remove_expired now doomed rows =
    keep (λ (r : FailureRow). not (leb r.expires_at now && any (same_key r.key) doomed)) rows

-- Without a key there is no transaction.
unfoldable pub record_rows : ℕ → ℕ → List Key → List FailureRow → List FailureRow
unfolding upsert_all expired_keys
record_rows now window [] rows = rows
record_rows now window (key ∷ more) rows =
    let keys = key ∷ more in
    let bumped_rows = upsert_all now window keys rows in
    remove_expired now (expired_keys now bumped_rows) bumped_rows

-- `DELETE ... WHERE dimension='account' AND key_hash=ANY(...)`
abbrev pub cleared_row : List Key → FailureRow → Bool
cleared_row keys r =
    same_dimension r.key.dimension account && any (λ (k : Key). k.hash == r.key.hash) keys

module _ (sha256_hex : String → String) (to_lower : String → String) where
  unfoldable pub record_login_failure :
      ℕ → ℕ → List String → String → List FailureRow → Result (List FailureRow)
  unfolding login_failure_keys record_rows
  record_login_failure now window accounts address rows =
      if ltb window 1000000
      then err invalid_login_failure_window
      else ok
          (record_rows now window (login_failure_keys sha256_hex to_lower accounts address) rows)

  unfoldable pub clear_login_failures : List String → List FailureRow → List FailureRow
  unfolding login_failure_keys
  clear_login_failures accounts rows =
      keep
        (λ (r : FailureRow).
          not (cleared_row (login_failure_keys sha256_hex to_lower accounts "") r))
        rows
