-- ===== src/RateLimit.antt =====
-- The limit of requests, `rateLimiter` of internal/handler/handler.go: a counter for each key in a
-- window of a minute. The policy is an argument, as the store's memory gives it; the two locks of a
-- request are taken as one step. `none` stands for the zero time of a bucket that was not yet seen.
pub mod Window
pub mod Flood
use metafusion_auth.Prelude.{
  ℕ, suc, ◌+◌, String, Bool, true, false, not, ◌&&◌, ◌||◌, ◌==◌, Option, none, some, List, [], ◌∷◌,
  ◌++◌, any, contains, keep, find, update_where, length, ltb, nat_eq, if◌then◌else◌,
}
use metafusion_auth.Access.{User, is_third_party}
use metafusion_auth.Pat.Plaintext.{prepend}

-- `bucket`, under its key
pub record Bucket : Type 0 where
  pub key : String
  pub start : ℕ
  pub count : ℕ
  pub last_seen : Option ℕ

-- One minute in nanoseconds
abbrev pub window : ℕ
window = 60000000000

abbrev pub has_key : String → Bucket → Bool
has_key key b = b.key == key

abbrev pub new_bucket : ℕ → String → Bucket
new_bucket now key = record { key = key; start = now; count = 0; last_seen = none }

-- `now.Sub(v.lastSeen) > window`
abbrev pub is_stale : ℕ → Bucket → Bool
is_stale now b = elim b.last_seen [ none ↦ true | some t ↦ ltb (t + window) now ]

-- The map once the key has a bucket.
unfoldable pub entered : ℕ → String → List Bucket → List Bucket
entered now key buckets =
    if any (has_key key) buckets then buckets else buckets ++ new_bucket now key ∷ []

-- The removal of old buckets.
unfoldable pub swept : ℕ → List Bucket → List Bucket
swept now buckets =
    if ltb 4096 (length buckets) then keep (λ b. not (is_stale now b)) buckets else buckets

abbrev pub is_over_window : ℕ → Bucket → Bool
is_over_window now b = ltb (b.start + window) now

-- The request is counted.
unfoldable pub hit : ℕ → Bucket → Bucket
hit now b = record b {
  start = if is_over_window now b then now else b.start;
  count = suc (if is_over_window now b then 0 else b.count);
  last_seen = some now;
}

abbrev pub given_bucket : ℕ → String → Option Bucket → Bucket
given_bucket now key none = new_bucket now key
given_bucket now key (some b) = b

-- Whether a request of the key is let through, and the buckets after it. A bucket that the removal
-- took out of the map is counted all the same.
unfoldable pub count_request : List Bucket → ℕ → (limit : ℕ) → (key : String) → Bool × List Bucket
unfolding entered swept hit
count_request buckets now limit key = (
  not (ltb limit (hit now (given_bucket now key (find (has_key key) buckets))).count),
  update_where (has_key key) (hit now) (swept now (entered now key buckets)),
)

-- The key of a request; `none` for a member of the administrators, who is not counted.
unfoldable pub rate_key : Option User → (ip : String) → (is_read : Bool) → Option String
unfolding is_third_party prepend
rate_key none ip is_read = some (prepend ip (if is_read then "|read" else "|write"))
rate_key (some u) ip is_read =
    if is_third_party u
    then some (prepend ip (if is_read then "|read" else "|write"))
    else if contains u.groups "admin"
    then none
    else some (prepend "user:" (prepend u.id (if is_read then "|read" else "|write")))

abbrev pub limited : List Bucket → ℕ → (limit : ℕ) → Option String → Bool × List Bucket
unfolding count_request
limited buckets now limit none = (true, buckets)
limited buckets now limit (some key) = count_request buckets now limit key

-- `rateLimiter` at `now`, with the policy: whether it is on, and the requests of a minute.
unfoldable pub rate_limiter :
    List Bucket
    → ℕ
    → (enabled : Bool) → (limit : ℕ) → (path method ip : String) → Option User
    → Bool × List Bucket
unfolding limited rate_key
rate_limiter buckets now enabled limit path method ip u =
    if path == "/api/auth/tokens/introspect" || (not enabled || nat_eq limit 0)
    then (true, buckets)
    else limited buckets now limit (rate_key u ip (method == "GET" || method == "HEAD"))
