-- ===== src/RateLimit/Flood.antt =====
-- What happens to a new key when the map is full.
use metafusion_auth.Prelude.{
  ℕ, zero, suc, ◌+◌, ◌≤◌, String, true, false, not, none, List, [], ◌∷◌, ◌++◌, ◌≡◌, refl, ap, any,
  keep, find, update_where, length, ltb, if◌then◌else◌, arith,
}
use metafusion_auth.RateLimit.{
  Bucket, window, has_key, new_bucket, is_stale, entered, swept, hit, count_request,
}

-- The requests of one key at one moment: how many are let through, and the buckets after them.
unfoldable pub flood :
    List Bucket → ℕ → (limit : ℕ) → (key : String) → (requests : ℕ) → ℕ × List Bucket
flood buckets now limit key zero = (0, buckets)
flood buckets now limit key (suc n) =
    let first = count_request buckets now limit key in
    let rest = flood first.1 now limit key n in (if first.0 then suc rest.0 else rest.0, rest.1)

length-snoc : (xs : List Bucket) (b : Bucket) → length (xs ++ b ∷ []) ≡ suc (length xs)
length-snoc [] b = refl
length-snoc (x ∷ xs) b = ap suc (length-snoc xs b)

keep-live :
    (now : ℕ) (xs : List Bucket) (b : Bucket)
    → any (is_stale now) xs ≡ false
    → is_stale now b ≡ true
    → keep (λ b. not (is_stale now b)) (xs ++ b ∷ []) ≡ xs
keep-live now [] b h old = rw (old) refl
keep-live now (x ∷ xs) b h old =
    let live : is_stale now x ≡ false = ground (arith, h) in
    rw (live, keep-live now xs b (ground (arith, h)) old) refl

update_where-absent :
    (key : String) (f : Bucket → Bucket) (xs : List Bucket)
    → any (has_key key) xs ≡ false
    → update_where (has_key key) f xs ≡ xs
update_where-absent key f [] h = refl
update_where-absent key f (x ∷ xs) h =
    let miss : has_key key x ≡ false = ground (arith, h) in
    rw (miss, update_where-absent key f xs (ground (arith, h))) refl

find-absent :
    (key : String) (xs : List Bucket) → any (has_key key) xs ≡ false → find (has_key key) xs ≡ none
find-absent key [] h = refl
find-absent key (x ∷ xs) h =
    let miss : has_key key x ≡ false = ground (arith, h) in
    rw (miss) (find-absent key xs (ground (arith, h)))

-- A new key in a full map is let through and leaves no trace.
count_request-full :
    (buckets : List Bucket) (now limit : ℕ) (key : String)
    → 4096 ≤ length buckets
    → any (is_stale now) buckets ≡ false
    → any (has_key key) buckets ≡ false
    → 1 ≤ limit
    → count_request buckets now limit key ≡ (true, buckets)
unfolding count_request entered swept hit
count_request-full buckets now limit key full live absent some_limit =
    let over : ltb 4096 (length (buckets ++ new_bucket now key ∷ [])) ≡ true =
      rw (length-snoc buckets (new_bucket now key)) (ground (arith, full)) in
    let within : ltb (now + window) now ≡ false = ground arith in
    let room : ltb limit 1 ≡ false = ground (arith, some_limit) in
    rw
      (
        find-absent key buckets absent,
        absent,
        over,
        keep-live now buckets (new_bucket now key) live refl,
        update_where-absent key (hit now) buckets absent,
        within,
        room,
      )
      refl

-- While the map holds 4096 buckets of other keys that were seen within the minute, a key without a
-- bucket is never limited: every one of its requests is let through, however many there are.
pub flood-full :
    (buckets : List Bucket) (now limit : ℕ) (key : String) (requests : ℕ)
    → 4096 ≤ length buckets
    → any (is_stale now) buckets ≡ false
    → any (has_key key) buckets ≡ false
    → 1 ≤ limit
    → flood buckets now limit key requests ≡ (requests, buckets)
unfolding flood
flood-full buckets now limit key zero full live absent some_limit = refl
flood-full buckets now limit key (suc n) full live absent some_limit =
    rw (count_request-full buckets now limit key full live absent some_limit)
      (rw (flood-full buckets now limit key n full live absent some_limit) refl)
