-- ===== src/RateLimit/Window.antt =====
-- How many requests of one key a window lets through.
use metafusion_auth.Prelude.{
  ℕ, suc, ◌+◌, ◌-◌, ◌≤◌, String, Bool, true, false, not, ◌&&◌, ◌==◌, some, List, [], ◌∷◌, ◌++◌, ◌≡◌,
  refl, any, keep, find, update_where, length, ltb, if◌then◌else◌, Bool-cases, inl, inr, arith,
  eq_iff,
}
use metafusion_auth.RateLimit.{
  Bucket, window, has_key, new_bucket, is_stale, is_over_window, entered, swept, hit, count_request,
}

-- A history of requests: the time before each one, and its key. The requests of `key` that are let
-- through are counted.
unfoldable pub admitted : List Bucket → ℕ → (limit : ℕ) → (key : String) → List (ℕ × String) → ℕ
admitted buckets now limit key [] = 0
admitted buckets now limit key ((elapsed, k) ∷ rest) =
    let step = count_request buckets (now + elapsed) limit k in
    let next = admitted step.1 (now + elapsed) limit key rest in
    if k == key && step.0 then suc next else next

-- The time at which a history ends.
abbrev pub clock : ℕ → List (ℕ × String) → ℕ
clock now [] = now
clock now ((elapsed, k) ∷ rest) = clock (now + elapsed) rest

clock-later : (now : ℕ) (requests : List (ℕ × String)) → now ≤ clock now requests
clock-later now [] = omega arith
clock-later now ((elapsed, k) ∷ rest) = let later = clock-later (now + elapsed) rest in omega arith

find-snoc {ℓ} :
    {A : Type ℓ} (p : A → Bool) (xs : List A) (b y : A)
    → find p xs ≡ some b
    → find p (xs ++ y ∷ []) ≡ some b
find-snoc p [] b y found = cc
find-snoc p (x ∷ xs) b y found = elim (Bool-cases (p x)) [
  | inl here ↦ rw here (rw here at found)
  | inr there ↦ rw there (find-snoc p xs b y (rw there at found))
]

find-keep {ℓ} :
    {A : Type ℓ} (p q : A → Bool) (xs : List A) (b : A)
    → find p xs ≡ some b
    → q b ≡ true
    → find p (keep q xs) ≡ some b
find-keep p q [] b found kept = cc
find-keep p q (x ∷ xs) b found kept = elim (Bool-cases (p x)) [
  | inl here ↦
      let same : some x ≡ some b = rw here at found in
      let head : x ≡ b = cc in rw (head, kept) (rw (← head, here) refl)
  | inr there ↦
      let rest = find-keep p q xs b (rw there at found) kept in
      elim (Bool-cases (q x)) [ inl stays ↦ rw (stays, there) rest | inr gone ↦ rw gone rest ]
]

find-entered :
    (now : ℕ) (k key : String) (xs : List Bucket) (b : Bucket)
    → find (has_key key) xs ≡ some b
    → find (has_key key) (entered now k xs) ≡ some b
unfolding entered
find-entered now k key xs b found = elim (Bool-cases (any (has_key k) xs)) [
  | inl there ↦ rw there found
  | inr missing ↦ rw missing (find-snoc (has_key key) xs b (new_bucket now k) found)
]

find-swept :
    (now : ℕ) (key : String) (xs : List Bucket) (b : Bucket)
    → find (has_key key) xs ≡ some b
    → is_stale now b ≡ false
    → find (has_key key) (swept now xs) ≡ some b
unfolding swept
find-swept now key xs b found live = elim (Bool-cases (ltb 4096 (length xs))) [
  | inl many ↦
      rw many (find-keep (has_key key) (λ b. not (is_stale now b)) xs b found (rw live refl))
  | inr few ↦ rw few found
]

hit-key : (now : ℕ) (b : Bucket) → (hit now b).key ≡ b.key
unfolding hit
hit-key now b = refl

find-hit :
    (now : ℕ) (k key : String) (xs : List Bucket) (b : Bucket)
    → find (has_key key) xs ≡ some b
    → find (has_key key) (update_where (has_key k) (hit now) xs)
      ≡ some (if k == key then hit now b else b)
unfolding hit
find-hit now k key [] b found = cc
find-hit now k key (x ∷ xs) b found = elim (Bool-cases (x.key == key)) [
  | inl here ↦
      let same : some x ≡ some b = rw here at found in
      let head : x ≡ b = cc in
      elim (Bool-cases (x.key == k)) [
        | inl hits ↦
            let keys : (k == key) ≡ true =
              ground (arith, here, hits, eq_iff x.key k, eq_iff x.key key, eq_iff k key) in
            rw (hits, hit-key now x, here, keys, head) refl
        | inr misses ↦
            let keys : (k == key) ≡ false =
              ground (arith, here, misses, eq_iff x.key k, eq_iff x.key key, eq_iff k key) in
            rw (misses, here, keys, head) refl
      ]
  | inr there ↦
      let rest = find-hit now k key xs b (rw there at found) in
      elim (Bool-cases (x.key == k)) [
        | inl hits ↦ rw (hits, hit-key now x, there) rest
        | inr misses ↦ rw (misses, there) rest
      ]
]

find-count_request :
    (buckets : List Bucket) (now limit : ℕ) (k key : String) (b : Bucket)
    → find (has_key key) buckets ≡ some b
    → is_stale now b ≡ false
    → find (has_key key) (count_request buckets now limit k).1
      ≡ some (if k == key then hit now b else b)
unfolding count_request
find-count_request buckets now limit k key b found live =
    find-hit now k key (swept now (entered now k buckets)) b
      (find-swept now key (entered now k buckets) b (find-entered now k key buckets b found) live)

admitted_one :
    (buckets : List Bucket) (now limit : ℕ) (key : String) (b : Bucket)
    → find (has_key key) buckets ≡ some b
    → (count_request buckets now limit key).0 ≡ not (ltb limit (hit now b).count)
unfolding count_request
admitted_one buckets now limit key b found = rw found refl

hit_within :
    (now : ℕ) (b : Bucket)
    → is_over_window now b ≡ false
    → ((hit now b).start ≡ b.start)
      × ((hit now b).count ≡ suc b.count)
      × ((hit now b).last_seen ≡ some now)
unfolding hit
hit_within now b within = (rw within refl, rw within refl, refl)

-- Until the window of a bucket ends, a key gets no more requests through than the limit leaves after
-- those that the bucket has counted, whatever the other keys do.
pub admitted-le-limit :
    (buckets : List Bucket) (now limit : ℕ) (key : String) (requests : List (ℕ × String))
    (b : Bucket) (seen : ℕ)
    → find (has_key key) buckets ≡ some b
    → b.last_seen ≡ some seen
    → b.start ≤ seen
    → b.start ≤ now
    → clock now requests ≤ b.start + window
    → admitted buckets now limit key requests ≤ limit - b.count
unfolding admitted
admitted-le-limit buckets now limit key [] b seen found last after begun ends = omega arith
admitted-le-limit buckets now limit key ((elapsed, k) ∷ rest) b seen found last after begun ends =
    let later = clock-later (now + elapsed) rest in
    let live : is_stale (now + elapsed) b ≡ false =
      rw (last) (ground (arith, after, ends, later)) in
    let within : is_over_window (now + elapsed) b ≡ false = ground (arith, ends, later) in
    let next = find-count_request buckets (now + elapsed) limit k key b found live in
    elim (Bool-cases (k == key)) [
      | inr other ↦ rw (other) (
          admitted-le-limit (count_request buckets (now + elapsed) limit k).1 (now + elapsed) limit
            key rest b seen (rw other at next) last after (omega arith) ends)
      | inl own ↦
          let (start, counted, seen_now) = hit_within (now + elapsed) b within in
          let ih =
            admitted-le-limit (count_request buckets (now + elapsed) limit k).1 (now + elapsed)
              limit key rest (hit (now + elapsed) b) (now + elapsed) (rw own at next) seen_now
              (rw start (omega arith)) (rw start (omega arith)) (rw start ends) in
          let fewer : admitted (count_request buckets (now + elapsed) limit k).1 (now + elapsed)
                limit key rest
              ≤ limit - suc b.count =
            rw (← counted) ih in
          let one =
            admitted_one buckets (now + elapsed) limit k b (rw ((eq_iff k key).0 own) found) in
          elim (Bool-cases (ltb limit (suc b.count))) [
            | inl over ↦ rw (own, one, counted, over) (omega arith)
            | inr under ↦
                let room : suc b.count ≤ limit = ground (arith, under) in
                rw (own, one, counted, under) (omega arith)
          ]
    ]
