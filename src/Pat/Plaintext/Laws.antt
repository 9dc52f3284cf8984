-- ===== src/Pat/Plaintext/Laws.antt =====
-- The shape of a plaintext.
use Prim.Native.String.{[], ◌∷◌}
use metafusion_auth.Prelude.{
  ℕ, zero, suc, ◌+◌, ◌-◌, ◌*◌, ◌/◌, ◌%◌, ◌^◌, ◌≤◌, ◌<◌, String, List, some, nat_eq, ◌≡◌, All,
  length, arith, Bool-cases, inl, inr, true,
}
use native.Mathlib.Nat.{pow-suc}
use metafusion_auth.Text.{rune_count, has_prefix}
use metafusion_auth.Pat.Plaintext.{
  pat_prefix, pat_secret_bytes, char_of, alphabet, base62_digits, base62, repeat_zero, set_bytes,
  prepend, new_pat_plaintext,
}

-- With k digits at hand a number below 62^k takes at most k digits.
rune_count-base62_digits :
    (fuel k n : ℕ) (acc : String)
    → n < 62 ^ k
    → rune_count (base62_digits fuel n acc) ≤ k + rune_count acc
unfolding base62_digits rune_count
rune_count-base62_digits zero k n acc h = omega arith
rune_count-base62_digits (suc fuel) zero n acc h =
    let e : n ≡ 0 = omega (arith, h) in rw e (omega arith)
rune_count-base62_digits (suc fuel) (suc k) n acc h =
    let smaller : n < 62 ^ k * 62 = rw (pow-suc 62 k) at h in
    elim (Bool-cases (nat_eq n 0)) [
      | inl z ↦ rw z (omega arith)
      | inr s ↦ rw s (
          omega (
            arith,
            rune_count-base62_digits fuel k (n / 62) (char_of alphabet (n % 62) ∷ acc)
                (omega arith),
          ))
    ]

rune_count-base62 : (k n : ℕ) → 0 < k → n < 62 ^ k → rune_count (base62 n) ≤ k
unfolding base62 rune_count
rune_count-base62 k n p h = elim (Bool-cases (nat_eq n 0)) [
  | inl z ↦ rw z (omega arith)
  | inr s ↦ rw s (omega (arith, rune_count-base62_digits 64 k n [] h))
]

set_bytes-lt :
    (acc k : ℕ) (raw : List ℕ)
    → All (λ b. b < 256) raw
    → acc < 256 ^ k
    → set_bytes acc raw < 256 ^ (k + length raw)
unfolding set_bytes
set_bytes-lt acc k List.[] bs h = let e : k + 0 ≡ k = omega arith in rw e h
set_bytes-lt acc k (List.◌∷◌ b raw) (hb, bs) h =
    let e : k + suc (length raw) ≡ suc k + length raw = omega arith in
    rw e (set_bytes-lt (acc * 256 + b) (suc k) raw bs (rw (pow-suc 256 k) (omega arith)))

rune_count-repeat_zero : (n : ℕ) (s : String) → rune_count (repeat_zero n s) ≡ n + rune_count s
unfolding rune_count repeat_zero
rune_count-repeat_zero zero s = omega arith
rune_count-repeat_zero (suc n) s = omega (arith, rune_count-repeat_zero n s)

rune_count-prepend : (p s : String) → rune_count (prepend p s) ≡ rune_count p + rune_count s
unfolding rune_count prepend
rune_count-prepend [] s = omega arith
rune_count-prepend (c ∷ p) s = omega (arith, rune_count-prepend p s)

has_prefix-prepend : (p s : String) → has_prefix (prepend p s) p ≡ true
unfolding has_prefix prepend
has_prefix-prepend [] s = ground arith
has_prefix-prepend (c ∷ p) s = ground (arith, has_prefix-prepend p s)

-- The secret of 32 bytes fits: 256^32 is below 62^43.
secret_fits :
    (raw : List ℕ)
    → length raw ≡ pat_secret_bytes
    → All (λ b. b < 256) raw
    → rune_count (base62 (set_bytes 0 raw)) ≤ 43
secret_fits raw size bytes =
    let below : set_bytes 0 raw < 256 ^ (0 + length raw) =
      set_bytes-lt 0 0 raw bytes (omega arith) in
    let below' : set_bytes 0 raw < 256 ^ 32 = rw size at below in
    rune_count-base62 43 (set_bytes 0 raw) (omega arith) (omega arith)

-- Every secret of 32 bytes has a plaintext: it starts with the prefix and is 47 characters long,
-- so the width error cannot occur.
pub new_pat_plaintext_total :
    (raw : List ℕ)
    → length raw ≡ pat_secret_bytes
    → All (λ b. b < 256) raw
    → (plain : String) × (new_pat_plaintext raw ≡ some plain)
      × (has_prefix plain pat_prefix ≡ true)
      × (rune_count plain ≡ 47)
unfolding new_pat_plaintext rune_count
new_pat_plaintext_total raw size bytes =
    let secret = base62 (set_bytes 0 raw) in
    let fits : rune_count secret ≤ 43 = secret_fits raw size bytes in
    (
      prepend pat_prefix (repeat_zero (43 - rune_count secret) secret),
      ground (arith, fits),
      has_prefix-prepend pat_prefix _,
      rw rune_count-prepend (omega (arith, rune_count-repeat_zero (43 - rune_count secret) secret)),
    )
