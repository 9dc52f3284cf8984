-- ===== src/Login/Delay.antt =====
-- `loginGuardDelay` of internal/handler/login_guard.go: a Go `int64` of nanoseconds, whose left
-- shift wraps at 64 bits and whose top bit is the sign.
use native.Mathlib.Nat.{pow-suc}
use metafusion_auth.Prelude.{
  ℕ, zero, suc, ◌+◌, ◌-◌, ◌*◌, ◌%◌, ◌^◌, ◌≤◌, ◌<◌, Bool, true, ◌&&◌, ◌||◌, ◌≡◌, refl, ltb, leb,
  nat_eq, if◌then◌else◌, arith, Bool-cases, inl, inr, ◌∙◌, sym,
}

abbrev pub second : ℕ
second = 1000000000

abbrev pub login_guard_delay_after_failure : ℕ
login_guard_delay_after_failure = 3

-- `200 * time.Millisecond`
abbrev pub login_guard_delay_base : ℕ
login_guard_delay_base = 200000000

-- `2 * time.Second`
abbrev pub login_guard_delay_max : ℕ
login_guard_delay_max = 2000000000

-- `base << k` as the 64 bits of an `int64`.
abbrev pub shifted : ℕ → ℕ
shifted k = (login_guard_delay_base * 2 ^ k) % 2 ^ 64

-- `delay <= 0 || delay > max`: zero, the sign bit, or too long.
abbrev pub out_of_range : ℕ → Bool
out_of_range bits = nat_eq bits 0 || leb (2 ^ 63) bits || ltb login_guard_delay_max bits

unfoldable pub capped : ℕ → ℕ
capped k = if out_of_range (shifted k) then login_guard_delay_max else shifted k

unfoldable pub login_guard_delay : ℕ → ℕ
login_guard_delay failures =
    if ltb failures login_guard_delay_after_failure
    then 0
    else capped (failures - login_guard_delay_after_failure)

-- Checks a range of values by evaluation.
all_from : ℕ → ℕ → (ℕ → Bool) → Bool
all_from zero start p = true
all_from (suc n) start p = p start && all_from n (suc start) p

all_from_sound :
    (n start : ℕ) (p : ℕ → Bool) (x : ℕ)
    → all_from n start p ≡ true
    → start ≤ x
    → x < start + n
    → p x ≡ true
unfolding all_from
all_from_sound zero start p x h lo hi = absurd (omega arith)
all_from_sound (suc n) start p x h lo hi = elim (Bool-cases (nat_eq x start)) [
  | inl here ↦ let same : x ≡ start = ground (arith, here) in rw same (ground (arith, h))
  | inr later ↦
      all_from_sound n (suc start) p x (ground (arith, h)) (ground (arith, later)) (omega arith)
]

capped_table : all_from 60 4 (λ k. nat_eq (capped k) login_guard_delay_max) ≡ true
unfolding all_from capped
capped_table = refl

pow_split : (j : ℕ) → 2 ^ (64 + j) ≡ 2 ^ 64 * 2 ^ j
pow_split zero = refl
pow_split (suc j) =
    let e : 64 + suc j ≡ suc (64 + j) = omega arith in
    rw (e, pow-suc 2 (64 + j), pow_split j, pow-suc 2 j) (omega arith)

-- A shift by 64 bits or more leaves nothing, and nothing is capped.
capped_large : (j : ℕ) → capped (64 + j) ≡ login_guard_delay_max
unfolding capped
capped_large j = let nothing : shifted (64 + j) ≡ 0 = rw (pow_split j) (omega arith) in rw nothing

capped_from_four : (k : ℕ) → 4 ≤ k → capped k ≡ login_guard_delay_max
capped_from_four k h = elim (Bool-cases (ltb k 64)) [
  | inl small ↦
      let hit =
        all_from_sound 60 4 (λ x. nat_eq (capped x) login_guard_delay_max) k capped_table h
          (ground (arith, small)) in
      ground (arith, hit)
  | inr large ↦ let e : k ≡ 64 + (k - 64) = ground (arith, large) in rw e (capped_large (k - 64))
]

login_guard_delay_large : (n : ℕ) → login_guard_delay (n + 7) ≡ login_guard_delay_max
unfolding login_guard_delay
login_guard_delay_large n = ground (arith, capped_from_four (n + 7 - 3) (omega arith))

-- The delay in nanoseconds as a table: nothing below 3 failures, then 200, 400, 800 and 1600
-- milliseconds, and 2 seconds from 7 failures on, however far the shift overflows.
abbrev pub delay_table : ℕ → ℕ
delay_table failures =
    if ltb failures 3
    then 0
    else if nat_eq failures 3
    then 200000000
    else if nat_eq failures 4
    then 400000000
    else if nat_eq failures 5
    then 800000000
    else if nat_eq failures 6
    then 1600000000
    else 2000000000

delay_table_large : (n : ℕ) → delay_table (n + 7) ≡ login_guard_delay_max
delay_table_large n = ground arith

-- The delay after any number of failures is that of the table, also where the 64-bit shift has
-- wrapped round.
pub login_guard_delay-eq-table : (failures : ℕ) → login_guard_delay failures ≡ delay_table failures
unfolding login_guard_delay capped
login_guard_delay-eq-table zero = refl
login_guard_delay-eq-table (suc zero) = refl
login_guard_delay-eq-table (suc (suc zero)) = refl
login_guard_delay-eq-table (suc (suc (suc zero))) = refl
login_guard_delay-eq-table (suc (suc (suc (suc zero)))) = refl
login_guard_delay-eq-table (suc (suc (suc (suc (suc zero))))) = refl
login_guard_delay-eq-table (suc (suc (suc (suc (suc (suc zero)))))) = refl
login_guard_delay-eq-table (suc (suc (suc (suc (suc (suc (suc n))))))) =
    let e : suc (suc (suc (suc (suc (suc (suc n)))))) ≡ n + 7 = omega arith in
    rw e (login_guard_delay_large n ∙ sym (delay_table_large n))
