-- ===== src/Text/Regex.antt =====
-- The regular expressions of the standard library's `regexp` package that the code's validators
-- are written in, matched against the whole text by derivatives.
use Prim.Native.Char.{Char, code}
use Prim.Native.String.{[], ◌∷◌}
use metafusion_auth.Prelude.{
  ℕ, zero, suc, String, Bool, true, false, ◌&&◌, ◌||◌, List, any, leb, if◌then◌else◌,
}

pub data Regex : Type 0 where
  fail blank : Regex
  -- One character in one of the ranges.
  class : List (ℕ × ℕ) → Regex
  seq alt : Regex → Regex → Regex
  star : Regex → Regex

abbrev pub in_class : List (ℕ × ℕ) → Char → Bool
in_class ranges c = any (λ r. leb (r.0) (code c) && leb (code c) (r.1)) ranges

-- Whether the expression matches the empty text.
unfoldable pub nullable : Regex → Bool
nullable fail = false
nullable blank = true
nullable (class ranges) = false
nullable (seq r q) = nullable r && nullable q
nullable (alt r q) = nullable r || nullable q
nullable (star r) = true

-- What is left to match after one character.
unfoldable pub derive : Char → Regex → Regex
derive c fail = fail
derive c blank = fail
derive c (class ranges) = if in_class ranges c then blank else fail
derive c (seq r q) =
    let first = seq (derive c r) q in
    let second = alt (seq (derive c r) q) (derive c q) in if nullable r then second else first
derive c (alt r q) = alt (derive c r) (derive c q)
derive c (star r) = seq (derive c r) (star r)

unfoldable pub matches : Regex → String → Bool
unfolding nullable derive
matches r [] = nullable r
matches r (c ∷ s) = matches (derive c r) s

-- `r{0,n}`
abbrev pub at_most : ℕ → Regex → Regex
at_most zero r = blank
at_most (suc n) r = alt blank (seq r (at_most n r))
