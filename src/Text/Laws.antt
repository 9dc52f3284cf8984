-- ===== src/Text/Laws.antt =====
-- Trimming leaves nothing more to trim.
use Prim.Native.Char.{Char}
use Prim.Native.String.{[], ◌∷◌}
use metafusion_auth.Prelude.{String, false, ◌≡◌, refl, inl, inr, arith, Bool-cases}
use metafusion_auth.Text.{is_space, trim_left, trim_end, trim_right, trim}

trim_right-trim_end :
    (c : Char) (s : String) → trim_right s ≡ s → trim_right (trim_end c s) ≡ trim_end c s
unfolding trim_right
trim_right-trim_end c [] e = elim (Bool-cases (is_space c)) [
  | inl space ↦ rw space
  | inr other ↦ rw other (rw other)
]
trim_right-trim_end c (d ∷ s) e = rw e

trim_right_idem : (s : String) → trim_right (trim_right s) ≡ trim_right s
unfolding trim_right
trim_right_idem [] = refl
trim_right_idem (c ∷ s) = trim_right-trim_end c (trim_right s) (trim_right_idem s)

trim_left-trim_end :
    (c : Char) (s : String) → is_space c ≡ false → trim_left (trim_end c s) ≡ trim_end c s
unfolding trim_left
trim_left-trim_end c [] e = ground arith
trim_left-trim_end c (d ∷ s) e = ground arith

trim_left-trim_right :
    (s : String) → trim_left (trim_right (trim_left s)) ≡ trim_right (trim_left s)
unfolding trim_left trim_right
trim_left-trim_right [] = refl
trim_left-trim_right (c ∷ s) = elim (Bool-cases (is_space c)) [
  | inl space ↦ rw space (trim_left-trim_right s)
  | inr other ↦ rw other (trim_left-trim_end c (trim_right s) other)
]

pub trim_idem : (s : String) → trim (trim s) ≡ trim s
unfolding trim
trim_idem s = rw trim_left-trim_right (trim_right_idem (trim_left s))
