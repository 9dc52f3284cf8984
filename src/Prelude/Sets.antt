-- ===== src/Prelude/Sets.antt =====
-- Lists of texts that are used as sets in order of arrival.
use Prim.Native.String.{String}
use mathlib.Core.Path.{◌≡◌, refl}
use mathlib.Core.Logic.{inl, inr}
use mathlib.Core.Bool.{Bool, true, false, ◌||◌}
use mathlib.Core.Option.{some}
use mathlib.Core.List.{List, [], ◌∷◌, ◌++◌}
use native.Mathlib.Omega.{arith}
use text.Mathlib.Text.{◌==◌}
use text.Mathlib.TextEquality.{eq_iff}
use text.Mathlib.TextPositions.{eq_refl}
use metafusion_auth.Prelude.Lists.{any, find, contains, Distinct, All}
use metafusion_auth.Prelude.Tests.{Bool-cases}

pub any-append {ℓ} :
    {A : Type ℓ} (p : A → Bool) (xs ys : List A) → any p (xs ++ ys) ≡ (any p xs || any p ys)
any-append p [] ys = refl
any-append p (x ∷ xs) ys = ground (arith, any-append p xs ys)

-- What holds of a listed text holds of some listed text.
pub any_of_contains :
    (p : String → Bool) (xs : List String) (s : String)
    → contains xs s ≡ true
    → p s ≡ true
    → any p xs ≡ true
any_of_contains p [] s h k = ground arith
any_of_contains p (x ∷ xs) s h k = ground (arith, any_of_contains p xs s, eq_iff x s)

pub contains-snoc_self : (xs : List String) (s : String) → contains (xs ++ s ∷ []) s ≡ true
contains-snoc_self [] s = ground (arith, eq_refl s)
contains-snoc_self (x ∷ xs) s = ground (arith, contains-snoc_self xs s)

pub Distinct-snoc :
    (xs : List String) (s : String) → Distinct xs → contains xs s ≡ false → Distinct (xs ++ s ∷ [])
Distinct-snoc [] s d h = (refl, tt)
Distinct-snoc (x ∷ xs) s (fresh, d) h = (
  ground (arith, any-append (λ y. y == x) xs (s ∷ []), eq_iff x s, eq_iff s x),
  Distinct-snoc xs s d (ground arith),
)

pub All-contains :
    (P : String → Type 0) (xs : List String) (s : String) → All P xs → contains xs s ≡ true → P s
All-contains P [] s h e = ground arith
All-contains P (x ∷ xs) s (p, h) e = ground (arith, All-contains P xs s h, eq_iff x s)

pub All-of-contains :
    (P : String → Type 0) (xs : List String)
    → ((s : String) → contains xs s ≡ true → P s)
    → All P xs
All-of-contains P [] h = tt
All-of-contains P (x ∷ xs) h =
    (h x (ground (arith, eq_refl x)), All-of-contains P xs (λ s e. h s (ground arith)))

pub contains-append :
    (xs ys : List String) (s : String) → contains (xs ++ ys) s ≡ (contains xs s || contains ys s)
contains-append xs ys s = any-append (λ x. x == s) xs ys

-- A list with a distinct head in the middle has it nowhere before.
pub contains-of-Distinct :
    (xs ys : List String) (s : String) → Distinct (xs ++ s ∷ ys) → contains xs s ≡ false
contains-of-Distinct [] ys s d = refl
contains-of-Distinct (x ∷ xs) ys s (fresh, d) =
    ground
      (arith, contains-of-Distinct xs ys s d, contains-append xs (s ∷ ys) x, eq_iff x s, eq_iff s x)

-- What is found passes the test.
pub found_passes {ℓ} :
    {A : Type ℓ} (p : A → Bool) (xs : List A) (x : A) → find p xs ≡ some x → p x ≡ true
found_passes p [] x e = cc
found_passes p (y ∷ xs) x e = elim (Bool-cases (p y)) [
  | inl here ↦
      let first : some y ≡ some x = rw here at e in let same : y ≡ x = cc in rw (← same) here
  | inr there ↦ found_passes p xs x (rw there at e)
]

-- A test that holds of what is found holds of some entry.
pub any_found {ℓ} :
    {A : Type ℓ} (p q : A → Bool) (xs : List A) (x : A)
    → find p xs ≡ some x
    → q x ≡ true
    → any q xs ≡ true
any_found p q [] x e h = cc
any_found p q (y ∷ xs) x e h = elim (Bool-cases (p y)) [
  | inl here ↦
      let first : some y ≡ some x = rw here at e in
      let same : y ≡ x = cc in let holds : q y ≡ true = rw same h in rw holds refl
  | inr there ↦ let ih = any_found p q xs x (rw there at e) h in ground (arith, ih)
]

pub any_of_find {ℓ} :
    {A : Type ℓ} (p : A → Bool) (xs : List A) (x : A) → find p xs ≡ some x → any p xs ≡ true
any_of_find p xs x e = any_found p p xs x e (found_passes p xs x e)

-- An entry at the end is found when nothing before it passes the test.
pub find-append {ℓ} :
    {A : Type ℓ} (p : A → Bool) (xs : List A) (x : A)
    → any p xs ≡ false
    → p x ≡ true
    → find p (xs ++ x ∷ []) ≡ some x
find-append p [] x h k = rw k
find-append p (y ∷ xs) x h k = let ih = find-append p xs x in ground arith
