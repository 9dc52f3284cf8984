-- ===== src/Oauth/Scopes/Laws.antt =====
-- What the scope functions of internal/store/oauth.go grant.
use metafusion_auth.Prelude.{
  String, Bool, true, false, not, ◌&&◌, ◌||◌, List, [], ◌∷◌, ◌++◌, ◌≡◌, refl, keep, contains, map,
  Distinct, Distinct-snoc, All, if◌then◌else◌, ok, err, arith, eq_iff, Bool-cases, inl, inr,
  ok-injective, Error, eq_refl, ◌⊎◌, contains-append,
}
use metafusion_auth.Text.{trim}
use metafusion_auth.Oauth.Scopes.{
  converge_from, converge_scopes, split_from, split_scopes, fields, valid_scope, unsupported_scopes,
  parse_scopes, default_scope, is_empty,
}

contains-converge_from :
    (allow out requested : List String) (s : String)
    → contains (converge_from allow out requested) s
      ≡ (contains out s || (contains (map trim requested) s && contains allow s))
unfolding converge_from
contains-converge_from allow out [] s = ground arith
contains-converge_from allow out (raw ∷ rest) s = ground (
  arith,
  contains-converge_from allow out rest s,
  contains-converge_from allow (out ++ trim raw ∷ []) rest s,
  contains-append out (trim raw ∷ []) s,
  eq_iff (trim raw) s,
)

converge_from-Distinct :
    (allow out requested : List String)
    → Distinct out
    → Distinct (converge_from allow out requested)
unfolding converge_from
converge_from-Distinct allow out [] d = d
converge_from-Distinct allow out (raw ∷ rest) d = elim (Bool-cases (contains out (trim raw))) [
  | inl seen ↦ ground (arith, seen, converge_from-Distinct allow out rest d)
  | inr fresh ↦ elim (Bool-cases (contains allow (trim raw))) [
    | inl granted ↦
        rw (fresh, granted)
          (converge_from-Distinct allow (out ++ trim raw ∷ []) rest
            (Distinct-snoc out (trim raw) d fresh))
    | inr denied ↦ rw denied (converge_from-Distinct allow out rest d)
  ]
]

-- `ConvergeScopes` gives each scope that is both requested and allowed, once the spaces around
-- them are taken off, and no other, and none of them twice.
pub converge_scopes-eq :
    (requested allowed : List String) (s : String)
    → Distinct (converge_scopes requested allowed)
      × (contains (converge_scopes requested allowed) s
          ≡ (contains (map trim requested) s && contains (map trim allowed) s))
unfolding converge_scopes
converge_scopes-eq requested allowed s = (
  converge_from-Distinct (map trim allowed) [] requested tt,
  contains-converge_from (map trim allowed) [] requested s,
)

contains-split_from :
    (out codes : List String) (s : String)
    → contains (split_from out codes) s ≡ (contains out s || contains codes s)
unfolding split_from
contains-split_from out [] s = ground arith
contains-split_from out (code ∷ rest) s = ground (
  arith,
  contains-split_from out rest s,
  contains-split_from (out ++ code ∷ []) rest s,
  contains-append out (code ∷ []) s,
  eq_iff code s,
)

split_from-Distinct : (out codes : List String) → Distinct out → Distinct (split_from out codes)
unfolding split_from
split_from-Distinct out [] d = d
split_from-Distinct out (code ∷ rest) d = elim (Bool-cases (contains out code)) [
  | inl seen ↦ rw seen (split_from-Distinct out rest d)
  | inr fresh ↦
      rw fresh (split_from-Distinct (out ++ code ∷ []) rest (Distinct-snoc out code d fresh))
]

All-of-keep_none :
    (p : String → Bool) (xs : List String)
    → is_empty (keep (λ x. not (p x)) xs) ≡ true
    → All (λ x. p x ≡ true) xs
All-of-keep_none p [] h = tt
All-of-keep_none p (x ∷ xs) h = elim (Bool-cases (p x)) [
  | inl good ↦ (good, All-of-keep_none p xs (rw good at h))
  | inr bad ↦ absurd_empty (rw bad at h)
]
  where
    absurd_empty : {A : Type 0} → false ≡ true → A
    absurd_empty h = cc

same_empty :
    (xs ys : List String)
    → ((s : String) → contains xs s ≡ contains ys s)
    → is_empty xs ≡ true
    → is_empty ys ≡ true
same_empty xs [] h e = refl
same_empty [] (y ∷ ys) h e = let here = h y in ground (arith, here, eq_refl y)
same_empty (x ∷ xs) (y ∷ ys) h e = cc

accepted :
    (named codes : List String) (s : String)
    → All (λ c. valid_scope c ≡ true) (split_from [] named)
    → (if is_empty (split_from [] named) then default_scope ∷ [] else split_from [] named) ≡ codes
    → Distinct codes
      × All (λ c. valid_scope c ≡ true) codes
      × (is_empty codes ≡ false)
      × (is_empty named ≡ true ⊎ contains codes s ≡ contains named s)
unfolding valid_scope trim
accepted named codes s valid e = elim (Bool-cases (is_empty (split_from [] named))) [
  | inl nothing ↦ rw (← (rw nothing at e)) (
    (refl, tt),
    (refl, tt),
    refl,
    inl (same_empty _ named (contains-split_from [] named) nothing),
  )
  | inr something ↦
      rw (← (rw something at e))
        (split_from-Distinct [] named tt, valid, something, inr (contains-split_from [] named s))
]

-- What `ParseScopes` accepts is not empty, has no scope twice and has only supported scopes; when
-- the request names any scope, the accepted ones are those that it names.
pub parse_scopes-accepts :
    (raw : String) (codes : List String) (s : String)
    → parse_scopes raw ≡ ok codes
    → Distinct codes
      × All (λ c. valid_scope c ≡ true) codes
      × (is_empty codes ≡ false)
      × (is_empty (fields raw) ≡ true ⊎ contains codes s ≡ contains (fields raw) s)
unfolding parse_scopes unsupported_scopes split_scopes valid_scope
parse_scopes-accepts raw codes s e =
    elim (Bool-cases
      (is_empty (keep (λ code. not (valid_scope code)) (split_from [] (fields raw))))) [
        | inl fine ↦
            accepted (fields raw) codes s
              (All-of-keep_none valid_scope (split_from [] (fields raw)) fine)
              (ok-injective _ codes (rw fine at e))
        | inr bad ↦ refused (rw bad at e)
      ]
  where
    refused : {A : Type 0} {x : Error} → err x ≡ ok codes → A
    refused h = cc
