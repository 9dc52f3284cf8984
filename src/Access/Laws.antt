-- ===== src/Access/Laws.antt =====
-- What the expanded permission set grants, and that it holds no code twice.
use metafusion_auth.Prelude.{
  String, Bool, true, false, not, ◌&&◌, ◌||◌, ◌==◌, some, List, [], ◌∷◌, ◌++◌, ◌≡◌, refl, any,
  any-append, contains, any_of_contains, Distinct, Distinct-snoc, arith, eq_iff, inl, inr,
  Bool-cases, ap, ◌∙◌, sym, ◌⊎◌,
}
use metafusion_auth.Text.{trim}
use metafusion_auth.Access.{
  Group, Expansion, everything, codes, expand_codes, expand_groups, expanded, expand_permissions,
  has_permission, can, User, is_third_party,
}

-- What one stored code grants, read by itself.
abbrev pub code_grants : String → String → Bool
code_grants code raw = let p = trim raw in p == "*" || (not (p == "") && p == code)

abbrev pub group_grants : String → Group → Bool
group_grants code g = any (code_grants code) g.permissions

star-ne-empty : (p : String) → p == "" ≡ true → p == "*" ≡ false
star-ne-empty p h = rw ((eq_iff p "").0 h)

or_assoc : (a b c : Bool) → ((a || b) || c) ≡ (a || (b || c))
or_assoc a b c = ground arith

Expansion-cases : (x : Expansion) → (x ≡ everything) ⊎ ((out : List String) × (x ≡ codes out))
Expansion-cases everything = inl refl
Expansion-cases (codes out) = inr (out, refl)

everything-ne-codes {ℓ} : {A : Type ℓ} (out : List String) → everything ≡ codes out → A
everything-ne-codes out e = cc

module _ (code : String) where
  abbrev hits : String → Bool
  hits p = p == "*" || p == code

  -- A code that is passed over adds nothing to what the gathered ones grant.
  skip_grants :
      (out : List String) (p : String)
      → (p == "" || contains out p) ≡ true
      → (any hits out || (p == "*" || (not (p == "") && p == code))) ≡ any hits out
  skip_grants out p h = ground (arith, star-ne-empty p, any_of_contains hits out p)

  add_grants :
      (p : String)
      → (p == "" || false) ≡ false
      → p == "*" ≡ false
      → hits p ≡ (p == "*" || (not (p == "") && p == code))
  add_grants p h k = ground arith

  -- What the loop has gathered grants what the codes that it has read grant.
  expand_codes_grants :
      (out out' perms : List String)
      → expand_codes out perms ≡ codes out'
      → any hits out' ≡ (any hits out || any (code_grants code) perms)
  unfolding expand_codes
  expand_codes_grants out out' [] e = let same : out ≡ out' = cc in rw (← same) (ground arith)
  expand_codes_grants out out' (raw ∷ rest) e =
      elim (Bool-cases (trim raw == "" || contains out (trim raw))) [
        | inl skipped ↦
            expand_codes_grants out out' rest (rw skipped at e)
            ∙ ap (λ b. b || any (code_grants code) rest) (sym (skip_grants out (trim raw) skipped))
            ∙ or_assoc (any hits out) (code_grants code raw) (any (code_grants code) rest)
        | inr fresh ↦ elim (Bool-cases (trim raw == "*")) [
          | inl star ↦ everything-ne-codes out' (rw (fresh, star) at e)
          | inr plain ↦
              expand_codes_grants (out ++ trim raw ∷ []) out' rest (rw (fresh, plain) at e)
              ∙ ap (λ b. b || any (code_grants code) rest) (any-append hits out (trim raw ∷ []))
              ∙ ground (arith, fresh, plain)
        ]
      ]

  expand_codes-everything :
      (out perms : List String)
      → expand_codes out perms ≡ everything
      → any (code_grants code) perms ≡ true
  unfolding expand_codes
  expand_codes-everything out [] e = cc
  expand_codes-everything out (raw ∷ rest) e =
      elim (Bool-cases (trim raw == "" || contains out (trim raw))) [
        | inl skipped ↦ ground (arith, expand_codes-everything out rest (rw skipped at e))
        | inr fresh ↦ elim (Bool-cases (trim raw == "*")) [
          | inl star ↦ rw star
          | inr plain ↦
              ground (
                arith,
                expand_codes-everything (out ++ trim raw ∷ []) rest (rw (fresh, plain) at e),
              )
        ]
      ]

  expand_groups_grants :
      (out : List String) (gs : List Group)
      → any hits (expanded (expand_groups out gs)) ≡ (any hits out || any (group_grants code) gs)
  unfolding expand_groups
  expand_groups_grants out [] = ground arith
  expand_groups_grants out (g ∷ gs) = elim (Expansion-cases (expand_codes out g.permissions)) [
    | inl all ↦
        rw (all, expand_groups) (ground (arith, expand_codes-everything out g.permissions all))
    | inr (out', gathered) ↦
        rw (gathered, expand_groups)
          (expand_groups_grants out' gs
            ∙ ap (λ b. b || any (group_grants code) gs)
                (expand_codes_grants out out' g.permissions gathered)
            ∙ or_assoc (any hits out) (group_grants code g) (any (group_grants code) gs))
  ]

-- The expanded set grants a code exactly when some group holds, up to space around it, the
-- wildcard or that code; an empty entry grants nothing.
pub has_permission-expand_permissions :
    (gs : List Group) (code : String)
    → has_permission (expand_permissions gs) code ≡ any (group_grants code) gs
unfolding has_permission expand_permissions
has_permission-expand_permissions gs code = expand_groups_grants code [] gs

expand_codes-Distinct :
    (out out' perms : List String)
    → expand_codes out perms ≡ codes out'
    → Distinct out × (contains out "*" ≡ false)
    → Distinct out' × (contains out' "*" ≡ false)
unfolding expand_codes
expand_codes-Distinct out out' [] e h = let same : out ≡ out' = cc in rw (← same) h
expand_codes-Distinct out out' (raw ∷ rest) e (d, bare) =
    elim (Bool-cases (trim raw == "" || contains out (trim raw))) [
      | inl skipped ↦ expand_codes-Distinct out out' rest (rw skipped at e) (d, bare)
      | inr fresh ↦ elim (Bool-cases (trim raw == "*")) [
        | inl star ↦ everything-ne-codes out' (rw (fresh, star) at e)
        | inr plain ↦
            expand_codes-Distinct (out ++ trim raw ∷ []) out' rest (rw (fresh, plain) at e) (
              Distinct-snoc out (trim raw) d (ground arith),
              ground (arith, any-append (λ x. x == "*") out (trim raw ∷ [])),
            )
      ]
    ]

-- A set of codes as the tokens carry it: no code twice, and the wildcard alone.
abbrev pub IsPermissionSet : List String → Type 0
IsPermissionSet perms = Distinct perms × ((perms ≡ "*" ∷ []) ⊎ (contains perms "*" ≡ false))

expand_groups-IsPermissionSet :
    (out : List String) (gs : List Group)
    → Distinct out
    → contains out "*" ≡ false
    → IsPermissionSet (expanded (expand_groups out gs))
unfolding expand_groups
expand_groups-IsPermissionSet out [] d bare = (d, inr bare)
expand_groups-IsPermissionSet out (g ∷ gs) d bare =
    elim (Expansion-cases (expand_codes out g.permissions)) [
      | inl all ↦ rw (all, expand_groups) ((refl, tt), inl refl)
      | inr (out', gathered) ↦
          let (d', bare') = expand_codes-Distinct out out' g.permissions gathered (d, bare) in
          rw (gathered, expand_groups) (expand_groups-IsPermissionSet out' gs d' bare')
    ]

-- The expanded set holds no code twice, and the wildcard only alone.
pub expand_permissions-IsPermissionSet : (gs : List Group) → IsPermissionSet (expand_permissions gs)
unfolding expand_permissions
expand_permissions-IsPermissionSet gs = expand_groups-IsPermissionSet [] gs tt refl

-- A third-party token authorises nothing, whatever its owner may do.
pub can-third_party :
    (u : User) (code : String) → is_third_party u ≡ true → can (some u) code ≡ false
unfolding can
can-third_party u code h = ground arith
