-- ===== src/Pat/ScopeLaws.antt =====
-- What the normalised scopes of a token are, and what the token authorises later.
use mathlib.Core.List.{append_assoc, append-nil}
use metafusion_auth.Prelude.{
  String, Bool, true, false, not, ◌&&◌, ◌||◌, ◌==◌, some, List, [], ◌∷◌, ◌++◌, ◌≡◌, ◌≢◌, refl, any,
  any-append, contains, contains-append, contains-of-Distinct, Distinct, Distinct-snoc, All,
  All-append, Result, ok, err, Error, arith, eq_iff, inl, inr, Bool-cases, ◌⊎◌, ◌∙◌, sym, ap,
}
use metafusion_auth.Text.{trim}
use metafusion_auth.Text.Laws.{trim_idem}
use metafusion_auth.Access.{User, valid_permission_code, can, has_permission, is_third_party}
use metafusion_auth.Pat.Scopes.{
  forbidden_scope, normalize_from, require_some, normalize_pat_scopes, effective_from,
  effective_pat_permissions,
}

-- A scope that may stand in a new token of this account.
pub record IsGrantable (actor : User) (s : String) : Type 0 where
  pub trimmed : trim s ≡ s
  pub non_empty : s == "" ≡ false
  pub valid : valid_permission_code s ≡ true
  pub allowed : forbidden_scope s ≡ false
  pub held : can (some actor) s ≡ true

-- Whether an entry of the request asks for the scope.
abbrev pub asks_for : String → String → Bool
asks_for s raw = not (trim raw == "") && trim raw == s

err-ne-ok {ℓ} : {A : Type ℓ} (e : Error) (xs : List String) → err e ≡ ok xs → A
err-ne-ok e xs h = cc

module _ (actor : User) where
  -- A round that does not fail passes the entry over, or adds a grantable scope.
  normalize_from_round :
      (out rest out' : List String) (raw : String)
      → normalize_from actor out (raw ∷ rest) ≡ ok out'
      → ((trim raw == "" || contains out (trim raw)) ≡ true)
          × (normalize_from actor out rest ≡ ok out')
        ⊎ IsGrantable actor (trim raw)
          × (contains out (trim raw) ≡ false)
          × (normalize_from actor (out ++ trim raw ∷ []) rest ≡ ok out')
  unfolding normalize_from
  normalize_from_round out rest out' raw e = elim (Bool-cases (trim raw == "")) [
    | inl blank ↦ inl (rw blank, rw blank at e)
    | inr full ↦ elim (Bool-cases (valid_permission_code (trim raw))) [
      | inr bad ↦ err-ne-ok _ out' (rw (full, bad) at e)
      | inl valid ↦ elim (Bool-cases (forbidden_scope (trim raw))) [
        | inl never ↦ err-ne-ok _ out' (rw (full, valid, never) at e)
        | inr allowed ↦ elim (Bool-cases (contains out (trim raw))) [
          | inl old ↦ inl (rw (full, old), rw (full, valid, allowed, old) at e)
          | inr fresh ↦ elim (Bool-cases (can (some actor) (trim raw))) [
            | inr lacks ↦ err-ne-ok _ out' (rw (full, valid, allowed, fresh, lacks) at e)
            | inl held ↦ inr (
              record {
                trimmed = trim_idem raw;
                non_empty = full;
                valid = valid;
                allowed = allowed;
                held = held;
              },
              fresh,
              rw (full, valid, allowed, fresh, held) at e,
            )
          ]
        ]
      ]
    ]
  ]

  -- The loop keeps a list of distinct, grantable scopes.
  normalize_from_sound :
      (out scopes out' : List String)
      → normalize_from actor out scopes ≡ ok out'
      → Distinct out
      → All (IsGrantable actor) out
      → Distinct out' × All (IsGrantable actor) out'
  unfolding normalize_from
  normalize_from_sound out [] out' e d g = let same : out ≡ out' = cc in rw (← same) (d, g)
  normalize_from_sound out (raw ∷ rest) out' e d g =
      elim (normalize_from_round out rest out' raw e) [
        | inl (_, next) ↦ normalize_from_sound out rest out' next d g
        | inr (grantable, fresh, next) ↦
            normalize_from_sound (out ++ trim raw ∷ []) rest out' next
              (Distinct-snoc out (trim raw) d fresh)
              (All-append (IsGrantable actor) out (trim raw ∷ []) g (grantable, tt))
      ]

  skip_asks :
      (out : List String) (raw s : String)
      → (trim raw == "" || contains out (trim raw)) ≡ true
      → (contains out s || asks_for s raw) ≡ contains out s
  skip_asks out raw s h = ground (arith, eq_iff (trim raw) s)

  -- Nothing that was asked for is dropped, and nothing is added.
  normalize_from_complete :
      (out scopes out' : List String) (s : String)
      → normalize_from actor out scopes ≡ ok out'
      → contains out' s ≡ (contains out s || any (asks_for s) scopes)
  unfolding normalize_from
  normalize_from_complete out [] out' s e = let same : out ≡ out' = cc in rw (← same) (ground arith)
  normalize_from_complete out (raw ∷ rest) out' s e =
      elim (normalize_from_round out rest out' raw e) [
        | inl (skipped, next) ↦
            ground
              (arith, normalize_from_complete out rest out' s next, skip_asks out raw s skipped)
        | inr (grantable, fresh, next) ↦ ground (
          arith,
          normalize_from_complete (out ++ trim raw ∷ []) rest out' s next,
          contains-append out (trim raw ∷ []) s,
          grantable.non_empty,
        )
      ]

  -- Scopes that are normalised already pass unchanged.
  normalize_from_of_grantable :
      (out scopes : List String)
      → Distinct (out ++ scopes)
      → All (IsGrantable actor) scopes
      → normalize_from actor out scopes ≡ ok (out ++ scopes)
  unfolding normalize_from
  normalize_from_of_grantable out [] d g = rw append-nil
  normalize_from_of_grantable out (s ∷ rest) d (h, g) =
      let ih : normalize_from actor (out ++ s ∷ []) rest ≡ ok ((out ++ s ∷ []) ++ rest) =
        normalize_from_of_grantable (out ++ s ∷ []) rest (rw append_assoc d) g in
      rw (
        h.trimmed,
        h.non_empty,
        h.valid,
        h.allowed,
        contains-of-Distinct out rest s d,
        h.held,
        ih,
        append_assoc,
      )

require_some-eq-ok :
    (r : Result (List String)) (out : List String)
    → require_some r ≡ ok out
    → (r ≡ ok out) × (out ≢ [])
require_some-eq-ok (ok []) out e = cc
require_some-eq-ok (ok (s ∷ xs)) out e = (e, λ h. cc)
require_some-eq-ok (err x) out e = cc

-- The scopes that a token is issued with: at least one, none twice, each of them well formed, not
-- reserved and held by the account; and they are exactly the non-blank scopes that were asked for.
pub record IsNormal (actor : User) (scopes out : List String) : Type 0 where
  pub some_scope : out ≢ []
  pub distinct : Distinct out
  pub grantable : All (IsGrantable actor) out
  pub exact : (s : String) → contains out s ≡ any (asks_for s) scopes

-- If the request is accepted, the scopes of the token are the non-blank scopes that were asked
-- for, each once, and each may be granted; otherwise the request fails as a whole.
pub normalize_pat_scopes-IsNormal :
    (actor : User) (scopes out : List String)
    → normalize_pat_scopes scopes (some actor) ≡ ok out
    → IsNormal actor scopes out
unfolding normalize_pat_scopes
normalize_pat_scopes-IsNormal actor scopes out e =
    let (run, non_empty) = require_some-eq-ok (normalize_from actor [] scopes) out e in
    let (distinct, grantable) = normalize_from_sound actor [] scopes out run tt tt in
    record {
      some_scope = non_empty;
      distinct = distinct;
      grantable = grantable;
      exact = λ s. normalize_from_complete actor [] scopes out s run;
    }

require_some-of-ne-nil : (out : List String) → out ≢ [] → require_some (ok out) ≡ ok out
require_some-of-ne-nil [] h = absurd (h refl)
require_some-of-ne-nil (s ∷ out) h = refl

-- Normalising the accepted scopes again gives the same scopes.
pub normalize_pat_scopes_idem :
    (actor : User) (scopes out : List String)
    → normalize_pat_scopes scopes (some actor) ≡ ok out
    → normalize_pat_scopes out (some actor) ≡ ok out
unfolding normalize_pat_scopes
normalize_pat_scopes_idem actor scopes out e =
    let n = normalize_pat_scopes-IsNormal actor scopes out e in
    rw (normalize_from_of_grantable actor [] out n.distinct n.grantable)
      (require_some-of-ne-nil out n.some_scope)

module _ (u : User) (code : String) where
  abbrev hits : String → Bool
  hits s = s == "*" || s == code

  abbrev pub delegates : String → Bool
  delegates s = can (some u) s && (s == "*" || s == code)

  effective_from_grants :
      (out scopes : List String)
      → any hits (effective_from u out scopes) ≡ (any hits out || any delegates scopes)
  unfolding effective_from
  effective_from_grants out [] = ground arith
  effective_from_grants out (s ∷ rest) = elim (Bool-cases (can (some u) s)) [
    | inr lacks ↦ rw lacks (effective_from_grants out rest)
    | inl held ↦ elim (Bool-cases (s == "*")) [
      | inl star ↦ rw (held, star) (ground arith)
      | inr plain ↦
          rw (held, plain)
            (effective_from_grants (out ++ s ∷ []) rest
              ∙ ap (λ b. b || any delegates rest) (any-append hits out (s ∷ []))
              ∙ ground (arith, plain))
    ]
  ]

-- A token authorises a code exactly when some scope of the token is one that the account may use
-- now, and is the wildcard or that code.
pub has_permission-effective :
    (u : User) (scopes : List String) (code : String)
    → has_permission (effective_pat_permissions u scopes) code ≡ any (delegates u code) scopes
unfolding has_permission effective_pat_permissions
has_permission-effective u scopes code = effective_from_grants u code [] scopes

-- The wildcard or a code of the account, held by it, authorises no more than the account.
any-delegated :
    (perms : List String) (s code : String)
    → (s == "*" || s == code) ≡ true
    → any (λ p. p == "*" || p == s) perms ≡ true
    → any (λ p. p == "*" || p == code) perms ≡ true
any-delegated (p ∷ perms) s code h k =
    ground (arith, any-delegated perms s code h, eq_iff p s, eq_iff s "*", eq_iff s code)
any-delegated [] s code h k = cc

can-plain :
    (u : User) (code : String)
    → code == "mcp.connect" ≡ false
    → can (some u) code ≡ (not (is_third_party u) && has_permission u.permissions code)
unfolding can
can-plain u code plain = rw plain (ground arith)

plain_of_hit :
    (s code : String)
    → code == "mcp.connect" ≡ false
    → (s == "*" || s == code) ≡ true
    → s == "mcp.connect" ≡ false
plain_of_hit s code plain h = elim (Bool-cases (s == "*")) [
  | inl star ↦ rw ((eq_iff s "*").0 star)
  | inr other ↦ rw ((eq_iff s code).0 (rw other at h)) plain
]

and_right : (a b : Bool) → (a && b) ≡ true → b ≡ true
and_right a b h = ground arith

delegates-can :
    (u : User) (code s : String)
    → code == "mcp.connect" ≡ false
    → delegates u code s ≡ true
    → can (some u) code ≡ true
unfolding has_permission
delegates-can u code s plain h =
    let hit : (s == "*" || s == code) ≡ true = and_right (can (some u) s) _ h in
    let held : can (some u) s ≡ true = ground arith in
    let held' : (not (is_third_party u) && has_permission u.permissions s) ≡ true =
      sym (can-plain u s (plain_of_hit s code plain hit)) ∙ held in
    rw (can-plain u code plain) (ground (arith, any-delegated u.permissions s code hit))

any-delegates-can :
    (u : User) (code : String) (scopes : List String)
    → code == "mcp.connect" ≡ false
    → any (delegates u code) scopes ≡ true
    → can (some u) code ≡ true
any-delegates-can u code (s ∷ scopes) plain h =
    ground (arith, any-delegates-can u code scopes plain, delegates-can u code s plain)
any-delegates-can u code [] plain h = cc

-- Whatever the scopes of a token, the business codes that it authorises are among those that its
-- account may use now. (The connection code `mcp.connect` is no business code.)
pub effective-can :
    (u : User) (scopes : List String) (code : String)
    → code == "mcp.connect" ≡ false
    → has_permission (effective_pat_permissions u scopes) code ≡ true
    → can (some u) code ≡ true
effective-can u scopes code plain h =
    any-delegates-can u code scopes plain (sym (has_permission-effective u scopes code) ∙ h)
