-- ===== src/Token/Final.antt =====
-- A token that was revoked never verifies again.
use metafusion_auth.Prelude.{
  ℕ, ◌+◌, ◌≤◌, ◌<◌, String, true, false, not, ◌||◌, ◌==◌, List, [], ◌∷◌, ◌≡◌, refl, sym, ◌∙◌, keep,
  contains, leb, nat_eq, Result, ok, err, arith, eq_iff, eq_refl, Bool-cases, inl, inr, All,
  >>=-eq-ok, token_revoked, reject_if-passes, ok-injective, Result-cases, is_ok, bad_token_use,
  token_expired, bad_issuer, bad_audience, missing_subject, token_issuer_unavailable,
}
use metafusion_auth.Access.{User}
use metafusion_auth.Token.{
  valid_token_use, Claims, Codec, TokenIssuer, Revocation, unix, is_revoked, purge, check_claims,
  read_token, judge, after_verify, verify, revoke, revoke_token, sign_for_audience,
}

purge-is_revoked :
    (revoked : List Revocation) (n m : ℕ) (jti : String)
    → n ≤ m
    → is_revoked revoked m jti ≡ true
    → is_revoked (purge n revoked) m jti ≡ true
purge-is_revoked [] n m jti le h = cc
purge-is_revoked (r ∷ rs) n m jti le h = ground (arith, purge-is_revoked rs n m jti le)

others-is_revoked :
    (revoked : List Revocation) (other : String) (m : ℕ) (jti : String)
    → (other == jti) ≡ false
    → is_revoked revoked m jti ≡ true
    → is_revoked (keep (λ (r : Revocation). not (r.jti == other)) revoked) m jti ≡ true
others-is_revoked [] other m jti ne h = cc
others-is_revoked (r ∷ rs) other m jti ne h = ground (
  arith,
  others-is_revoked rs other m jti ne,
  eq_iff r.jti other,
  eq_iff r.jti jti,
  eq_iff other jti,
)

-- From a second on, the token id counts as revoked until the expiry.
record IsBarred (jti : String) (expiry n : ℕ) (t : TokenIssuer) : Type 0 where
  held : (m : ℕ) → n ≤ m → m < expiry → is_revoked t.revoked m jti ≡ true

revoke-IsBarred :
    (t : TokenIssuer) (jti other : String) (expiry e n : ℕ)
    → (other ≡ jti → expiry ≤ e)
    → IsBarred jti expiry n t
    → IsBarred jti expiry n (revoke t other e)
unfolding revoke
revoke-IsBarred t jti other expiry e n later b = elim (Bool-cases (other == "")) [
  | inl blank ↦ rw blank b
  | inr named ↦ elim (Bool-cases (other == jti)) [
    | inl same ↦
        rw named (record { held = λ m le lt. ground (arith, same, later, eq_iff other jti) })
    | inr ne ↦ rw named (record {
      held = λ m le lt.
          ground (arith, ne, others-is_revoked t.revoked other m jti ne (b.held m le lt));
    })
  ]
]

-- The new entry bars the token id.
revoke_self :
    (t : TokenIssuer) (jti : String) (expiry n : ℕ)
    → (jti == "") ≡ false
    → IsBarred jti expiry n (revoke t jti expiry)
unfolding revoke
revoke_self t jti expiry n named =
    rw named (record { held = λ m le lt. ground (arith, eq_refl jti) })

after_verify-IsBarred :
    (t : TokenIssuer) (jti : String) (expiry n n' : ℕ) (verdict : Result Claims)
    → n ≤ n'
    → IsBarred jti expiry n t
    → IsBarred jti expiry n' (after_verify t n' verdict)
after_verify-IsBarred t jti expiry n n' (err e) le b = record {
  held = λ m le' lt. b.held m (omega (arith, le, le')) lt;
}
after_verify-IsBarred t jti expiry n n' (ok c) le b = record {
  held = λ m le' lt. purge-is_revoked t.revoked n' m jti le' (b.held m (omega (arith, le, le')) lt);
}

-- What the server does with its issuer.
pub data TokenEvent : Type 0 where
  check revoke_text : (token : String) → TokenEvent
  revoke_id : (jti : String) → (expires : ℕ) → TokenEvent
  sign_for : (jti : String) → User → (audience : String) → TokenEvent

-- A revocation in the history that names the same token id does not expire sooner.
abbrev pub Respects : Codec → String → ℕ → TokenEvent → Type 0
Respects codec jti expiry (check token) = Unit
Respects codec jti expiry (revoke_text token) =
    (c : Claims) → read_token codec token ≡ ok c → c.jti ≡ jti → expiry ≤ c.expires
Respects codec jti expiry (revoke_id other e) = other ≡ jti → expiry ≤ e
Respects codec jti expiry (sign_for other u audience) = Unit

-- The time at which a history ends.
abbrev pub token_clock : ℕ → List (ℕ × TokenEvent) → ℕ
token_clock now [] = now
token_clock now ((elapsed, e) ∷ rest) = token_clock (now + elapsed) rest

later_second : (now elapsed : ℕ) → unix now ≤ unix (now + elapsed)
later_second now elapsed = omega arith

IsBarred-later :
    (t : TokenIssuer) (jti : String) (expiry now elapsed : ℕ)
    → IsBarred jti expiry (unix now) t
    → IsBarred jti expiry (unix (now + elapsed)) t
IsBarred-later t jti expiry now elapsed b = record {
  held = λ m le lt. b.held m (omega (arith, le)) lt;
}

module _ (codec : Codec) where
  unfoldable pub apply_token_event : TokenIssuer → ℕ → TokenEvent → TokenIssuer
  unfolding verify revoke_token revoke sign_for_audience
  apply_token_event t now (check token) = (verify codec t now token).1
  apply_token_event t now (revoke_text token) = revoke_token codec t now token
  apply_token_event t now (revoke_id jti e) = revoke t jti e
  apply_token_event t now (sign_for jti u audience) =
      (sign_for_audience codec t now jti u audience).1

  -- A history: each event with the time that passed before it.
  unfoldable pub run_tokens : TokenIssuer → ℕ → List (ℕ × TokenEvent) → TokenIssuer
  unfolding apply_token_event
  run_tokens t now [] = t
  run_tokens t now ((elapsed, e) ∷ rest) =
      run_tokens (apply_token_event t (now + elapsed) e) (now + elapsed) rest

  check_claims-passes :
      (t : TokenIssuer) (n : ℕ) (c c' : Claims)
      → check_claims t n c ≡ ok c'
      → (c ≡ c') × (n < c.expires) × (is_revoked t.revoked n c.jti ≡ false)
  unfolding check_claims
  check_claims-passes t n c c' e =
      let (_, e1) = reject_if-passes (not (valid_token_use c.token_use)) bad_token_use _ e in
      let (fresh, e2) =
        reject_if-passes (nat_eq c.expires 0 || leb c.expires n) token_expired _ e1 in
      let (_, e3) = reject_if-passes (not (c.issuer == t.issuer)) bad_issuer _ e2 in
      let (_, e4) = reject_if-passes (not (contains t.audiences c.audience)) bad_audience _ e3 in
      let (_, e5) = reject_if-passes (c.subject == "") missing_subject _ e4 in
      let (clear, e6) = reject_if-passes (is_revoked t.revoked n c.jti) token_revoked _ e5 in
      (ok-injective c c' e6, ground (arith, fresh), clear)

  judge-passes :
      (t : TokenIssuer) (now : ℕ) (token : String) (c : Claims)
      → judge codec t now token ≡ ok c
      → (read_token codec token ≡ ok c)
        × (unix now < c.expires)
        × (is_revoked t.revoked (unix now) c.jti ≡ false)
  unfolding judge
  judge-passes t now token c e =
      let (_, e1) = reject_if-passes (not t.has_key) token_issuer_unavailable _ e in
      let (c', read, e2) =
        >>=-eq-ok (read_token codec token) (λ c. check_claims t (unix now) c) e1 in
      let (same, fresh, clear) = check_claims-passes t (unix now) c' c e2 in
      rw (← same) (read, fresh, clear)

  sign_for_audience-IsBarred :
      (t : TokenIssuer) (jti : String) (expiry now : ℕ) (other : String) (u : User)
      (audience : String)
      → IsBarred jti expiry (unix now) t
      → IsBarred jti expiry (unix now) (sign_for_audience codec t now other u audience).1
  unfolding sign_for_audience
  sign_for_audience-IsBarred t jti expiry now other u audience b =
      elim (Bool-cases (audience == "")) [
        | inl blank ↦ rw blank b
        | inr named ↦ rw named (record { held = b.held })
      ]

  event-IsBarred :
      (t : TokenIssuer) (jti : String) (expiry now elapsed : ℕ) (event : TokenEvent)
      → Respects codec jti expiry event
      → IsBarred jti expiry (unix now) t
      → IsBarred jti expiry (unix (now + elapsed)) (apply_token_event t (now + elapsed) event)
  unfolding apply_token_event verify revoke_token
  event-IsBarred t jti expiry now elapsed (check token) h b =
      after_verify-IsBarred t jti expiry (unix now) _ (judge codec t (now + elapsed) token)
        (later_second now elapsed) b
  event-IsBarred t jti expiry now elapsed (revoke_text token) h b =
      let kept =
        after_verify-IsBarred t jti expiry (unix now) _ (judge codec t (now + elapsed) token)
          (later_second now elapsed) b in
      elim (Result-cases (judge codec t (now + elapsed) token)) [
        | inl (c, e) ↦ rw e (
            revoke-IsBarred _ jti c.jti expiry c.expires _
              (h c (judge-passes t (now + elapsed) token c e).0) (rw e at kept))
        | inr (x, e) ↦ rw e (rw e at kept)
      ]
  event-IsBarred t jti expiry now elapsed (revoke_id other e) h b =
      revoke-IsBarred t jti other expiry e _ h (IsBarred-later t jti expiry now elapsed b)
  event-IsBarred t jti expiry now elapsed (sign_for other u audience) h b =
      sign_for_audience-IsBarred t jti expiry (now + elapsed) other u audience
        (IsBarred-later t jti expiry now elapsed b)

  run_tokens-IsBarred :
      (history : List (ℕ × TokenEvent)) (t : TokenIssuer) (jti : String) (expiry now : ℕ)
      → All (λ e. Respects codec jti expiry e.1) history
      → IsBarred jti expiry (unix now) t
      → IsBarred jti expiry (unix (token_clock now history)) (run_tokens t now history)
  unfolding run_tokens
  run_tokens-IsBarred [] t jti expiry now h b = b
  run_tokens-IsBarred ((elapsed, e) ∷ rest) t jti expiry now (h, hs) b =
      run_tokens-IsBarred rest _ jti expiry (now + elapsed) hs
        (event-IsBarred t jti expiry now elapsed e h b)

  barred-refuses :
      (t : TokenIssuer) (now : ℕ) (token : String) (c : Claims)
      → IsBarred c.jti c.expires (unix now) t
      → read_token codec token ≡ ok c
      → is_ok (judge codec t now token) ≡ false
  barred-refuses t now token c b read = elim (Result-cases (judge codec t now token)) [
    | inr (x, e) ↦ rw e refl
    | inl (c', e) ↦
        let (read', fresh, clear) = judge-passes t now token c' e in
        let same = ok-injective c c' (sym read ∙ read') in
        let fresh_c : unix now < c.expires = rw same fresh in
        let clear_c : is_revoked t.revoked (unix now) c.jti ≡ false = rw same clear in
        let held = b.held (unix now) (omega arith) fresh_c in absurd_bool (sym held ∙ clear_c)
  ]
    where
      absurd_bool : {A : Type 0} → true ≡ false → A
      absurd_bool h = cc

  -- A token that verifies and has a token id is refused at every later time, once `RevokeToken`
  -- has been called with it, whatever the issuer verifies, signs or revokes in between; provided
  -- that no revocation in between names the same token id with an earlier expiry.
  pub verify-revoke_token :
      (t : TokenIssuer) (now : ℕ) (token : String) (c : Claims) (history : List (ℕ × TokenEvent))
      → (verify codec t now token).0 ≡ ok c
      → (c.jti == "") ≡ false
      → All (λ e. Respects codec c.jti c.expires e.1) history
      → is_ok
          (verify codec
            (run_tokens (revoke_token codec t now token) now history)
            (token_clock now history)
            token).0
        ≡ false
  unfolding verify revoke_token
  verify-revoke_token t now token c history e named respects =
      let (read, _, _) = judge-passes t now token c e in
      let barred =
        run_tokens-IsBarred history (revoke_token codec t now token) c.jti c.expires now respects
          (rw e (revoke_self _ c.jti c.expires (unix now) named)) in
      barred-refuses (run_tokens (revoke_token codec t now token) now history)
        (token_clock now history) token c barred read
