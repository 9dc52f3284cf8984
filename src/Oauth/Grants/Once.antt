-- ===== src/Oauth/Grants/Once.antt =====
-- That a code is exchanged once, whatever happens between two attempts.
use metafusion_auth.Prelude.{
  any_of_find, ℕ, ◌+◌, ◌≤◌, String, Bool, true, false, not, ◌&&◌, ◌==◌, List, [], ◌∷◌, ◌≡◌, refl,
  any, count, keep, update_where, is_ok, Result-cases, Bool-cases, inl, inr, eq_iff, arith,
  any-append, reject_if-passes, forbidden,
}
use metafusion_auth.Text.{trim}
use metafusion_auth.Database.{CodeRow}
use metafusion_auth.Accounts.Bans.{Server, set_user_banned}
use metafusion_auth.Accounts.BanLaws.{set_user_banned-passes}
use metafusion_auth.Oauth.Clients.{can_manage_oauth}
use metafusion_auth.Oauth.Clients.Manage.{
  create_oauth_client, update_oauth_client, rotate_oauth_client_secret, delete_oauth_client,
  no_check,
}
use metafusion_auth.Oauth.Codes.{create_oauth_code, has_code_text}
use metafusion_auth.Oauth.Exchange.{is_redeemable, check_exchange}
use metafusion_auth.Oauth.Revoke.{
  revoke_by_client, revoke_by_user, revoke_own_grant, client_id, user_id,
}
use metafusion_auth.Pat.Plaintext.{prepend}
use metafusion_auth.Oauth.Grants.{
  GrantEvent, create_code, exchange, end_client, end_user, end_own, new_client, edit_client, rotate,
  delete, ban, settled-keeps, settled_db-keeps, Setting, apply_grant_event, exchange_with,
  run_grants,
}
use metafusion_auth.Oauth.Grants.Steps.{
  CodeStep, stay, drop, spend, create_oauth_code-Issued, create_client-codes, update_client-codes,
  rotate_client-codes, delete_client-codes, revoke_oauth_tokens-codes, revoke_own_grant-codes,
  write_ban-codes,
}
use metafusion_auth.Oauth.Grants.Redeem.{check_exchange-Checked, exchange-codes, exchange-refused}

-- A row that can still be spent.
abbrev unspent : String → CodeRow → Bool
unspent c r = r.code == c && not r.used

-- No code of this text can be spent.
abbrev pub IsSpent : String → List CodeRow → Type 0
IsSpent c rows = any (unspent c) rows ≡ false

IsSpent-keep :
    (c : String) (q : CodeRow → Bool) (rows : List CodeRow)
    → IsSpent c rows
    → IsSpent c (keep q rows)
IsSpent-keep c q [] h = refl
IsSpent-keep c q (r ∷ rows) h = ground (arith, IsSpent-keep c q rows)

IsSpent-update_where :
    (c : String) (p : CodeRow → Bool) (rows : List CodeRow)
    → IsSpent c rows
    → IsSpent c (update_where p (λ (r : CodeRow). record r { used = true }) rows)
IsSpent-update_where c p [] h = refl
IsSpent-update_where c p (r ∷ rows) h = ground (arith, IsSpent-update_where c p rows)

IsSpent-step :
    {rows rows' : List CodeRow} (c : String)
    → CodeStep rows rows'
    → IsSpent c rows
    → IsSpent c rows'
IsSpent-step c stay h = h
IsSpent-step {rows} c (drop q) h = IsSpent-keep c q rows h
IsSpent-step {rows} c (spend p) h = IsSpent-update_where c p rows h

absent :
    (rows : List CodeRow) (now : ℕ) (c client : String)
    → count (has_code_text c) rows ≤ 0
    → IsSpent c rows × (any (is_redeemable now c client) rows ≡ false)
absent [] now c client h = (refl, refl)
absent (r ∷ rows) now c client h = ground (arith, absent rows now c client)

-- The mark of a code that the primary key keeps unique.
IsSpent-mark :
    (rows : List CodeRow) (now : ℕ) (c client : String)
    → count (has_code_text c) rows ≤ 1
    → any (is_redeemable now c client) rows ≡ true
    → IsSpent c
        (update_where (is_redeemable now c client) (λ (r : CodeRow). record r { used = true }) rows)
IsSpent-mark [] now c client h l = cc
IsSpent-mark (r ∷ rows) now c client h l = elim (Bool-cases (r.code == c)) [
  | inl same ↦
      let (spent, gone) = absent rows now c client (ground arith) in
      let rest = IsSpent-update_where c (is_redeemable now c client) rows spent in
      let here : is_redeemable now c client r ≡ true = ground arith in
      rw (here, rest) (ground arith)
  | inr other ↦
      let rest = IsSpent-mark rows now c client (ground arith) (ground arith) in
      ground (arith, other, rest)
]

-- Whether an event issues a code of this text.
abbrev pub issues_code : String → GrantEvent → Bool
issues_code c (create_code code client user uri scope challenge method) = code == c
issues_code c (exchange jti client secret code uri verifier) = false
issues_code c (end_client id actor) = false
issues_code c (end_user id actor) = false
issues_code c (end_own user client) = false
issues_code c (new_client generated secret input actor) = false
issues_code c (edit_client id input actor) = false
issues_code c (rotate id secret actor) = false
issues_code c (delete id actor) = false
issues_code c (ban id banned actor) = false

not_redeemable :
    (rows : List CodeRow) (now : ℕ) (c client : String)
    → IsSpent c rows
    → any (is_redeemable now c client) rows ≡ false
not_redeemable [] now c client h = refl
not_redeemable (r ∷ rows) now c client h = ground (arith, h, not_redeemable rows now c client)

module _ (g : Setting) where
  -- Every event but the issue of a code of this text keeps it spent.
  apply_grant_event-IsSpent :
      (s : Server) (now : ℕ) (c : String) (e : GrantEvent)
      → issues_code c e ≡ false
      → IsSpent c s.db.codes
      → IsSpent c (apply_grant_event g s now e).db.codes
  unfolding apply_grant_event exchange_with revoke_by_client revoke_by_user create_oauth_client
      update_oauth_client rotate_oauth_client_secret delete_oauth_client
  apply_grant_event-IsSpent s now c (create_code code client user uri scope challenge method) n h =
      settled_db-keeps (λ s. IsSpent c s.db.codes) _ s
        (create_oauth_code g.to_upper s.db now code client user uri scope challenge method) h
        λ r e.
          let issued =
            create_oauth_code-Issued g.to_upper s.db now code client user uri scope challenge method
              r e in
          rw (← issued.added) (
            ground (
              arith,
              any-append (unspent c) s.db.codes (issued.row ∷ []),
              issued.code_of,
              eq_iff code c,
              eq_iff issued.row.code c,
            ))
  apply_grant_event-IsSpent s now c (exchange jti client secret code uri verifier) n h =
      rw
        (← exchange-codes g.is_password g.sha256_base64 g.sha256_hex g.codec s now jti client secret
          code uri verifier)
        (elim (Bool-cases (
          is_ok (
            check_exchange g.is_password g.sha256_base64 s.db now client secret code uri
              verifier))) [
                | inl passed ↦
                    rw (passed)
                      (IsSpent-update_where c (is_redeemable now (trim code) client) s.db.codes h)
                | inr failed ↦ rw (failed) h
              ])
  apply_grant_event-IsSpent s now c (end_client id actor) n h =
      settled-keeps (λ s. IsSpent c s.db.codes) _ s (revoke_by_client s now id actor) h
        λ r e.
          IsSpent-step c
            (revoke_oauth_tokens-codes s now client_id (trim id) (trim id) "" actor r e) h
  apply_grant_event-IsSpent s now c (end_user id actor) n h =
      settled-keeps (λ s. IsSpent c s.db.codes) _ s (revoke_by_user s now id actor) h
        λ r e.
          IsSpent-step c
            (revoke_oauth_tokens-codes s now user_id (trim id) "" (prepend "user:" (trim id)) actor
              r e)
            h
  apply_grant_event-IsSpent s now c (end_own user client) n h =
      settled-keeps (λ s. IsSpent c s.db.codes) _ s (revoke_own_grant s now user client) h
        λ r e. IsSpent-step c (revoke_own_grant-codes s now user client r e) h
  apply_grant_event-IsSpent s now c (new_client generated secret input actor) n h =
      settled_db-keeps (λ s. IsSpent c s.db.codes) _ s
        (create_oauth_client g.parse_url g.bcrypt s.db now generated secret input actor) h
        λ r e.
          let (_, e1) = reject_if-passes (not (can_manage_oauth actor)) forbidden _ e in
          rw
            (← create_client-codes g.parse_url g.bcrypt s.db now generated secret input actor ""
              true r e1)
            h
  apply_grant_event-IsSpent s now c (edit_client id input actor) n h =
      settled_db-keeps (λ s. IsSpent c s.db.codes) _ s
        (update_oauth_client g.parse_url g.bcrypt s.db id input actor) h
        λ db e.
          let (_, e1) = reject_if-passes (not (can_manage_oauth actor)) forbidden _ e in
          rw
            (← update_client-codes g.parse_url g.bcrypt s.db db id input actor true
              (no_check g.parse_url g.bcrypt) e1)
            h
  apply_grant_event-IsSpent s now c (rotate id secret actor) n h =
      settled_db-keeps (λ s. IsSpent c s.db.codes) _ s
        (rotate_oauth_client_secret g.parse_url g.bcrypt s.db id secret actor) h
        λ db e.
          let (_, e1) = reject_if-passes (not (can_manage_oauth actor)) forbidden _ e in
          rw
            (← rotate_client-codes g.parse_url g.bcrypt s.db db id secret actor
              (no_check g.parse_url g.bcrypt) e1)
            h
  apply_grant_event-IsSpent s now c (delete id actor) n h =
      settled-keeps (λ s. IsSpent c s.db.codes) _ s
        (delete_oauth_client g.parse_url g.bcrypt s now id actor) h
        λ s' e.
          let (_, e1) = reject_if-passes (not (can_manage_oauth actor)) forbidden _ e in
          rw
            (← delete_client-codes g.parse_url g.bcrypt s s' now id actor
              (no_check g.parse_url g.bcrypt) e1)
            (IsSpent-keep c _ s.db.codes h)
  apply_grant_event-IsSpent s now c (ban id banned actor) n h =
      settled-keeps (λ s. IsSpent c s.db.codes) _ s (set_user_banned s id banned actor now) h
        λ s' e.
          let (_, _, tables, _) = set_user_banned-passes s s' id banned actor now e in
          rw (← tables) (IsSpent-step c (write_ban-codes s.db (trim id) banned now) h)

  run_grants-IsSpent :
      (s : Server) (now : ℕ) (c : String) (events : List (ℕ × GrantEvent))
      → any (λ (e : ℕ × GrantEvent). issues_code c e.1) events ≡ false
      → IsSpent c s.db.codes
      → IsSpent c (run_grants g s now events).db.codes
  unfolding run_grants
  run_grants-IsSpent s now c [] n h = h
  run_grants-IsSpent s now c ((elapsed, e) ∷ rest) n h =
      run_grants-IsSpent (apply_grant_event g s (now + elapsed) e) (now + elapsed) c rest
        (ground (arith, n)) (apply_grant_event-IsSpent s (now + elapsed) c e (ground (arith, n)) h)

  exchange_with-of_IsSpent :
      (s : Server) (now : ℕ) (jti client secret code uri verifier : String)
      → IsSpent (trim code) s.db.codes
      → is_ok (exchange_with g s now jti client secret code uri verifier).0 ≡ false
  unfolding exchange_with
  exchange_with-of_IsSpent s now jti client secret code uri verifier h =
      elim (Result-cases
        (check_exchange g.is_password g.sha256_base64 s.db now client secret code uri verifier)) [
          | inl (found, e) ↦
              let checked =
                check_exchange-Checked g.is_password g.sha256_base64 g.sha256_hex g.codec s.db now
                  client secret code uri verifier found e in
              let held =
                any_of_find (is_redeemable now (trim code) client) s.db.codes found.1
                  checked.redeemable in
              let gone = not_redeemable s.db.codes now (trim code) client h in cc
          | inr (x, e) ↦
              rw
                (exchange-refused g.is_password g.sha256_base64 g.sha256_hex g.codec s now jti
                  client secret code uri verifier x e)
                refl
        ]

  exchange_with-IsSpent :
      (s : Server) (now : ℕ) (jti client secret code uri verifier : String)
      → count (has_code_text (trim code)) s.db.codes ≤ 1
      → is_ok
          (check_exchange g.is_password g.sha256_base64 s.db now client secret code uri verifier)
        ≡ true
      → IsSpent (trim code) (exchange_with g s now jti client secret code uri verifier).1.db.codes
  unfolding exchange_with
  exchange_with-IsSpent s now jti client secret code uri verifier single passed =
      let redeemed : any (is_redeemable now (trim code) client) s.db.codes ≡ true =
        elim (Result-cases
          (check_exchange g.is_password g.sha256_base64 s.db now client secret code uri verifier)) [
            | inl (found, e) ↦
                let checked =
                  check_exchange-Checked g.is_password g.sha256_base64 g.sha256_hex g.codec s.db now
                    client secret code uri verifier found e in
                any_of_find (is_redeemable now (trim code) client) s.db.codes found.1
                  checked.redeemable
            | inr (x, e) ↦ cc
          ] in
      rw
        (
          ← exchange-codes g.is_password g.sha256_base64 g.sha256_hex g.codec s now jti client
              secret code uri verifier,
          passed,
        )
        (IsSpent-mark s.db.codes now (trim code) client single redeemed)

  -- A code is exchanged once. When an exchange has passed its checks, every later exchange of the same
  -- code, by any client and at any time, fails, whatever events lie between the two, unless one of
  -- them issues a code of the same text; the codes are unique before the first exchange, as their
  -- primary key has it.
  pub exchange_with_once :
      (s : Server) (now : ℕ) (jti client secret code uri verifier : String)
      (events : List (ℕ × GrantEvent)) (later : ℕ) (jti' client' secret' uri' verifier' : String)
      → count (has_code_text (trim code)) s.db.codes ≤ 1
      → is_ok
          (check_exchange g.is_password g.sha256_base64 s.db now client secret code uri verifier)
        ≡ true
      → any (λ (e : ℕ × GrantEvent). issues_code (trim code) e.1) events ≡ false
      → is_ok
          (exchange_with g
            (run_grants g (exchange_with g s now jti client secret code uri verifier).1 now events)
            later
            jti'
            client'
            secret'
            code
            uri'
            verifier').0
        ≡ false
  exchange_with_once s now jti client secret code uri verifier events later jti' client' secret'
        uri' verifier' single passed quiet =
      exchange_with-of_IsSpent _ later jti' client' secret' code uri' verifier' (
        run_grants-IsSpent _ now (trim code) events quiet
          (exchange_with-IsSpent s now jti client secret code uri verifier single passed))
