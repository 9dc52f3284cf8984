-- ===== src/Oauth/Grants/Scope.antt =====
-- The scopes that a grant shows.
use metafusion_auth.Prelude.{
  find, keep, any, ◌++◌, some, ok, false, ℕ, String, Bool, true, ◌&&◌, ◌==◌, List, [], ◌∷◌, ◌≡◌,
  refl, sym, ap, ◌∙◌, map, contains, All, Distinct, All-of-contains, Bool-cases, inl, inr, eq_iff,
  arith,
}
use metafusion_auth.Text.{trim}
use metafusion_auth.Database.{Database, ClientRow, CodeRow}
use metafusion_auth.Token.{Codec}
use metafusion_auth.Accounts.Bans.{Server}
use metafusion_auth.Oauth.Scopes.{
  parse_scopes, supported_scopes, valid_scope, supported_subset, split_scopes, converge_scopes,
  format_scopes,
}
use metafusion_auth.Oauth.Scopes.Laws.{converge_scopes-eq, parse_scopes-accepts}
use metafusion_auth.Oauth.Scopes.RoundTrip.{is_word, split_scopes-format_scopes}
use metafusion_auth.Oauth.Exchange.{OauthGrant, granted_now, is_redeemable, exchange_oauth_code}
use metafusion_auth.Oauth.Grants.Steps.{Issued, create_oauth_code-Issued}
use metafusion_auth.Oauth.Grants.Outcomes.{exchange_oauth_code-Checked}
use metafusion_auth.Oauth.Codes.{create_oauth_code, has_code_text}
use metafusion_auth.Oauth.Clients.Manage.{get_oauth_client}
use metafusion_auth.Oauth.Grants.Redeem.{Granted}

IsSupported : String → Type 0
IsSupported w = contains supported_scopes w ≡ true

-- A supported scope is one of three texts.
supported_word : (w : String) → IsSupported w → (is_word w ≡ true) × (trim w ≡ w)
unfolding IsSupported trim
supported_word w h = elim (Bool-cases ("openid" == w)) [
  | inl a ↦ rw (← (eq_iff "openid" w).0 a) (refl, refl)
  | inr a ↦ elim (Bool-cases ("profile" == w)) [
    | inl b ↦ rw (← (eq_iff "profile" w).0 b) (refl, refl)
    | inr b ↦ rw (← (eq_iff "email" w).0 (ground (arith, h, a, b))) (refl, refl)
  ]
]

words_of_supported : (ws : List String) → All IsSupported ws → All (λ w. is_word w ≡ true) ws
words_of_supported [] h = tt
words_of_supported (w ∷ ws) (p, h) = ((supported_word w p).0, words_of_supported ws h)

map-trim : (ws : List String) → All IsSupported ws → map trim ws ≡ ws
map-trim [] h = refl
map-trim (w ∷ ws) (p, h) = rw ((supported_word w p).1, map-trim ws h) refl

supported_subset-All : (ws : List String) → All IsSupported ws → supported_subset ws ≡ ws
unfolding supported_subset valid_scope IsSupported
supported_subset-All [] h = refl
supported_subset-All (w ∷ ws) (p, h) =
    rw ((supported_word w p).1, p, supported_subset-All ws h) refl

trimmed_scope :
    (ws : List String) (s : String)
    → All (λ c. valid_scope c ≡ true) ws
    → contains (map trim ws) s ≡ true
    → IsSupported s
unfolding valid_scope IsSupported
trimmed_scope [] s h e = cc
trimmed_scope (w ∷ ws) s (p, h) e = elim (Bool-cases (trim w == s)) [
  | inl here ↦ rw (← (eq_iff (trim w) s).0 here) p
  | inr there ↦ trimmed_scope ws s h (rw there at e)
]

-- What `ConvergeScopes` keeps of supported scopes survives being written and read.
record Kept (ws : List String) : Type 0 where
  supported : All IsSupported ws
  distinct : Distinct ws
  reread : split_scopes (format_scopes ws) ≡ ws

converge_scopes-Kept :
    (requested allowed : List String)
    → All (λ c. valid_scope c ≡ true) requested
    → Kept (converge_scopes requested allowed)
converge_scopes-Kept requested allowed valid =
    let supported = All-of-contains IsSupported (converge_scopes requested allowed) λ s e.
      trimmed_scope requested s valid
        (let (_, kept) = converge_scopes-eq requested allowed s in ground (arith, e, kept)) in
    let (distinct, _) = converge_scopes-eq requested allowed "" in
    record {
      supported = supported;
      distinct = distinct;
      reread = split_scopes-format_scopes _ (words_of_supported _ supported) distinct;
    }

valid_of_supported : (ws : List String) → All IsSupported ws → All (λ c. valid_scope c ≡ true) ws
unfolding valid_scope IsSupported
valid_of_supported [] h = tt
valid_of_supported (w ∷ ws) (p, h) = (rw ((supported_word w p).1) p, valid_of_supported ws h)

Kept-Issued :
    {db db' : Database} {now : ℕ}
    {code client_id user_id uri requested_scope challenge method shown : String}
    (issued : Issued db now code client_id user_id uri requested_scope challenge method db' shown)
    → Kept (converge_scopes issued.requested issued.client.scopes)
Kept-Issued {requested_scope} issued =
    let (_, valid, _, _) = parse_scopes-accepts requested_scope issued.requested "" issued.parsed in
    converge_scopes-Kept issued.requested issued.client.scopes valid

-- The scopes of a code at its exchange: those of its issue, converged with the client's again.
pub granted_now-Issued :
    {db db' : Database} {now : ℕ}
    {code client_id user_id uri requested_scope challenge method shown : String}
    (issued : Issued db now code client_id user_id uri requested_scope challenge method db' shown)
    (client : ClientRow)
    → (granted_now client issued.row
        ≡ converge_scopes (converge_scopes issued.requested issued.client.scopes) client.scopes)
      × (map trim (converge_scopes issued.requested issued.client.scopes)
          ≡ converge_scopes issued.requested issued.client.scopes)
unfolding granted_now
granted_now-Issued issued client =
    let first = Kept-Issued issued in
    let read : split_scopes issued.row.scope
        ≡ converge_scopes issued.requested issued.client.scopes =
      ap split_scopes (issued.scope_of ∙ sym issued.scope_shown) ∙ first.reread in
    (rw (read, supported_subset-All _ first.supported) refl, map-trim _ first.supported)

scopes_of_grant :
    {is_password : (stored password : String) → Bool} {sha256_base64 sha256_hex : String → String}
    {codec : Codec} {db db' : Database} {now later : ℕ}
    {code client_id user_id uri requested_scope challenge method shown : String} {s s' : Server}
    {jti : String} {client : ClientRow} {grant : OauthGrant}
    (issued : Issued db now code client_id user_id uri requested_scope challenge method db' shown)
    (row : CodeRow) (same : issued.row ≡ row)
    (granted : Granted is_password sha256_base64 sha256_hex codec s s' later client_id jti client
      row grant)
    (scope : String)
    → contains (split_scopes grant.scope) scope ≡ (
        contains (map trim issued.requested) scope
        && (contains (map trim issued.client.scopes) scope
            && contains (map trim client.scopes) scope))
scopes_of_grant {client} {grant} issued row same granted scope =
    let first = Kept-Issued issued in
    let second =
      converge_scopes-Kept (converge_scopes issued.requested issued.client.scopes) client.scopes
        (valid_of_supported _ first.supported) in
    let (now_granted, trimmed) = granted_now-Issued issued client in
    let shown_scopes : split_scopes grant.scope
        ≡ converge_scopes (converge_scopes issued.requested issued.client.scopes) client.scopes =
      ap split_scopes (
        sym granted.scope_of
        ∙ ap (λ row. format_scopes (granted_now client row)) (sym same)
        ∙ ap format_scopes now_granted)
      ∙ second.reread in
    let (_, at_issue) = converge_scopes-eq issued.requested issued.client.scopes scope in
    let (_, at_exchange) =
      converge_scopes-eq (converge_scopes issued.requested issued.client.scopes) client.scopes
        scope in
    rw (shown_scopes, at_exchange, trimmed, at_issue) (ground arith)

-- Among the rows of a code that were there when it was issued, only the issued one can be found.
found_issued :
    (rows : List CodeRow) (row found : CodeRow) (now : ℕ) (code client : String)
    → any (has_code_text code) rows ≡ false
    → find (is_redeemable now code client) (rows ++ row ∷ []) ≡ some found
    → row ≡ found
found_issued [] row found now code client fresh e =
    elim (Bool-cases (is_redeemable now code client row)) [
      | inl live ↦ let first : some row ≡ some found = rw live at e in cc
      | inr over ↦ let failed = rw over at e in cc
    ]
found_issued (r ∷ rows) row found now code client fresh e =
    let skipped : is_redeemable now code client r ≡ false = ground (arith, fresh) in
    found_issued rows row found now code client (ground (arith, fresh)) (rw skipped at e)

-- What is found among the entries that are kept is found among all of them.
find-keep {ℓ} :
    {A : Type ℓ} (p q : A → Bool) (xs : List A)
    → ((x : A) → q x ≡ false → p x ≡ false)
    → find p (keep q xs) ≡ find p xs
find-keep p q [] h = refl
find-keep p q (x ∷ xs) h = elim (Bool-cases (q x)) [
  | inl kept ↦ rw (kept, find-keep p q xs h) refl
  | inr gone ↦ rw (gone, h x gone) (find-keep p q xs h)
]

other_code :
    (now : ℕ) (code client : String) (r : CodeRow)
    → has_code_text code r ≡ false
    → is_redeemable now code client r ≡ false
other_code now code client r h = ground (arith, h)

-- The scopes of a grant are those that were requested, that the client might ask for when the code
-- was issued and that it may ask for at the exchange: a scope that is taken from the client in
-- between is not granted, and one that is given to it is not either. Whatever else has changed since
-- the issue, the rows of this code are as the issue left them.
pub granted_scopes-eq :
    (is_password : (stored password : String) → Bool) (sha256_base64 sha256_hex : String → String)
    (codec : Codec) (to_upper : String → String) (db : Database) (now : ℕ)
    (code client_id user_id uri requested_scope challenge method : String) (r : Database × String)
    (requested : List String) (before after : ClientRow) (s : Server) (later : ℕ)
    (jti secret uri' verifier : String) (grant : OauthGrant) (scope : String)
    → create_oauth_code to_upper db now code client_id user_id uri requested_scope challenge method
      ≡ ok r
    → parse_scopes requested_scope ≡ ok requested
    → get_oauth_client db client_id ≡ some before
    → keep (has_code_text code) s.db.codes ≡ keep (has_code_text code) r.0.codes
    → get_oauth_client s.db client_id ≡ some after
    → trim code ≡ code
    → (exchange_oauth_code is_password sha256_base64 sha256_hex codec s later jti client_id secret
        code uri' verifier).0
      ≡ ok grant
    → contains (split_scopes grant.scope) scope ≡ (
        contains (map trim requested) scope
        && (contains (map trim before.scopes) scope && contains (map trim after.scopes) scope))
granted_scopes-eq is_password sha256_base64 sha256_hex codec to_upper db now code client_id user_id
      uri requested_scope challenge method r requested before after s later jti secret uri' verifier
      grant scope e parsed found_before kept found_after whole exchanged =
    let issued =
      create_oauth_code-Issued to_upper db now code client_id user_id uri requested_scope challenge
        method r e in
    let same_request : issued.requested ≡ requested = (let p = issued.parsed in cc) in
    let same_before : issued.client ≡ before = (let p = issued.found in cc) in
    let (client, row, checked, granted) =
      exchange_oauth_code-Checked is_password sha256_base64 sha256_hex codec s later jti client_id
        secret code uri' verifier grant exchanged in
    let same_after : client ≡ after = (let p = checked.registered in cc) in
    let live : find (is_redeemable later code client_id) s.db.codes ≡ some row =
      rw (whole) at checked.redeemable in
    let added : db.codes ++ issued.row ∷ [] ≡ r.0.codes =
      ap (λ (db : Database). db.codes) issued.added in
    let here : find (is_redeemable later code client_id) (db.codes ++ issued.row ∷ []) ≡ some row =
      ap (find (is_redeemable later code client_id)) added
      ∙ sym (
          find-keep (is_redeemable later code client_id) (has_code_text code) r.0.codes
            (other_code later code client_id))
      ∙ ap (find (is_redeemable later code client_id)) (sym kept)
      ∙ find-keep (is_redeemable later code client_id) (has_code_text code) s.db.codes
          (other_code later code client_id)
      ∙ live in
    let same_row : issued.row ≡ row =
      found_issued db.codes issued.row row later code client_id issued.fresh here in
    rw (← same_request, ← same_before, ← same_after)
      (scopes_of_grant issued row same_row granted scope)
