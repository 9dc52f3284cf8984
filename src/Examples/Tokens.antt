-- ===== src/Examples/Tokens.antt =====
-- Tokens of one account: access tokens of the table and a signed token of the issuer.
use metafusion_auth.Prelude.{
  ℕ, ◌≤◌, ◌<◌, String, List, [], ◌∷◌, ◌≡◌, refl, Option, none, some, Bool, true, false, ok, err,
  arith, All, count, invalid_token, any, leb, eq_iff, is_ok,
}
use metafusion_auth.Text.{has_prefix, rune_count}
use metafusion_auth.Access.{User, bare_user, session}
use metafusion_auth.Database.{UserRow, PatRow, personal, empty_database}
use metafusion_auth.Pat.Plaintext.{new_pat_plaintext, pat_prefix}
use metafusion_auth.Pat.Plaintext.Laws.{new_pat_plaintext_total}
use metafusion_auth.Pat.Scopes.{normalize_pat_scopes}
use metafusion_auth.Pat.Store.{PatState, PersonalAccessToken, create_access_token, counts_for}
use metafusion_auth.Pat.Events.{PatEvent, introspect, create_personal, revoke_value, run, quota}
use metafusion_auth.Pat.Quota.{run-le-quota}
use metafusion_auth.Pat.Introspect.{introspect_personal_access_token, principal}
use metafusion_auth.Pat.Final.{introspect-revoke, introspect-delete}
use metafusion_auth.Pat.Issue.{issued_row, introspect-create}
use metafusion_auth.Token.{Claims, Codec, TokenIssuer, verify, revoke_token}
use metafusion_auth.Token.Final.{
  TokenEvent, check, revoke_id, sign_for, run_tokens, token_clock, verify-revoke_token,
}

abbrev pub id_text : String → String
id_text s = s

abbrev any_uuid : String → Bool
any_uuid s = true

abbrev bytes : List ℕ
bytes =
    255 ∷ 1 ∷ 2 ∷ 3 ∷ 4 ∷ 5 ∷ 6 ∷ 7 ∷ 8 ∷ 9 ∷ 10 ∷ 11 ∷ 12 ∷ 13 ∷ 14 ∷ 15 ∷ 16 ∷ 17 ∷ 18 ∷ 19 ∷ 20
    ∷ 21 ∷ 22 ∷ 23 ∷ 24 ∷ 25 ∷ 26 ∷ 27 ∷ 28 ∷ 29 ∷ 30 ∷ 31 ∷ []

All-small : (xs : List ℕ) → any (leb 256) xs ≡ false → All (λ b. b < 256) xs
All-small [] h = tt
All-small (x ∷ xs) h = (ground arith, All-small xs (ground arith))

bytes-small : All (λ b. b < 256) bytes
bytes-small = All-small bytes refl

new_pat_plaintext_total_example :
    (plain : String) × (new_pat_plaintext bytes ≡ some plain)
    × (has_prefix plain pat_prefix ≡ true)
    × (rune_count plain ≡ 47)
new_pat_plaintext_total_example = new_pat_plaintext_total bytes refl bytes-small

abbrev ada_row : UserRow
ada_row = record {
  id = "u1";
  username = "ada";
  email = "";
  password_hash = "";
  banned = false;
  display_name = "";
  bio = "";
}

abbrev ada : User
ada = record (bare_user "u1" "ada") { permissions = "catalog.read" ∷ []; token_use = session }

abbrev token_row : (revoked_at deleted_at : Option ℕ) → PatRow
token_row revoked_at deleted_at = record {
  id = "t1";
  user_id = "u1";
  name = "laptop";
  token_hash = "mfp_abc";
  token_prefix = "mfp_abc";
  scopes = "catalog.read" ∷ [];
  expires_at = none;
  last_used_at = none;
  created_at = 3;
  revoked_at = revoked_at;
  purpose = personal;
  deleted_at = deleted_at;
}

abbrev state_of : List PatRow → PatState
state_of rows = record {
  db = record empty_database { users = ada_row ∷ []; pats = rows };
  touched = [];
}

abbrev history : List (ℕ × PatEvent)
history =
    (5, introspect "mfp_abc")
    ∷ (6, create_personal "mfp_def" "t2" (some ada) "phone" ("catalog.read" ∷ []) 0)
    ∷ (7, revoke_value "mfp_abc")
    ∷ []

run-le-quota_example :
    count (counts_for 100 "u1" personal) (run id_text any_uuid (state_of []) 1 history).db.pats
    ≤ quota personal
run-le-quota_example =
    run-le-quota id_text any_uuid (state_of []) 1 100 history "u1" personal
      (λ later le user_id purpose. omega arith) (omega arith)

introspect-revoke_example :
    (introspect_personal_access_token id_text
      (run id_text any_uuid (state_of (token_row (some 4) none ∷ [])) 4 history)
      50
      "mfp_abc").0
    ≡ err invalid_token
unfolding metafusion_auth.Text.trim metafusion_auth.Pat.Lifecycle.revoke_access_token
introspect-revoke_example =
    introspect-revoke id_text any_uuid (state_of (token_row none none ∷ []))
      (state_of (token_row (some 4) none ∷ [])) 4 50 "u1" "t1" "mfp_abc" personal history
      (refl, (λ h. refl, tt)) refl

introspect-delete_example :
    (introspect_personal_access_token id_text
      (run id_text any_uuid (state_of (token_row (some 4) (some 4) ∷ [])) 4 history)
      50
      "mfp_abc").0
    ≡ err invalid_token
unfolding metafusion_auth.Text.trim metafusion_auth.Pat.Lifecycle.delete_personal_access_token
introspect-delete_example =
    introspect-delete id_text any_uuid (state_of (token_row none none ∷ []))
      (state_of (token_row (some 4) (some 4) ∷ [])) 4 50 "u1" "t1" "mfp_abc" history
      (refl, (λ h. refl, tt)) refl

abbrev shown : PersonalAccessToken
shown = record {
  id = "t1";
  name = "laptop";
  token_prefix = "mfp_abc";
  scopes = "catalog.read" ∷ [];
  expires_at = none;
  last_used_at = none;
  created_at = 3;
  revoked_at = none;
  active = true;
}

introspect-create_example :
    (norm : List String) × (normalize_pat_scopes ("catalog.read" ∷ []) (some ada) ≡ ok norm)
    × ((introspect_personal_access_token id_text
          (state_of (token_row none none ∷ []))
          90
          "mfp_abc").0
        ≡ ok (
            principal
              (state_of (token_row none none ∷ [])).db
              (issued_row id_text 3 "mfp_abc" "t1" (some ada) "laptop" norm 0 personal)
              ada_row
              "mfp_abc"))
unfolding metafusion_auth.Text.trim has_prefix create_access_token rune_count normalize_pat_scopes
    metafusion_auth.Access.valid_permission_code metafusion_auth.Access.can
    metafusion_auth.Pat.Plaintext.pat_prefix_of
introspect-create_example =
    introspect-create id_text (state_of []) (state_of (token_row none none ∷ [])) 3 90 "mfp_abc"
      "mfp_abc" "t1" "laptop" (some ada) ("catalog.read" ∷ []) 0 10 personal shown ada_row refl refl
      refl refl refl refl

abbrev claims : Claims
claims = record {
  subject = "u1";
  username = "ada";
  email = "";
  groups = [];
  permissions = [];
  issuer = "auth";
  audience = "platform";
  issued_at = 0;
  expires = 900;
  jti = "j1";
  token_use = session;
  client_id = "";
  scope = "";
}

abbrev pub codec : Codec
codec = record {
  read_algorithm = λ s. some "RS256";
  read_signature = some;
  read_claims = λ s. some claims;
  is_signed = λ text signature. true;
  write_claims = λ c. c.jti;
  header = "h";
  sign_text = λ s. "s";
}

abbrev issuer : TokenIssuer
issuer = record {
  has_key = true;
  issuer = "auth";
  audience = "platform";
  revoked = [];
  audiences = "platform" ∷ [];
}

abbrev token_history : List (ℕ × TokenEvent)
token_history =
    (5000000000, check "h.p.s") ∷ (0, revoke_id "j2" 700) ∷ (0, sign_for "j3" ada "client") ∷ []

other_id : ◌≡◌ {A = String} "j2" "j1" → 900 ≤ 700
other_id same = ground (arith, same, eq_iff "j2" "j1")

verify-revoke_token_example :
    is_ok
      (verify codec
        (run_tokens codec (revoke_token codec issuer 1000000000 "h.p.s") 1000000000 token_history)
        (token_clock 1000000000 token_history)
        "h.p.s").0
    ≡ false
unfolding verify
verify-revoke_token_example =
    verify-revoke_token codec issuer 1000000000 "h.p.s" claims token_history refl refl
      (tt, (other_id, (tt, tt)))
