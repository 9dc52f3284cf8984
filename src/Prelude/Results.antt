-- ===== src/Prelude/Results.antt =====
-- The error codes that the code returns as `fmt.Errorf(...)`, and the results that carry them.
use Prim.Native.String.{String}
use mathlib.Core.Path.{◌≡◌, refl, subst}
use mathlib.Core.Bool.{Bool, true, false}
use mathlib.Core.Option.{Option, none, some}
use mathlib.Core.Logic.{◌⊎◌, inl, inr}

pub data Error : Type 0 where
  forbidden forbidden_pat_scope invalid_scope_empty invalid_token invalid_token_name : Error
  token_limit_reached token_not_found invalid_request : Error
  scope_expansion_requires_authorization database_conflict : Error
  invalid_scope scope_not_granted : String → Error
  user_not_found cannot_ban_self cannot_ban_sole_admin cannot_demote_sole_admin : Error
  system_group_immutable cannot_strip_admin_wildcard invalid_group_code group_exists : Error
  group_not_found invalid_permission_code : String → Error
  invite_required invalid_invite_code invite_exhausted invite_not_found : Error
  invalid_scopes invalid_client invalid_redirect_uri invalid_code_challenge_method : Error
  invalid_grant invalid_client_secret account_banned unsupported_grant : Error
  token_issuer_unavailable malformed_token bad_signature bad_token_use token_expired : Error
  bad_issuer bad_audience missing_subject token_revoked empty_audience empty_client_id : Error
  malformed_header unexpected_algorithm malformed_signature malformed_payload : Error
  invalid_login_failure_window connection_done no_rows : Error
  invalid_password_length invalid_old_password : Error
  invalid_client_id invalid_client_name invalid_client_description invalid_redirect_uris : Error
  invalid_homepage_url bad_redirect_uri : String → Error
  client_exists client_not_found app_managed_fields seeded_client_immutable : Error
  authentication_required app_quota_exceeded invalid_revoke_target : Error
  expired_or_used_code redirect_uri_mismatch invalid_code_verifier : Error
  invalid_credentials invalid_credentials_format setup_complete registration_closed : Error
  username_or_email_taken : Error

pub data Result {ℓ} (Value : Type ℓ) : Type ℓ where
  err : Error → Result Value
  ok : Value → Result Value

-- `if bad { return e }`
abbrev pub reject_if : (bad : Bool) → Error → Result (Unit {0})
reject_if false reason = ok tt
reject_if true reason = err reason

infixl 5 ◌>>=◌ ◌>>◌
abbrev pub ◌>>=◌ {κ ℓ} :
    {Value : Type κ} {Next : Type ℓ} → Result Value → (Value → Result Next) → Result Next
err reason >>= next = err reason
ok value >>= next = next value

abbrev pub ◌>>◌ {ℓ} : {Next : Type ℓ} → Result (Unit {0}) → Result Next → Result Next
first >> second = first >>= λ done. second

pub ok-injective {ℓ} : {A : Type ℓ} (a b : A) → ok a ≡ ok b → a ≡ b
ok-injective a b h = cc

-- The steps of a chain that succeeds have succeeded.
pub >>=-eq-ok {ℓ κ} :
    {Value : Type κ} {Next : Type ℓ} (first : Result Value) (next : Value → Result Next)
    {last : Next}
    → (first >>= next) ≡ ok last
    → (value : Value) × (first ≡ ok value) × (next value ≡ ok last)
>>=-eq-ok (err reason) next failed = cc
>>=-eq-ok (ok value) next succeeded = (value, refl, succeeded)

-- A computation that succeeds after a guard has passed the guard.
pub reject_if-passes {ℓ} :
    {A : Type ℓ} (b : Bool) (x : Error) (k : Result A) {a : A}
    → (reject_if b x >> k) ≡ ok a
    → (b ≡ false) × (k ≡ ok a)
reject_if-passes true x k h = cc
reject_if-passes false x k h = (refl, h)

pub Result-cases {ℓ} :
    {A : Type ℓ} (r : Result A) → ((a : A) × (r ≡ ok a)) ⊎ ((x : Error) × (r ≡ err x))
Result-cases (ok a) = inl (a, refl)
Result-cases (err x) = inr (x, refl)

abbrev pub is_ok {ℓ} : {A : Type ℓ} → Result A → Bool
is_ok (ok a) = true
is_ok (err x) = false

-- The value of a query, or an error when it found none.
abbrev pub require {ℓ} : {A : Type ℓ} → Option A → Error → Result A
require none e = err e
require (some a) e = ok a

-- What holds of the value of a computation, if it has one.
pub record OnOk {ℓ κ} {A : Type ℓ} (P : A → Type κ) (r : Result A) : Type (ℓ ⊔ κ) where
  pub holds : (a : A) → r ≡ ok a → P a

pub OnOk->>= {ℓ κ ι} :
    {A : Type ℓ} {B : Type κ} {P : B → Type ι} (m : Result A) (f : A → Result B)
    → ((a : A) → OnOk P (f a))
    → OnOk P (m >>= f)
OnOk->>= m f h = record { holds = λ b e. let (a, _, e') = >>=-eq-ok m f e in (h a).holds b e' }

pub OnOk-ok {ℓ κ} : {A : Type ℓ} {P : A → Type κ} (a : A) → P a → OnOk P (ok a)
OnOk-ok {P = P} a p = record { holds = λ b e. subst P (ok-injective a b e) p }
