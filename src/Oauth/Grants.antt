-- ===== src/Oauth/Grants.antt =====
-- Histories of grants: every operation of internal/store/oauth.go that touches the codes, as an
-- event, with the ban of an account.
pub mod Steps
pub mod Redeem
pub mod Once
pub mod Outcomes
pub mod Shown
pub mod Scope
pub mod Succeeds
use metafusion_auth.Prelude.{
  ℕ, ◌+◌, String, Bool, true, false, not, ◌&&◌, ◌==◌, ◌≡◌, refl, Option, none, some, List, [], ◌∷◌,
  Result, ok, err,
}
use metafusion_auth.Access.{User}
use metafusion_auth.Database.{Database}
use metafusion_auth.Token.{Codec}
use metafusion_auth.Accounts.Bans.{Server, set_user_banned}
use metafusion_auth.Oauth.Clients.{Url}
use metafusion_auth.Oauth.Clients.Manage.{
  OauthClientInput, create_oauth_client, update_oauth_client, rotate_oauth_client_secret,
  delete_oauth_client,
}
use metafusion_auth.Oauth.Codes.{create_oauth_code}
use metafusion_auth.Oauth.Exchange.{OauthGrant, exchange_oauth_code}
use metafusion_auth.Oauth.Revoke.{revoke_by_client, revoke_by_user, revoke_own_grant}

pub data GrantEvent : Type 0 where
  create_code : (code client user redirect_uri scope challenge method : String) → GrantEvent
  exchange : (jti client secret code redirect_uri verifier : String) → GrantEvent
  end_client end_user : (id : String) → Option User → GrantEvent
  end_own : (user client : String) → GrantEvent
  new_client : (generated secret : String) → OauthClientInput → Option User → GrantEvent
  edit_client : (id : String) → OauthClientInput → Option User → GrantEvent
  rotate : (id secret : String) → Option User → GrantEvent
  delete : (id : String) → Option User → GrantEvent
  ban : (id : String) → Bool → Option User → GrantEvent

-- Failed operations that run in a transaction leave the tables as they were.
abbrev pub settled_db {ℓ} : {A : Type ℓ} → (A → Database) → Server → Result A → Server
settled_db f s (ok a) = record s { db = f a }
settled_db f s (err e) = s

abbrev pub settled {ℓ} : {A : Type ℓ} → (A → Server) → Server → Result A → Server
settled f s (ok a) = f a
settled f s (err e) = s

-- What holds before and after a success holds in both cases.
pub settled-keeps {ℓ κ} :
    {A : Type ℓ} (P : Server → Type κ) (f : A → Server) (s : Server) (r : Result A)
    → P s
    → ((a : A) → r ≡ ok a → P (f a))
    → P (settled f s r)
settled-keeps P f s (ok a) here there = there a refl
settled-keeps P f s (err x) here there = here

pub settled_db-keeps {ℓ κ} :
    {A : Type ℓ} (P : Server → Type κ) (f : A → Database) (s : Server) (r : Result A)
    → P s
    → ((a : A) → r ≡ ok a → P (record s { db = f a }))
    → P (settled_db f s r)
settled_db-keeps P f s (ok a) here there = there a refl
settled_db-keeps P f s (err x) here there = here

-- What the operations are run with.
pub record Setting : Type 0 where
  pub parse_url : String → Option Url
  pub bcrypt : String → String
  pub is_password : (stored password : String) → Bool
  pub sha256_base64 : String → String
  pub sha256_hex : String → String
  pub to_upper : String → String
  pub codec : Codec

module _ (g : Setting) where
  unfoldable pub exchange_with :
      Server
      → ℕ
      → (jti client secret code redirect_uri verifier : String) → Result OauthGrant × Server
  unfolding exchange_oauth_code
  exchange_with = exchange_oauth_code g.is_password g.sha256_base64 g.sha256_hex g.codec

  unfoldable pub apply_grant_event : Server → ℕ → GrantEvent → Server
  unfolding create_oauth_code exchange_with revoke_by_client revoke_by_user revoke_own_grant
      create_oauth_client update_oauth_client rotate_oauth_client_secret delete_oauth_client
      set_user_banned
  apply_grant_event s now (create_code code client user redirect_uri scope challenge method) =
      settled_db (λ r. r.0) s
        (create_oauth_code g.to_upper s.db now code client user redirect_uri scope challenge method)
  apply_grant_event s now (exchange jti client secret code redirect_uri verifier) =
      (exchange_with s now jti client secret code redirect_uri verifier).1
  apply_grant_event s now (end_client id actor) =
      settled (λ r. r.1) s (revoke_by_client s now id actor)
  apply_grant_event s now (end_user id actor) = settled (λ r. r.1) s (revoke_by_user s now id actor)
  apply_grant_event s now (end_own user client) =
      settled (λ r. r.1) s (revoke_own_grant s now user client)
  apply_grant_event s now (new_client generated secret input actor) =
      settled_db (λ r. r.0) s
        (create_oauth_client g.parse_url g.bcrypt s.db now generated secret input actor)
  apply_grant_event s now (edit_client id input actor) =
      settled_db (λ db. db) s (update_oauth_client g.parse_url g.bcrypt s.db id input actor)
  apply_grant_event s now (rotate id secret actor) =
      settled_db (λ db. db) s (rotate_oauth_client_secret g.parse_url g.bcrypt s.db id secret actor)
  apply_grant_event s now (delete id actor) =
      settled (λ s'. s') s (delete_oauth_client g.parse_url g.bcrypt s now id actor)
  apply_grant_event s now (ban id banned actor) =
      settled (λ s'. s') s (set_user_banned s id banned actor now)

  -- A history: each event with the time that passed before it.
  unfoldable pub run_grants : Server → ℕ → List (ℕ × GrantEvent) → Server
  unfolding apply_grant_event
  run_grants s now [] = s
  run_grants s now ((elapsed, e) ∷ rest) =
      run_grants (apply_grant_event s (now + elapsed) e) (now + elapsed) rest

-- The time at which a history ends.
abbrev pub grant_clock : ℕ → List (ℕ × GrantEvent) → ℕ
grant_clock now [] = now
grant_clock now ((elapsed, e) ∷ rest) = grant_clock (now + elapsed) rest
