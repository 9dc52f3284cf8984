-- ===== src/Pat/Events/Steps.antt =====
-- Every operation on the tokens is one step of the rows.
use metafusion_auth.Prelude.{
  ℕ, ◌+◌, String, Bool, ◌&&◌, ◌==◌, Option, none, some, List, [], ◌∷◌, ◌++◌, ◌≡◌, refl, any, count,
  find, update_where, Result, ok, err, leb, arith, Bool-cases, Option-cases, inl, inr, reject_if,
  not, ◌>>=◌, Error, ◌||◌, ok-injective, nat_eq,
}
use Prim.Native.String.{len}
use metafusion_auth.Text.{trim, has_prefix}
use metafusion_auth.Access.{User}
use metafusion_auth.Database.{PatRow, Purpose, personal, mcp, is_none}
use metafusion_auth.Pat.Scopes.{normalize_pat_scopes}
use metafusion_auth.Pat.Plaintext.{pat_prefix, pat_secret_chars, hash_token}
use metafusion_auth.Pat.Store.{
  PatState, PersonalAccessToken, counts_for, conflicts, insert_pat, create_access_token, actor_id,
  create_personal_access_token, create_mcp_token, set_pats, may_issue, valid_token_name,
}
use metafusion_auth.Pat.Lifecycle.{
  AccessTokenUpdate, apply_update, update_access_token, update_personal_access_token, owns,
  update_mcp_token, revoke_access_token, delete_personal_access_token, revoke_mcp_token_by_value,
  mark_revoked, mark_deleted, mark_coalesced, revocable, deletable, has_value, updated_name,
  updated_scopes, may_edit, asks_for_mcp,
}
use metafusion_auth.Pat.Introspect.{
  introspect_personal_access_token, touch_personal_access_token, mark_used, joined, is_recent,
  last_touch, is_accepted,
}
use metafusion_auth.Pat.Events.{
  PatEvent, create_personal, create_mcp, update_personal, update_mcp, revoke, delete, revoke_value,
  introspect, committed, created, RowStep, stay, add, edit, IsTame, quota, apply_event,
  mark_revoked-IsTame, mark_coalesced-IsTame, mark_deleted-IsTame, mark_used-IsTame, retitle-IsTame,
}

module _ (s : PatState) (now : ℕ) where
  -- The rows that an operation leaves are one step away.
  abbrev Steps : PatState → Type 0
  Steps s' = RowStep now s.db.pats s'.db.pats

  committed-Steps :
      (r : Result PatState) → ((s' : PatState) → r ≡ ok s' → Steps s') → Steps (committed s r)
  committed-Steps (ok s') h = h s' refl
  committed-Steps (err e) h = stay

  committed-bind {ℓ} :
      {A : Type ℓ} (m : Result A) (f : A → Result PatState)
      → ((a : A) → m ≡ ok a → Steps (committed s (f a)))
      → Steps (committed s (m >>= f))
  committed-bind (ok a) f h = h a refl
  committed-bind (err e) f h = stay

  created-bind {ℓ} :
      {A : Type ℓ} (m : Result A) (f : A → Result (PatState × PersonalAccessToken × String))
      → ((a : A) → m ≡ ok a → Steps (created s (f a)))
      → Steps (created s (m >>= f))
  created-bind (ok a) f h = h a refl
  created-bind (err e) f h = stay

  edited :
      (p : PatRow → Bool) (f : PatRow → PatRow)
      → IsTame f
      → Steps (set_pats s (update_where p f s.db.pats))
  edited p f tame = edit p f tame

  inserted :
      (row : PatRow) (s' : PatState) → insert_pat s now (quota row.purpose) row ≡ ok s' → Steps s'
  unfolding insert_pat
  inserted row s' e =
      elim (Bool-cases
        (leb (quota row.purpose) (count (counts_for now row.user_id row.purpose) s.db.pats))) [
          | inl full ↦ rejected (rw full at e)
          | inr room ↦ elim (Bool-cases (any (conflicts row) s.db.pats)) [
            | inl clash ↦ rejected (rw (room, clash) at e)
            | inr fresh ↦
                let same : set_pats s (s.db.pats ++ row ∷ []) ≡ s' =
                  ok-injective _ s' (rw (room, fresh) at e) in
                rw (← same) (add row fresh (ground (arith, room)))
          ]
        ]
    where
      rejected : {x : Error} → err x ≡ ok s' → Steps s'
      rejected h = cc

module _ (sha256_hex : String → String) (is_uuid : String → Bool) (s : PatState) (now : ℕ) where
  create_access_token-Steps :
      (plain id : String) (actor : Option User) (name : String) (scopes : List String)
      (expires_in : ℕ) (purpose : Purpose)
      → Steps s now (
          created s (
            create_access_token sha256_hex s now plain id actor name scopes expires_in purpose
              (quota purpose)))
  unfolding create_access_token
  create_access_token-Steps plain id actor name scopes expires_in purpose =
      created-bind s now (reject_if (not (may_issue actor)) _) _ λ _ _.
        created-bind s now (reject_if (not (valid_token_name (trim name))) _) _ λ _ _.
          created-bind s now (normalize_pat_scopes scopes actor) _ λ norm _.
            created-bind s now (insert_pat s now (quota purpose) _) _ λ s' e. inserted s now _ s' e

  apply_update-Steps :
      (actor : Option User) (id : String) (purpose : Purpose) (change : AccessTokenUpdate)
      (row : Option PatRow)
      → Steps s now (committed s (apply_update s actor id purpose change row))
  unfolding apply_update
  apply_update-Steps actor id purpose change none = stay
  apply_update-Steps actor id purpose change (some row) =
      committed-bind s now (updated_name change.name row.name) _ λ name _.
        committed-bind s now (updated_scopes actor purpose change.scopes row.scopes) _
          λ scopes _. edited s now (owns (actor_id actor) id purpose) _ (retitle-IsTame name scopes)

  update_access_token-Steps :
      (actor : Option User) (id : String) (purpose : Purpose) (change : AccessTokenUpdate)
      → Steps s now (committed s (update_access_token is_uuid s actor id purpose change))
  unfolding update_access_token
  update_access_token-Steps actor id purpose change =
      committed-bind s now (reject_if (not (may_edit actor)) _) _ λ _ _.
        committed-bind s now (reject_if (not (is_uuid id)) _) _ λ _ _.
          committed-bind s now (reject_if (is_none change.name && is_none change.scopes) _) _ λ _ _.
            apply_update-Steps actor id purpose change
              (find (owns (actor_id actor) id purpose) s.db.pats)

  revoke_access_token-Steps :
      (user_id id : String) (purpose : Purpose)
      → Steps s now (committed s (revoke_access_token is_uuid s now user_id id purpose))
  unfolding revoke_access_token
  revoke_access_token-Steps user_id id purpose = elim (Bool-cases (is_uuid (trim id))) [
    | inr bad ↦ rw bad stay
    | inl good ↦ elim (Bool-cases (any (revocable user_id (trim id) purpose) s.db.pats)) [
      | inl found ↦ rw (good, found) (edited s now _ (mark_revoked now) (mark_revoked-IsTame now))
      | inr gone ↦ elim (Bool-cases (any (owns user_id (trim id) purpose) s.db.pats)) [
        | inl old ↦ rw (good, gone, old) stay
        | inr missing ↦ rw (good, gone, missing) stay
      ]
    ]
  ]

  delete_personal_access_token-Steps :
      (user_id id : String)
      → Steps s now (committed s (delete_personal_access_token is_uuid s now user_id id))
  unfolding delete_personal_access_token
  delete_personal_access_token-Steps user_id id = elim (Bool-cases (is_uuid id)) [
    | inr bad ↦ rw bad stay
    | inl good ↦ elim (Bool-cases (any (deletable user_id id) s.db.pats)) [
      | inl found ↦ rw (good, found) (edited s now _ (mark_deleted now) (mark_deleted-IsTame now))
      | inr missing ↦ rw (good, missing) stay
    ]
  ]

  touch-Steps : (hash : String) → Steps s now (touch_personal_access_token s now hash)
  unfolding touch_personal_access_token
  touch-Steps hash = elim (Bool-cases (is_recent now (last_touch hash s.touched))) [
    | inl recent ↦ rw recent stay
    | inr stale ↦ rw stale (edited s now _ (mark_used now) (mark_used-IsTame now))
  ]

  introspect-Steps :
      (raw : String) → Steps s now (introspect_personal_access_token sha256_hex s now raw).1
  unfolding introspect_personal_access_token
  introspect-Steps raw =
      elim (Bool-cases (trim raw == "" || not (has_prefix (trim raw) pat_prefix))) [
        | inl bad ↦ rw bad stay
        | inr good ↦
            elim (Option-cases (
              joined s.db
                (find (is_accepted s.db now (hash_token sha256_hex (trim raw))) s.db.pats))) [
                  | inl missing ↦ rw (good, missing) stay
                  | inr (found, e) ↦ rw (good, e) (touch-Steps (hash_token sha256_hex (trim raw)))
                ]
      ]

  revoke_value-Steps :
      (raw : String) → Steps s now (revoke_mcp_token_by_value sha256_hex s now raw).0
  unfolding revoke_mcp_token_by_value
  revoke_value-Steps raw =
      elim (Bool-cases (
        not (has_prefix (trim raw) pat_prefix)
        || not (nat_eq (len (trim raw)) (len pat_prefix + pat_secret_chars)))) [
          | inl bad ↦ rw bad stay
          | inr good ↦ elim (Option-cases (find (has_value sha256_hex (trim raw)) s.db.pats)) [
            | inl missing ↦ rw (good, missing) stay
            | inr (found, e) ↦
                rw (good, e)
                  (edited s now (has_value sha256_hex (trim raw)) (mark_coalesced now)
                    (mark_coalesced-IsTame now))
          ]
        ]

  -- Every event is one step of the rows, whatever it returns.
  pub apply_event-RowStep :
      (e : PatEvent) → RowStep now s.db.pats (apply_event sha256_hex is_uuid s now e).db.pats
  unfolding apply_event create_personal_access_token create_mcp_token update_personal_access_token
      update_mcp_token
  apply_event-RowStep (create_personal plain id actor name scopes expires_in) =
      created-bind s now (reject_if (any (λ scope. trim scope == "mcp.connect") scopes) _) _
        λ _ _. create_access_token-Steps plain id actor name scopes expires_in personal
  apply_event-RowStep (create_mcp plain id actor name scopes) =
      create_access_token-Steps plain id actor name ("mcp.connect" ∷ scopes) 0 mcp
  apply_event-RowStep (update_personal actor id change) =
      committed-bind s now (reject_if (asks_for_mcp change.scopes) _) _
        λ _ _. update_access_token-Steps actor id personal change
  apply_event-RowStep (update_mcp actor id scopes) =
      update_access_token-Steps actor id mcp
        (record { name = none; scopes = some ("mcp.connect" ∷ scopes) })
  apply_event-RowStep (revoke user_id id purpose) = revoke_access_token-Steps user_id id purpose
  apply_event-RowStep (delete user_id id) = delete_personal_access_token-Steps user_id id
  apply_event-RowStep (revoke_value token) = revoke_value-Steps token
  apply_event-RowStep (introspect token) = introspect-Steps token
