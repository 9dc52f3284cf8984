-- ===== src/Pat/Final.antt =====
-- Revoking or deleting a token, and what follows after any history.
use metafusion_auth.Prelude.{
  ℕ, String, Bool, true, false, ◌&&◌, ◌==◌, List, [], ◌∷◌, ◌≡◌, refl, any, update_where, arith,
  Bool-cases, inl, inr, if◌then◌else◌, ok, err, Error, invalid_token, ◌∙◌, All, ok-injective,
}
use metafusion_auth.Text.{trim}
use metafusion_auth.Database.{PatRow, Purpose, personal, same_purpose}
use metafusion_auth.Pat.Store.{PatState, set_pats}
use metafusion_auth.Pat.Lifecycle.{
  owns, revocable, deletable, mark_revoked, mark_deleted, revoke_access_token,
  delete_personal_access_token,
}
use metafusion_auth.Pat.Introspect.{introspect_personal_access_token}
use metafusion_auth.Pat.Plaintext.{hash_token}
use metafusion_auth.Pat.Events.{
  PatEvent, run, coalesce-some, mark_revoked-IsTame, mark_deleted-IsTame,
}
use metafusion_auth.Pat.Revocation.{
  has_hash, stands, IsDead, IsTokenOf, any-update_where, has_hash-edited, run-IsDead,
  introspect-IsDead,
}

abbrev IsRow : String → String → String → Purpose → PatRow → Type 0
IsRow hash user_id id purpose r =
    has_hash hash r ≡ true
    → (r.id == id && r.user_id == user_id && same_purpose r.purpose purpose) ≡ true

module _ (hash user_id id : String) (now : ℕ) where
  revoked_row :
      (purpose : Purpose) (r : PatRow)
      → IsRow hash user_id id purpose r
      → stands hash (if revocable user_id id purpose r then mark_revoked now r else r) ≡ false
  revoked_row purpose r h = elim (Bool-cases (revocable user_id id purpose r)) [
    | inl mine ↦ rw mine (ground arith)
    | inr other ↦ rw other (elim (Bool-cases (has_hash hash r)) [
      | inl same ↦ let own = h same in ground (arith, own, other)
      | inr apart ↦ rw apart
    ])
  ]

  -- No usable row with the hash is left once the owned one is marked.
  revoked_rows :
      (purpose : Purpose) (rows : List PatRow)
      → All (IsRow hash user_id id purpose) rows
      → any (stands hash) (update_where (revocable user_id id purpose) (mark_revoked now) rows)
        ≡ false
  revoked_rows purpose [] h = refl
  revoked_rows purpose (r ∷ rows) (h, hs) =
      ground (arith, revoked_row purpose r h, revoked_rows purpose rows hs)

  none_revocable :
      (purpose : Purpose) (rows : List PatRow)
      → All (IsRow hash user_id id purpose) rows
      → any (revocable user_id id purpose) rows ≡ false
      → any (stands hash) rows ≡ false
  none_revocable purpose [] h e = refl
  none_revocable purpose (r ∷ rows) (h, hs) e = elim (Bool-cases (has_hash hash r)) [
    | inl same ↦ let own = h same in let ih = none_revocable purpose rows hs in ground (arith, own)
    | inr apart ↦ let ih = none_revocable purpose rows hs in ground (arith, apart)
  ]

  deleted_row :
      (r : PatRow)
      → IsRow hash user_id id personal r
      → stands hash (if deletable user_id id r then mark_deleted now r else r) ≡ false
  deleted_row r h = elim (Bool-cases (deletable user_id id r)) [
    | inl mine ↦ rw mine (ground (arith, coalesce-some r.revoked_at now))
    | inr other ↦ rw other (elim (Bool-cases (has_hash hash r)) [
      | inl same ↦ let own = h same in cc
      | inr apart ↦ rw apart
    ])
  ]

  deleted_rows :
      (rows : List PatRow)
      → All (IsRow hash user_id id personal) rows
      → any (stands hash) (update_where (deletable user_id id) (mark_deleted now) rows) ≡ false
  deleted_rows [] h = refl
  deleted_rows (r ∷ rows) (h, hs) = ground (arith, deleted_row r h, deleted_rows rows hs)

module _ (sha256_hex : String → String) (is_uuid : String → Bool) where
  revoke-IsDead :
      (hash user_id id : String) (purpose : Purpose) (s s' : PatState) (now : ℕ)
      → revoke_access_token is_uuid s now user_id id purpose ≡ ok s'
      → IsTokenOf hash user_id (trim id) purpose s.db.pats
      → IsDead hash s'.db.pats
  unfolding revoke_access_token
  revoke-IsDead hash user_id id purpose s s' now e (taken, only) =
      elim (Bool-cases (is_uuid (trim id))) [
        | inr bad ↦ refused (rw bad at e)
        | inl good ↦ elim (Bool-cases (any (revocable user_id (trim id) purpose) s.db.pats)) [
          | inl found ↦
              let rows =
                update_where (revocable user_id (trim id) purpose) (mark_revoked now) s.db.pats in
              let same : set_pats s rows ≡ s' = ok-injective _ s' (rw (good, found) at e) in
              rw (← same) (
                any-update_where (revocable user_id (trim id) purpose) (has_hash hash)
                      (mark_revoked now) s.db.pats
                      (λ r. has_hash-edited hash (mark_revoked now) r (mark_revoked-IsTame now))
                    ∙ taken,
                revoked_rows hash user_id (trim id) now purpose s.db.pats only,
              )
          | inr gone ↦ elim (Bool-cases (any (owns user_id (trim id) purpose) s.db.pats)) [
            | inl old ↦
                let same : s ≡ s' = ok-injective _ s' (rw (good, gone, old) at e) in
                rw (← same)
                  (taken, none_revocable hash user_id (trim id) now purpose s.db.pats only gone)
            | inr missing ↦ refused (rw (good, gone, missing) at e)
          ]
        ]
      ]
    where
      refused : {x : Error} → err x ≡ ok s' → IsDead hash s'.db.pats
      refused h = cc

  delete-IsDead :
      (hash user_id id : String) (s s' : PatState) (now : ℕ)
      → delete_personal_access_token is_uuid s now user_id id ≡ ok s'
      → IsTokenOf hash user_id id personal s.db.pats
      → IsDead hash s'.db.pats
  unfolding delete_personal_access_token
  delete-IsDead hash user_id id s s' now e (taken, only) = elim (Bool-cases (is_uuid id)) [
    | inr bad ↦ refused (rw bad at e)
    | inl good ↦ elim (Bool-cases (any (deletable user_id id) s.db.pats)) [
      | inl found ↦
          let rows = update_where (deletable user_id id) (mark_deleted now) s.db.pats in
          let same : set_pats s rows ≡ s' = ok-injective _ s' (rw (good, found) at e) in
          rw (← same) (
            any-update_where (deletable user_id id) (has_hash hash) (mark_deleted now) s.db.pats
                  (λ r. has_hash-edited hash (mark_deleted now) r (mark_deleted-IsTame now))
                ∙ taken,
            deleted_rows hash user_id id now s.db.pats only,
          )
      | inr missing ↦ refused (rw (good, missing) at e)
    ]
  ]
    where
      refused : {x : Error} → err x ≡ ok s' → IsDead hash s'.db.pats
      refused h = cc

  -- Once the owner's revocation of a token has succeeded, whose hash no other row has, every later introspection of the token
  -- is refused with `invalid_token`, whatever operations came in between.
  pub introspect-revoke :
      (s s' : PatState) (now later : ℕ) (user_id id raw : String) (purpose : Purpose)
      (history : List (ℕ × PatEvent))
      → IsTokenOf (hash_token sha256_hex (trim raw)) user_id (trim id) purpose s.db.pats
      → revoke_access_token is_uuid s now user_id id purpose ≡ ok s'
      → (introspect_personal_access_token sha256_hex
          (run sha256_hex is_uuid s' now history)
          later
          raw).0
        ≡ err invalid_token
  introspect-revoke s s' now later user_id id raw purpose history mine e =
      let hash = hash_token sha256_hex (trim raw) in
      introspect-IsDead sha256_hex is_uuid (run sha256_hex is_uuid s' now history) later raw (
        run-IsDead sha256_hex is_uuid hash s' now history
          (revoke-IsDead hash user_id id purpose s s' now e mine))

  -- Once the owner's deletion of a personal token has succeeded, whose hash no other row has, every later introspection of the
  -- token is refused with `invalid_token`, whatever operations came in between.
  pub introspect-delete :
      (s s' : PatState) (now later : ℕ) (user_id id raw : String) (history : List (ℕ × PatEvent))
      → IsTokenOf (hash_token sha256_hex (trim raw)) user_id id personal s.db.pats
      → delete_personal_access_token is_uuid s now user_id id ≡ ok s'
      → (introspect_personal_access_token sha256_hex
          (run sha256_hex is_uuid s' now history)
          later
          raw).0
        ≡ err invalid_token
  introspect-delete s s' now later user_id id raw history mine e =
      let hash = hash_token sha256_hex (trim raw) in
      introspect-IsDead sha256_hex is_uuid (run sha256_hex is_uuid s' now history) later raw (
        run-IsDead sha256_hex is_uuid hash s' now history
          (delete-IsDead hash user_id id s s' now e mine))
