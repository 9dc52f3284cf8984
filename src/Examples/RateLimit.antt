-- ===== src/Examples/RateLimit.antt =====
-- Four thousand and ninety-six addresses, and one more.
use metafusion_auth.Prelude.{ℕ, zero, suc, ◌-◌, ◌≤◌, ◌≡◌, refl, some, List, [], ◌∷◌, arith}
use metafusion_auth.Pat.Plaintext.{base62}
use metafusion_auth.RateLimit.{Bucket}
use metafusion_auth.RateLimit.Window.{admitted, admitted-le-limit}
use metafusion_auth.RateLimit.Flood.{flood, flood-full}

-- Buckets under the keys "1", "2", ... that were seen at 5.
abbrev full_map : ℕ → List Bucket
full_map zero = []
full_map (suc n) =
    record { key = base62 (suc n); start = 5; count = 1; last_seen = some 5 } ∷ full_map n

flood-full_example : flood (full_map 4096) 7 180 "192.0.2.7|write" 100000 ≡ (100000, full_map 4096)
unfolding base62 metafusion_auth.Pat.Plaintext.base62_digits
flood-full_example =
    flood-full (full_map 4096) 7 180 "192.0.2.7|write" 100000 (ground arith) refl refl
      (ground arith)

abbrev counted : List Bucket
counted = record { key = "user:eve|write"; start = 5; count = 3; last_seen = some 6 } ∷ []

admitted-le-limit_example :
    admitted counted 7 5 "user:eve|write" (
      (1, "user:eve|write")
      ∷ (2, "192.0.2.7|read")
      ∷ (1, "user:eve|write")
      ∷ (1, "user:eve|write")
      ∷ [])
    ≤ 5 - 3
admitted-le-limit_example =
    admitted-le-limit counted 7 5 "user:eve|write"
      ((1, "user:eve|write")
        ∷ (2, "192.0.2.7|read")
        ∷ (1, "user:eve|write")
        ∷ (1, "user:eve|write")
        ∷ [])
      (record { key = "user:eve|write"; start = 5; count = 3; last_seen = some 6 }) 6 refl refl
      (ground arith) (ground arith) (ground arith)
