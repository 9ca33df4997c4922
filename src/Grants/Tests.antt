-- ===== src/Grants/Tests.antt =====
-- Runs of the capture of buffers, and the theorems about it at concrete grants.
use origel.Base.{ℕ, ◌+◌, ◌*◌, ◌%◌, ◌<◌, ◌≡◌, refl, Bool, true, some, List, [], ◌∷◌, arith}
use origel.Syscall.Error.{ok, err, efault}
use origel.Grants.{
  Grant, returns, all_mapped, full_size, user_grant_offset, capture_inner, release, funmap,
}
use origel.Grants.Placed.{IsPlaced}
use origel.Grants.Release.{capture-release}

abbrev mapped : ℕ → Bool
mapped page = true

-- Two pages, a gap of four pages, and one page.
abbrev grants : List Grant
grants =
    record { start = user_grant_offset; size = 8192 }
    ∷ record { start = user_grant_offset + 24576; size = 4096 }
    ∷ []

captures_in_gap :
    capture_inner true mapped 5000 100 grants
    ≡ returns (ok (user_grant_offset + 8192 + 904)) (
        record { start = user_grant_offset; size = 8192 }
        ∷ record { start = user_grant_offset + 8192; size = 4096 }
        ∷ record { start = user_grant_offset + 24576; size = 4096 }
        ∷ [])
unfolding capture_inner
captures_in_gap = refl

refuses_unknown : release true 7 grants ≡ (err efault, grants)
unfolding release
refuses_unknown = refl

unmaps : (funmap user_grant_offset (some grants)).0 ≡ ok 0
unfolding funmap
unmaps = refl

grants-IsPlaced : IsPlaced (2 * user_grant_offset) user_grant_offset grants
grants-IsPlaced = omega arith

capture-release_example :
    (a : ℕ) × (gs' : List Grant) × (capture_inner true mapped 5000 9000 grants ≡ returns (ok a) gs')
    × (a % 4096 ≡ 5000 % 4096)
    × IsPlaced (2 * user_grant_offset + full_size 5000 9000) user_grant_offset gs'
    × ((i : ℕ) → i < 9000 → release true (a + i) gs' ≡ (ok 0, grants))
unfolding all_mapped
capture-release_example =
    capture-release mapped 5000 9000 (2 * user_grant_offset) grants (omega arith) (omega arith)
      (omega arith) (omega arith) refl grants-IsPlaced
