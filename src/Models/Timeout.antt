-- ===== src/Models/Timeout.antt =====
-- What `is_timed_out` and `get_remaining_time_minutes` say of each other.
use packamal.Models.{get_remaining_time_minutes, is_timed_out, AnalysisTask, runs_since, minute}
use packamal.Prelude.{arith, ℕ, ◌≡◌, true, some, ◌+◌, Option-cases, ◌*◌, inl, ◌<◌, inr, false}

-- A running task that has `r` whole minutes left is timed out `r + 1` minutes later, and if `r` is
-- not zero, it is not yet timed out `r` minutes later.
pub remaining-is_timed_out :
    (t : AnalysisTask) (now r : ℕ)
    → get_remaining_time_minutes t now ≡ some r
    → (is_timed_out t (now + (r + 1) * minute) ≡ true)
      × (0 < r → is_timed_out t (now + r * minute) ≡ false)
unfolding get_remaining_time_minutes is_timed_out
remaining-is_timed_out t now r h = elim (Option-cases (runs_since t)) [
  | inl e ↦ absurd (ground arith)
  | inr (s, e) ↦ (ground arith, λ k. ground arith)
]

-- A task that is timed out has no minute left.
pub is_timed_out-remaining :
    (t : AnalysisTask) (now : ℕ)
    → is_timed_out t now ≡ true
    → get_remaining_time_minutes t now ≡ some 0
unfolding get_remaining_time_minutes is_timed_out
is_timed_out-remaining t now h = elim (Option-cases (runs_since t)) [
  | inl e ↦ absurd (ground arith)
  | inr (s, e) ↦ ground arith
]
