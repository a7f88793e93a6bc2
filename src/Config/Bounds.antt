-- ===== src/Config/Bounds.antt =====
-- The numbers that `Load` of internal/config/config.go clamps.
use ping_goat.Common.{
  Bool, GoString, Option-cases, arith, atoi, bytes, false, if◌then◌else◌, inl, inr, ltb_ℤ, negsuc,
  pos, refl, suc, true, zero, ℕ, ℤ, ◌≡◌,
}
use ping_goat.Config.{clamped, load}

abbrev pub IsPositive : ℤ → Type 0
IsPositive n = (m : ℕ) × (n ≡ pos (suc m))

clamp_at : (n : ℤ) (test : Bool) → ltb_ℤ (pos 1) n ≡ test → IsPositive (if test then n else pos 1)
clamp_at n false h = (0, refl)
clamp_at (pos zero) true h = absurd (ground arith)
clamp_at (pos (suc m)) true h = (m, refl)
clamp_at (negsuc m) true h = absurd (ground arith)

clamped-IsPositive : (v : GoString) (m : ℕ) → IsPositive (clamped v (pos (suc m)))
clamped-IsPositive v m = elim (Option-cases (atoi v)) [
  | inl nothing ↦ rw (clamped, nothing) (m, refl)
  | inr (n, found) ↦ rw (clamped, found) (clamp_at n (ltb_ℤ (pos 1) n) refl)
]

-- Whatever the environment holds, the server has a worker, a job can have a file, a batch can hold
-- a token, and the limiter lets a call through.
pub load-IsPositive :
    (getenv : GoString → GoString)
    → IsPositive (load getenv).pipeline_workers
      × IsPositive (load getenv).max_files_per_repo
      × IsPositive (load getenv).max_tokens_per_batch
      × IsPositive (load getenv).gemini_rpm
unfolding load
load-IsPositive getenv = (
  clamped-IsPositive (getenv (bytes "PIPELINE_WORKERS")) 1,
  clamped-IsPositive (getenv (bytes "MAX_FILES_PER_REPO")) 49,
  clamped-IsPositive (getenv (bytes "PIPELINE_MAX_TOKENS_PER_BATCH")) 49999,
  clamped-IsPositive (getenv (bytes "GEMINI_RPM_LIMIT")) 9,
)
