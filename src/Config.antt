-- ===== src/Config.antt =====
-- internal/config/config.go
pub mod Bounds
use ping_goat.Common.{GoString, [], atoi, bytes, if◌then◌else◌, ltb_ℤ, none, pos, some, ℤ, ◌∷◌}

pub record Config : Type 0 where
  pub database_url : GoString
  pub jwt_secret : GoString
  pub jwt_expiry_hours : ℤ
  pub api_port : GoString
  pub pipeline_workers : ℤ
  pub max_files_per_repo : ℤ
  pub max_tokens_per_batch : ℤ
  pub gemini_api_key : GoString
  pub gemini_model : GoString
  pub gemini_rpm : ℤ

-- `max(1, n)` of what a variable holds; the default, if it is empty or no number.
abbrev clamped : GoString → ℤ → ℤ
clamped v default = elim (atoi v) [ none ↦ default | some n ↦ if ltb_ℤ (pos 1) n then n else pos 1 ]

-- JWT_EXPIRY_HOURS is not clamped.
abbrev unclamped : GoString → ℤ → ℤ
unclamped v default = elim (atoi v) [ none ↦ default | some n ↦ n ]

abbrev or_default : GoString → GoString → GoString
or_default [] default = default
or_default (c ∷ s) default = c ∷ s

-- `Load`, over os.Getenv after the .env file has been read. An empty variable is no number, so the
-- test for one needs no case of its own.
unfoldable pub load : (GoString → GoString) → Config
unfolding atoi
load getenv = record {
  database_url = getenv (bytes "DATABASE_URL");
  jwt_secret = getenv (bytes "JWT_SECRET");
  jwt_expiry_hours = unclamped (getenv (bytes "JWT_EXPIRY_HOURS")) (pos 24);
  api_port = getenv (bytes "API_PORT");
  pipeline_workers = clamped (getenv (bytes "PIPELINE_WORKERS")) (pos 2);
  max_files_per_repo = clamped (getenv (bytes "MAX_FILES_PER_REPO")) (pos 50);
  max_tokens_per_batch = clamped (getenv (bytes "PIPELINE_MAX_TOKENS_PER_BATCH")) (pos 50000);
  gemini_api_key = getenv (bytes "GEMINI_API_KEY");
  gemini_model = or_default (getenv (bytes "GEMINI_MODEL")) (bytes "gemini-3.1-flash-lite");
  gemini_rpm = clamped (getenv (bytes "GEMINI_RPM_LIMIT")) (pos 10);
}
