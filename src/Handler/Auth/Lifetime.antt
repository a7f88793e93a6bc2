-- ===== src/Handler/Auth/Lifetime.antt =====
-- How long a token of internal/handler/authHandler.go is valid.
use ping_goat.Common.{arith, pos, ℕ, ◌*◌, ◌↔◌, ◌≡◌, ◌≤◌}
use ping_goat.Handler.Auth.{token_lifetime}

-- A positive number of hours gives a token that many hours exactly when it is 2562047 at most: from
-- there on `time.Duration(hours) * time.Hour` wraps.
pub token_lifetime_iff :
    (hours : ℕ)
    → (token_lifetime (pos hours) ≡ pos (hours * 3_600_000_000_000)) ↔ (hours ≤ 2_562_047)
unfolding token_lifetime
token_lifetime_iff hours = ground arith
