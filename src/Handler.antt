-- ===== src/Handler.antt =====
-- internal/handler
pub mod Jobs
pub mod Auth
pub mod Respond
use ping_goat.Common.{GoString, Option, none, some, ℕ}
use ping_goat.Session.{Exec, pure, raise}
use ping_goat.Http.{Response, respond_with_error}

-- A value, or an early return with an error response.
abbrev pub or_respond : {A : Type 0} → Option A → ℕ → GoString → Exec Response A
or_respond none code msg = raise (respond_with_error code msg)
or_respond (some a) code msg = pure a
