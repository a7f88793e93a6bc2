-- ===== src/Handler/Respond.antt =====
-- How the handlers return early.
use ping_goat.Common.{GoString, Option, none, refl, some, ℕ, ◌≡◌}
use ping_goat.Session.{Shared}
use ping_goat.Session.Keeps.{Ensures, Ensures-pure, Ensures-raise}
use ping_goat.Http.{respond_with_error}
use ping_goat.Handler.{or_respond}

module _ (P : Shared → Type 0) where
  pub or_respond-Ensures :
      {A : Type 0} (o : Option A) (code : ℕ) (msg : GoString)
      → Ensures P (λ a. o ≡ some a) (or_respond o code msg)
  or_respond-Ensures none code msg = Ensures-raise P (respond_with_error code msg)
  or_respond-Ensures (some a) code msg = Ensures-pure P a refl
