-- ===== src/Gemini/RateLimit/Tests.antt =====
-- Ten calls a minute: one tick every six seconds.
use ping_goat.Common.{List, [], ap, none, pos, refl, some, true, ◌*◌, ◌+◌, ◌/◌, ◌<◌, ◌↔◌, ◌∷◌, ◌≡◌}
use ping_goat.Gemini.RateLimit.{
  cancelled, ticked, select_tick, next_tick, wait, ticks_of, WaitCall, new_rate_limiter,
  RateLimiter, wait_all,
}
use ping_goat.Gemini.RateLimit.Pace.{new_rate_limiter_iff, wait_all_spread}

abbrev limiter : RateLimiter
limiter = record { interval = 6_000_000_000; taken = 0 }

-- The first call waits for a tick, the second comes late and finds one, the third gets the next one, and
-- the context of the last ends before its tick.
abbrev calls : List WaitCall
calls =
    record { pause = 1; done = none; wins = true }
    ∷ record { pause = 11_000_000_000; done = none; wins = true }
    ∷ record { pause = 0; done = none; wins = true }
    ∷ record { pause = 0; done = some 18_000_000_001; wins = true }
    ∷ []

outcome :
    wait_all limiter 0 calls
    ≡ ticked 6_000_000_000
      ∷ ticked 17_000_000_000
      ∷ ticked 18_000_000_000
      ∷ cancelled 18_000_000_001
      ∷ []
unfolding wait_all wait next_tick select_tick
outcome = refl

wait_all_spread_example : 6_000_000_000 + 1 * (60_000_000_000 / 10) < 18_000_000_000
unfolding new_rate_limiter
wait_all_spread_example =
    wait_all_spread (pos 10) limiter calls [] (17_000_000_000 ∷ []) [] 6_000_000_000 18_000_000_000
      refl (ap ticks_of outcome)

new_rate_limiter_iff_example : (new_rate_limiter (pos 10) ≡ none) ↔ (60_000_000_000 < 10)
new_rate_limiter_iff_example = new_rate_limiter_iff 10
