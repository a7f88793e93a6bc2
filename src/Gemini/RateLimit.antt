-- ===== src/Gemini/RateLimit.antt =====
-- internal/gemini/ratelimit.go. Time is in nanoseconds since the limiter was made. Its ticker ticks at
-- each multiple of the interval; a tick that nobody has received is kept until the next receive, and
-- those behind it are dropped.
pub mod Pace
mod Tests
use ping_goat.Common.{
  Bool, List, Option, [], if◌then◌else◌, ltb, negsuc, none, pos, some, ℕ, ℤ, ◌*◌, ◌+◌, ◌/◌, ◌==◌,
  ◌||◌, ◌∷◌,
}

pub record RateLimiter : Type 0 where
  pub interval : ℕ
  -- When the last tick was received, or 0.
  pub taken : ℕ

-- How `Wait` returns, and when: with a tick, or with `ctx.Err()`.
pub data Waited : Type 0 where
  ticked cancelled : ℕ → Waited

-- time.Minute
abbrev pub minute : ℕ
minute = 60_000_000_000

-- `if rpm < 1 { rpm = 1 }`
abbrev pub at_least_one : ℤ → ℕ
at_least_one (pos n) = if n == 0 then 1 else n
at_least_one (negsuc n) = 1

-- `NewRateLimiter`: none, where time.NewTicker panics on an interval that is not positive.
unfoldable pub new_rate_limiter : ℤ → Option RateLimiter
new_rate_limiter rpm =
    let interval = minute / at_least_one rpm in
    if interval == 0 then none else some (record { interval = interval; taken = 0 })

-- When a receive that starts now gets a tick: at once, if there has been one since the last receive.
pub next_tick : RateLimiter → ℕ → ℕ
next_tick r now =
    if ltb (r.taken / r.interval) (now / r.interval)
    then now
    else (now / r.interval + 1) * r.interval

abbrev take_tick : RateLimiter → ℕ → Waited × RateLimiter
take_tick r t = (ticked t, record r { taken = t })

abbrev later : ℕ → ℕ → ℕ
later m n = if ltb m n then n else m

-- The `select`: the context ends at a time, or never, and if both are ready at once, either can win.
pub select_tick : RateLimiter → Bool → ℕ → ℕ → Waited × RateLimiter
select_tick r wins over due =
    if ltb over due
    then (cancelled over, r)
    else if ltb due over || wins
    then take_tick r due
    else (cancelled over, r)

-- `Wait`, called now.
unfoldable pub wait : RateLimiter → Option ℕ → Bool → ℕ → Waited × RateLimiter
unfolding next_tick select_tick
wait r none wins now = take_tick r (next_tick r now)
wait r (some done) wins now = select_tick r wins (later done now) (next_tick r now)

-- One call of `Wait`: how long after the return of the call before, when its context ends, and who wins
-- when both are ready.
pub record WaitCall : Type 0 where
  pub pause : ℕ
  pub done : Option ℕ
  pub wins : Bool

abbrev pub time_of : Waited → ℕ
time_of (ticked t) = t
time_of (cancelled t) = t

-- One call after the other, as `processJob` makes them.
pub wait_all : RateLimiter → ℕ → List WaitCall → List Waited
unfolding wait
wait_all r now [] = []
wait_all r now (c ∷ cs) =
    let (w, r') = wait r c.done c.wins (now + c.pause) in w ∷ wait_all r' (time_of w) cs

-- The times of the calls that have got a tick.
abbrev pub ticks_of : List Waited → List ℕ
ticks_of [] = []
ticks_of (ticked t ∷ ws) = t ∷ ticks_of ws
ticks_of (cancelled t ∷ ws) = ticks_of ws
