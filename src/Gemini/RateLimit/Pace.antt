-- ===== src/Gemini/RateLimit/Pace.antt =====
-- How fast internal/gemini/ratelimit.go lets calls through.
use mathlib.Core.Option.{some-injective}
use mathlib.Core.Path.{subst}
use native.Mathlib.Nat.{
  div-lt_iff_lt-mul, le-div_iff_mul-le, add-mul, mul-div_cancel, div-mul-le_self, lt-div-mul-add,
}
use ping_goat.Common.{
  Bool, Bool-cases, List, Option, [], ap, arith, inl, inr, length, ltb, none, pos, refl, some, suc,
  sym, zero, ℕ, ℤ, ◌*◌, ◌++◌, ◌+◌, ◌/◌, ◌<◌, ◌==◌, ◌||◌, ◌↔◌, ◌∙◌, ◌∷◌, ◌≡◌, ◌≤◌,
}
use ping_goat.Gemini.RateLimit.{
  time_of, cancelled, at_least_one, ticked, ticks_of, WaitCall, wait_all, select_tick, next_tick,
  wait, Waited, RateLimiter, new_rate_limiter, minute,
}

-- Making a limiter for a rate that is not negative panics exactly when the rate is over one call a
-- nanosecond: then the interval is 0.
pub new_rate_limiter_iff : (n : ℕ) → (new_rate_limiter (pos n) ≡ none) ↔ (60_000_000_000 < n)
unfolding new_rate_limiter
new_rate_limiter_iff zero = ground arith
new_rate_limiter_iff (suc n) =
    ground (arith, div-lt_iff_lt-mul {k = suc n} {x = 60_000_000_000} {y = 1} (omega arith))

-- Each tick is of a later period than the one before.
abbrev Rising : ℕ → ℕ → List ℕ → Type 0
Rising interval b [] = Unit
Rising interval b (t ∷ ts) = (b < t / interval) × Rising interval (t / interval) ts

-- The call ends no earlier than it starts, and what it leaves of the limiter.
abbrev Goes : RateLimiter → ℕ → Waited × RateLimiter → Type 0
Goes r now (ticked t, r') =
    (now ≤ t) × (r.taken / r.interval < t / r.interval) × (r' ≡ record r { taken = t })
Goes r now (cancelled t, r') = (now ≤ t) × (r' ≡ r)

module _ (r : RateLimiter) (some_time : 0 < r.interval) where
  next_tick_bounds :
      (now : ℕ)
      → r.taken ≤ now
      → (now ≤ next_tick r now) × (r.taken / r.interval < next_tick r now / r.interval)
  unfolding next_tick
  next_tick_bounds now h =
      let mono =
        (le-div_iff_mul-le {k = r.interval} {x = r.taken / r.interval} {y = now} some_time).1
          (omega (arith, h, div-mul-le_self r.taken r.interval)) in
      let gap = lt-div-mul-add {a = now} some_time in
      let cancel = mul-div_cancel (now / r.interval + 1) some_time in
      let distrib = add-mul (now / r.interval) 1 r.interval in
      ground (arith, mono, gap, cancel, distrib)

  select_tick-Goes :
      (now : ℕ) (wins : Bool) (over due : ℕ)
      → now ≤ over
      → now ≤ due
      → r.taken / r.interval < due / r.interval
      → Goes r now (select_tick r wins over due)
  unfolding select_tick
  select_tick-Goes now wins over due h k l = elim (Bool-cases (ltb over due)) [
    | inl early ↦ rw early (h, refl)
    | inr not_early ↦ elim (Bool-cases (ltb due over || wins)) [
      | inl tick ↦ rw (not_early, tick) (k, l, refl)
      | inr ends ↦ rw (not_early, ends) (h, refl)
    ]
  ]

  wait-Goes :
      (now : ℕ) (done : Option ℕ) (wins : Bool) → r.taken ≤ now → Goes r now (wait r done wins now)
  unfolding wait
  wait-Goes now none wins h = let (a, b) = next_tick_bounds now h in (a, b, refl)
  wait-Goes now (some done) wins h =
      let (a, b) = next_tick_bounds now h in
      select_tick-Goes now wins _ (next_tick r now) (ground arith) a b

Rising-length :
    (interval b : ℕ) (mid after : List ℕ) (u : ℕ)
    → Rising interval b (mid ++ u ∷ after)
    → b + length mid < u / interval
Rising-length interval b [] after u h = omega (arith, h.0)
Rising-length interval b (t ∷ mid) after u h =
    omega (arith, h.0, Rising-length interval (t / interval) mid after u h.1)

Rising-between :
    (interval b : ℕ) (before mid after : List ℕ) (t u : ℕ)
    → Rising interval b (before ++ t ∷ (mid ++ u ∷ after))
    → t / interval + length mid < u / interval
Rising-between interval b [] mid after t u h = Rising-length interval (t / interval) mid after u h.1
Rising-between interval b (s ∷ before) mid after t u h =
    Rising-between interval (s / interval) before mid after t u h.1

-- The calls from a state of the limiter on, once its last tick is taken.
abbrev GoesOn : List WaitCall → Type 0
GoesOn calls =
    (r : RateLimiter) (now : ℕ)
    → 0 < r.interval
    → r.taken ≤ now
    → Rising r.interval (r.taken / r.interval) (ticks_of (wait_all r now calls))

first_call :
    (cs : List WaitCall) (r : RateLimiter) (now : ℕ) (out : Waited × RateLimiter)
    → 0 < r.interval
    → r.taken ≤ now
    → Goes r now out
    → GoesOn cs
    → Rising r.interval
        (r.taken / r.interval)
        (ticks_of (out.0 ∷ wait_all out.1 (time_of out.0) cs))
first_call cs r now (ticked t, r') i h (le, later, same) rest =
    rw same (later, rest (record r { taken = t }) t i (omega arith))
first_call cs r now (cancelled t, r') i h (le, same) rest = rw same (rest r t i (omega arith))

wait_all-Rising : (calls : List WaitCall) → GoesOn calls
unfolding wait_all
wait_all-Rising [] r now i h = tt
wait_all-Rising (c ∷ cs) r now i h =
    first_call cs r (now + c.pause) (wait r c.done c.wins (now + c.pause)) i (omega arith)
      (wait-Goes r i (now + c.pause) c.done c.wins (omega arith)) (wait_all-Rising cs)

made_of :
    (rpm : ℤ) (r : RateLimiter)
    → new_rate_limiter rpm ≡ some r
    → (0 < minute / at_least_one rpm)
      × (r ≡ record { interval = minute / at_least_one rpm; taken = 0 })
unfolding new_rate_limiter
made_of rpm r made = elim (Bool-cases (minute / at_least_one rpm == 0)) [
  | inl never ↦ let none_made = rw never at made in cc
  | inr some_time ↦ (ground arith, sym (some-injective _ _ (rw some_time at made)))
]

-- Between two calls that get a tick, with k others that get one in between, more than k intervals pass
-- (a minute over the rate, rounded down), however the calls are spread and whatever their contexts do.
pub wait_all_spread :
    (rpm : ℤ) (r : RateLimiter) (calls : List WaitCall) (before mid after : List ℕ) (t u : ℕ)
    → new_rate_limiter rpm ≡ some r
    → ticks_of (wait_all r 0 calls) ≡ before ++ t ∷ (mid ++ u ∷ after)
    → t + length mid * (minute / at_least_one rpm) < u
unfolding new_rate_limiter
wait_all_spread rpm r calls before mid after t u made e =
    let interval : ℕ = minute / at_least_one rpm in
    let (some_time, same) = made_of rpm r made in
    let rising =
      wait_all-Rising calls (record { interval = interval; taken = 0 }) 0 some_time (omega arith) in
    let runs : ticks_of (wait_all (record { interval = interval; taken = 0 }) 0 calls)
        ≡ before ++ t ∷ (mid ++ u ∷ after) =
      ap (λ l. ticks_of (wait_all l 0 calls)) (sym same) ∙ e in
    let periods =
      Rising-between interval (0 / interval) before mid after t u
        (subst (Rising interval (0 / interval)) runs rising) in
    let gap = lt-div-mul-add {a = t} some_time in
    let reached =
      (le-div_iff_mul-le {k = interval} {x = t / interval + length mid + 1} {y = u} some_time).0
        (omega (arith, periods)) in
    let distrib = add-mul (t / interval + length mid) 1 interval in
    let distrib' = add-mul (t / interval) (length mid) interval in
    omega (arith, gap, reached, distrib, distrib')
