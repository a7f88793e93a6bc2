-- ===== src/Pipeline/Parser/Pool/Progress.antt =====
-- The goroutines of internal/pipeline/parser.go come to an end, when their context does not.
use ping_goat.Common.{
  All, GoString, List, Option, Option-cases, [], ap, arith, false, inl, inr, length, refl, suc,
  zero, ℕ, ◌*◌, ◌++◌, ◌+◌, ◌<◌, ◌∷◌, ◌≡◌, ◌≢◌, ◌⊎◌,
}
use ping_goat.Pipeline.Batcher.{ParsedFile}
use ping_goat.Pipeline.Parser.Pool.{
  here, finish, feed, deliver, close_paths, close_results, read, closed, skip, feeding, drained,
  next, IsFinished, sending, collecting, give_back, launch, waiting, returned, gone, finished,
  reading, Run, Step, Caller, Feeder, Worker, Pool,
}
use ping_goat.Pipeline.Parser.Pool.Termination.{Run-bounded}
use ping_goat.Pipeline.Parser.Pool.Results.{IsLive, Run-IsLive, launch-IsLive}

-- A step after which the context still lives.
abbrev pub LiveStep : (GoString → Option ParsedFile) → Pool → Type 0
LiveStep parse s = (t : Pool) × Step parse s t × (t.cancelled ≡ false)

-- Some worker has not returned, or all have.
abbrev Found : List Worker → Type 0
Found ws =
    ((before : List Worker) × (w : Worker) × (after : List Worker) × (ws ≡ before ++ w ∷ after)
      × (w ≢ finished))
    ⊎ All IsFinished ws

Found-more : (w : Worker) (ws : List Worker) → w ≡ finished → Found ws → Found (w ∷ ws)
Found-more w ws e (inl (before, v, after, at, runs)) =
    inl (w ∷ before, v, after, ap (λ l. w ∷ l) at, runs)
Found-more w ws e (inr all) = inr (e, all)

find_worker : (ws : List Worker) → Found ws
find_worker [] = inr tt
find_worker (waiting ∷ ws) = inl ([], waiting, ws, refl, λ e. cc)
find_worker (reading path ∷ ws) = inl ([], reading path, ws, refl, λ e. cc)
find_worker (sending file ∷ ws) = inl ([], sending file, ws, refl, λ e. cc)
find_worker (finished ∷ ws) = Found-more finished ws refl (find_worker ws)

module _ (parse : GoString → Option ParsedFile) where
  -- A worker that waits has a path, or the end of the paths, before it.
  waiting_steps :
      (feeder : Feeder) (s : Pool) (before after : List Worker)
      → s.feeder ≡ feeder
      → s.feeder ≢ gone
      → s.workers ≡ before ++ waiting ∷ after
      → s.cancelled ≡ false
      → LiveStep parse s
  waiting_steps (feeding []) s before after e there at live =
      (record s { feeder = closed }, close_paths e refl, live)
  waiting_steps (feeding (path ∷ paths)) s before after e there at live = (
    record s { feeder = feeding paths; workers = before ++ reading path ∷ after },
    feed path paths before after e at refl,
    live,
  )
  waiting_steps closed s before after e there at live =
      (record s { workers = before ++ finished ∷ after }, finish before after at e refl, live)
  waiting_steps gone s before after e there at live = absurd (there e)

  worker_steps :
      (s : Pool) (before : List Worker) (w : Worker) (after : List Worker)
      → s.workers ≡ before ++ w ∷ after
      → w ≢ finished
      → s.feeder ≢ gone
      → s.caller ≡ collecting
      → s.cancelled ≡ false
      → LiveStep parse s
  worker_steps s before waiting after at runs there open_ live =
      waiting_steps s.feeder s before after refl there at live
  worker_steps s before (reading path) after at runs there open_ live =
      elim (Option-cases (parse path)) [
        | inl none_read ↦ (
          record s { workers = before ++ waiting ∷ after },
          skip path before after at none_read refl,
          live,
        )
        | inr (file, e) ↦ (
          record s { workers = before ++ sending file ∷ after },
          read path file before after at e refl,
          live,
        )
      ]
  worker_steps s before (sending file) after at runs there open_ live = (
    record s { workers = before ++ waiting ∷ after; results = s.results ++ file ∷ [] },
    deliver file before after at open_ refl,
    live,
  )
  worker_steps s before finished after at runs there open_ live = absurd (runs refl)

  caller_steps :
      (caller : Caller) (s : Pool)
      → s.caller ≡ caller
      → s.caller ≢ returned
      → s.feeder ≢ gone
      → s.cancelled ≡ false
      → LiveStep parse s
  caller_steps returned s e still there live = absurd (still e)
  caller_steps drained s e still there live =
      (record s { caller = returned }, give_back e refl, live)
  caller_steps collecting s e still there live = elim (find_worker s.workers) [
    | inl (before, w, after, at, runs) ↦ worker_steps s before w after at runs there e live
    | inr all ↦ (record s { caller = drained }, close_results e all refl, live)
  ]

  -- The pool is never stuck while the context lives.
  live_step :
      (n : ℕ) (s : Pool) → IsLive n s → s.cancelled ≡ false → s.caller ≢ returned → LiveStep parse s
  live_step n s h live still = caller_steps s.caller s refl still h.feeds live

-- The pool returns from here, and its context has not ended by then.
abbrev pub Returns : (GoString → Option ParsedFile) → Pool → Type 0
Returns parse s =
    (k : ℕ) × (t : Pool) × Run parse s k t × (t.caller ≡ returned) × (t.cancelled ≡ false)

is_returned : (c : Caller) → (c ≡ returned) ⊎ (c ≢ returned)
is_returned collecting = inr (λ e. cc)
is_returned drained = inr (λ e. cc)
is_returned returned = inl refl

Run-front :
    {parse : GoString → Option ParsedFile} {s t u : Pool} {k : ℕ}
    → Step parse s t
    → Run parse t k u
    → Run parse s (suc k) u
Run-front step here = next here step
Run-front step (next run last) = next (Run-front step run) last

module _ (parse : GoString → Option ParsedFile) (paths : List GoString) (n : ℕ) where
  -- A run goes on until it has returned; the steps that are left bound how far.
  goes_on :
      (fuel : ℕ) {k : ℕ} (s : Pool)
      → 4 * length paths + n + 4 < k + fuel
      → Run parse (launch paths n) k s
      → s.cancelled ≡ false
      → Returns parse s
  goes_on zero s bound run live = absurd (omega (arith, Run-bounded paths n run))
  goes_on (suc fuel) {k} s bound run live = elim (is_returned s.caller) [
    | inl back ↦ (0, s, here, back, live)
    | inr still ↦
        let (t, step, live') =
          live_step parse n s (Run-IsLive n run live (launch-IsLive paths n)) live still in
        let (m, u, rest, back, live'') = goes_on fuel t (omega arith) (next run step) live' in
        (suc m, u, Run-front step rest, back, live'')
  ]

  -- `ParseFiles` returns: from every state that a run has reached, as long as its context lives,
  -- further steps lead to the return, for any number of workers and paths, whatever the scheduler has
  -- chosen so far.
  pub parse_files-Returns :
      {k : ℕ} (s : Pool) → Run parse (launch paths n) k s → s.cancelled ≡ false → Returns parse s
  parse_files-Returns s run live = goes_on (4 * length paths + n + 5) s (omega arith) run live
