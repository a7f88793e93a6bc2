-- ===== src/Pipeline/Parser/Pool/Termination.antt =====
-- How long a run of the goroutines of internal/pipeline/parser.go can last.
use ping_goat.Common.{
  Bool, GoString, List, Option, [], arith, false, length, refl, suc, true, zero, ℕ, ◌*◌, ◌++◌, ◌+◌,
  ◌<◌, ◌∷◌, ◌≡◌, ◌≤◌,
}
use ping_goat.Pipeline.Batcher.{ParsedFile}
use ping_goat.Pipeline.Parser.Pool.{
  cancel, give_back, close_results, finish, give_up, deliver, skip, read, abandon, close_paths,
  finished, here, returned, gone, waiting, feed, drained, launch, sending, next, closed, Run,
  reading, feeding, collecting, Step, Feeder, Worker, Caller, Pool, all_waiting,
}

-- How much a goroutine can still do at most.
abbrev feeder_work : Feeder → ℕ
feeder_work (feeding paths) = 4 * length paths + 1
feeder_work closed = 0
feeder_work gone = 0

abbrev worker_work : Worker → ℕ
worker_work waiting = 1
worker_work (reading path) = 4
worker_work (sending file) = 3
worker_work finished = 0

workers_work : List Worker → ℕ
workers_work [] = 0
workers_work (w ∷ ws) = worker_work w + workers_work ws

abbrev caller_work : Caller → ℕ
caller_work collecting = 2
caller_work drained = 1
caller_work returned = 0

abbrev cancel_work : Bool → ℕ
cancel_work true = 0
cancel_work false = 1

work : Pool → ℕ
unfolding workers_work
work s =
    feeder_work s.feeder + workers_work s.workers + caller_work s.caller + cancel_work s.cancelled

workers_work-at :
    (before after : List Worker) (w : Worker)
    → workers_work (before ++ w ∷ after) ≡ workers_work before + worker_work w + workers_work after
unfolding workers_work
workers_work-at [] after w = omega arith
workers_work-at (b ∷ before) after w = omega (arith, workers_work-at before after w)

-- Every step leaves less to do.
Step-work : {parse : GoString → Option ParsedFile} {s t : Pool} → Step parse s t → work t < work s
unfolding work
Step-work (feed path paths before after e f g) =
    rw (g, e, f)
      (omega
        (arith, workers_work-at before after waiting, workers_work-at before after (reading path)))
Step-work (close_paths e g) = rw (g, e) (omega arith)
Step-work (abandon path paths e c g) = rw (g, e) (omega arith)
Step-work (read path file before after e f g) =
    rw (g, e)
      (omega (
        arith,
        workers_work-at before after (reading path),
        workers_work-at before after (sending file),
      ))
Step-work (skip path before after e f g) =
    rw (g, e)
      (omega
        (arith, workers_work-at before after (reading path), workers_work-at before after waiting))
Step-work (deliver file before after e c g) =
    rw (g, e)
      (omega
        (arith, workers_work-at before after (sending file), workers_work-at before after waiting))
Step-work (give_up file before after e c g) =
    rw (g, e)
      (omega
        (arith, workers_work-at before after (sending file), workers_work-at before after finished))
Step-work (finish before after e c g) =
    rw (g, e)
      (omega (arith, workers_work-at before after waiting, workers_work-at before after finished))
Step-work (close_results c done g) = rw (g, c) (omega arith)
Step-work (give_back c g) = rw (g, c) (omega arith)
Step-work (cancel c g) = rw (g, c) (omega arith)

workers_work-launch : (n : ℕ) → workers_work (all_waiting n) ≡ n
unfolding workers_work
workers_work-launch zero = refl
workers_work-launch (suc n) = omega (arith, workers_work-launch n)

Run-work :
    {parse : GoString → Option ParsedFile} {s t : Pool} {k : ℕ}
    → Run parse s k t
    → k + work t ≤ work s
Run-work here = omega arith
Run-work (next run step) = omega (arith, Run-work run, Step-work step)

-- No run of `ParseFiles` goes on for ever: with n workers it has at most 4 steps for each path, one for
-- each worker, and 4 more, whether the context ends or not.
pub Run-bounded :
    {parse : GoString → Option ParsedFile} (paths : List GoString) (n : ℕ) {k : ℕ} {s : Pool}
    → Run parse (launch paths n) k s
    → k ≤ 4 * length paths + n + 4
unfolding work
Run-bounded paths n run = omega (arith, Run-work run, workers_work-launch n)
