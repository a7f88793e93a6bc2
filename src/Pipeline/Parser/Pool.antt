-- ===== src/Pipeline/Parser/Pool.antt =====
-- The goroutines of `ParseFiles` in internal/pipeline/parser.go: one that feeds the paths, the workers,
-- one that closes the results, and the caller, which collects them. The two channels have no buffer,
-- so that a send and its receive are one step; the scheduler chooses the steps.
pub mod Termination
pub mod Invariant
pub mod Results
pub mod Progress
pub mod Cancel
mod Tests
use ping_goat.Common.{
  All, Bool, GoString, List, Option, [], false, none, some, suc, true, zero, ℕ, ◌++◌, ◌∷◌, ◌≡◌,
}
use ping_goat.Pipeline.Batcher.{ParsedFile}

-- The goroutine that feeds `pathCh`: the paths that it has not sent yet, and how it ends.
pub data Feeder : Type 0 where
  feeding : List GoString → Feeder
  -- It has closed the channel.
  closed : Feeder
  -- It has returned on `ctx.Done()`, and the channel is still open.
  gone : Feeder

-- Where a worker stands: in `range pathCh`, with a path that it reads, in the `select` with a result,
-- or returned.
pub data Worker : Type 0 where
  waiting : Worker
  reading : GoString → Worker
  sending : ParsedFile → Worker
  finished : Worker

-- The caller: it ranges over `resultCh`, which is open or closed, or has returned `results`.
pub data Caller : Type 0 where
  collecting drained returned : Caller

pub record Pool : Type 0 where
  pub feeder : Feeder
  pub workers : List Worker
  pub caller : Caller
  pub results : List ParsedFile
  pub cancelled : Bool

abbrev pub all_waiting : ℕ → List Worker
all_waiting zero = []
all_waiting (suc n) = waiting ∷ all_waiting n

-- All goroutines are started, and none has run yet. `range workers` starts none, if there are fewer
-- than one.
abbrev pub launch : List GoString → ℕ → Pool
launch paths n = record {
  feeder = feeding paths;
  workers = all_waiting n;
  caller = collecting;
  results = [];
  cancelled = false;
}

abbrev pub IsFinished : Worker → Type 0
IsFinished w = w ≡ finished

-- `parse` is what a worker makes of a path: nothing, if the file cannot be read.
pub data Step (parse : GoString → Option ParsedFile) (s t : Pool) : Type 0 where
  -- `pathCh <- path`, received by a worker.
  feed :
      (path : GoString) (paths : List GoString) (before after : List Worker)
      → s.feeder ≡ feeding (path ∷ paths)
      → s.workers ≡ before ++ waiting ∷ after
      → t ≡ record s { feeder = feeding paths; workers = before ++ reading path ∷ after }
      → Step parse s t
  -- `close(pathCh)`
  close_paths : s.feeder ≡ feeding [] → t ≡ record s { feeder = closed } → Step parse s t
  -- `case <-ctx.Done(): return` of the feeding goroutine.
  abandon :
      (path : GoString) (paths : List GoString)
      → s.feeder ≡ feeding (path ∷ paths)
      → s.cancelled ≡ true
      → t ≡ record s { feeder = gone }
      → Step parse s t
  -- The file is read.
  read :
      (path : GoString) (file : ParsedFile) (before after : List Worker)
      → s.workers ≡ before ++ reading path ∷ after
      → parse path ≡ some file
      → t ≡ record s { workers = before ++ sending file ∷ after }
      → Step parse s t
  -- The file cannot be read.
  skip :
      (path : GoString) (before after : List Worker)
      → s.workers ≡ before ++ reading path ∷ after
      → parse path ≡ none
      → t ≡ record s { workers = before ++ waiting ∷ after }
      → Step parse s t
  -- `resultCh <- pf`, received by the caller.
  deliver :
      (file : ParsedFile) (before after : List Worker)
      → s.workers ≡ before ++ sending file ∷ after
      → s.caller ≡ collecting
      → t ≡ record s { workers = before ++ waiting ∷ after; results = s.results ++ file ∷ [] }
      → Step parse s t
  -- `case <-ctx.Done(): return` of a worker.
  give_up :
      (file : ParsedFile) (before after : List Worker)
      → s.workers ≡ before ++ sending file ∷ after
      → s.cancelled ≡ true
      → t ≡ record s { workers = before ++ finished ∷ after }
      → Step parse s t
  -- `range pathCh` ends, when the channel is closed.
  finish :
      (before after : List Worker)
      → s.workers ≡ before ++ waiting ∷ after
      → s.feeder ≡ closed
      → t ≡ record s { workers = before ++ finished ∷ after }
      → Step parse s t
  -- `wg.Wait()`, and `close(resultCh)`.
  close_results :
      s.caller ≡ collecting
      → All IsFinished s.workers
      → t ≡ record s { caller = drained }
      → Step parse s t
  -- `range resultCh` ends.
  give_back : s.caller ≡ drained → t ≡ record s { caller = returned } → Step parse s t
  -- The context ends.
  cancel : s.cancelled ≡ false → t ≡ record s { cancelled = true } → Step parse s t

-- A run, with the number of its steps.
pub data Run (parse : GoString → Option ParsedFile) (s : Pool) : ℕ → Pool → Type 0 where
  here : Run parse s 0 s
  next : {n : ℕ} {t u : Pool} → Run parse s n t → Step parse t u → Run parse s (suc n) u
