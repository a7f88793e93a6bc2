-- ===== src/Pipeline/Parser/Pool/Cancel.antt =====
-- What the end of the context does to the goroutines of internal/pipeline/parser.go.
use ping_goat.Common.{
  All, All-at, GoString, List, Option, [], arith, refl, suc, true, zero, ℕ, ◌++◌, ◌<◌, ◌∷◌, ◌≡◌,
  ◌≢◌,
}
use mathlib.Core.Path.{subst}
use ping_goat.Pipeline.Batcher.{ParsedFile}
use ping_goat.Pipeline.Parser.Pool.{
  give_back, close_results, finish, give_up, sending, deliver, cancel, skip, here, next, reading,
  returned, read, launch, abandon, collecting, Step, gone, close_paths, waiting, Run, IsFinished,
  Worker, feed, all_waiting, Pool,
}

-- Nothing can happen any more.
abbrev pub IsStuck : (GoString → Option ParsedFile) → Pool → Type 0
IsStuck parse s = (t : Pool) → Step parse s t → ⊥

-- The feeding goroutine has returned without closing the channel, and every worker waits for a path.
abbrev hung : ℕ → Pool
hung n = record {
  feeder = gone;
  workers = all_waiting n;
  caller = collecting;
  results = [];
  cancelled = true;
}

abbrev IsWaiting : Worker → Type 0
IsWaiting w = w ≡ waiting

all_waiting-IsWaiting : (n : ℕ) → All IsWaiting (all_waiting n)
all_waiting-IsWaiting zero = tt
all_waiting-IsWaiting (suc n) = (refl, all_waiting-IsWaiting n)

only_waiting :
    (n : ℕ) (before after : List Worker) (w : Worker)
    → all_waiting n ≡ before ++ w ∷ after
    → w ≡ waiting
only_waiting n before after w e =
    All-at IsWaiting before after w (subst (All IsWaiting) e (all_waiting-IsWaiting n))

not_over : (n : ℕ) → 0 < n → All IsFinished (all_waiting n) → ⊥
not_over zero h all = omega arith
not_over (suc n) h all = let e = all.0 in cc

hung-IsStuck : (parse : GoString → Option ParsedFile) (n : ℕ) → 0 < n → IsStuck parse (hung n)
hung-IsStuck parse n h t (feed path paths before after e f g) = cc
hung-IsStuck parse n h t (close_paths e g) = cc
hung-IsStuck parse n h t (abandon path paths e c g) = cc
hung-IsStuck parse n h t (read path file before after e f g) =
    let same = only_waiting n before after (reading path) e in cc
hung-IsStuck parse n h t (skip path before after e f g) =
    let same = only_waiting n before after (reading path) e in cc
hung-IsStuck parse n h t (deliver file before after e c g) =
    let same = only_waiting n before after (sending file) e in cc
hung-IsStuck parse n h t (give_up file before after e c g) =
    let same = only_waiting n before after (sending file) e in cc
hung-IsStuck parse n h t (finish before after e c g) = cc
hung-IsStuck parse n h t (close_results c done g) = absurd (not_over n h done)
hung-IsStuck parse n h t (give_back c g) = cc
hung-IsStuck parse n h t (cancel c g) = cc

-- Once its context ends, `ParseFiles` can hang: for any path at all and any positive number of workers
-- there is a run after which it has not returned and nothing can happen any more.
pub parse_files_hangs :
    (parse : GoString → Option ParsedFile) (path : GoString) (paths : List GoString) (n : ℕ)
    → 0 < n
    → (k : ℕ) × (s : Pool) × Run parse (launch (path ∷ paths) n) k s
      × (s.caller ≢ returned)
      × IsStuck parse s
parse_files_hangs parse path paths n h = (
  2,
  hung n,
  next (next here (cancel refl refl)) (abandon path paths refl refl refl),
  (λ e. cc),
  hung-IsStuck parse n h,
)
