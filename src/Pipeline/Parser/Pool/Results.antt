-- ===== src/Pipeline/Parser/Pool/Results.antt =====
-- What internal/pipeline/parser.go returns, when its context has not ended.
use mathlib.Core.List.Perm
use mathlib.Core.Path.{subst}
use ping_goat.Common.{
  All, All-at, All-set, GoString, List, Option, Perm, [], ap, append-nil, arith, false, inl, inr,
  length, length-set, refl, suc, sym, zero, ℕ, ◌++◌, ◌<◌, ◌∙◌, ◌∷◌, ◌≡◌, ◌≢◌, ◌⊎◌,
}
use ping_goat.Pipeline.Batcher.{ParsedFile}
use ping_goat.Pipeline.Parser.Pool.{
  returned, cancel, give_back, close_results, finish, give_up, deliver, sending, skip, read,
  abandon, reading, close_paths, here, waiting, feed, next, Step, Run, IsFinished, collecting,
  closed, finished, gone, launch, all_waiting, Pool, Worker,
}
use ping_goat.Pipeline.Parser.Pool.Invariant.{IsRunning, Step-content, content, in_hand}
use ping_goat.Pipeline.Parser.{parse_all, parse_file, Disk, parse_files}

-- While the context lives: the feeding goroutine has not gone, a worker returns only behind the close
-- of the paths, and the results are closed only behind all workers.
pub record IsLive (n : ℕ) (s : Pool) : Type 0 where
  pub feeds : s.feeder ≢ gone
  pub busy : (s.feeder ≡ closed) ⊎ All IsRunning s.workers
  pub over : (s.caller ≡ collecting) ⊎ All IsFinished s.workers
  pub count : length s.workers ≡ n

all_waiting-All-IsRunning : (n : ℕ) → All IsRunning (all_waiting n)
all_waiting-All-IsRunning zero = tt
all_waiting-All-IsRunning (suc n) = ((λ e. cc), all_waiting-All-IsRunning n)

length-all_waiting : (n : ℕ) → length (all_waiting n) ≡ n
length-all_waiting zero = refl
length-all_waiting (suc n) = omega (arith, length-all_waiting n)

pub launch-IsLive : (paths : List GoString) (n : ℕ) → IsLive n (launch paths n)
launch-IsLive paths n = record {
  feeds = λ e. cc;
  busy = inr (all_waiting-All-IsRunning n);
  over = inl refl;
  count = length-all_waiting n;
}

-- A worker that goes on keeps it, as long as the rest of the pool is as it was.
worker-IsLive :
    (n : ℕ) (s t : Pool) (before after : List Worker) (w w' : Worker)
    → s.workers ≡ before ++ w ∷ after
    → t.workers ≡ before ++ w' ∷ after
    → w ≢ finished
    → (t.feeder ≡ closed) ⊎ (w' ≢ finished)
    → t.feeder ≢ gone
    → ((s.feeder ≡ closed) → t.feeder ≡ closed)
    → t.caller ≡ s.caller
    → IsLive n s
    → IsLive n t
worker-IsLive n s t before after w w' e f on later feeds shut same h = record {
  feeds = feeds;
  busy = elim later [
    | inl c ↦ inl c
    | inr runs ↦ elim h.busy [
      | inl c ↦ inl (shut c)
      | inr all ↦ inr (rw f (All-set IsRunning before after w w' runs (rw (← e) all)))
    ]
  ];
  over = elim h.over [
    | inl c ↦ inl (same ∙ c)
    | inr all ↦ absurd (on (All-at IsFinished before after w (rw (← e) all)))
  ];
  count = ap length f ∙ length-set before after w' w ∙ ap length (sym e) ∙ h.count;
}

Step-IsLive :
    {parse : GoString → Option ParsedFile} (n : ℕ) {s t : Pool}
    → s.cancelled ≡ false
    → Step parse s t
    → IsLive n s
    → IsLive n t
Step-IsLive n {s} live (feed path paths before after e f g) h = rw g (
    worker-IsLive n s _ before after waiting (reading path) f refl (λ p. cc) (inr (λ p. cc))
      (λ p. cc) (λ c. cc) refl h)
Step-IsLive n {s} live (close_paths e g) h =
    rw g (record { feeds = λ p. cc; busy = inl refl; over = h.over; count = h.count })
Step-IsLive n live (abandon path paths e c g) h = cc
Step-IsLive n {s} live (read path file before after e f g) h = rw g (
    worker-IsLive n s _ before after (reading path) (sending file) e refl (λ p. cc) (inr (λ p. cc))
      h.feeds (λ c. c) refl h)
Step-IsLive n {s} live (skip path before after e f g) h = rw g (
    worker-IsLive n s _ before after (reading path) waiting e refl (λ p. cc) (inr (λ p. cc)) h.feeds
      (λ c. c) refl h)
Step-IsLive n {s} live (deliver file before after e c g) h = rw g (
    worker-IsLive n s _ before after (sending file) waiting e refl (λ p. cc) (inr (λ p. cc)) h.feeds
      (λ c. c) refl h)
Step-IsLive n live (give_up file before after e c g) h = cc
Step-IsLive n {s} live (finish before after e c g) h = rw g (
    worker-IsLive n s _ before after waiting finished e refl (λ p. cc) (inl c) h.feeds (λ c. c) refl
      h)
Step-IsLive n live (close_results c done g) h =
    rw g (record { feeds = h.feeds; busy = h.busy; over = inr done; count = h.count })
Step-IsLive n live (give_back c g) h = rw g (record {
  feeds = h.feeds;
  busy = h.busy;
  over = inr (elim h.over [ inl o ↦ cc | inr all ↦ all ]);
  count = h.count;
})
Step-IsLive n live (cancel c g) h =
    rw g (record { feeds = h.feeds; busy = h.busy; over = h.over; count = h.count })

carry : {t u : Pool} → t ≡ u → t.cancelled ≡ false → u.cancelled ≡ false
carry g h = sym (ap (λ (v : Pool). v.cancelled) g) ∙ h

-- A context that has ended stays so.
pub Step-cancelled :
    {parse : GoString → Option ParsedFile} {s t : Pool}
    → Step parse s t
    → t.cancelled ≡ false
    → s.cancelled ≡ false
Step-cancelled {s} (feed path paths before after e f g) h = carry g h
Step-cancelled (close_paths e g) h = carry g h
Step-cancelled (abandon path paths e c g) h = carry g h
Step-cancelled (read path file before after e f g) h = carry g h
Step-cancelled (skip path before after e f g) h = carry g h
Step-cancelled (deliver file before after e c g) h = carry g h
Step-cancelled (give_up file before after e c g) h = carry g h
Step-cancelled (finish before after e c g) h = carry g h
Step-cancelled (close_results c done g) h = carry g h
Step-cancelled (give_back c g) h = carry g h
Step-cancelled (cancel c g) h = c

pub Run-IsLive :
    {parse : GoString → Option ParsedFile} (n : ℕ) {s t : Pool} {k : ℕ}
    → Run parse s k t
    → t.cancelled ≡ false
    → IsLive n s
    → IsLive n t
Run-IsLive n here live h = h
Run-IsLive n (next run step) live h =
    let before = Step-cancelled step live in Step-IsLive n before step (Run-IsLive n run before h)

Run-content :
    {parse : GoString → Option ParsedFile} {s t : Pool} {k : ℕ}
    → Run parse s k t
    → t.cancelled ≡ false
    → Perm (content parse t) (content parse s)
Run-content here live = Perm.refl _
Run-content {parse} (next run step) live =
    let before = Step-cancelled step live in
    Perm.trans (Step-content parse before step) (Run-content run before)

in_hand-launch : (parse : GoString → Option ParsedFile) (n : ℕ) → in_hand parse (all_waiting n) ≡ []
in_hand-launch parse zero = refl
in_hand-launch parse (suc n) = in_hand-launch parse n

in_hand-IsFinished :
    (parse : GoString → Option ParsedFile) (ws : List Worker)
    → All IsFinished ws
    → in_hand parse ws ≡ []
in_hand-IsFinished parse [] h = refl
in_hand-IsFinished parse (w ∷ ws) h = rw (h.0, in_hand-IsFinished parse ws h.1) refl

none_left : (ws : List Worker) → All IsRunning ws → All IsFinished ws → length ws ≡ 0
none_left [] runs done = refl
none_left (w ∷ ws) runs done = absurd (runs.0 done.0)

-- With a worker at all, the paths are closed once all have returned.
over_closed :
    (n : ℕ) (s : Pool)
    → 0 < n
    → s.caller ≢ collecting
    → IsLive n s
    → (s.feeder ≡ closed) × All IsFinished s.workers
over_closed n s some_worker not_open h =
    let done : All IsFinished s.workers = elim h.over [
      | inl o ↦ absurd (not_open o)
      | inr all ↦ all
    ] in
    elim h.busy [
      | inl c ↦ (c, done)
      | inr runs ↦ absurd (omega (arith, none_left s.workers runs done, h.count))
    ]

-- With one worker at least, and a context that has not ended, what `ParseFiles` has returned is what
-- the files give that can be read, each once, in the order that the scheduler has chosen: it is
-- `parse_files` for some order of arrival.
pub parse_files_results :
    (disk : Disk) (root : GoString) (paths : List GoString) (n : ℕ) {k : ℕ} {s : Pool}
    → 0 < n
    → Run (parse_file disk.read_file disk.rel root) (launch paths n) k s
    → s.cancelled ≡ false
    → s.caller ≡ returned
    → Perm s.results (parse_files disk root paths)
unfolding parse_files
parse_files_results disk root paths n {s} some_worker run live back =
    let parse = parse_file disk.read_file disk.rel root in
    let (c, done) =
      over_closed n s some_worker (λ o. cc) (Run-IsLive n run live (launch-IsLive paths n)) in
    let at_end : content parse s ≡ s.results =
      rw (c, in_hand-IsFinished parse s.workers done) (append-nil s.results) in
    let at_start : content parse (launch paths n) ≡ parse_all parse paths =
      rw (in_hand-launch parse n) refl in
    Perm.trans
      (subst (λ l. Perm l (parse_all parse paths)) at_end
        (subst (λ l. Perm (content parse s) l) at_start (Run-content run live)))
      (Perm.symm (disk.arrival-perm (parse_all parse paths)))
