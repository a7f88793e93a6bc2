-- ===== src/Pipeline/Workers/Protocol.antt =====
-- How the statements of internal/pipeline/worker.go and store.go move one worker of the crew.
use ping_goat.Common.{
  Bool, Bool-cases, List, ap, arith, false, if◌then◌else◌, inl, inr, not, ok, refl, sym, true, ℕ,
  ◌==◌, ◌∙◌, ◌≡◌,
}
use ping_goat.Database.{DbError, Db, Uuid, Stmt, Time, count_rows, has_row, update_rows, Job}
use ping_goat.Database.Rows.{count_rows-eq-zero_iff, count_none, update_none}
use ping_goat.Session.{query, or_else, ◌>>=◌, require, with_db, Shared, Exec}
use mathlib.Core.Path.{subst}
use ping_goat.Session.Protocol.{
  Signals, later, Moves-query, Moves-or_else, Moves-bind, Moves, Moves-raise, Moves-pure,
}
use ping_goat.Pipeline.Workers.{here, give_up, next, Step, at_stage, Run, resting, Stage, Crew}

pub Run-append : {s t u : Crew} → Run s t → Run t u → Run s u
Run-append before here = before
Run-append before (next after step) = next (Run-append before after) step

-- The crew after a step of one worker.
abbrev pub moved : ℕ → Crew → List Job → Stage → Crew
moved i t jobs stage = record t { jobs = jobs; workers = at_stage i stage t.workers }

-- The others, next to worker i. `K o t` says where the others are in the crew t, with the signals o to
-- come: which worker is at what, which ids are given away. What they do at the next call, wherever
-- they then are, is a run of the crew in which worker i stays where it is; and a step of worker i moves
-- none of the others.
pub record OthersAct (i : ℕ) (K : Signals → Crew → Type 0) : Type 0 where
  pub acts :
      (o : Signals) (s : Shared) (t : Crew)
      → K o t
      → t.jobs ≡ s.db.jobs
      → (u : Crew) × Run t u
        × (u.jobs ≡ ((o 0).others s).db.jobs)
        × (u.workers i ≡ t.workers i)
        × K (later o) u
  pub stays :
      (o : Signals) (t : Crew) (jobs : List Job) (stage : Stage)
      → Step t (moved i t jobs stage)
      → K o t
      → K o (moved i t jobs stage)

module _ (base : Crew) (i : ℕ) (K : Signals → Crew → Type 0) (others : OthersAct i K) where
  -- The crew can have come from where it was to the tables that are there, with the worker at a stage.
  abbrev pub Reaches : Signals → Stage → Shared → Type 0
  Reaches o stage s = (t : Crew) × Run base t × (t.jobs ≡ s.db.jobs) × (t.workers i ≡ stage) × K o t

  pub at_stage_here : (stage : Stage) (workers : ℕ → Stage) → at_stage i stage workers i ≡ stage
  at_stage_here stage workers = ground arith

  pub reaches_rest :
      (o : Signals) (stage : Stage) (s : Shared) → Reaches o stage s → Reaches o resting s
  reaches_rest o stage s (t, run, jobs, at, now_at) =
      let step : Step t (moved i t t.jobs resting) = give_up i refl in
      (
        moved i t t.jobs resting,
        next run step,
        jobs,
        at_stage_here resting t.workers,
        others.stays o t t.jobs resting step now_at,
      )

  pub reaches_later :
      (o : Signals) (stage : Stage) (s : Shared)
      → Reaches o stage s
      → Reaches (later o) stage ((o 0).others s)
  reaches_later o stage s (t, run, jobs, at, now_at) =
      let (u, run', jobs', same, later_at) = others.acts o s t now_at jobs in
      (u, Run-append run run', jobs', same ∙ at, later_at)

  -- An action takes the worker from one stage to another.
  abbrev pub Goes : {E A : Type 0} → Stage → (A → Stage) → Exec E A → Type 0
  Goes stage post m = Moves Reaches resting reaches_rest reaches_later stage (λ _. Unit {0}) post m

  -- The rows with a test, after an update of them.
  abbrev pub updated : (Job → Bool) → (Job → Job) → Shared → Shared
  updated p f s = with_db s (record s.db { jobs = update_rows p f s.db.jobs })

  abbrev pub after_rows : Stage → ℕ → Stage
  after_rows stage affected = if affected == 0 then resting else stage

  after_rows-found :
      (stage : Stage) (p : Job → Bool) (rows : List Job)
      → has_row p rows ≡ true
      → after_rows stage (count_rows p rows) ≡ stage
  after_rows-found stage p rows found =
      let zero_only = (count_rows-eq-zero_iff p rows).0 in ground arith

  after_rows-absent :
      (stage : Stage) (p : Job → Bool) (rows : List Job)
      → has_row p rows ≡ false
      → after_rows stage (count_rows p rows) ≡ resting
  after_rows-absent stage p rows absent = let none_hit = count_none p rows absent in ground arith

  -- An update that finds a row brings the next stage, and one that finds none changes nothing.
  pub update_moves :
      (p : Job → Bool) (f : Job → Job) (stage stage' : Stage)
      → ((t : Crew)
          → t.workers i ≡ stage
          → has_row p t.jobs ≡ true
          → Step t
              (record t { jobs = update_rows p f t.jobs; workers = at_stage i stage' t.workers }))
      → (o : Signals) (s : Shared) → Reaches o stage s
      → Reaches o (after_rows stage' (count_rows p s.db.jobs)) (updated p f s)
  update_moves p f stage stage' step o s (t, run, jobs, at, now_at) =
      elim (Bool-cases (has_row p s.db.jobs)) [
        | inl found ↦
            let taken = step t at (ap (has_row p) jobs ∙ found) in
            subst (λ g. Reaches o g (updated p f s))
              (sym (after_rows-found stage' p s.db.jobs found))
              (
                moved i t (update_rows p f t.jobs) stage',
                next run taken,
                ap (update_rows p f) jobs,
                at_stage_here stage' t.workers,
                others.stays o t (update_rows p f t.jobs) stage' taken now_at,
              )
        | inr absent ↦
            subst (λ g. Reaches o g (updated p f s))
              (sym (after_rows-absent stage' p s.db.jobs absent))
              (let (u, run', jobs', at', known) =
                  reaches_rest o stage s (t, run, jobs, at, now_at) in
                (u, run', jobs' ∙ sym (update_none p f s.db.jobs absent), at', known))
      ]

  require_rows :
      {E : Type 0} (stage : Stage) (nothing : Bool) (e : E)
      → Goes (if nothing then resting else stage) (λ _. stage) (require (not nothing) e)
  require_rows stage true e = Moves-raise Reaches resting reaches_rest reaches_later e
  require_rows stage false e = Moves-pure Reaches resting reaches_rest reaches_later tt tt

  -- A statement that updates rows, and the guards on its error and on its row count.
  pub checked_moves :
      {E : Type 0} (stage stage' : Stage) (p : Job → Bool) (f : Time → Job → Job) (stmt : Stmt ℕ)
      (failed none_hit : E)
      → ((now : Time) (uuid : Uuid) (db : Db)
          → stmt now uuid db
            ≡ (record db { jobs = update_rows p (f now) db.jobs }, ok (count_rows p db.jobs)))
      → ((now : Time) (t : Crew)
          → t.workers i ≡ stage
          → has_row p t.jobs ≡ true
          → Step t (record t {
            jobs = update_rows p (f now) t.jobs;
            workers = at_stage i stage' t.workers;
          }))
      → Goes stage
          (λ _. stage')
          (do
            affected ← or_else (query stmt) (λ (_ : DbError). failed)
            require (not (affected == 0)) none_hit)
  checked_moves stage stage' p f stmt failed none_hit is_update step =
      Moves-bind Reaches resting reaches_rest reaches_later {post = after_rows stage'}
        (Moves-or_else Reaches resting reaches_rest reaches_later (λ _. failed)
          (Moves-query Reaches resting reaches_rest reaches_later stmt (λ now uuid o s h.
            rw (is_update now uuid s.db)
              (tt, update_moves p (f now) stage stage' (step now) o s h))))
        (λ affected _. require_rows stage' (affected == 0) none_hit)
