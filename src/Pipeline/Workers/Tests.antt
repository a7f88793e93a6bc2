-- ===== src/Pipeline/Workers/Tests.antt =====
-- Two workers that have received the message of one job.
use ping_goat.Common.{
  Bool-cases, List, [], ap, false, inl, inr, refl, suc, sym, zero, ℕ, ◌++◌, ◌+◌, ◌∙◌, ◌∷◌, ◌≡◌,
}
use ping_goat.Database.Jobs.{new_job, set_status, is_queued}
use ping_goat.Database.{has_row, update_rows, Job}
use ping_goat.Pipeline.Worker.{start_worker}
use ping_goat.Pipeline.Status.{status_parsing, status_cloning}
use ping_goat.Pipeline.Worker.Fixtures.{job_params, msg, machine, cfg, first_db}
use ping_goat.Session.{Shared, World, with_db, delivered}
use ping_goat.Session.Protocol.{Signals, later}
use ping_goat.Database.Rows.{update_none}
use ping_goat.Pipeline.Message.{JobMessage}
use ping_goat.Pipeline.Workers.Protocol.{OthersAct, moved}
use ping_goat.Pipeline.Workers.{
  parse, parsing, is_of, is_known, Step, holding, create, receive, underway, at_stage, resting,
  here, next, Crew, Run, cloning, Stage, empty_crew,
}
use ping_goat.Pipeline.Workers.JobState.{absent, IsIn, ◌⟶*◌, JobState}
use ping_goat.Pipeline.Workers.Exclusion.{one_worker}
use ping_goat.Pipeline.Workers.Lifecycle.{job_lifecycle}
use ping_goat.Pipeline.Worker.Refines.{start_worker_refines}

abbrev crew_of : List Job → (ℕ → Stage) → Crew
crew_of jobs workers = record { jobs = jobs; workers = workers; issued = 7 ∷ [] }

abbrev job : Job
job = new_job job_params 2 7

abbrev no_work : ℕ → Stage
no_work i = resting

abbrev both_hold : ℕ → Stage
both_hold = at_stage 1 (holding msg) (at_stage 0 (holding msg) no_work)

abbrev first_works : ℕ → Stage
first_works = at_stage 0 (underway cloning msg) both_hold

abbrev claimed_job : Job
claimed_job = set_status status_cloning 5 job

created-Run : Run empty_crew (crew_of (job ∷ []) no_work)
created-Run = next here (create job_params 2 7 refl refl)

received-Run : Run empty_crew (crew_of (job ∷ []) both_hold)
received-Run = next (next created-Run (receive 0 msg refl refl)) (receive 1 msg refl refl)

claimed-Run : Run empty_crew (crew_of (claimed_job ∷ []) first_works)
unfolding is_queued
claimed-Run = next received-Run (Step.claim 0 msg 5 refl refl refl)

one_worker_example : ◌≡◌ {A = ℕ} 0 0
one_worker_example =
    one_worker (crew_of (claimed_job ∷ []) first_works) 0 0 cloning cloning msg msg claimed-Run refl
      refl refl

-- The job from before its creation to the claim.
job_lifecycle_example :
    (b : JobState) × IsIn 7 3 (crew_of (claimed_job ∷ []) first_works) b × (absent ⟶* b)
job_lifecycle_example =
    job_lifecycle 7 3 empty_crew (crew_of (claimed_job ∷ []) first_works) absent here claimed-Run
      refl

-- The worker 1 has claimed job 8, and worker 0 is at rest.
abbrev other_msg : JobMessage
other_msg = record msg { job_id = 8 }

abbrev other_job : Job
other_job = set_status status_cloning 3 (new_job job_params 2 8)

abbrev busy_crew : Crew
busy_crew = record {
  jobs = job ∷ other_job ∷ [];
  workers = at_stage 1 (underway cloning other_msg) no_work;
  issued = 8 ∷ 7 ∷ [];
}

-- Then a client submits a job, and worker 1 goes on with its own.
abbrev submits : Shared → Shared
submits s = with_db s (record s.db { jobs = s.db.jobs ++ new_job job_params 4 9 ∷ [] })

abbrev advances : Shared → Shared
advances s =
    with_db s
      (record s.db { jobs = update_rows (is_of other_msg) (set_status status_parsing 5) s.db.jobs })

abbrev busy : Signals
busy zero = record { others = submits; fault = delivered; now = 4; uuid = 9 }
busy (suc zero) = record { others = advances; fault = delivered; now = 5; uuid = 10 }
busy (suc (suc n)) = record { others = λ s. s; fault = delivered; now = n + 6; uuid = n + 11 }

-- Where the others are before the submission, between the two, and behind them.
data Known (o : Signals) (t : Crew) : Type 0 where
  to_submit :
      ((s : Shared) → (o 0).others s ≡ submits s)
      → ((s : Shared) → (o 1).others s ≡ advances s)
      → ((n : ℕ) (s : Shared) → (o (suc (suc n))).others s ≡ s)
      → is_known t.issued 9 ≡ false
      → t.workers 1 ≡ underway cloning other_msg
      → Known o t
  to_advance :
      ((s : Shared) → (o 0).others s ≡ advances s)
      → ((n : ℕ) (s : Shared) → (o (suc n)).others s ≡ s)
      → t.workers 1 ≡ underway cloning other_msg
      → Known o t
  settled : ((n : ℕ) (s : Shared) → (o n).others s ≡ s) → Known o t

abbrev GoesOn : Signals → Shared → Crew → Type 0
GoesOn o s t =
    (u : Crew) × Run t u
    × (u.jobs ≡ ((o 0).others s).db.jobs)
    × (u.workers 0 ≡ t.workers 0)
    × Known (later o) u

busy_acts : (o : Signals) (s : Shared) (t : Crew) → Known o t → t.jobs ≡ s.db.jobs → GoesOn o s t
busy_acts o s t (to_submit first second rest fresh at) jobs = (
  record t { jobs = t.jobs ++ new_job job_params 4 9 ∷ []; issued = 9 ∷ t.issued },
  next here (create job_params 4 9 fresh refl),
  ap (λ l. l ++ new_job job_params 4 9 ∷ []) jobs ∙ sym (ap (λ (v : Shared). v.db.jobs) (first s)),
  refl,
  to_advance second rest at,
)
busy_acts o s t (to_advance first rest at) jobs =
    let f = set_status status_parsing 5 in
    let shown = sym (ap (λ (v : Shared). v.db.jobs) (first s)) in
    elim (Bool-cases (has_row (is_of other_msg) t.jobs)) [
      | inl found ↦ (
        moved 1 t (update_rows (is_of other_msg) f t.jobs) (underway parsing other_msg),
        next here (parse 1 other_msg 5 at found refl),
        ap (update_rows (is_of other_msg) f) jobs ∙ shown,
        refl,
        settled rest,
      )
      | inr unfound ↦ (
        t,
        here,
        sym (update_none (is_of other_msg) f t.jobs unfound)
            ∙ ap (update_rows (is_of other_msg) f) jobs
            ∙ shown,
        refl,
        settled rest,
      )
    ]
busy_acts o s t (settled rest) jobs = (
  t,
  here,
  jobs ∙ sym (ap (λ (v : Shared). v.db.jobs) (rest 0 s)),
  refl,
  settled (λ n. rest (suc n)),
)

busy_stays :
    (o : Signals) (t : Crew) (jobs : List Job) (stage : Stage)
    → Known o t
    → Known o (moved 0 t jobs stage)
busy_stays o t jobs stage (to_submit first second rest fresh at) =
    to_submit first second rest fresh at
busy_stays o t jobs stage (to_advance first rest at) = to_advance first rest at
busy_stays o t jobs stage (settled rest) = settled rest

busy-OthersAct : OthersAct 0 Known
busy-OthersAct = record {
  acts = busy_acts;
  stays = λ o t jobs stage step. busy_stays o t jobs stage;
}

abbrev busy_world : World
busy_world = record {
  shared = record { db = record first_db { jobs = busy_crew.jobs }; channel = [] };
  outside = busy;
  temp_dirs = [];
}

-- The worker 0 on job 7, whose message it receives twice.
start_worker_refines_example :
    (t : Crew) × Run busy_crew t
    × (t.jobs
        ≡ (start_worker cfg ((machine, msg) ∷ (machine, msg) ∷ []) busy_world).1.shared.db.jobs)
    × (t.workers 0 ≡ resting)
start_worker_refines_example =
    start_worker_refines cfg ((machine, msg) ∷ (machine, msg) ∷ []) busy_crew 0 Known busy_world
      refl refl busy-OthersAct (to_submit (λ s. refl) (λ s. refl) (λ n s. refl) refl refl)
