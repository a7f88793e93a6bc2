-- ===== src/Database/WellFormed.antt =====
-- What holds of the tables of internal/database at all times: the keys and the references of
-- sql/schema, and what the code keeps of a job's status.
use ping_goat.Common.{
  All, All-append, All-map, Bool, Bool-cases, GoString, List, Option-cases, [], ap, arith, bytes,
  false, filter, inl, inr, not, refl, true, ◌++◌, ◌==◌, ◌∙◌, ◌∷◌, ◌≡◌, ◌⊎◌,
}
use ping_goat.Database.{varchar_or_null, Uuid, Time, Document, Job, User, Db, has_row, update_rows}
use ping_goat.Database.Jobs.{
  insert_job, CompleteJobParams, CreateJobParams, JobKey, StatusParams, is_job, complete_job,
  create_job, delete_job, set_job_status, update_job, set_status, set_completed, new_job,
}
use ping_goat.Database.Rows.{
  Distinct, has_row-append, has_row-update_rows, Distinct-update_rows, Distinct-append,
  All-of-has_row, has_row-filter_kept, Distinct-filter, All-filter, All-update_rows, filter_none,
  All-filter_of,
}

-- A status that a job has: `failed` is declared in status.go, and nothing sets it.
abbrev pub IsStatus : GoString → Type 0
IsStatus s =
    (s ≡ bytes "queued")
    ⊎ ((s ≡ bytes "cloning")
        ⊎ ((s ≡ bytes "parsing") ⊎ ((s ≡ bytes "generating") ⊎ (s ≡ bytes "completed"))))

-- A status that the worker sets on its way.
abbrev pub IsUnderway : GoString → Type 0
IsUnderway s = (s ≡ bytes "cloning") ⊎ ((s ≡ bytes "parsing") ⊎ (s ≡ bytes "generating"))

-- A completed job has its commit, its counts and its time.
pub record IsJob (j : Job) : Type 0 where
  pub known : IsStatus j.status
  pub finished :
      j.status ≡ bytes "completed"
      → (j.commit_sha.valid ≡ true)
        × (j.file_count.valid ≡ true)
        × (j.gemini_calls_used.valid ≡ true)
        × (j.completed_at.valid ≡ true)

abbrev pub has_user : List User → Uuid → Bool
has_user users id = has_row (λ u. u.id == id) users

abbrev pub has_job : List Job → Uuid → Bool
has_job jobs id = has_row (λ j. j.id == id) jobs

pub record IsWellFormed (db : Db) : Type 0 where
  pub job_ids : Distinct (λ (j k : Job). k.id == j.id) db.jobs
  pub jobs : All IsJob db.jobs
  pub owners : All (λ j. has_user db.users j.user_id ≡ true) db.jobs
  pub documents_of : All (λ d. has_job db.jobs d.job_id ≡ true) db.documents

-- An update of job rows that leaves the keys alone.
record KeepsKeys (f : Job → Job) : Type 0 where
  id : (j : Job) → (f j).id ≡ j.id
  user : (j : Job) → (f j).user_id ≡ j.user_id

update_jobs-IsWellFormed :
    (db : Db) (p : Job → Bool) (f : Job → Job)
    → KeepsKeys f
    → ((j : Job) → IsJob j → IsJob (f j))
    → IsWellFormed db
    → IsWellFormed (record db { jobs = update_rows p f db.jobs })
update_jobs-IsWellFormed db p f keys keep h = record {
  job_ids =
      Distinct-update_rows (λ (j k : Job). k.id == j.id) p f db.jobs
        (λ j k. ap (λ i. k.id == i) (keys.id j)) (λ j k. ap (λ i. i == j.id) (keys.id k)) h.job_ids;
  jobs = All-update_rows IsJob p f db.jobs keep h.jobs;
  owners =
      All-update_rows (λ j. has_user db.users j.user_id ≡ true) p f db.jobs
        (λ j e. ap (has_user db.users) (keys.user j) ∙ e) h.owners;
  documents_of =
      All-map
        (λ d e.
          has_row-update_rows (λ j. j.id == d.job_id) p f db.jobs
            (λ j. ap (λ i. i == d.job_id) (keys.id j))
          ∙ e)
        db.documents h.documents_of;
}

underway-IsJob :
    (status : GoString) (now : Time) (j : Job)
    → IsUnderway status
    → IsJob j
    → IsJob (set_status status now j)
underway-IsJob status now j u h = ground arith

-- The worker's status changes keep the tables in order.
pub set_job_status-IsWellFormed :
    (arg : StatusParams) (now : Time) (uuid : Uuid) (db : Db)
    → IsUnderway arg.status
    → IsWellFormed db
    → IsWellFormed (set_job_status arg now uuid db).0
unfolding set_job_status
set_job_status-IsWellFormed arg now uuid db u h =
    update_jobs-IsWellFormed db _ (set_status arg.status now)
      (record { id = λ j. refl; user = λ j. refl }) (λ j. underway-IsJob arg.status now j u) h

pub update_job-IsWellFormed :
    (arg : StatusParams) (now : Time) (uuid : Uuid) (db : Db)
    → IsUnderway arg.status
    → IsWellFormed db
    → IsWellFormed (update_job arg now uuid db).0
unfolding update_job
update_job-IsWellFormed arg now uuid db u h =
    update_jobs-IsWellFormed db _ (set_status arg.status now)
      (record { id = λ j. refl; user = λ j. refl }) (λ j. underway-IsJob arg.status now j u) h

-- The parameters that StoreResults gives are all valid.
abbrev pub IsFilled : CompleteJobParams → Type 0
IsFilled arg =
    (arg.commit_sha.valid ≡ true)
    × (arg.file_count.valid ≡ true)
    × (arg.gemini_calls_used.valid ≡ true)

completed-IsJob :
    (arg : CompleteJobParams) (now : Time) (j : Job)
    → IsFilled arg
    → IsJob (set_completed arg now j)
completed-IsJob arg now j h = record {
  known = inr (inr (inr (inr refl)));
  finished = λ e. (h.0, h.1, h.2, refl);
}

-- Completing a job with a commit and both counts keeps the tables in order.
pub complete_job-IsWellFormed :
    (arg : CompleteJobParams) (now : Time) (uuid : Uuid) (db : Db)
    → IsFilled arg
    → IsWellFormed db
    → IsWellFormed (complete_job arg now uuid db).0
unfolding complete_job
complete_job-IsWellFormed arg now uuid db full h =
    update_jobs-IsWellFormed db _ (set_completed arg now)
      (record { id = λ j. refl; user = λ j. refl }) (λ j _. completed-IsJob arg now j full) h

new_job-IsJob : (arg : CreateJobParams) (now : Time) (uuid : Uuid) → IsJob (new_job arg now uuid)
new_job-IsJob arg now uuid = record { known = inl refl; finished = λ e. absurd (ground arith) }

-- Creating a job keeps the tables in order: its id is new, and its user is there, or nothing happens.
insert_job-IsWellFormed :
    (arg : CreateJobParams) (now : Time) (uuid : Uuid) (db : Db)
    → IsWellFormed db
    → IsWellFormed (insert_job arg now uuid db).0
unfolding insert_job
insert_job-IsWellFormed arg now uuid db h = elim (Bool-cases (has_job db.jobs uuid)) [
  | inl taken ↦ rw taken h
  | inr fresh ↦ elim (Bool-cases (has_user db.users arg.user_id)) [
    | inl owner ↦ rw (fresh, owner) (add_job fresh owner)
    | inr nobody ↦ rw (fresh, nobody) h
  ]
]
  where
    new : Job
    new = new_job arg now uuid

    add_job :
        has_job db.jobs uuid ≡ false
        → has_user db.users arg.user_id ≡ true
        → IsWellFormed (record db { jobs = db.jobs ++ new ∷ [] })
    add_job fresh owner = record {
      job_ids =
          Distinct-append (λ (j k : Job). k.id == j.id) db.jobs new h.job_ids
            (All-map (λ j e. ground arith) db.jobs
              (All-of-has_row (λ j. j.id == uuid) db.jobs fresh));
      jobs = All-append IsJob db.jobs (new ∷ []) h.jobs (new_job-IsJob arg now uuid, tt);
      owners = All-append _ db.jobs (new ∷ []) h.owners (owner, tt);
      documents_of =
          All-map (λ d e. ground (arith, has_row-append (λ j. j.id == d.job_id) db.jobs new))
            db.documents h.documents_of;
    }

pub create_job-IsWellFormed :
    (arg : CreateJobParams) (now : Time) (uuid : Uuid) (db : Db)
    → IsWellFormed db
    → IsWellFormed (create_job arg now uuid db).0
unfolding create_job
create_job-IsWellFormed arg now uuid db h = elim (Option-cases (varchar_or_null 255 arg.branch)) [
  | inl too_long ↦ rw (create_job, too_long) h
  | inr (branch, fits) ↦
      rw (create_job, fits) (insert_job-IsWellFormed (record arg { branch = branch }) now uuid db h)
]

-- Deleting a job keeps the tables in order: its documents go along, so that none is left without its
-- job.
pub delete_job-IsWellFormed :
    (arg : JobKey) (now : Time) (uuid : Uuid) (db : Db)
    → IsWellFormed db
    → IsWellFormed (delete_job arg now uuid db).0
unfolding delete_job
delete_job-IsWellFormed arg now uuid db h = elim (Bool-cases (has_row p db.jobs)) [
  | inl gone ↦ rw gone cut
  | inr none_gone ↦ rw (none_gone, filter_none p db.jobs none_gone) h
]
  where
    p : Job → Bool
    p = is_job arg.id arg.user_id

    kept_jobs : List Job
    kept_jobs = filter (λ j. not (p j)) db.jobs

    still_there :
        (d : Document)
        → has_job db.jobs d.job_id ≡ true
        → not (d.job_id == arg.id) ≡ true
        → has_job kept_jobs d.job_id ≡ true
    still_there d e other =
        has_row-filter_kept (λ j. j.id == d.job_id) (λ j. not (p j)) db.jobs (λ j hit. ground arith)
        ∙ e

    cut : IsWellFormed (record db {
      jobs = kept_jobs;
      documents = filter (λ d. not (d.job_id == arg.id)) db.documents;
    })
    cut = record {
      job_ids = Distinct-filter (λ (j k : Job). k.id == j.id) (λ j. not (p j)) db.jobs h.job_ids;
      jobs = All-filter IsJob (λ j. not (p j)) db.jobs h.jobs;
      owners = All-filter _ (λ j. not (p j)) db.jobs h.owners;
      documents_of =
          All-filter_of _ (λ d. not (d.job_id == arg.id)) db.documents
            (All-map still_there db.documents h.documents_of);
    }
