-- ===== src/Database/Jobs.antt =====
-- internal/database/jobs.sql.go: each query as the change that its SQL text makes to the tables.
-- The row count and the row that a query returns are those of the SQL statement.
use ping_goat.Common.{
  Bool, GoString, IsOrdered, List, Perm, Result, [], bytes, drop, err, filter, if◌then◌else◌, none,
  not, ok, pos, some, str_eq, take, ℕ, ℤ, ◌&&◌, ◌++◌, ◌==◌, ◌∷◌, ◌≤◌,
}
use ping_goat.Database.{
  string_data_right_truncation, varchar_or_null, varchar, Uuid, Time, PgText, PgInt4, null_text,
  null_int4, null_time, at, Job, DbError, pg_error, Stmt, unique_violation, foreign_key_violation,
  invalid_row_count, find_row, has_row, update_rows, count_rows, one_row,
}

pub record CompleteJobParams : Type 0 where
  pub commit_sha : PgText
  pub file_count : PgInt4
  pub gemini_calls_used : PgInt4
  pub id : Uuid
  pub user_id : Uuid

pub record CreateJobParams : Type 0 where
  pub user_id : Uuid
  pub repo_url : GoString
  pub branch : PgText

-- DeleteJobParams and GetJobParams
pub record JobKey : Type 0 where
  pub id : Uuid
  pub user_id : Uuid

-- SetJobStatusParams and UpdateJobParams
pub record StatusParams : Type 0 where
  pub status : GoString
  pub id : Uuid
  pub user_id : Uuid

pub record ListJobsByUserParams : Type 0 where
  pub user_id : Uuid
  pub limit : ℤ
  pub offset : ℤ

-- WHERE id = … AND user_id = …
abbrev pub is_job : Uuid → Uuid → Job → Bool
is_job id user_id j = j.id == id && j.user_id == user_id

abbrev pub owned_by : Uuid → Job → Bool
owned_by user_id j = j.user_id == user_id

abbrev pub status_queued : GoString
status_queued = bytes "queued"

unfoldable pub is_queued : Job → Bool
unfolding str_eq
is_queued j = str_eq j.status status_queued

abbrev pub set_status : GoString → Time → Job → Job
set_status status now j = record j { status = status; updated_at = at now }

abbrev pub set_completed : CompleteJobParams → Time → Job → Job
set_completed arg now j = record j {
  status = bytes "completed";
  commit_sha = arg.commit_sha;
  file_count = arg.file_count;
  gemini_calls_used = arg.gemini_calls_used;
  completed_at = at now;
  updated_at = at now;
}

unfoldable pub complete_job : CompleteJobParams → Stmt ℕ
complete_job arg now uuid db =
    let p = is_job arg.id arg.user_id in
    (record db { jobs = update_rows p (set_completed arg now) db.jobs }, ok (count_rows p db.jobs))

unfoldable pub count_jobs_by_user : Uuid → Stmt ℕ
count_jobs_by_user user_id now uuid db = (db, ok (count_rows (owned_by user_id) db.jobs))

-- The row with its defaults; `branch` is given, so its default does not apply.
abbrev pub new_job : CreateJobParams → Time → Uuid → Job
new_job arg now uuid = record {
  id = uuid;
  user_id = arg.user_id;
  repo_url = arg.repo_url;
  branch = arg.branch;
  commit_sha = null_text;
  status = status_queued;
  error_message = null_text;
  file_count = null_int4;
  gemini_calls_used = null_int4;
  started_at = null_time;
  completed_at = null_time;
  created_at = at now;
  updated_at = at now;
}

-- The primary key and the reference to the user are checked.
unfoldable pub insert_job : CreateJobParams → Stmt Job
insert_job arg now uuid db =
    if has_row (λ j. j.id == uuid) db.jobs
    then (db, err (pg_error unique_violation))
    else if has_row (λ u. u.id == arg.user_id) db.users
    then (record db { jobs = db.jobs ++ new_job arg now uuid ∷ [] }, ok (new_job arg now uuid))
    else (db, err (pg_error foreign_key_violation))

-- The branch is varchar(255). The other columns of that kind get the constants of status.go and of
-- gemini/generator.go, and a commit of 40 digits, which fit.
unfoldable pub create_job : CreateJobParams → Stmt Job
unfolding insert_job varchar
create_job arg now uuid db = elim (varchar_or_null 255 arg.branch) [
  | none ↦ (db, err (pg_error string_data_right_truncation))
  | some branch ↦ insert_job (record arg { branch = branch }) now uuid db
]

-- The documents of a deleted job go with it (ON DELETE CASCADE).
unfoldable pub delete_job : JobKey → Stmt ℕ
delete_job arg now uuid db =
    let p = is_job arg.id arg.user_id in
    let gone = has_row p db.jobs in
    (
      record db {
        jobs = filter (λ j. not (p j)) db.jobs;
        documents =
            if gone then filter (λ d. not (d.job_id == arg.id)) db.documents else db.documents;
      },
      ok (count_rows p db.jobs),
    )

unfoldable pub get_job : JobKey → Stmt Job
get_job arg now uuid db = (db, one_row (find_row (is_job arg.id arg.user_id) db.jobs))

-- By `created_at`, which is not null.
abbrev pub IsOlder : Job → Job → Type 0
IsOlder i j = i.created_at.time ≤ j.created_at.time

abbrev pub IsNewer : Job → Job → Type 0
IsNewer i j = j.created_at.time ≤ i.created_at.time

-- The orders in which the server returns the rows of one query. That of rows of one time is not
-- specified, and another query can have another.
pub record RowOrder : Type 0 where
  -- ORDER BY created_at ASC
  pub oldest_first : List Job → List Job
  -- ORDER BY created_at DESC
  pub newest_first : List Job → List Job
  pub oldest_first-perm : (rows : List Job) → Perm (oldest_first rows) rows
  pub newest_first-perm : (rows : List Job) → Perm (newest_first rows) rows
  pub oldest_first-sorted : (rows : List Job) → IsOrdered IsOlder (oldest_first rows)
  pub newest_first-sorted : (rows : List Job) → IsOrdered IsNewer (newest_first rows)

unfoldable pub get_pending_job : RowOrder → Stmt (List Job)
unfolding is_queued
get_pending_job order now uuid db =
    (db, ok (take 50 (order.oldest_first (filter is_queued db.jobs))))

-- LIMIT and OFFSET: a negative one is an error.
page_of : ℤ → ℤ → List Job → Result DbError (List Job)
page_of (pos limit) (pos offset) rows = ok (take limit (drop offset rows))
page_of _ _ rows = err (pg_error invalid_row_count)

unfoldable pub list_jobs_by_user : RowOrder → ListJobsByUserParams → Stmt (List Job)
unfolding page_of
list_jobs_by_user order arg now uuid db =
    (db, page_of arg.limit arg.offset (order.newest_first (filter (owned_by arg.user_id) db.jobs)))

unfoldable pub set_job_status : StatusParams → Stmt ℕ
set_job_status arg now uuid db =
    let p = is_job arg.id arg.user_id in
    (
      record db { jobs = update_rows p (set_status arg.status now) db.jobs },
      ok (count_rows p db.jobs),
    )

-- WHERE id = … AND user_id = … AND status = 'queued': the claim of a worker.
unfoldable pub update_job : StatusParams → Stmt ℕ
unfolding is_queued
update_job arg now uuid db =
    let p = λ (j : Job). is_job arg.id arg.user_id j && is_queued j in
    (
      record db { jobs = update_rows p (set_status arg.status now) db.jobs },
      ok (count_rows p db.jobs),
    )
