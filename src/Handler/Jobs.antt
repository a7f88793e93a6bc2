-- ===== src/Handler/Jobs.antt =====
-- internal/handler/jobsHandler.go. A handler is an action whose early returns and whose end are both
-- the response.
pub mod Paging
pub mod Keeps
pub mod Submit
pub mod Lookup
mod Tests
use ping_goat.Common.{
  GoString, Option, [], atoi, bytes, has_prefix, if◌then◌else◌, ltb, ltb_ℤ, map, none, not, pos,
  pos_part, some, str_eq, to_int32, true, ℕ, ◌*◌, ◌+◌, ◌-◌, ◌/◌, ◌==◌, ◌∷◌,
}
use ping_goat.Database.Jobs.{
  get_job, delete_job, list_jobs_by_user, create_job, count_jobs_by_user, JobKey,
  ListJobsByUserParams, RowOrder,
}
use ping_goat.Database.{other_error, no_rows, pg_error, DbError, Job, Uuid}
use ping_goat.Session.{try_send, require, query, or_else, raise, pure, ◌>>◌, Exec, ◌>>=◌}
use ping_goat.Handler.{or_respond}
use ping_goat.Http.{
  no_body, one_job, format_nullable_time, int_from_int4, job_detail, format_nullable_string,
  job_list, JobResponse, JobDetail, Response, respond_with_error, respond_with_json, Formats,
  get_user_id,
}
use ping_goat.Pipeline.Status.{is_active}

-- Decoded from the body of a submission.
pub record SubmitParams : Type 0 where
  pub repo_url : GoString
  pub branch : GoString

-- What the handlers read of a request: the user of its context, the decoded body (none for an error,
-- a body over the limit included), the path parameter `id`, and the two query parameters.
pub record Request : Type 0 where
  pub user : Option GoString
  pub body : Option SubmitParams
  pub id : GoString
  pub page : GoString
  pub per_page : GoString

abbrev pub github_prefix : GoString
github_prefix = bytes "https://github.com/"

abbrev pub default_repo_branch : GoString
default_repo_branch = bytes "main"

abbrev pub Handler : Type 0
Handler = Exec Response Response

abbrev server_error : {A : Type 0} → Exec DbError A → GoString → Exec Response A
server_error m msg = or_else m (λ _. respond_with_error 500 msg)

-- `errors.Is(err, pgx.ErrNoRows)`
abbrev get_error : DbError → Response
get_error no_rows = respond_with_error 404 (bytes "Job not found")
get_error (pg_error code) = respond_with_error 500 (bytes "Failed to get job")
get_error other_error = respond_with_error 500 (bytes "Failed to get job")

abbrev pub job_response : Formats → Job → JobResponse
job_response formats job = record {
  id = formats.uuid_string job.id;
  repo_url = job.repo_url;
  branch = job.branch.string;
  status = job.status;
  created_at = formats.rfc3339 job.created_at.time;
}

abbrev submitted_branch : GoString → GoString
submitted_branch [] = default_repo_branch
submitted_branch (c ∷ s) = c ∷ s

-- The guards in front of `CreateJob`.
check_submission : Request → Exec Response SubmitParams
unfolding str_eq has_prefix respond_with_error
check_submission r = do
  params ← or_respond r.body 400 (bytes "Invalid Request Body")
  require (not (str_eq params.repo_url [])) (respond_with_error 400 (bytes "Repo URL are required"))
  require (has_prefix params.repo_url github_prefix)
      (respond_with_error 400 (bytes "Could not access repository"))
  pure params

unfoldable pub submit_job : Formats → ℕ → Request → Handler
unfolding check_submission respond_with_error respond_with_json get_user_id
submit_job formats capacity r = do
  params ← check_submission r
  let branch_name = submitted_branch params.branch
  user_id ← or_respond (get_user_id formats r.user) 401 (bytes "Invalid User")
  job ←
      server_error
        (query (
          create_job (record {
            user_id = user_id;
            repo_url = params.repo_url;
            branch = record { string = branch_name; valid = true };
          })))
        (bytes "Failed to create job")
  sent ← try_send capacity (record {
    job_id = job.id;
    repo_url = params.repo_url;
    branch = branch_name;
    user_id = user_id;
  })
  pure (respond_with_json 202 (one_job (job_response formats job)))

-- `page` and `per_page` as they are read: 1 and 20 for what is missing, no number or below 1, and
-- 100 for a larger page size.
unfoldable pub read_page : GoString → ℕ
unfolding atoi
read_page s = elim (atoi s) [ none ↦ 1 | some n ↦ if ltb_ℤ n (pos 1) then 1 else pos_part n ]

unfoldable pub read_per_page : GoString → ℕ
unfolding atoi
read_per_page s =
    let n : ℕ = elim (atoi s) [ none ↦ 20 | some n ↦ if ltb_ℤ n (pos 1) then 20 else pos_part n ] in
    if ltb 100 n then 100 else n

-- `(int(count) + perPage - 1) / perPage`, and the page that is served in its place.
unfoldable pub max_page : ℕ → ℕ → ℕ
max_page count per_page = (count + per_page - 1) / per_page

unfoldable pub served_page : ℕ → ℕ → ℕ → ℕ
unfolding max_page
served_page count per_page page =
    if ltb (max_page count per_page) page then max_page count per_page else page

-- `int32(perPage)` and `int32(offset)`
unfoldable pub page_params : Uuid → ℕ → ℕ → ListJobsByUserParams
page_params user_id page per_page = record {
  user_id = user_id;
  limit = to_int32 (pos per_page);
  offset = to_int32 (pos ((page - 1) * per_page));
}

-- From the count on.
list_page : Formats → RowOrder → Uuid → ℕ → ℕ → ℕ → Handler
unfolding served_page page_params respond_with_json respond_with_error
list_page formats order user_id count page per_page =
    let served = served_page count per_page page in
    if count == 0
    then pure (
        respond_with_json 200
          (job_list [] (record { page = page; per_page = per_page; total = 0 })))
    else do
      list ←
          server_error (query (list_jobs_by_user order (page_params user_id served per_page)))
            (bytes "Failed to list jobs")
      pure (
          respond_with_json 200 (
            job_list (map (job_response formats) list)
              (record { page = served; per_page = per_page; total = count })))

unfoldable pub list_jobs : Formats → RowOrder → Request → Handler
unfolding read_page read_per_page list_page get_user_id
list_jobs formats order r = do
  user_id ← or_respond (get_user_id formats r.user) 401 (bytes "Invalid User")
  count ← server_error (query (count_jobs_by_user user_id)) (bytes "Failed to list jobs")
  list_page formats order user_id count (read_page r.page) (read_per_page r.per_page)

-- The guards and the query that GetJobById and RemoveJobById begin with.
find_job : Formats → Request → Exec Response (JobKey × Job)
unfolding respond_with_error get_user_id str_eq
find_job formats r = do
  user_id ← or_respond (get_user_id formats r.user) 401 (bytes "Invalid User")
  require (not (str_eq r.id [])) (respond_with_error 400 (bytes "Job ID is required"))
  job_id ← or_respond (formats.scan_uuid r.id) 400 (bytes "Invalid Job ID")
  let key : JobKey = record { id = job_id; user_id = user_id }
  job ← or_else (query (get_job key)) get_error
  pure (key, job)

abbrev pub job_detail_of : Formats → Job → JobDetail
job_detail_of formats job = record {
  id = formats.uuid_string job.id;
  repo_url = job.repo_url;
  branch = format_nullable_string job.branch;
  status = job.status;
  file_count = int_from_int4 job.file_count;
  gemini_calls_used = int_from_int4 job.gemini_calls_used;
  started_at = format_nullable_time formats job.started_at;
  completed_at = format_nullable_time formats job.completed_at;
  commit_sha = format_nullable_string job.commit_sha;
  error_message = format_nullable_string job.error_message;
  created_at = formats.rfc3339 job.created_at.time;
}

unfoldable pub get_job_by_id : Formats → Request → Handler
unfolding find_job respond_with_json
get_job_by_id formats r = do
  found ← find_job formats r
  pure (respond_with_json 200 (job_detail (job_detail_of formats found.1)))

unfoldable pub remove_job_by_id : Formats → Request → Handler
unfolding find_job respond_with_error is_active
remove_job_by_id formats r = do
  found ← find_job formats r
  require (not (is_active found.1.status)) (respond_with_error 409 (bytes "Job is running"))
  affected ← server_error (query (delete_job found.0)) (bytes "Failed to delete job")
  require (not (affected == 0)) (respond_with_error 404 (bytes "Job not found"))
  pure (record { code = 204; body = no_body })
