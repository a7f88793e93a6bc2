-- ===== src/Handler/Jobs/Lookup.antt =====
-- A job that is there, as GetJobById answers it.
use ping_goat.Common.{Result, [], ap, bytes, not, ok, refl, some, str_eq, str_eq-nil, ◌∙◌, ◌≡◌, ◌≢◌}
use ping_goat.Database.{Job, Uuid, find_row}
use ping_goat.Database.Jobs.{get_job, is_job, JobKey}
use ping_goat.Session.{World, arrive, query, require, or_else, pure, ◌>>=◌, ◌>>◌, Exec}
use ping_goat.Session.Calm.{IsCalm, query_calm}
use ping_goat.Session.Guards.{bind_ok, else_ok, require_passes}
use ping_goat.Http.{
  Formats, Response, get_user_id, respond_with_json, respond_with_error, job_detail,
}
use ping_goat.Handler.{or_respond}
use ping_goat.Handler.Jobs.{job_detail_of, find_job, get_error, get_job_by_id, Request}

-- What a request for a job asks for.
pub record Asks (formats : Formats) (r : Request) (user_id id : Uuid) : Type 0 where
  pub user : get_user_id formats r.user ≡ some user_id
  pub id_given : r.id ≢ []
  pub id_scanned : formats.scan_uuid r.id ≡ some id

module _ (formats : Formats) (r : Request) (user_id id : Uuid) (job : Job) (w : World)
    (calm : IsCalm w) (asks : Asks formats r user_id id)
    (there : find_row (is_job id user_id) w.shared.db.jobs ≡ some job) where
  abbrev key : JobKey
  key = record { id = id; user_id = user_id }

  abbrev get_then : Uuid → Uuid → Exec Response (JobKey × Job)
  get_then user_id id =
      let key : JobKey = record { id = id; user_id = user_id } in
      or_else (query (get_job key)) get_error >>= λ job. pure (key, job)

  get_runs : query (get_job key) w ≡ (ok job, arrive w w.shared)
  unfolding get_job
  get_runs = query_calm (get_job key) w w.shared.db (ok job) calm (rw there refl)

  find_job_runs : find_job formats r w ≡ (ok (key, job), arrive w w.shared)
  unfolding find_job
  find_job_runs =
      let no_id = respond_with_error 400 (bytes "Job ID is required") in
      let scan_then : Uuid → Exec Response (JobKey × Job) =
        λ u. or_respond (formats.scan_uuid r.id) 400 (bytes "Invalid Job ID") >>= get_then u in
      ap
        (λ o.
          (or_respond o 401 (bytes "Invalid User") >>= λ u.
          require (not (str_eq r.id [])) no_id >> scan_then u)
            w)
        asks.user
      ∙ require_passes (not (str_eq r.id [])) no_id (scan_then user_id) w
          (ap not (str_eq-nil r.id asks.id_given))
      ∙ ap (λ o. (or_respond o 400 (bytes "Invalid Job ID") >>= get_then user_id) w) asks.id_scanned
      ∙ bind_ok (or_else (query (get_job key)) get_error) (λ j. pure (key, j)) w (arrive w w.shared)
          job (else_ok (query (get_job key)) get_error w (arrive w w.shared) job get_runs)

  -- The answer is 200 with the row as it stands.
  pub get_job_by_id_runs :
      (get_job_by_id formats r w).0
      ≡ ok (respond_with_json 200 (job_detail (job_detail_of formats job)))
  unfolding get_job_by_id
  get_job_by_id_runs =
      ap (λ (p : Result Response Response × World). p.0)
        (bind_ok (find_job formats r)
          (λ found. pure (respond_with_json 200 (job_detail (job_detail_of formats found.1)))) w
          (arrive w w.shared) (key, job) find_job_runs)
