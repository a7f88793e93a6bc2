-- ===== src/Handler/Jobs/Keeps.antt =====
-- What the handlers of internal/handler/jobsHandler.go that write keep of the tables and the channel.
use ping_goat.Common.{
  Bool, Bool-cases, List, [], ap, arith, bytes, filter, has_prefix, inl, inr, map, not, some,
  str_eq, true, ℕ, ◌++◌, ◌==◌, ◌∙◌, ◌∷◌, ◌≡◌, ◌≢◌,
}
use ping_goat.Pipeline.Message.{JobMessage}
use ping_goat.Database.{Job, Time, Uuid, has_row}
use ping_goat.Database.Jobs.{
  RowOrder, list_jobs_by_user, count_jobs_by_user, create_job, CreateJobParams, JobKey, delete_job,
  get_job, is_job,
}
use ping_goat.Database.WellFormed.{create_job-IsWellFormed, IsWellFormed, delete_job-IsWellFormed}
use ping_goat.Session.{Shared, World, with_db}
use ping_goat.Session.Keeps.{
  Ensures-require, Ensures-try_send, Steady, StmtKeeps-of, Ensures-query, Ensures-or_else,
  Ensures-bind, Ensures-pure, Ensures,
}
use ping_goat.Pipeline.Status.{is_active}
use ping_goat.Http.{
  job_list, job_detail, respond_with_json, one_job, Formats, respond_with_error, get_user_id,
  no_body,
}
use ping_goat.Handler.Respond.{or_respond-Ensures}
use ping_goat.Handler.Jobs.{
  get_job_by_id, job_detail_of, list_page, served_page, page_params, list_jobs, read_page,
  read_per_page, submit_job, check_submission, github_prefix, submitted_branch, job_response,
  Request, find_job, remove_job_by_id, get_error,
}

module _ (P : Shared → Type 0) where
  -- The key that the handlers look a job up by is one of the request's user.
  find_job-Ensures :
      (formats : Formats) (r : Request)
      → Ensures P (λ found. get_user_id formats r.user ≡ some found.0.user_id) (find_job formats r)
  unfolding find_job get_job
  find_job-Ensures formats r =
      Ensures-bind P (or_respond-Ensures P (get_user_id formats r.user) 401 (bytes "Invalid User"))
        (λ user_id same.
          Ensures-bind P
            (Ensures-require P (not (str_eq r.id []))
              (respond_with_error 400 (bytes "Job ID is required")))
            (λ _ _.
              Ensures-bind P
                (or_respond-Ensures P (formats.scan_uuid r.id) 400 (bytes "Invalid Job ID"))
                (λ job_id _.
                  let key : JobKey = record { id = job_id; user_id = user_id } in
                  Ensures-bind P
                    (Ensures-or_else P get_error (
                      Ensures-query P (get_job key)
                        (StmtKeeps-of P (get_job key) (λ now uuid s p. p))))
                    (λ job _. Ensures-pure P (key, job) same))))

  pub remove_job_by_id-Ensures :
      (formats : Formats) (r : Request)
      → ((key : JobKey) (now : Time) (uuid : Uuid) (s : Shared)
          → get_user_id formats r.user ≡ some key.user_id
          → P s
          → P (with_db s (delete_job key now uuid s.db).0))
      → Ensures P (λ _. Unit {0}) (remove_job_by_id formats r)
  unfolding remove_job_by_id
  remove_job_by_id-Ensures formats r keep =
      Ensures-bind P (find_job-Ensures formats r) (λ found same.
        Ensures-bind P
          (Ensures-require P (not (is_active found.1.status))
            (respond_with_error 409 (bytes "Job is running")))
          (λ _ _.
            Ensures-bind P
              (Ensures-or_else P (λ _. respond_with_error 500 (bytes "Failed to delete job"))
                (Ensures-query P (delete_job found.0) (
                  StmtKeeps-of P (delete_job found.0)
                    (λ now uuid s. keep found.0 now uuid s same))))
              (λ affected _.
                Ensures-bind P
                  (Ensures-require P (not (affected == 0))
                    (respond_with_error 404 (bytes "Job not found")))
                  (λ _ _. Ensures-pure P (record { code = 204; body = no_body }) tt))))

module _ (P : Shared → Type 0) where
  check_submission-Ensures : (r : Request) → Ensures P (λ _. Unit {0}) (check_submission r)
  unfolding check_submission
  check_submission-Ensures r =
      Ensures-bind P (or_respond-Ensures P r.body 400 (bytes "Invalid Request Body")) (λ params _.
        Ensures-bind P
          (Ensures-require P (not (str_eq params.repo_url []))
            (respond_with_error 400 (bytes "Repo URL are required")))
          (λ _ _.
            Ensures-bind P
              (Ensures-require P (has_prefix params.repo_url github_prefix)
                (respond_with_error 400 (bytes "Could not access repository")))
              (λ _ _. Ensures-pure P params tt)))

  pub submit_job-Ensures :
      (formats : Formats) (capacity : ℕ) (r : Request)
      → ((arg : CreateJobParams) (now : Time) (uuid : Uuid) (s : Shared)
          → P s
          → P (with_db s (create_job arg now uuid s.db).0))
      → ((msg : JobMessage) (s : Shared) → P s → P (record s { channel = s.channel ++ msg ∷ [] }))
      → Ensures P (λ _. Unit {0}) (submit_job formats capacity r)
  unfolding submit_job
  submit_job-Ensures formats capacity r created sent =
      Ensures-bind P (check_submission-Ensures r) (λ params _.
        Ensures-bind P
          (or_respond-Ensures P (get_user_id formats r.user) 401 (bytes "Invalid User"))
          (λ user_id _.
            let branch_name = submitted_branch params.branch in
            let arg : CreateJobParams = record {
              user_id = user_id;
              repo_url = params.repo_url;
              branch = record { string = branch_name; valid = true };
            } in
            Ensures-bind P
              (Ensures-or_else P (λ _. respond_with_error 500 (bytes "Failed to create job"))
                (Ensures-query P (create_job arg) (StmtKeeps-of P (create_job arg) (created arg))))
              (λ job _.
                let msg : JobMessage = record {
                  job_id = job.id;
                  repo_url = params.repo_url;
                  branch = branch_name;
                  user_id = user_id;
                } in
                Ensures-bind P (Ensures-try_send P capacity msg (sent msg)) (λ _ _.
                  Ensures-pure P (respond_with_json 202 (one_job (job_response formats job))) tt))))

-- `SubmitJob` keeps the tables in order, whatever fails in it, if all others keep them so.
submit_job-IsWellFormed :
    (formats : Formats) (capacity : ℕ) (r : Request) (w : World)
    → IsWellFormed w.shared.db
    → Steady (λ s. IsWellFormed s.db) w
    → IsWellFormed (submit_job formats capacity r w).1.shared.db
submit_job-IsWellFormed formats capacity r w h steady =
    ((submit_job-Ensures (λ s. IsWellFormed s.db) formats capacity r
        (λ arg now uuid s. create_job-IsWellFormed arg now uuid s.db) (λ msg s p. p)).at
      w (h, steady)).0.0

module _ (P : Shared → Type 0) where
  pub get_job_by_id-Ensures :
      (formats : Formats) (r : Request) → Ensures P (λ _. Unit {0}) (get_job_by_id formats r)
  unfolding get_job_by_id
  get_job_by_id-Ensures formats r = Ensures-bind P (find_job-Ensures P formats r) (λ found _.
      Ensures-pure P (respond_with_json 200 (job_detail (job_detail_of formats found.1))) tt)

  list_page-Ensures :
      (formats : Formats) (order : RowOrder) (user_id : Uuid) (count page per_page : ℕ)
      → Ensures P (λ _. Unit {0}) (list_page formats order user_id count page per_page)
  unfolding list_page list_jobs_by_user
  list_page-Ensures formats order user_id count page per_page =
      let served = served_page count per_page page in
      let arg = page_params user_id served per_page in
      elim (Bool-cases (count == 0)) [
        | inl none_there ↦ rw none_there (Ensures-pure P _ tt)
        | inr some_there ↦ rw some_there (
            Ensures-bind P
              (Ensures-or_else P (λ _. respond_with_error 500 (bytes "Failed to list jobs"))
                (Ensures-query P (list_jobs_by_user order arg)
                  (StmtKeeps-of P (list_jobs_by_user order arg) (λ now uuid s p. p))))
              (λ list _.
                Ensures-pure P
                  (respond_with_json 200 (
                    job_list (map (job_response formats) list)
                      (record { page = served; per_page = per_page; total = count })))
                  tt))
      ]

  pub list_jobs-Ensures :
      (formats : Formats) (order : RowOrder) (r : Request)
      → Ensures P (λ _. Unit {0}) (list_jobs formats order r)
  unfolding list_jobs count_jobs_by_user
  list_jobs-Ensures formats order r =
      Ensures-bind P (or_respond-Ensures P (get_user_id formats r.user) 401 (bytes "Invalid User"))
        (λ user_id _.
          Ensures-bind P {Q = λ _. Unit {0}}
            (Ensures-or_else P (λ _. respond_with_error 500 (bytes "Failed to list jobs"))
              (Ensures-query P (count_jobs_by_user user_id)
                (StmtKeeps-of P (count_jobs_by_user user_id) (λ now uuid s p. p))))
            (λ count _.
              list_page-Ensures formats order user_id count (read_page r.page)
                (read_per_page r.per_page)))

-- `RemoveJobById` keeps the tables in order, whatever fails in it, if all others keep them so.
remove_job_by_id-IsWellFormed :
    (formats : Formats) (r : Request) (w : World)
    → IsWellFormed w.shared.db
    → Steady (λ s. IsWellFormed s.db) w
    → IsWellFormed (remove_job_by_id formats r w).1.shared.db
remove_job_by_id-IsWellFormed formats r w h steady =
    ((remove_job_by_id-Ensures (λ s. IsWellFormed s.db) formats r
        (λ key now uuid s _. delete_job-IsWellFormed key now uuid s.db)).at
      w (h, steady)).0.0

-- There is a job of this owner with this id.
abbrev pub Owns : Uuid → Uuid → Shared → Type 0
Owns id owner s = has_row (is_job id owner) s.db.jobs ≡ true

has_row-filter :
    {A : Type 0} (q p : A → Bool) (rows : List A)
    → ((r : A) → q r ≡ true → p r ≡ true)
    → has_row q rows ≡ true
    → has_row q (filter p rows) ≡ true
has_row-filter q p [] keep h = h
has_row-filter q p (r ∷ rows) keep h = ground (arith, keep r, has_row-filter q p rows keep)

other_key :
    (id owner : Uuid) (key : JobKey) (j : Job)
    → key.user_id ≢ owner
    → is_job id owner j ≡ true
    → not (is_job key.id key.user_id j) ≡ true
other_key id owner key j other h = ground arith

-- `RemoveJobById` never removes a job of anyone but the user of the request: another owner's job that
-- is there stays there, as far as the others leave it.
pub remove_job_by_id_others :
    (formats : Formats) (r : Request) (w : World) (id owner : Uuid)
    → get_user_id formats r.user ≢ some owner
    → Owns id owner w.shared
    → Steady (Owns id owner) w
    → Owns id owner (remove_job_by_id formats r w).1.shared
unfolding delete_job
remove_job_by_id_others formats r w id owner other h steady =
    ((remove_job_by_id-Ensures (Owns id owner) formats r (λ key now uuid s same.
        has_row-filter (is_job id owner) (λ j. not (is_job key.id key.user_id j)) s.db.jobs
          (λ j. other_key id owner key j (λ e. other (same ∙ ap some e))))).at
      w (h, steady)).0.0
