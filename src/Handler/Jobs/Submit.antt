-- ===== src/Handler/Jobs/Submit.antt =====
-- A submission that goes through, and the message that it hands to the workers.
use ping_goat.Common.{
  List, [], ap, arith, bytes, false, has_prefix, length, ltb, not, ok, refl, some, str_eq,
  str_eq-nil, suc, true, ℕ, ◌++◌, ◌==◌, ◌∙◌, ◌∷◌, ◌≡◌, ◌≢◌,
}
use ping_goat.Database.{varchar, find_row, has_row, Db, Job, Uuid}
use ping_goat.Database.Keyed.{find_row-append}
use ping_goat.Database.Jobs.{insert_job, create_job, new_job, CreateJobParams, is_job}
use ping_goat.Pipeline.Message.{JobMessage}
use ping_goat.Session.{
  Exec, ◌>>◌, query, require, pure, ◌>>=◌, with_db, signal, try_send, arrive, World,
}
use ping_goat.Session.Calm.{IsCalm, query_calm, try_send_calm}
use ping_goat.Session.Guards.{require_passes, else_ok, bind_ok}
use ping_goat.Http.{respond_with_error, Formats, Response, one_job, respond_with_json, get_user_id}
use ping_goat.Handler.{or_respond}
use ping_goat.Handler.Jobs.{
  server_error, Handler, check_submission, submitted_branch, github_prefix, submit_job,
  job_response, SubmitParams, Request,
}

-- What a submission needs to go through: a user, a URL of github.com, that the user exists and the
-- new id does not, a branch of no more than 255 characters, and a place in the channel.
pub record Passes (formats : Formats) (capacity : ℕ) (r : Request) (params : SubmitParams)
    (user_id : Uuid) (w : World) : Type 0 where
  pub body : r.body ≡ some params
  pub url_given : params.repo_url ≢ []
  pub url : has_prefix params.repo_url github_prefix ≡ true
  pub user : get_user_id formats r.user ≡ some user_id
  pub user_exists : has_row (λ u. u.id == user_id) w.shared.db.users ≡ true
  pub new_id : has_row (λ j. j.id == (signal w).uuid) w.shared.db.jobs ≡ false
  pub branch_fits :
      varchar 255 (submitted_branch params.branch) ≡ some (submitted_branch params.branch)
  pub place : ltb (length w.shared.channel) capacity ≡ true

-- The handler from the new job on, and from the user on.
module _ (formats : Formats) (capacity : ℕ) where
  abbrev send_then : SubmitParams → Uuid → Job → Handler
  send_then p user_id job =
      try_send capacity (record {
        job_id = job.id;
        repo_url = p.repo_url;
        branch = submitted_branch p.branch;
        user_id = user_id;
      })
      >>= λ _. pure (respond_with_json 202 (one_job (job_response formats job)))

  abbrev create_then : SubmitParams → Uuid → Handler
  create_then p user_id =
      server_error
        (query (
          create_job (record {
            user_id = user_id;
            repo_url = p.repo_url;
            branch = record { string = submitted_branch p.branch; valid = true };
          })))
        (bytes "Failed to create job")
      >>= send_then p user_id

module _ (params : SubmitParams) (user_id : Uuid) (w : World) where
  abbrev arg : CreateJobParams
  arg = record {
    user_id = user_id;
    repo_url = params.repo_url;
    branch = record { string = submitted_branch params.branch; valid = true };
  }

  -- The job of a submission, and its message.
  abbrev pub submitted_job : Job
  submitted_job = new_job arg (signal w).now (signal w).uuid

  abbrev pub submitted_message : JobMessage
  submitted_message = record {
    job_id = (signal w).uuid;
    repo_url = params.repo_url;
    branch = submitted_branch params.branch;
    user_id = user_id;
  }

  abbrev with_job : Db
  with_job = record w.shared.db { jobs = w.shared.db.jobs ++ submitted_job ∷ [] }

  abbrev created_world : World
  created_world = arrive w (with_db w.shared with_job)

  abbrev pub submitted_world : World
  submitted_world =
      arrive created_world
        (record created_world.shared { channel = w.shared.channel ++ submitted_message ∷ [] })

  not_there :
      (rows : List Job)
      → has_row (λ j. j.id == (signal w).uuid) rows ≡ false
      → has_row (is_job (signal w).uuid user_id) rows ≡ false
  not_there [] h = refl
  not_there (j ∷ rows) h = ground (arith, not_there rows)

  pub submitted_row :
      has_row (λ j. j.id == (signal w).uuid) w.shared.db.jobs ≡ false
      → find_row (is_job (signal w).uuid user_id) submitted_world.shared.db.jobs
        ≡ some submitted_job
  submitted_row fresh =
      find_row-append (is_job (signal w).uuid user_id) w.shared.db.jobs submitted_job
        (not_there w.shared.db.jobs fresh) (ground arith)

module _ (formats : Formats) (capacity : ℕ) (r : Request) (params : SubmitParams) (user_id : Uuid)
    (w : World) where
  abbrev accepted : Response
  accepted = respond_with_json 202 (one_job (job_response formats (submitted_job params user_id w)))

  module _ (calm : IsCalm w) (ok_request : Passes formats capacity r params user_id w) where
    create_runs :
        create_job (arg params user_id w) (signal w).now (signal w).uuid w.shared.db
        ≡ ((with_job params user_id w), ok (submitted_job params user_id w))
    unfolding create_job insert_job
    create_runs =
        let fits = ok_request.branch_fits in
        rw (create_job, fits, insert_job, ok_request.new_id, ok_request.user_exists) refl

    check_runs : check_submission r w ≡ (ok params, w)
    unfolding check_submission
    check_runs =
        let no_url = respond_with_error 400 (bytes "Repo URL are required") in
        let no_access = respond_with_error 400 (bytes "Could not access repository") in
        let from_prefix : SubmitParams → Exec Response SubmitParams =
          λ p. require (has_prefix p.repo_url github_prefix) no_access >> pure p in
        ap
          (λ o.
            (or_respond o 400 (bytes "Invalid Request Body") >>= λ (p : SubmitParams).
            require (not (str_eq p.repo_url [])) no_url >> from_prefix p)
              w)
          ok_request.body
        ∙ require_passes (not (str_eq params.repo_url [])) no_url (from_prefix params) w
            (ap not (str_eq-nil params.repo_url ok_request.url_given))
        ∙ require_passes (has_prefix params.repo_url github_prefix) no_access (pure params) w
            ok_request.url

    -- The submission is answered with 202, and has put the job into the table and its message into the
    -- channel.
    pub submit_job_runs :
        submit_job formats capacity r w ≡ (ok accepted, (submitted_world params user_id w))
    unfolding submit_job
    submit_job_runs =
        bind_ok (check_submission r)
          (λ p.
            or_respond (get_user_id formats r.user) 401 (bytes "Invalid User")
            >>= create_then formats capacity p)
          w w params check_runs
        ∙ ap
            (λ o.
              (or_respond o 401 (bytes "Invalid User") >>= create_then formats capacity params) w)
            ok_request.user
        ∙ bind_ok
            (server_error (query (create_job (arg params user_id w)))
              (bytes "Failed to create job"))
            (send_then formats capacity params user_id) w (created_world params user_id w)
            (submitted_job params user_id w)
            (else_ok (query (create_job (arg params user_id w))) _ w
              (created_world params user_id w) (submitted_job params user_id w)
              (query_calm (create_job (arg params user_id w)) w (with_job params user_id w)
                (ok (submitted_job params user_id w)) calm create_runs))
        ∙ bind_ok (try_send capacity (submitted_message params user_id w)) (λ _. pure accepted)
            (created_world params user_id w) (submitted_world params user_id w) true
            (try_send_calm capacity (submitted_message params user_id w)
              (created_world params user_id w) (λ n. calm (suc n)) ok_request.place)
