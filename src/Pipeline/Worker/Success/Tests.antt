-- ===== src/Pipeline/Worker/Success/Tests.antt =====
-- The job of the fixtures, processed to its end, and one that is submitted first.
use ping_goat.Common.{[], bytes, if◌then◌else◌, length, some, ◌==◌}
use ping_goat.Http.{Formats}
use ping_goat.Handler.Jobs.{Request, SubmitParams, submit_job}
use ping_goat.Pipeline.Worker.Fixtures.{user_db}
use ping_goat.Database.Jobs.{new_job}
use ping_goat.Database.{Job}
use ping_goat.Pipeline.Cloner.{Workspace}
use ping_goat.Pipeline.Worker.Fixtures.{job_params, first_db, world_of, sha}
use ping_goat.Gemini.RateLimit.{RateLimiter}
use ping_goat.Session.{World}

abbrev clone_dir : Workspace
clone_dir = record { dir = bytes "/tmp/a"; commit_sha = sha }

abbrev queued_job : Job
queued_job = new_job job_params 2 7

abbrev start : World
start = world_of first_db

-- A call a minute.
abbrev slow : RateLimiter
slow = record { interval = 60_000_000_000; taken = 0 }

-- The text of three letters is the id of the user, any other that of the job.
abbrev formats : Formats
formats = record {
  scan_uuid = λ s. some (if length s == 3 then 3 else 0);
  uuid_string = λ id. bytes "u";
  rfc3339 = λ t. [];
}

abbrev params : SubmitParams
params = record { repo_url = bytes "https://github.com/a/b"; branch = [] }

abbrev request : Request
request = record {
  user = some (bytes "ann");
  body = some params;
  id = bytes "j";
  page = [];
  per_page = [];
}

abbrev before : World
before = world_of user_db

abbrev submitted : World
submitted = world_of (submit_job formats 2 request before).1.shared.db
