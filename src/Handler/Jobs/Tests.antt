-- ===== src/Handler/Jobs/Tests.antt =====
-- The pages of a user with three jobs, two to a page.
use mathlib.Core.Option.{some-injective}
use ping_goat.Common.{GoString, [], arith, bytes, length, none, refl, some, true, ℕ, ◌∷◌, ◌≢◌}
use ping_goat.Database.{varchar, Db}
use ping_goat.Database.Jobs.{insert_job, CreateJobParams, create_job, new_job}
use ping_goat.Database.Users.{insert_user, CreateUserParams, create_user}
use ping_goat.Database.References.{create_user-IsWellFormed}
use ping_goat.Database.WellFormed.{IsWellFormed, create_job-IsWellFormed}
use ping_goat.Session.{Signal, World, delivered}
use ping_goat.Http.{Formats, get_user_id}
use ping_goat.Handler.Jobs.Keeps.{Owns, remove_job_by_id_others}
use ping_goat.Handler.Jobs.{Request, remove_job_by_id}

abbrev job_params : CreateJobParams
job_params = record {
  user_id = 3;
  repo_url = bytes "https://github.com/a/b";
  branch = record { string = bytes "main"; valid = true };
}

abbrev db : Db
db = record {
  users = [];
  jobs = new_job job_params 1 7 ∷ new_job job_params 2 8 ∷ new_job job_params 3 9 ∷ [];
  documents = [];
  doc_cache = [];
}

-- A UUID is the length of its text.
abbrev formats : Formats
formats = record { scan_uuid = λ s. some (length s); uuid_string = λ id. []; rfc3339 = λ t. [] }

abbrev removal : GoString → Request
removal user = record {
  user = some user;
  body = none;
  id = bytes "1234567";
  page = [];
  per_page = [];
}

abbrev user_params : CreateUserParams
user_params = record { email = bytes "a@b.c"; password_hash = bytes "h" }

abbrev empty_db : Db
empty_db = record { users = []; jobs = []; documents = []; doc_cache = [] }

empty_db-IsWellFormed : IsWellFormed empty_db
empty_db-IsWellFormed = record { job_ids = tt; jobs = tt; owners = tt; documents_of = tt }

-- The user 3 with the queued job 7.
abbrev one_job_db : Db
one_job_db = (create_job job_params 2 7 (create_user user_params 1 3 empty_db).0).0

one_job_db-IsWellFormed : IsWellFormed one_job_db
one_job_db-IsWellFormed =
    create_job-IsWellFormed job_params 2 7 (create_user user_params 1 3 empty_db).0
      (create_user-IsWellFormed user_params 1 3 empty_db empty_db-IsWellFormed)

abbrev quiet : ℕ → Signal
quiet n = record { others = λ s. s; fault = delivered; now = n; uuid = n }

abbrev start : World
start = record {
  shared = record { db = one_job_db; channel = [] };
  outside = quiet;
  temp_dirs = [];
}

other_user : get_user_id formats (removal (bytes "abcd")).user ≢ some 3
unfolding get_user_id
other_user e = omega (arith, some-injective _ _ e)

owned_job : Owns 7 3 start.shared
unfolding create_job create_user insert_job insert_user varchar
owned_job = refl

remove_job_by_id_others_example :
    Owns 7 3 (remove_job_by_id formats (removal (bytes "abcd")) start).1.shared
remove_job_by_id_others_example =
    remove_job_by_id_others formats (removal (bytes "abcd")) start 7 3 other_user owned_job
      (λ n s h. h)

abbrev submission : Request
submission = record (removal (bytes "abc")) {
  body = some (record { repo_url = bytes "https://github.com/a/b"; branch = [] });
}
