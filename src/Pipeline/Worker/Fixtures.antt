-- ===== src/Pipeline/Worker/Fixtures.antt =====
-- The tables, the machine and the message that the tests of the worker run on.
use ping_goat.Common.{GoString, [], bytes, pos, some, true, ℕ, ◌∷◌}
use mathlib.Core.List.Perm
use ping_goat.Database.{Db}
use ping_goat.Database.Users.{CreateUserParams, create_user}
use ping_goat.Database.Jobs.{CreateJobParams, create_job}
use ping_goat.Session.{Signal, World, delivered}
use ping_goat.Gemini.{response}
use ping_goat.Config.{Config, load}
use ping_goat.Pipeline.Cloner.{Git, succeeded}
use ping_goat.Pipeline.Message.{JobMessage}
use ping_goat.Pipeline.Parser.{Disk}
use ping_goat.Pipeline.Scanner.{Node, file, dir, nil, cons}
use ping_goat.Pipeline.Worker.{Machine}

abbrev pub empty_db : Db
empty_db = record { users = []; jobs = []; documents = []; doc_cache = [] }

abbrev pub user_params : CreateUserParams
user_params = record { email = bytes "a@b.c"; password_hash = bytes "h" }

abbrev pub job_params : CreateJobParams
job_params = record {
  user_id = 3;
  repo_url = bytes "https://github.com/a/b";
  branch = record { string = bytes "main"; valid = true };
}

-- One user, 3, with one queued job, 7.
abbrev pub user_db : Db
user_db = (create_user user_params 1 3 empty_db).0

abbrev pub first_db : Db
first_db = (create_job job_params 2 7 user_db).0

abbrev pub sha : GoString
sha = bytes "0123456789abcdef0123456789abcdef01234567"

abbrev pub no_key : GoString → GoString
no_key name = bytes "1"

-- Every variable is "1": one file is scanned, and a batch holds one token.
abbrev pub cfg : Config
cfg = load no_key

abbrev pub git : Git
git = record { mkdir_temp = some (bytes "/tmp/a"); run = λ args. succeeded sha; remove_all = true }

abbrev pub tree : Node
tree = dir (bytes "a") (cons (file (bytes "main.go")) nil) true

abbrev pub disk : Disk
disk = record {
  read_file = λ path. some (bytes "package main");
  rel = λ root path. some path;
  arrival = λ files. files;
  arrival-perm = λ files. Perm.refl files;
}

abbrev pub machine : Machine
machine = record {
  git = git;
  tree = tree;
  disk = disk;
  has_model = true;
  ticked = λ doc. true;
  generate_content = λ prompt. response (some (bytes "text" ∷ [])) (some (pos 3, pos 4)) ∷ [];
}

abbrev pub msg : JobMessage
msg = record {
  job_id = 7;
  repo_url = bytes "https://github.com/a/b";
  branch = bytes "main";
  user_id = 3;
}

abbrev pub quiet : ℕ → Signal
quiet n = record { others = λ s. s; fault = delivered; now = n; uuid = n }

abbrev pub world_of : Db → World
world_of db = record { shared = record { db = db; channel = [] }; outside = quiet; temp_dirs = [] }
