-- ===== src/Pipeline/Recovery/Tests.antt =====
-- One tick on two queued jobs, with room for one message.
use ping_goat.Common.{[], bytes, refl, true, ℕ, ◌∷◌, ◌≡◌}
use ping_goat.Database.{Db}
use ping_goat.Database.Order.{by_created}
use ping_goat.Database.Jobs.{get_pending_job, CreateJobParams, is_queued, new_job}
use ping_goat.Session.{try_send, query, Signal, World, delivered}
use ping_goat.Pipeline.Recovery.{message_of, sweep}

abbrev job_params : CreateJobParams
job_params = record {
  user_id = 3;
  repo_url = bytes "https://github.com/a/b";
  branch = record { string = bytes "main"; valid = true };
}

abbrev two_queued : Db
two_queued = record {
  users = [];
  jobs = new_job job_params 1 7 ∷ new_job job_params 2 8 ∷ [];
  documents = [];
  doc_cache = [];
}

abbrev quiet : ℕ → Signal
quiet n = record { others = λ s. s; fault = delivered; now = n; uuid = n }

abbrev start : World
start = record {
  shared = record { db = two_queued; channel = [] };
  outside = quiet;
  temp_dirs = [];
}

one_fits : (sweep by_created 1 start).1.shared.channel ≡ message_of (new_job job_params 1 7) ∷ []
unfolding sweep query get_pending_job is_queued try_send
one_fits = refl
