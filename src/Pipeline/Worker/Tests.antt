-- ===== src/Pipeline/Worker/Tests.antt =====
-- The worker on one queued job, in a world where every call succeeds and nobody else acts.
use ping_goat.Pipeline.Worker.Fixtures.{
  empty_db, user_params, job_params, user_db, first_db, sha, cfg, git, machine, msg, world_of,
}
use ping_goat.Common.{
  IsOrdered, [], bytes, err, false, length, none, ok, pos, refl, str_eq, ◌∷◌, ◌≡◌, ◌≢◌, ◌≤◌, ◌⊎◌,
}
use mathlib.Core.Option.{some-injective}
use mathlib.Core.Path.{subst}
use ping_goat.Pipeline.Cloner.Address.{parse_url}
use ping_goat.Database.{varchar, Db, has_row}
use ping_goat.Database.Users.{insert_user, create_user}
use ping_goat.Database.Order.{IsSplit, by_created, get_pending_job_oldest}
use ping_goat.Database.Jobs.{
  insert_job, IsOlder, update_job, create_job, complete_job, get_pending_job, is_queued,
}
use ping_goat.Database.WellFormed.{IsWellFormed, create_job-IsWellFormed}
use ping_goat.Database.References.{create_user-IsWellFormed}
use ping_goat.Session.{tx_query, query, begin, World, arrive, signal}
use ping_goat.Config.{Config}
use ping_goat.Pipeline.Cloner.{is_repo_path, make_dir, clone, valid_repo_url}
use ping_goat.Pipeline.Store.{StoreInput, empty_results, store_results}
use ping_goat.Pipeline.Store.Atomic.{store_results_atomic}
use ping_goat.Pipeline.Worker.{clone_failed, Machine, not_found, process_job, update_failed}
use ping_goat.Pipeline.Cloner.Dirs.{IsFresh}
use ping_goat.Pipeline.Worker.Keyless.{process_job_keyless}
use ping_goat.Pipeline.Worker.Cleanup.{process_job_dirs}
use ping_goat.Pipeline.Worker.Lifecycle.{process_job-IsWellFormed}
use ping_goat.Pipeline.Worker.Claimed.{NotQueued, process_job_claims, process_job-NotQueued}

empty_db-IsWellFormed : IsWellFormed empty_db
empty_db-IsWellFormed = record { job_ids = tt; jobs = tt; owners = tt; documents_of = tt }

user_db-IsWellFormed : IsWellFormed user_db
user_db-IsWellFormed = create_user-IsWellFormed user_params 1 3 empty_db empty_db-IsWellFormed

first_db-IsWellFormed : IsWellFormed first_db
first_db-IsWellFormed = create_job-IsWellFormed job_params 2 7 user_db user_db-IsWellFormed

process_job-IsWellFormed_example :
    IsWellFormed (process_job machine cfg msg (world_of first_db)).1.shared.db
process_job-IsWellFormed_example =
    process_job-IsWellFormed machine cfg msg (world_of first_db) first_db-IsWellFormed (λ n s h. h)

-- Without a temporary directory the clone fails, behind the claim.
abbrev full_disk : Machine
full_disk = record machine { git = record git { mkdir_temp = none } }

full_disk_run : (process_job full_disk cfg msg (world_of first_db)).0 ≡ err clone_failed
unfolding process_job query update_job create_job create_user parse_url valid_repo_url clone
    insert_job insert_user varchar make_dir is_queued is_repo_path
full_disk_run = refl

full_disk_claimed : (process_job full_disk cfg msg (world_of first_db)).0 ≢ err update_failed
full_disk_claimed e = cc (full_disk_run, e)

process_job_claims_example :
    NotQueued 7 3 (process_job full_disk cfg msg (world_of first_db)).1.shared
process_job_claims_example =
    process_job_claims full_disk cfg msg (world_of first_db) (λ n s h. h) full_disk_claimed

user_db-NotQueued : NotQueued 7 3 (world_of user_db).shared
unfolding create_user insert_user varchar
user_db-NotQueued = refl

process_job-NotQueued_example :
    (((process_job machine cfg msg (world_of user_db)).0 ≡ err update_failed)
      ⊎ ((process_job machine cfg msg (world_of user_db)).0 ≡ err not_found))
    × ((process_job machine cfg msg (world_of user_db)).1
        ≡ arrive (world_of user_db) ((signal (world_of user_db)).others (world_of user_db).shared))
process_job-NotQueued_example =
    process_job-NotQueued machine cfg msg (world_of user_db) user_db-NotQueued

abbrev two_jobs : Db
two_jobs = (create_job job_params 2 8 first_db).0

two_pending : (get_pending_job by_created 0 0 two_jobs).1 ≡ ok two_jobs.jobs
unfolding create_job create_user is_queued get_pending_job insert_job insert_user varchar
two_pending = refl

get_pending_job_oldest_example :
    (length two_jobs.jobs ≤ 50) × IsOrdered IsOlder two_jobs.jobs × IsSplit two_jobs two_jobs.jobs
get_pending_job_oldest_example =
    get_pending_job_oldest by_created 0 0 two_jobs two_jobs.jobs two_pending

-- Nothing is stored for a job that is not there.
abbrev input : StoreInput
input = record {
  job_id = 9;
  user_id = 3;
  repo_url = bytes "https://github.com/a/b";
  commit_sha = sha;
  file_count = pos 1;
  gemini_calls_used = pos 0;
  docs = [];
}

store_results_run : (store_results input (world_of first_db)).0 ≡ err empty_results
unfolding store_results begin tx_query complete_job create_job create_user insert_job insert_user
    varchar
store_results_run = refl

store_results_atomic_example :
    (store_results input (world_of first_db)).1.shared ≡ (world_of first_db).shared
store_results_atomic_example =
    store_results_atomic (λ s. s ≡ (world_of first_db).shared) input (world_of first_db) refl
      (λ n s h. h) store_results_run (λ e. cc e)

abbrev keyless_cfg : Config
keyless_cfg = record cfg { gemini_api_key = [] }

process_job_keyless_example : (process_job machine keyless_cfg msg (world_of first_db)).0 ≢ ok tt
process_job_keyless_example = process_job_keyless machine keyless_cfg msg (world_of first_db) refl

-- Another job's directory is there.
abbrev busy_world : World
busy_world = record (world_of first_db) { temp_dirs = bytes "/tmp/b" ∷ [] }

busy_world-IsFresh : IsFresh git busy_world.temp_dirs
unfolding str_eq
busy_world-IsFresh made e =
    subst (λ d. has_row (λ x. str_eq x d) busy_world.temp_dirs ≡ false) (some-injective _ _ e) refl

process_job_dirs_example :
    (process_job machine cfg msg busy_world).1.temp_dirs ≡ busy_world.temp_dirs
process_job_dirs_example = process_job_dirs machine cfg msg busy_world busy_world-IsFresh
