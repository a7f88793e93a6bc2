-- ===== src/Server/Start.antt =====
-- How main of cmd/api/main.go sets the server up, before it serves.
use mathlib.Core.Option
use ping_goat.Common.{
  Bool, Bool-cases, GoString, Option, ap, arith, bytes, if◌then◌else◌, inl, inr, leb, length,
  negsuc, none, pos, pos_part, refl, some, suc, sym, true, zero, ℕ, ℤ, ◌<◌, ◌≡◌, ◌≤◌,
}
use ping_goat.Config.{Config, load}
use ping_goat.Config.Bounds.{load-IsPositive}
use ping_goat.Server.{ServerEnv}
use ping_goat.Server.Shutdown.{Process, boot, all_ready}

-- `make(chan pipeline.JobMessage, n)`: a negative size is a panic, and so is one that is out of range
-- for the runtime: over `most`, which depends on the platform.
abbrev channel_size : ℕ → ℤ → Option ℕ
channel_size most (pos n) = if leb n most then some n else none
channel_size most (negsuc n) = none

-- NewAuthHandler and NewJobsHandler, around what the libraries do.
abbrev handlers : Config → ℕ → ServerEnv → ServerEnv
handlers cfg n libraries = record libraries {
  auth = record libraries.auth {
    jwt_secret = cfg.jwt_secret;
    jwt_expiry_hours = cfg.jwt_expiry_hours;
  };
  capacity = n;
}

-- From `config.Load()` to the handlers, given the most places that a channel can have, and whether
-- pgxpool.New succeeds: the goroutines around the channel, and what the handlers are made of, or none
-- for a panic.
pub start : ℕ → (GoString → GoString) → Bool → ServerEnv → Option (Process × ServerEnv)
unfolding load
start most getenv connects libraries =
    let cfg = load getenv in
    if connects
    then Option.map {B = Process × ServerEnv} (λ n. (boot n, handlers cfg n libraries))
        (channel_size most cfg.pipeline_workers)
    else none

-- What PIPELINE_WORKERS asks for, by `Load`.
abbrev pub workers_of : (GoString → GoString) → ℕ
workers_of getenv = pos_part (load getenv).pipeline_workers

-- A process with a worker for each place of the channel, as many as asked for, one at least, and
-- handlers that send on it and sign with the secret of the environment.
pub record IsReady (getenv : GoString → GoString) (process : Process) (env : ServerEnv)
    : Type 0 where
  pub some_place : 1 ≤ env.capacity
  pub asked : env.capacity ≡ workers_of getenv
  pub workers : length process.workers ≡ env.capacity
  pub secret : env.auth.jwt_secret ≡ getenv (bytes "JWT_SECRET")

length-all_ready : (n : ℕ) → length (all_ready n) ≡ n
length-all_ready zero = refl
length-all_ready (suc n) = ground (arith, length-all_ready n)

-- What a start comes to, given the most places of a channel: ready, with as many workers as
-- PIPELINE_WORKERS asks for, or a panic, for more than that.
abbrev pub Starts : ℕ → (GoString → GoString) → Option (Process × ServerEnv) → Type 0
Starts most getenv (some (p, env)) = (workers_of getenv ≤ most) × IsReady getenv p env
Starts most getenv none = most < workers_of getenv

-- With its database reached, the server gets ready exactly when a channel can have as many places as
-- PIPELINE_WORKERS asks for: then it has that many workers and places, one at least, and the
-- secret of the environment; with a number over that, which `Load` lets through, it panics.
pub start-IsReady :
    (most : ℕ) (getenv : GoString → GoString) (libraries : ServerEnv)
    → Starts most getenv (start most getenv true libraries)
unfolding start
start-IsReady most getenv libraries =
    let cfg = load getenv in
    let (m, workers) = (load-IsPositive getenv).0 in
    elim (Bool-cases (leb (suc m) most)) [
      | inl room ↦
          rw (workers, room)
            (
              ground arith,
              record {
                some_place = ground arith;
                asked = sym (ap pos_part workers);
                workers = length-all_ready (suc m);
                secret = refl;
              },
            )
      | inr none_fit ↦ rw (workers, none_fit) (ground arith)
    ]
