-- ===== src/Server/Shutdown/Crash.antt =====
-- How the shutdown of cmd/api/main.go can end in a panic of the sweep of internal/pipeline/recovery.go.
use ping_goat.Common.{List, [], refl, true, ℕ, ◌∷◌, ◌≡◌}
use ping_goat.Pipeline.Message.{JobMessage}
use ping_goat.Server.Shutdown.{
  close_jobs, shutdown_returns, shut_down, interrupt, tick, here, next, awaiting, boot, Run,
  resending, Process,
}

-- The sweep is in front of the send of a message, and the channel is closed: the send panics, and
-- nothing recovers it.
abbrev pub SweepPanics : Process → Type 0
SweepPanics s =
    (msg : JobMessage) × (msgs : List JobMessage) × (s.sweep ≡ resending (msg ∷ msgs))
    × (s.channel.is_closed ≡ true)

-- A sweep that has read a queued job before the signal can meet the closed channel: main does not wait
-- for it, with any number of workers.
pub shutdown_panics : (n : ℕ) (msg : JobMessage) → (s : Process) × Run n (boot n) s × SweepPanics s
shutdown_panics n msg = (
  record (boot n) {
    main = awaiting;
    signalled = true;
    channel = record { buffer = []; is_closed = true; sent = []; taken = [] };
    sweep = resending (msg ∷ []);
  },
  next
      (next
        (next (next (next here (tick (msg ∷ []) refl refl refl)) (interrupt refl refl))
          (shut_down refl refl refl))
        (shutdown_returns refl refl))
      (close_jobs refl refl),
  (msg, [], refl, refl),
)
