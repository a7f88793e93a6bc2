-- ===== src/Server/Shutdown/Tests.antt =====
-- One worker, and one request before the shutdown.
use ping_goat.Common.{All, [], arith, bytes, false, refl, true, ◌∷◌, ◌≡◌}
use ping_goat.Pipeline.Message.{JobMessage}
use ping_goat.Server.Shutdown.{
  leave, interrupt, sends, sweep_returns, submit, worker_returns, close_jobs, finish,
  shutdown_returns, request, here, receive, sweep_over, shut_down, exited, next, IsExited, stopped,
  boot, Run, Channel, awaiting, Process,
}
use ping_goat.Server.Shutdown.Drain.{shutdown_drains}
use ping_goat.Server.Shutdown.Crash.{SweepPanics, shutdown_panics}

abbrev msg : JobMessage
msg = record {
  job_id = 7;
  repo_url = bytes "https://github.com/a/b";
  branch = bytes "main";
  user_id = 3;
}

-- The message is in the channel when the signal comes.
abbrev filled : Channel
filled = record { buffer = msg ∷ []; is_closed = false; sent = msg ∷ []; taken = [] }

abbrev interrupted : Process
interrupted = record (boot 1) { channel = filled; signalled = true }

until_signal : Run 1 (boot 1) interrupted
until_signal =
    next
      (next (next here (request msg refl refl))
        (submit msg [] [] filled refl (sends refl (omega arith) refl) refl))
      (interrupt refl refl)

-- main has closed the channel.
abbrev shut : Process
shut = record interrupted { main = awaiting; channel = record filled { is_closed = true } }

until_close : Run 1 (boot 1) shut
until_close =
    next (next (next until_signal (shut_down refl refl refl)) (shutdown_returns refl refl))
      (close_jobs refl refl)

abbrev gone : Process
gone = record shut {
  main = stopped;
  channel = record { buffer = []; is_closed = true; sent = msg ∷ []; taken = msg ∷ [] };
  workers = exited ∷ [];
  sweep = sweep_over;
}

until_end : Run 1 (boot 1) gone
until_end =
    next
      (next
        (next
          (next (next until_close (receive msg [] [] [] refl refl refl))
            (finish msg [] [] refl refl))
          (worker_returns [] [] refl refl refl refl))
        (sweep_returns refl refl refl))
      (leave refl (refl, tt) refl refl)

shutdown_drains_example :
    (gone.channel.buffer ≡ [])
    × (gone.channel.taken ≡ gone.channel.sent)
    × All IsExited gone.workers
shutdown_drains_example = shutdown_drains 1 gone (omega arith) until_end refl

shutdown_panics_example : (s : Process) × Run 2 (boot 2) s × SweepPanics s
shutdown_panics_example = shutdown_panics 2 msg
