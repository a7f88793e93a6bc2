-- ===== src/Server/Shutdown.antt =====
-- The goroutines of cmd/api/main.go and its shutdown: the workers, the sweep, and the requests behind
-- `SubmitJob` around the channel, as steps that the scheduler chooses, up to a panic.
pub mod Drain
pub mod Crash
mod Tests
use ping_goat.Common.{
  All, Bool, List, [], false, length, suc, true, zero, ℕ, ◌++◌, ◌<◌, ◌∷◌, ◌≡◌, ◌≤◌,
}
use ping_goat.Pipeline.Message.{JobMessage}

-- `jobCh`, with all that has gone into it and out of it so far.
pub record Channel : Type 0 where
  pub buffer : List JobMessage
  pub is_closed : Bool
  pub sent : List JobMessage
  pub taken : List JobMessage

-- `select { case jobs <- msg: default: }` on a channel that is open.
pub data TrySend (capacity : ℕ) (msg : JobMessage) (c d : Channel) : Type 0 where
  sends :
      c.is_closed ≡ false
      → length c.buffer < capacity
      → d ≡ record c { buffer = c.buffer ++ msg ∷ []; sent = c.sent ++ msg ∷ [] }
      → TrySend capacity msg c d
  drops : c.is_closed ≡ false → capacity ≤ length c.buffer → d ≡ c → TrySend capacity msg c d

-- Where main stands: it serves, it is in `srv.Shutdown`, in front of `close(jobCh)`, in `wg.Wait()`, or
-- behind it.
pub data MainStage : Type 0 where
  serving shutting_down closing awaiting stopped : MainStage

-- A worker in `range jobs`, in `processJob`, or returned.
pub data WorkerStage : Type 0 where
  ready : WorkerStage
  processing : JobMessage → WorkerStage
  exited : WorkerStage

-- The sweep in its `select`, with the messages that it has yet to send, or returned.
pub data SweepStage : Type 0 where
  asleep : SweepStage
  resending : List JobMessage → SweepStage
  sweep_over : SweepStage

pub record Process : Type 0 where
  pub main : MainStage
  -- `workerContext` has ended.
  pub signalled : Bool
  pub channel : Channel
  pub workers : List WorkerStage
  pub sweep : SweepStage
  -- The requests of `SubmitJob` that have come in, by the message that each would send.
  pub requests : List JobMessage

abbrev pub all_ready : ℕ → List WorkerStage
all_ready zero = []
all_ready (suc n) = ready ∷ all_ready n

-- The channel holds as many messages as there are workers.
abbrev pub boot : ℕ → Process
boot n = record {
  main = serving;
  signalled = false;
  channel = record { buffer = []; is_closed = false; sent = []; taken = [] };
  workers = all_ready n;
  sweep = asleep;
  requests = [];
}

abbrev pub IsExited : WorkerStage → Type 0
IsExited w = w ≡ exited

pub data Step (n : ℕ) (s t : Process) : Type 0 where
  interrupt : s.signalled ≡ false → t ≡ record s { signalled = true } → Step n s t
  -- A request comes in before `srv.Shutdown`.
  request :
      (msg : JobMessage)
      → s.main ≡ serving
      → t ≡ record s { requests = msg ∷ s.requests }
      → Step n s t
  submit :
      (msg : JobMessage) (before after : List JobMessage) (c : Channel)
      → s.requests ≡ before ++ msg ∷ after
      → TrySend n msg s.channel c
      → t ≡ record s { requests = before ++ after; channel = c }
      → Step n s t
  -- It ends without a send, by an early return.
  request_ends :
      (msg : JobMessage) (before after : List JobMessage)
      → s.requests ≡ before ++ msg ∷ after
      → t ≡ record s { requests = before ++ after }
      → Step n s t
  -- The send on a closed channel panics, and package http recovers the panic of a handler.
  submit_fails :
      (msg : JobMessage) (before after : List JobMessage)
      → s.requests ≡ before ++ msg ∷ after
      → s.channel.is_closed ≡ true
      → t ≡ record s { requests = before ++ after }
      → Step n s t
  -- A tick of the sweep, and the jobs that it reads; its query fails once the context has ended.
  tick :
      (msgs : List JobMessage)
      → s.sweep ≡ asleep
      → s.signalled ≡ false
      → t ≡ record s { sweep = resending msgs }
      → Step n s t
  resend :
      (msg : JobMessage) (msgs : List JobMessage) (c : Channel)
      → s.sweep ≡ resending (msg ∷ msgs)
      → TrySend n msg s.channel c
      → t ≡ record s { sweep = resending msgs; channel = c }
      → Step n s t
  sweep_rests : s.sweep ≡ resending [] → t ≡ record s { sweep = asleep } → Step n s t
  sweep_returns :
      s.sweep ≡ asleep → s.signalled ≡ true → t ≡ record s { sweep = sweep_over } → Step n s t
  receive :
      (msg : JobMessage) (buffer : List JobMessage) (before after : List WorkerStage)
      → s.workers ≡ before ++ ready ∷ after
      → s.channel.buffer ≡ msg ∷ buffer
      → t ≡ record s {
        workers = before ++ processing msg ∷ after;
        channel = record s.channel { buffer = buffer; taken = s.channel.taken ++ msg ∷ [] };
      }
      → Step n s t
  -- `processJob` returns.
  finish :
      (msg : JobMessage) (before after : List WorkerStage)
      → s.workers ≡ before ++ processing msg ∷ after
      → t ≡ record s { workers = before ++ ready ∷ after }
      → Step n s t
  -- `range jobs` ends on a channel that is closed and empty.
  worker_returns :
      (before after : List WorkerStage)
      → s.workers ≡ before ++ ready ∷ after
      → s.channel.is_closed ≡ true
      → s.channel.buffer ≡ []
      → t ≡ record s { workers = before ++ exited ∷ after }
      → Step n s t
  shut_down :
      s.main ≡ serving → s.signalled ≡ true → t ≡ record s { main = shutting_down } → Step n s t
  -- `srv.Shutdown` returns, when no request is left or its five seconds are over.
  shutdown_returns : s.main ≡ shutting_down → t ≡ record s { main = closing } → Step n s t
  close_jobs :
      s.main ≡ closing
      → t ≡ record s { main = awaiting; channel = record s.channel { is_closed = true } }
      → Step n s t
  leave :
      s.main ≡ awaiting
      → All IsExited s.workers
      → s.sweep ≡ sweep_over
      → t ≡ record s { main = stopped }
      → Step n s t

-- A run, from the left to the right.
pub data Run (n : ℕ) (s : Process) : Process → Type 0 where
  here : Run n s s
  next : {t u : Process} → Run n s t → Step n t u → Run n s u
