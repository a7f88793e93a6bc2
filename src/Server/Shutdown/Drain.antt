-- ===== src/Server/Shutdown/Drain.antt =====
-- What the shutdown of cmd/api/main.go leaves of the channel.
use mathlib.Core.Path.{subst}
use ping_goat.Common.{
  All, All-at, All-set, List, [], ap, append-nil, append_assoc, arith, inl, inr, length,
  length-append, length-set, refl, suc, sym, true, zero, ℕ, ◌++◌, ◌<◌, ◌∙◌, ◌∷◌, ◌≡◌, ◌≢◌, ◌≤◌, ◌⊎◌,
}
use ping_goat.Pipeline.Message.{JobMessage}
use ping_goat.Server.Shutdown.{
  leave, close_jobs, shutdown_returns, shut_down, worker_returns, finish, processing, ready,
  receive, sweep_returns, sweep_rests, resend, tick, submit_fails, request_ends, submit, here,
  drops, request, interrupt, sends, IsExited, next, exited, TrySend, WorkerStage, all_ready, Run,
  stopped, Channel, boot, Step, Process,
}

abbrev IsWorking : WorkerStage → Type 0
IsWorking w = w ≢ exited

-- What has gone in has come out, or is in the buffer, in order; and the buffer is within its capacity.
abbrev IsFlowing : ℕ → Channel → Type 0
IsFlowing n c = (c.sent ≡ c.taken ++ c.buffer) × (length c.buffer ≤ n)

TrySend-IsFlowing :
    (n : ℕ) (msg : JobMessage) (c d : Channel) → TrySend n msg c d → IsFlowing n c → IsFlowing n d
TrySend-IsFlowing n msg c d (sends still room e) (flow, bound) = rw e (
  ap (λ l. l ++ msg ∷ []) flow ∙ append_assoc c.taken c.buffer (msg ∷ []),
  omega (arith, length-append c.buffer (msg ∷ [])),
)
TrySend-IsFlowing n msg c d (drops still full e) h = rw e h

TrySend-IsOpen :
    (n : ℕ) (msg : JobMessage) (c d : Channel) → TrySend n msg c d → c.is_closed ≡ true → ⊥
TrySend-IsOpen n msg c d (sends still room e) shut = cc
TrySend-IsOpen n msg c d (drops still full e) shut = cc

-- The channel flows, a worker has returned only behind its end, and main has returned only behind all
-- workers.
record IsSound (n : ℕ) (s : Process) : Type 0 where
  flows : IsFlowing n s.channel
  ends : ((s.channel.is_closed ≡ true) × (s.channel.buffer ≡ [])) ⊎ All IsWorking s.workers
  left : (s.main ≢ stopped) ⊎ All IsExited s.workers
  count : length s.workers ≡ n

-- A send.
send-IsSound :
    (n : ℕ) (s t : Process) (msg : JobMessage)
    → TrySend n msg s.channel t.channel
    → t.main ≡ s.main
    → t.workers ≡ s.workers
    → IsSound n s
    → IsSound n t
send-IsSound n s t msg try main workers h = record {
  flows = TrySend-IsFlowing n msg s.channel t.channel try h.flows;
  ends = elim h.ends [
    | inl (shut, empty) ↦ absurd (TrySend-IsOpen n msg s.channel t.channel try shut)
    | inr all ↦ inr (rw workers all)
  ];
  left = elim h.left [ inl runs ↦ inl (λ p. runs (sym main ∙ p)) | inr all ↦ inr (rw workers all) ];
  count = ap length workers ∙ h.count;
}

-- A worker that has not returned goes on.
worker-IsSound :
    (n : ℕ) (s t : Process) (before after : List WorkerStage) (w w' : WorkerStage)
    → s.workers ≡ before ++ w ∷ after
    → t.workers ≡ before ++ w' ∷ after
    → w ≢ exited
    → IsFlowing n t.channel
    → t.main ≡ s.main
    → ((t.channel.is_closed ≡ true) × (t.channel.buffer ≡ []))
      ⊎ ((w' ≢ exited) × All IsWorking s.workers)
    → IsSound n s
    → IsSound n t
worker-IsSound n s t before after w w' e f works flows main ends h = record {
  flows = flows;
  ends = elim ends [
    | inl shut ↦ inl shut
    | inr (working, all) ↦ inr (rw f (All-set IsWorking before after w w' working (rw (← e) all)))
  ];
  left = elim h.left [
    | inl runs ↦ inl (λ p. runs (sym main ∙ p))
    | inr all ↦ absurd (works (All-at IsExited before after w (rw (← e) all)))
  ];
  count = ap length f ∙ length-set before after w' w ∙ ap length (sym e) ∙ h.count;
}

-- A step that leaves the channel and the workers alone, and in which main goes on, if it does.
other-IsSound :
    (n : ℕ) (s t : Process)
    → t.channel ≡ s.channel
    → t.workers ≡ s.workers
    → (t.main ≡ s.main) ⊎ (t.main ≢ stopped)
    → IsSound n s
    → IsSound n t
other-IsSound n s t channel workers main h = record {
  flows = subst (IsFlowing n) (sym channel) h.flows;
  ends = elim h.ends [
    | inl (shut, empty) ↦ inl (rw channel (shut, empty))
    | inr all ↦ inr (rw workers all)
  ];
  left = elim main [
    | inr runs ↦ inl runs
    | inl same ↦ elim h.left [
      | inl runs ↦ inl (λ p. runs (sym same ∙ p))
      | inr all ↦ inr (rw workers all)
    ]
  ];
  count = ap length workers ∙ h.count;
}

Step-IsSound : (n : ℕ) {s t : Process} → Step n s t → IsSound n s → IsSound n t
Step-IsSound n {s} (interrupt c g) h = rw g (other-IsSound n s _ refl refl (inl refl) h)
Step-IsSound n {s} (request msg c g) h = rw g (other-IsSound n s _ refl refl (inl refl) h)
Step-IsSound n {s} (submit msg before after c e try g) h =
    rw g (send-IsSound n s _ msg try refl refl h)
Step-IsSound n {s} (request_ends msg before after e g) h =
    rw g (other-IsSound n s _ refl refl (inl refl) h)
Step-IsSound n {s} (submit_fails msg before after e shut g) h =
    rw g (other-IsSound n s _ refl refl (inl refl) h)
Step-IsSound n {s} (tick msgs c live g) h = rw g (other-IsSound n s _ refl refl (inl refl) h)
Step-IsSound n {s} (resend msg msgs c e try g) h = rw g (send-IsSound n s _ msg try refl refl h)
Step-IsSound n {s} (sweep_rests c g) h = rw g (other-IsSound n s _ refl refl (inl refl) h)
Step-IsSound n {s} (sweep_returns c d g) h = rw g (other-IsSound n s _ refl refl (inl refl) h)
Step-IsSound n {s} (receive msg buffer before after e f g) h = rw g (
    worker-IsSound n s _ before after ready (processing msg) e refl (λ p. cc)
      (
        h.flows.0
            ∙ ap (λ l. s.channel.taken ++ l) f
            ∙ sym (append_assoc s.channel.taken (msg ∷ []) buffer),
        omega (arith, h.flows.1, ap length f),
      )
      refl (elim h.ends [ inl (shut, empty) ↦ cc | inr all ↦ inr ((λ p. cc), all) ]) h)
Step-IsSound n {s} (finish msg before after e g) h = rw g (
    worker-IsSound n s _ before after (processing msg) ready e refl (λ p. cc) h.flows refl
      (elim h.ends [ inl x ↦ inl x | inr all ↦ inr ((λ p. cc), all) ]) h)
Step-IsSound n {s} (worker_returns before after e shut empty g) h = rw g (
    worker-IsSound n s _ before after ready exited e refl (λ p. cc) h.flows refl (inl (shut, empty))
      h)
Step-IsSound n {s} (shut_down c d g) h = rw g (other-IsSound n s _ refl refl (inr (λ p. cc)) h)
Step-IsSound n {s} (shutdown_returns c g) h = rw g (other-IsSound n s _ refl refl (inr (λ p. cc)) h)
Step-IsSound n (close_jobs c g) h = rw g (record {
  flows = h.flows;
  ends = elim h.ends [ inl (shut, empty) ↦ inl (refl, empty) | inr all ↦ inr all ];
  left = inl (λ p. cc);
  count = h.count;
})
Step-IsSound n (leave c all d g) h =
    rw g (record { flows = h.flows; ends = h.ends; left = inr all; count = h.count })

all_ready-All-IsWorking : (n : ℕ) → All IsWorking (all_ready n)
all_ready-All-IsWorking zero = tt
all_ready-All-IsWorking (suc n) = ((λ e. cc), all_ready-All-IsWorking n)

length-all_ready : (n : ℕ) → length (all_ready n) ≡ n
length-all_ready zero = refl
length-all_ready (suc n) = omega (arith, length-all_ready n)

boot-IsSound : (n : ℕ) → IsSound n (boot n)
boot-IsSound n = record {
  flows = (refl, omega arith);
  ends = inr (all_ready-All-IsWorking n);
  left = inl (λ p. cc);
  count = length-all_ready n;
}

Run-IsSound : (n : ℕ) {s t : Process} → Run n s t → IsSound n s → IsSound n t
Run-IsSound n here h = h
Run-IsSound n (next run step) h = Step-IsSound n step (Run-IsSound n run h)

no_workers : (ws : List WorkerStage) → All IsWorking ws → All IsExited ws → length ws ≡ 0
no_workers [] working all = refl
no_workers (w ∷ ws) working all = absurd (working.0 all.0)

-- When main has returned, with one worker at least, every message that got into the channel has been
-- taken by a worker, in the order of the sends, all workers have returned, and nothing is left in it.
pub shutdown_drains :
    (n : ℕ) (s : Process)
    → 0 < n
    → Run n (boot n) s
    → s.main ≡ stopped
    → (s.channel.buffer ≡ []) × (s.channel.taken ≡ s.channel.sent) × All IsExited s.workers
shutdown_drains n s some_worker run gone =
    let h = Run-IsSound n run (boot-IsSound n) in
    let all : All IsExited s.workers = elim h.left [
      | inl runs ↦ absurd (runs gone)
      | inr all ↦ all
    ] in
    let empty : s.channel.buffer ≡ [] = elim h.ends [
      | inl (shut, e) ↦ e
      | inr working ↦ absurd (omega (arith, h.count, no_workers s.workers working all))
    ] in
    (
      empty,
      sym (h.flows.0 ∙ ap (λ l. s.channel.taken ++ l) empty ∙ append-nil s.channel.taken),
      all,
    )
