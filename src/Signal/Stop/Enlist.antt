-- ===== src/Signal/Stop/Enlist.antt =====
-- What enlisting a thread for a stop, and its taking part, do to the thread (signal.c,
-- `task_set_jobctl_pending` and `task_participate_group_stop` under `do_signal_stop`).
use linux_ker_dev.Prelude.{
  ℕ, ◌≡◌, refl, Bool, true, false, not, ◌||◌, inl, inr, arith, Word, no_bits, Mask, has_bit,
  test_mask, Bool-cases, if-either, if◌then◌else◌,
}
use linux_ker_dev.Signal.Numbers.{
  sigkill, pf_exiting, jobctl_stop_consume, jobctl_stop_pending, jobctl_stop_sigmask,
  jobctl_trap_notify, task_interruptible, task_stopped_bit,
}
use linux_ker_dev.Signal.Types.{Task, sigismember, fatal_signal_pending, task_is_stopped}
use linux_ker_dev.Signal.Jobctl.{masks_meet, task_set_jobctl_pending}
use linux_ker_dev.Signal.Send.{ptrace_trap_notify}
use linux_ker_dev.Signal.Stop.{stop_mask, enlist, tell, enlist_other}

-- The thread still has to take part in the stop that is counted.
abbrev pub consumes : Task → Bool
consumes t = test_mask t.jobctl jobctl_stop_consume

-- A thread that was sent SIGKILL is flagged, and one that has to take part in a stop is flagged for
-- it, runs on and does not die.
pub record IsOrderly (t : Task) : Type 0 where
  pub kill_flagged : sigismember t.pending.signal sigkill ≡ true → t.tif_sigpending ≡ true
  pub flagged : consumes t ≡ true → t.tif_sigpending ≡ true
  pub asked : consumes t ≡ true → test_mask t.jobctl jobctl_stop_pending ≡ true
  pub stays : consumes t ≡ true → test_mask t.flags pf_exiting ≡ false
  pub runs : consumes t ≡ true → task_is_stopped t ≡ false
  pub lives : consumes t ≡ true → sigismember t.pending.signal sigkill ≡ false

-- The parts of a task that job control leaves alone.
pub record SameRest (t u : Task) : Type 0 where
  pub pending : u.pending ≡ t.pending
  pub flags : u.flags ≡ t.flags
  pub state : u.state ≡ t.state
  pub tif_sigpending : u.tif_sigpending ≡ t.tif_sigpending
  pub seized : u.seized ≡ t.seized

pub set-SameRest : (t : Task) (m : Mask) → SameRest t (task_set_jobctl_pending t m).0
unfolding task_set_jobctl_pending
set-SameRest t m = elim (Bool-cases (fatal_signal_pending t || test_mask t.flags pf_exiting)) [
  | inl e ↦
      rw e (record {
        pending = refl;
        flags = refl;
        state = refl;
        tif_sigpending = refl;
        seized = refl;
      })
  | inr e ↦
      rw e (record {
        pending = refl;
        flags = refl;
        state = refl;
        tif_sigpending = refl;
        seized = refl;
      })
]

-- A flag beside the number of the signal stays.
set_keeps :
    (t : Task) (m : Mask) (b : ℕ)
    → has_bit jobctl_stop_sigmask b ≡ false
    → t.jobctl b ≡ true
    → (task_set_jobctl_pending t m).0.jobctl b ≡ true
unfolding task_set_jobctl_pending
set_keeps t m b out on =
    elim (Bool-cases (fatal_signal_pending t || test_mask t.flags pf_exiting)) [
      | inl e ↦ rw e on
      | inr e ↦ elim (Bool-cases (masks_meet m jobctl_stop_sigmask)) [
        | inl k ↦ rw (e, k, on, out) refl
        | inr k ↦ rw (e, k, on) refl
      ]
    ]

set_adds :
    (t : Task) (m : Mask) (b : ℕ)
    → (fatal_signal_pending t || test_mask t.flags pf_exiting) ≡ false
    → has_bit m b ≡ true
    → (task_set_jobctl_pending t m).0.jobctl b ≡ true
unfolding task_set_jobctl_pending
set_adds t m b e on = rw e (ground (arith, on))

pub set_done :
    (t : Task) (m : Mask)
    → (task_set_jobctl_pending t m).1 ≡ not (fatal_signal_pending t || test_mask t.flags pf_exiting)
unfolding task_set_jobctl_pending
set_done t m = elim (Bool-cases (fatal_signal_pending t || test_mask t.flags pf_exiting)) [
  | inl e ↦ rw e refl
  | inr e ↦ rw e refl
]

-- Waking a thread that is not stopped does not stop it.
pub woken_runs :
    (w : Word) (m : Mask)
    → test_mask w task_stopped_bit ≡ false
    → test_mask (if test_mask w m then no_bits else w) task_stopped_bit ≡ false
woken_runs w m r =
    if-either (λ v. test_mask v task_stopped_bit ≡ false) (test_mask w m) no_bits w refl r

-- What a thread is told leaves alone, and that it is flagged.
pub record Told (t u : Task) : Type 0 where
  pub pending : u.pending ≡ t.pending
  pub flags : u.flags ≡ t.flags
  pub runs : task_is_stopped t ≡ false → task_is_stopped u ≡ false
  pub tif_sigpending : u.tif_sigpending ≡ true
  pub keeps :
      (b : ℕ) → has_bit jobctl_stop_sigmask b ≡ false → t.jobctl b ≡ true → u.jobctl b ≡ true

notify-Told : (t : Task) → Told t (ptrace_trap_notify t)
unfolding ptrace_trap_notify
notify-Told t =
    let same = set-SameRest t jobctl_trap_notify in
    record {
      pending = same.pending;
      flags = same.flags;
      runs = λ r.
          woken_runs (task_set_jobctl_pending t jobctl_trap_notify).0.state _ (rw same.state r);
      tif_sigpending = refl;
      keeps = λ b out on. set_keeps t jobctl_trap_notify b out on;
    }

tell-Told : (t : Task) → Told t (tell t)
tell-Told t =
    if-either (Told t) (not t.seized) _ _
      (record {
        pending = refl;
        flags = refl;
        runs = λ r. woken_runs t.state task_interruptible r;
        tif_sigpending = refl;
        keeps = λ b out on. on;
      })
      (notify-Told t)

-- A thread that takes part in no stop is in order if a SIGKILL has flagged it.
pub idle-IsOrderly :
    (t : Task)
    → consumes t ≡ false
    → (sigismember t.pending.signal sigkill ≡ true → t.tif_sigpending ≡ true)
    → IsOrderly t
idle-IsOrderly t idle k = record {
  kill_flagged = k;
  flagged = λ c. cc;
  asked = λ c. cc;
  stays = λ c. cc;
  runs = λ c. cc;
  lives = λ c. cc;
}

-- A thread that cannot be enlisted takes part in no stop.
pub refused-consumes :
    (t : Task)
    → IsOrderly t
    → (fatal_signal_pending t || test_mask t.flags pf_exiting) ≡ true
    → consumes t ≡ false
refused-consumes t o e = elim (Bool-cases (consumes t)) [
  | inl c ↦ absurd (ground (arith, o.stays c, o.lives c))
  | inr c ↦ c
]

-- What `task_set_jobctl_pending` did for a stop, where it did it.
pub enlisted-consumes :
    (signr : ℕ) (t : Task)
    → (fatal_signal_pending t || test_mask t.flags pf_exiting) ≡ false
    → consumes (enlist signr t).0 ≡ true
enlisted-consumes signr t e = ground (arith, set_adds t (stop_mask signr) 18 e refl)

told-IsOrderly :
    (signr : ℕ) (t : Task)
    → IsOrderly t
    → task_is_stopped t ≡ false
    → (fatal_signal_pending t || test_mask t.flags pf_exiting) ≡ false
    → IsOrderly (tell (enlist signr t).0) × (consumes (tell (enlist signr t).0) ≡ true)
told-IsOrderly signr t o r e =
    let u : Task = (enlist signr t).0 in
    let same = set-SameRest t (stop_mask signr) in
    let told = tell-Told u in
    (
      record {
        kill_flagged = λ k. told.tif_sigpending;
        flagged = λ c. told.tif_sigpending;
        asked = λ c. ground (arith, told.keeps 17 refl (set_adds t (stop_mask signr) 17 e refl));
        stays = λ c. rw (told.flags, same.flags) (ground (arith, e));
        runs = λ c. told.runs (rw same.state r);
        lives = λ c. rw (told.pending, same.pending) (ground (arith, e, o.kill_flagged));
      },
      ground (arith, told.keeps 18 refl (set_adds t (stop_mask signr) 18 e refl)),
    )

-- One if the thread takes part in the stop.
abbrev pub share : Task → ℕ
share t = if consumes t then 1 else 0

-- `enlist_other` leaves a thread in order, and adds one exactly if the thread takes part in the stop.
pub enlist_other_lem :
    (signr : ℕ) (t : Task)
    → IsOrderly t
    → IsOrderly (enlist_other signr t).0
      × ((enlist_other signr t).1 ≡ share (enlist_other signr t).0)
unfolding enlist_other
enlist_other_lem signr t o = elim (Bool-cases (task_is_stopped t)) [
  | inl s ↦ let idle : consumes t ≡ false = ground (arith, o.runs) in rw (s, idle) (o, refl)
  | inr s ↦ elim (Bool-cases (fatal_signal_pending t || test_mask t.flags pf_exiting)) [
    | inl e ↦
        let idle = refused-consumes t o e in
        let done : (enlist signr t).1 ≡ false = rw (set_done t (stop_mask signr), e) refl in
        rw (s, done, idle) (o, refl)
    | inr e ↦
        let done : (enlist signr t).1 ≡ true = rw (set_done t (stop_mask signr), e) refl in
        let r = told-IsOrderly signr t o s e in rw (s, done) (r.0, rw r.1 refl)
  ]
]
