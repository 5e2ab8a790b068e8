-- ===== src/Signal/Send/GroupDown.antt =====
-- A signal that takes a whole group down (signal.c, `complete_signal`).
use linux_ker_dev.Prelude.{
  ℕ, zero, suc, ◌<◌, ◌≡◌, ◌≢◌, refl, true, false, test_mask, arith, not, ◌||◌, ◌++◌, ◌∷◌, Option,
  All-get_or, ◌==◌, Bool-cases, inl, inr, none, some, All, All-map, All-All,
}
use linux_ker_dev.Signal.Numbers.{
  signal_unkillable, sig_kernel_coredump, sigkill, signal_group_exit, jobctl_pending_mask,
}
use linux_ker_dev.Signal.Types.{Task, Process, sigismember, nr_threads, thread, thread_group_empty}
use linux_ker_dev.Signal.Jobctl.{task_clear_jobctl_pending, task_clear_jobctl_trapping}
use linux_ker_dev.Signal.Send.{
  note_target, choose_target, wake_chosen, complete_signal, sig_fatal, wants_signal,
  takes_group_down, kill_thread, wake_target,
}
use linux_ker_dev.Signal.Send.Complete.{find_target_lem}

-- Of `kill_thread`: the thread has SIGKILL pending, is woken for it, and no stop or trap is
-- pending any more.
pub record IsKilled (t : Task) : Type 0 where
  pub killed : sigismember t.pending.signal sigkill ≡ true
  pub flagged : t.tif_sigpending ≡ true
  pub unstopped : test_mask t.jobctl jobctl_pending_mask ≡ false

pub unstopped_lem :
    (t : Task)
    → test_mask (task_clear_jobctl_pending t jobctl_pending_mask).jobctl jobctl_pending_mask ≡ false
unfolding task_clear_jobctl_pending task_clear_jobctl_trapping
unstopped_lem t = ground arith

kill_thread-IsKilled : (t : Task) → IsKilled (kill_thread t)
unfolding kill_thread
kill_thread-IsKilled t = record { killed = refl; flagged = refl; unstopped = unstopped_lem t }

-- If the chosen thread takes a signal that is fatal to the group, then every thread has SIGKILL
-- pending, is flagged and has no stop or trap pending, and the group is marked as exiting with the
-- signal as its code and no stop to wait for.
pub wake_target_group_down :
    (sig i : ℕ) (p : Process)
    → takes_group_down sig p (thread p i) ≡ true
    → let q = wake_target sig i p in
      IsKilled q.self
      × All IsKilled q.others
      × (test_mask q.signal.flags signal_group_exit ≡ true)
      × (q.signal.group_exit_code ≡ sig)
      × (q.signal.group_stop_count ≡ 0)
unfolding wake_target
wake_target_group_down sig i p e = rw e (
  kill_thread-IsKilled p.self,
  All-map (λ t. Unit {0}) IsKilled kill_thread p.others (λ t u. kill_thread-IsKilled t)
      (All-All (λ t. Unit {0}) p.others (λ t. tt)),
  refl,
  refl,
  refl,
)

-- What a thread that takes a signal leaves to it: it does not wait for it by `sigtimedwait`, and is
-- not traced if the signal is another than SIGKILL.
abbrev pub IsExposed : ℕ → Task → Type 0
IsExposed sig t =
    (sigismember t.real_blocked sig ≡ false) × ((sig == sigkill || not t.ptraced) ≡ true)

-- Every thread of the group is killed, and the group exits by the signal.
pub record HasDied (sig : ℕ) (q : Process) : Type 0 where
  pub own : IsKilled q.self
  pub others : All IsKilled q.others
  pub exits : test_mask q.signal.flags signal_group_exit ≡ true
  pub code : q.signal.group_exit_code ≡ sig
  pub no_stop : q.signal.group_stop_count ≡ 0

wake_target-HasDied :
    (sig i : ℕ) (p : Process)
    → takes_group_down sig p (thread p i) ≡ true
    → HasDied sig (wake_target sig i p)
wake_target-HasDied sig i p e =
    let (own, others, exits, code, no_stop) = wake_target_group_down sig i p e in
    record { own = own; others = others; exits = exits; code = code; no_stop = no_stop }

-- The group takes a signal that is to end it, as far as its actions and flags go.
abbrev pub IsDeadly : ℕ → Process → Type 0
IsDeadly sig p =
    (sig_fatal p sig ≡ true)
    × (test_mask p.signal.flags (signal_unkillable ++ signal_group_exit) ≡ false)
    × (sig_kernel_coredump sig ≡ false)

down-by :
    (sig i : ℕ) (p : Process)
    → IsDeadly sig p
    → IsExposed sig (thread p i)
    → HasDied sig (wake_target sig i p)
unfolding takes_group_down
down-by sig i p deadly exposed =
    wake_target-HasDied sig i p (rw (deadly.0, deadly.1, deadly.2, exposed.0, exposed.1) refl)

-- The group with another target is as deadly and as exposed.
noted-HasDied :
    (sig : ℕ) (p : Process) (o : Option ℕ)
    → o ≢ none
    → IsDeadly sig p
    → All (IsExposed sig) (p.self ∷ p.others)
    → HasDied sig (wake_chosen sig p (note_target p o))
noted-HasDied sig p none some_there deadly exposed = absurd (some_there refl)
noted-HasDied sig p (some t) some_there deadly exposed =
    down-by sig t (record p { signal = record p.signal { curr_target = t } }) deadly
      (All-get_or (IsExposed sig) (p.self ∷ p.others) t p.self exposed.0 exposed)

-- A thread of a group of one is the only one.
lonely :
    (sig i : ℕ) (p : Process)
    → i < nr_threads p
    → wants_signal sig (thread p i) ≡ true
    → wants_signal sig p.self ≡ false
    → thread_group_empty p ≡ true
    → ⊥
lonely sig zero p l w e f = cc
lonely sig (suc i) p l w e f = ground arith

-- If a thread of the group wants a signal that is sent to the group, the signal is fatal to it and
-- dumps no core, the group neither exits nor is unkillable, and no thread waits for the signal by
-- `sigtimedwait` nor is traced, unless it is SIGKILL, then whichever thread `complete_signal`
-- chooses, every thread has SIGKILL pending behind it, is flagged and has no stop or trap pending,
-- and the group is marked as exiting with the signal as its code and no stop to wait for.
pub complete_signal_group_down :
    (sig i : ℕ) (p : Process)
    → p.signal.curr_target < nr_threads p
    → i < nr_threads p
    → wants_signal sig (thread p i) ≡ true
    → IsDeadly sig p
    → All (IsExposed sig) (p.self ∷ p.others)
    → HasDied sig (complete_signal sig p true)
unfolding complete_signal choose_target
complete_signal_group_down sig i p c l w deadly exposed =
    let found = (find_target_lem sig p p.signal.curr_target c).1 i l w in
    elim (Bool-cases (wants_signal sig p.self)) [
      | inl e ↦ rw e (down-by sig 0 p deadly exposed.0)
      | inr e ↦ elim (Bool-cases (thread_group_empty p)) [
        | inl f ↦ absurd (lonely sig i p l w e f)
        | inr f ↦ rw (e, f) (noted-HasDied sig p _ found deadly exposed)
      ]
    ]
