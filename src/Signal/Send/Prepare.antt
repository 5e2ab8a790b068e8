-- ===== src/Signal/Send/Prepare.antt =====
-- What `prepare_signal` of signal.c does to the sets of pending signals of a group.
use linux_ker_dev.Prelude.{
  ℕ, ◌≡◌, refl, sym, subst, true, false, not, ◌||◌, List, [], ◌∷◌, Mask, has_bit, test_mask, arith,
  Bool-cases, inl, inr, All, if-either,
}
use linux_ker_dev.Signal.Numbers.{
  sigcont, sigmask, jobctl_trap_notify, jobctl_stop_pending, pf_exiting, task_stopped_bit,
  sig_kernel_stop, sig_kernel_stop_mask, signal_group_exit,
}
use linux_ker_dev.Signal.Types.{
  Sigpending, Task, SignalStruct, Users, Process, fatal_signal_pending, wake_up_state,
}
use linux_ker_dev.Signal.Jobctl.{task_clear_jobctl_pending, task_set_jobctl_pending}
use linux_ker_dev.Signal.Pending.{rm_from_queue}
use linux_ker_dev.Signal.Pending.Shape.{test_mask-absent}
use linux_ker_dev.Signal.Send.{
  stop_thread, continue_thread, continue_wake, ptrace_trap_notify, each_thread, over_group,
  rm_shared, report_continued, prepare_effects,
}

-- No signal of the mask is in the set.
abbrev pub Absent : Mask → Sigpending → Type 0
Absent mask s = (b : ℕ) → has_bit mask b ≡ true → s.signal b ≡ false

-- No signal of the mask is pending for the group or for a thread of it.
pub record Nowhere (mask : Mask) (p : Process) : Type 0 where
  pub shared : Absent mask p.signal.shared_pending
  pub own : Absent mask p.self.pending
  pub others : All (λ t. Absent mask t.pending) p.others

rm_from_queue-Absent :
    (mask : Mask) (s : Sigpending) (users : Users) → Absent mask (rm_from_queue mask s users).0
unfolding rm_from_queue
rm_from_queue-Absent mask s users = elim (Bool-cases (test_mask s.signal mask)) [
  | inl e ↦ rw e (λ b h. ground arith)
  | inr e ↦ rw e (λ b h. test_mask-absent s.signal mask b e h)
]

set_jobctl-pending :
    (t : Task) (mask : Mask) → (task_set_jobctl_pending t mask).0.pending ≡ t.pending
unfolding task_set_jobctl_pending
set_jobctl-pending t mask =
    elim (Bool-cases (fatal_signal_pending t || test_mask t.flags pf_exiting)) [
      | inl e ↦ rw e refl
      | inr e ↦ rw e refl
    ]

pub continue_wake-pending : (t : Task) → (continue_wake t).pending ≡ t.pending
unfolding ptrace_trap_notify
continue_wake-pending t =
    if-either (λ u. u.pending ≡ t.pending) (not t.seized) (wake_up_state t task_stopped_bit)
      (ptrace_trap_notify t) refl (set_jobctl-pending t jobctl_trap_notify)

-- The loop over the ring, by what its body does to each thread.
each_thread-All :
    (P : Task → Type 0) (body : Task → Users → Task × Users)
    → ((t : Task) (users : Users) → P (body t users).0)
    → (ts : List Task) (users : Users) → All P (each_thread body ts users).0
unfolding each_thread
each_thread-All P body h [] users = tt
each_thread-All P body h (t ∷ ts) users = (h t users, each_thread-All P body h ts (body t users).1)

stop_thread-Absent :
    (t : Task) (users : Users) → Absent (sigmask sigcont) (stop_thread t users).0.pending
stop_thread-Absent t users = rm_from_queue-Absent (sigmask sigcont) t.pending users

continue_thread-Absent :
    (t : Task) (users : Users) → Absent sig_kernel_stop_mask (continue_thread t users).0.pending
continue_thread-Absent t users =
    let t' = task_clear_jobctl_pending t jobctl_stop_pending in
    let s = (rm_from_queue sig_kernel_stop_mask t'.pending users).0 in
    subst (Absent sig_kernel_stop_mask) (sym (continue_wake-pending (record t' { pending = s })))
      (rm_from_queue-Absent sig_kernel_stop_mask t'.pending users)

over_group-Nowhere :
    (mask : Mask) (body : Task → Users → Task × Users) (p : Process)
    → ((t : Task) (users : Users) → Absent mask (body t users).0.pending)
    → Nowhere mask (over_group body (rm_shared mask p))
unfolding over_group rm_shared
over_group-Nowhere mask body p h =
    let (s, users) = rm_from_queue mask p.signal.shared_pending p.users in
    record {
      shared = rm_from_queue-Absent mask p.signal.shared_pending p.users;
      own = h p.self users;
      others = each_thread-All (λ t. Absent mask t.pending) body h p.others (body p.self users).1;
    }

pub report_continued-pending :
    (s : SignalStruct) → (report_continued s).shared_pending ≡ s.shared_pending
unfolding report_continued
report_continued-pending s = ground arith

-- In a group that is not exiting a stop signal takes every pending SIGCONT away, from the group and
-- from each of its threads.
pub prepare_stop :
    (sig : ℕ) (p : Process)
    → test_mask p.signal.flags signal_group_exit ≡ false
    → sig_kernel_stop sig ≡ true
    → Nowhere (sigmask sigcont) (prepare_effects sig p)
unfolding prepare_effects
prepare_stop sig p e k =
    rw (e, k) (over_group-Nowhere (sigmask sigcont) stop_thread p stop_thread-Absent)

-- There SIGCONT takes every pending stop signal away.
pub prepare_continue :
    (p : Process)
    → test_mask p.signal.flags signal_group_exit ≡ false
    → Nowhere sig_kernel_stop_mask (prepare_effects sigcont p)
unfolding prepare_effects
prepare_continue p e =
    let n = over_group-Nowhere sig_kernel_stop_mask continue_thread p continue_thread-Absent in
    rw e (record {
      shared = subst (Absent sig_kernel_stop_mask) (sym (report_continued-pending _)) n.shared;
      own = n.own;
      others = n.others;
    })
