-- ===== src/Signal/Stop/Cancel.antt =====
-- SIGCONT and the death of the group end a group stop (signal.c, `prepare_signal` and
-- `complete_signal`).
use linux_ker_dev.Prelude.{
  ℕ, ◌≡◌, refl, sym, ◌∙◌, true, false, not, ◌||◌, List, [], ◌∷◌, inl, inr, arith, Mask, has_bit,
  test_mask, Bool-cases, if-either, All, map,
}
use linux_ker_dev.Signal.Numbers.{
  sigkill, sigcont, pf_exiting, jobctl_stop_pending, jobctl_trap_notify, signal_group_exit,
  sig_kernel_stop_mask, task_stopped_bit,
}
use linux_ker_dev.Signal.Types.{
  Task, SignalStruct, Process, Users, Sigpending, sigismember, wake_up_state, fatal_signal_pending,
  thread,
}
use linux_ker_dev.Signal.Jobctl.{
  task_set_jobctl_pending, task_clear_jobctl_pending, task_clear_jobctl_trapping,
}
use linux_ker_dev.Signal.Jobctl.Clear.{clear-SameBut}
use linux_ker_dev.Signal.Pending.{rm_from_queue}
use linux_ker_dev.Signal.Send.{
  prepare_effects, takes_group_down, wake_target, kill_thread, continue_thread, continue_wake,
  ptrace_trap_notify, each_thread, over_group, rm_shared, report_continued,
}
use linux_ker_dev.Signal.Stop.Enlist.{IsOrderly, idle-IsOrderly, consumes}
use linux_ker_dev.Signal.Stop.Count.{participants, IsStopCounted, clear-consumes}

-- A thread that is in order and takes part in no stop.
abbrev pub IsIdle : Task → Type 0
IsIdle t =
    (consumes t ≡ false) × (sigismember t.pending.signal sigkill ≡ true → t.tif_sigpending ≡ true)

participants-none : (ts : List Task) → All IsIdle ts → participants ts ≡ 0
participants-none [] a = refl
participants-none (t ∷ ts) a = rw a.0.0 (participants-none ts a.1)

idle-All : (ts : List Task) → All IsIdle ts → All IsOrderly ts
idle-All [] a = tt
idle-All (t ∷ ts) a = (idle-IsOrderly t a.0.0 a.0.1, idle-All ts a.1)

-- A group all of whose threads take part in no stop, with no thread to wait for.
idle-IsStopCounted :
    (p : Process) → All IsIdle (p.self ∷ p.others) → p.signal.group_stop_count ≡ 0 → IsStopCounted p
idle-IsStopCounted p a z = record {
  own = idle-IsOrderly p.self a.0.0 a.0.1;
  others = idle-All p.others a.1;
  counted = z ∙ sym (participants-none (p.self ∷ p.others) a);
}

set_absent :
    (t : Task) (m : Mask) (b : ℕ)
    → has_bit m b ≡ false
    → t.jobctl b ≡ false
    → (task_set_jobctl_pending t m).0.jobctl b ≡ false
unfolding task_set_jobctl_pending
set_absent t m b out off =
    elim (Bool-cases (fatal_signal_pending t || test_mask t.flags pf_exiting)) [
      | inl e ↦ rw e off
      | inr e ↦ rw e (ground (arith, out, off))
    ]

notify-IsIdle : (t : Task) → consumes t ≡ false → IsIdle (ptrace_trap_notify t)
unfolding ptrace_trap_notify
notify-IsIdle t c =
    (ground (arith, set_absent t jobctl_trap_notify 18 refl (ground (arith, c))), λ k. refl)

continue_wake-IsIdle : (t : Task) → IsIdle t → IsIdle (continue_wake t)
continue_wake-IsIdle t i =
    if-either IsIdle (not t.seized) (wake_up_state t task_stopped_bit) (ptrace_trap_notify t) i
      (notify-IsIdle t i.0)

-- SIGKILL is not among the stop signals that are taken away.
rm_stops-kill :
    (s : Sigpending) (users : Users)
    → sigismember (rm_from_queue sig_kernel_stop_mask s users).0.signal sigkill
      ≡ sigismember s.signal sigkill
unfolding rm_from_queue
rm_stops-kill s users = elim (Bool-cases (test_mask s.signal sig_kernel_stop_mask)) [
  | inl e ↦ rw e (ground arith)
  | inr e ↦ rw e refl
]

continue_thread-IsIdle :
    (t : Task) (users : Users) → IsOrderly t → IsIdle (continue_thread t users).0
continue_thread-IsIdle t users o =
    let t' = task_clear_jobctl_pending t jobctl_stop_pending in
    let s = (rm_from_queue sig_kernel_stop_mask t'.pending users).0 in
    let same = clear-SameBut t jobctl_stop_pending in
    continue_wake-IsIdle (record t' { pending = s })
      (
        clear-consumes t,
        rw (rm_stops-kill t'.pending users, same.pending, same.tif_sigpending) o.kill_flagged,
      )

each_continue-IsIdle :
    (ts : List Task) (users : Users)
    → All IsOrderly ts
    → All IsIdle (each_thread continue_thread ts users).0
unfolding each_thread
each_continue-IsIdle [] users a = tt
each_continue-IsIdle (t ∷ ts) users a =
    (continue_thread-IsIdle t users a.0, each_continue-IsIdle ts (continue_thread t users).1 a.1)

report_continued-count : (s : SignalStruct) → (report_continued s).group_stop_count ≡ 0
unfolding report_continued
report_continued-count s = ground arith

-- SIGCONT keeps a group counted.
pub continue-IsStopCounted :
    (p : Process) → IsStopCounted p → IsStopCounted (prepare_effects sigcont p)
unfolding prepare_effects over_group rm_shared
continue-IsStopCounted p g =
    if-either IsStopCounted (test_mask p.signal.flags signal_group_exit) p _ g (
      idle-IsStopCounted _
        (
          continue_thread-IsIdle p.self
              (rm_from_queue sig_kernel_stop_mask p.signal.shared_pending p.users).1 g.own,
          each_continue-IsIdle p.others _ g.others,
        )
        (report_continued-count _))

kill_thread-IsIdle : (t : Task) → IsIdle (kill_thread t)
unfolding kill_thread task_clear_jobctl_pending task_clear_jobctl_trapping
kill_thread-IsIdle t = (ground arith, λ k. refl)

killed_threads : (ts : List Task) → All IsIdle (map kill_thread ts)
killed_threads [] = tt
killed_threads (t ∷ ts) = (kill_thread-IsIdle t, killed_threads ts)

-- A signal that takes the group down keeps it counted.
pub kill-IsStopCounted :
    (sig i : ℕ) (p : Process)
    → takes_group_down sig p (thread p i) ≡ true
    → IsStopCounted (wake_target sig i p)
unfolding wake_target
kill-IsStopCounted sig i p e =
    rw e (idle-IsStopCounted _ (kill_thread-IsIdle p.self, killed_threads p.others) refl)
