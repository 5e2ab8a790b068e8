-- ===== src/Signal/Stop.antt =====
-- Stopping a thread group, and a thread that leaves it (signal.c, lines 1974-2074 and 2368-2406).
-- The thread `self` is `current`. The parent is notified by the caller of these functions'
-- models, which say whether it is to be.
pub mod Cancel
pub mod Count
pub mod Enlist
pub mod Leave
pub mod Steps
use linux_ker_dev.Prelude.{
  ℕ, zero, suc, ◌-◌, ◌+◌, ◌/◌, ◌%◌, ◌^◌, Bool, true, false, not, ◌||◌, ◌&&◌, List, [], ◌∷◌, Word,
  Mask, of_mask, test_mask, set_mask, ◌==◌, if◌then◌else◌,
}
use linux_ker_dev.Signal.Numbers.{
  pf_exiting, task_stopped, signal_stop_stopped, jobctl_stop_dequeued, jobctl_stop_pending,
  jobctl_stop_consume, jobctl_trap_stop,
}
use linux_ker_dev.Signal.Types.{
  Task, SignalStruct, Process, signal_wake_up, task_is_stopped, is_group_exit, thread_group_empty,
}
use linux_ker_dev.Signal.Jobctl.{task_set_jobctl_pending, task_participate_group_stop}
use linux_ker_dev.Signal.Send.{ptrace_trap_notify}
use linux_ker_dev.Signal.Dequeue.{retarget_shared_pending}

-- The bits of a number, of the `n` places from the place `i` on.
unfoldable pub bits_from : ℕ → ℕ → ℕ → Mask
bits_from zero i number = []
bits_from (suc n) i number =
    let rest = bits_from n (i + 1) number in if number / 2 ^ i % 2 == 1 then i ∷ rest else rest

-- `signr | JOBCTL_STOP_PENDING | JOBCTL_STOP_CONSUME`
abbrev pub stop_mask : ℕ → Mask
stop_mask signr = 17 ∷ 18 ∷ bits_from 16 0 signr

-- `task_set_jobctl_pending(t, signr | gstop)`
abbrev pub enlist : ℕ → Task → Task × Bool
enlist signr t = task_set_jobctl_pending t (stop_mask signr)

-- What a thread is told that has to take part in a stop.
abbrev pub tell : Task → Task
tell t = if not t.seized then signal_wake_up t false else ptrace_trap_notify t

-- The body of the loop of `do_signal_stop`, and what it adds to the count.
unfoldable pub enlist_other : ℕ → Task → Task × ℕ
enlist_other signr t =
    if task_is_stopped t
    then (t, 0)
    else (let (t', done) = enlist signr t in if done then (tell t', 1) else (t, 0))

-- The loop over the other threads.
unfoldable pub enlist_others : ℕ → List Task → List Task × ℕ
enlist_others signr [] = ([], 0)
enlist_others signr (t ∷ ts) =
    let (t', n) = enlist_other signr t in
    let (ts', more) = enlist_others signr ts in (t' ∷ ts', n + more)

-- `do_signal_stop` where it starts a stop
unfoldable pub initiate_stop : ℕ → Process → Process
initiate_stop signr p =
    let (t, done) = enlist signr p.self in
    let (ts, n) = enlist_others signr p.others in
    record p {
      signal = record p.signal {
        group_exit_code =
            if test_mask p.signal.flags signal_stop_stopped
            then p.signal.group_exit_code
            else signr;
        group_stop_count = (if done then 1 else 0) + n;
      };
      self = t;
      others = ts;
    }

-- How `do_signal_stop` ends: with false, or, behind a sleep, with true; in this case it tells
-- whether the parent is to be notified.
pub data StopReply : Type 0 where
  not_stopped : StopReply
  slept : Bool → StopReply

-- `do_signal_stop` from the test of `current->ptrace` on
unfoldable pub join_stop : Process → Process × StopReply
join_stop p =
    if not p.self.ptraced
    then (let (t, s, last) = task_participate_group_stop p.self p.signal in
        (record p { self = record t { state = of_mask task_stopped }; signal = s }, slept last))
    else (record p { self = (task_set_jobctl_pending p.self jobctl_trap_stop).0 }, not_stopped)

-- `do_signal_stop`
unfoldable pub do_signal_stop : ℕ → Process → Process × StopReply
do_signal_stop signr p =
    if test_mask p.self.jobctl jobctl_stop_pending
    then join_stop p
    else if not (test_mask p.self.jobctl jobctl_stop_dequeued) || is_group_exit p.signal
    then (p, not_stopped)
    else join_stop (initiate_stop signr p)

-- The thread is marked as exiting.
abbrev pub mark_exiting : Process → Process
mark_exiting p = record p { self = record p.self { flags = set_mask p.self.flags pf_exiting } }

-- `signotset`
abbrev pub not_word : Word → Word
not_word w i = not (w i)

-- The end of `exit_signals` for a thread that is flagged.
unfoldable pub leave_stop : Process → Process × Bool
leave_stop p =
    if test_mask p.self.jobctl jobctl_stop_pending
    then (let (t, s, last) = task_participate_group_stop p.self p.signal in
        (record p { self = t; signal = s }, last))
    else (p, false)

-- `exit_signals`, and whether the parent is to be notified that the group has stopped
unfoldable pub exit_signals : Process → Process × Bool
exit_signals p =
    let q = mark_exiting p in
    if thread_group_empty p || is_group_exit p.signal
    then (q, false)
    else if not p.self.tif_sigpending
    then (q, false)
    else leave_stop (retarget_shared_pending q (not_word p.self.blocked))
