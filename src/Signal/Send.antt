-- ===== src/Signal/Send.antt =====
-- Generating a signal (signal.c, lines 48-91 and 835-1012).
pub mod Prepare
pub mod Complete
pub mod GroupDown
use linux_ker_dev.Prelude.{
  ℕ, zero, suc, ◌-◌, ◌+◌, ◌%◌, ◌^◌, Bool, true, false, not, ◌||◌, ◌&&◌, List, [], ◌∷◌, ◌++◌, Option,
  none, some, Word, Mask, no_bits, of_mask, test_mask, set_mask, clear_mask, update, ltb, leb, ◌==◌,
  if◌then◌else◌, ℤ, pos, is_ge_zero, length, get_elem?, set, map,
}
use linux_ker_dev.Signal.Numbers.{
  nsig, sigrtmin, sigkill, sigcont, sigmask, sig_kernel_stop_mask, sig_kernel_stop,
  sig_kernel_ignore, sig_kernel_coredump, si_user, si_kernel, eagain, esrch, task_stopped_bit,
  pf_exiting, signal_stop_stopped, signal_stop_continued, signal_group_exit, signal_cld_stopped,
  signal_cld_continued, signal_unkillable, jobctl_stop_pending, jobctl_trap_notify,
  jobctl_listening, jobctl_pending_mask,
}
use linux_ker_dev.Signal.Types.{
  Handler, sig_dfl, sig_ign, user_handler, KSigaction, Siginfo, Info, send_sig_noinfo,
  send_sig_priv, send_sig_forced, siginfo, Sigqueue, Sigpending, Task, SignalStruct, Users, Process,
  sigismember, sigaddset, sigdelset, is_si_special, si_fromuser, wake_up_state, signal_wake_up,
  ptrace_signal_wake_up, task_is_stopped_or_traced, thread_group_empty, nr_threads, thread,
}
use linux_ker_dev.Signal.Jobctl.{task_set_jobctl_pending, task_clear_jobctl_pending}
use linux_ker_dev.Signal.Pending.{rm_from_queue, has_pending_signals}

abbrev pub is_sig_dfl : Handler → Bool
is_sig_dfl sig_dfl = true
is_sig_dfl _ = false

abbrev pub is_sig_ign : Handler → Bool
is_sig_ign sig_ign = true
is_sig_ign _ = false

-- `sig_handler`
abbrev pub sig_handler : Process → ℕ → Handler
sig_handler p sig = (p.action (sig - 1)).sa_handler

-- `sig_handler_ignored`
abbrev pub sig_handler_ignored : Handler → ℕ → Bool
sig_handler_ignored handler sig =
    is_sig_ign handler || (is_sig_dfl handler && sig_kernel_ignore sig)

-- `sig_task_ignored`
abbrev pub sig_task_ignored : Process → ℕ → Bool → Bool
sig_task_ignored p sig from_ancestor_ns =
    let handler = sig_handler p sig in
    if test_mask p.signal.flags signal_unkillable && (is_sig_dfl handler && not from_ancestor_ns)
    then true
    else sig_handler_ignored handler sig

-- `sig_ignored`
unfoldable pub sig_ignored : Process → ℕ → Bool → Bool
sig_ignored p sig from_ancestor_ns =
    if sigismember p.self.blocked sig || sigismember p.self.real_blocked sig
    then false
    else if not (sig_task_ignored p sig from_ancestor_ns)
    then false
    else not p.self.ptraced

-- `ptrace_trap_notify`
unfoldable pub ptrace_trap_notify : Task → Task
ptrace_trap_notify t =
    let (t', done) = task_set_jobctl_pending t jobctl_trap_notify in
    ptrace_signal_wake_up t' (test_mask t'.jobctl jobctl_listening)

-- `prepare_signal` at a stop signal, for one thread and for the threads of the ring
abbrev pub stop_thread : Task → Users → Task × Users
stop_thread t users =
    let (s, users') = rm_from_queue (sigmask sigcont) t.pending users in
    (record t { pending = s }, users')

-- The part of the loop body of SIGCONT that wakes the thread.
abbrev pub continue_wake : Task → Task
continue_wake t = if not t.seized then wake_up_state t task_stopped_bit else ptrace_trap_notify t

-- `prepare_signal` at SIGCONT, for one thread
abbrev pub continue_thread : Task → Users → Task × Users
continue_thread t users =
    let t' = task_clear_jobctl_pending t jobctl_stop_pending in
    let (s, users') = rm_from_queue sig_kernel_stop_mask t'.pending users in
    (continue_wake (record t' { pending = s }), users')

-- `do … while_each_thread(p, t)` over threads of the ring
unfoldable pub each_thread : (Task → Users → Task × Users) → List Task → Users → List Task × Users
each_thread body [] users = ([], users)
each_thread body (t ∷ ts) users =
    let (t', users') = body t users in
    let (ts', users'') = each_thread body ts users' in (t' ∷ ts', users'')

-- The loop over the whole ring, `self` first.
unfoldable pub over_group : (Task → Users → Task × Users) → Process → Process
unfolding each_thread
over_group body p =
    let (t, users) = body p.self p.users in
    let (ts, users') = each_thread body p.others users in
    record p { self = t; others = ts; users = users' }

-- What is removed from the queue that the threads share.
unfoldable pub rm_shared : Mask → Process → Process
rm_shared mask p =
    let (s, users) = rm_from_queue mask p.signal.shared_pending p.users in
    record p { signal = record p.signal { shared_pending = s }; users = users }

-- The report of a continued group that was stopped or about to stop.
unfoldable pub report_continued : SignalStruct → SignalStruct
report_continued s =
    if test_mask s.flags signal_stop_stopped
    then record s {
      flags = of_mask (signal_cld_continued ++ signal_stop_continued);
      group_stop_count = 0;
      group_exit_code = 0;
    }
    else if s.group_stop_count == 0
    then s
    else record s {
      flags = of_mask (signal_cld_stopped ++ signal_stop_continued);
      group_stop_count = 0;
      group_exit_code = 0;
    }

-- `prepare_signal`: its effects, and whether the signal is to be delivered.
unfoldable pub prepare_effects : ℕ → Process → Process
prepare_effects sig p =
    if test_mask p.signal.flags signal_group_exit
    then p
    else if sig_kernel_stop sig
    then over_group stop_thread (rm_shared (sigmask sigcont) p)
    else if sig == sigcont
    then (let q = over_group continue_thread (rm_shared sig_kernel_stop_mask p) in
        record q { signal = report_continued q.signal })
    else p

unfoldable pub prepare_signal : ℕ → Process → Bool → Process × Bool
prepare_signal sig p from_ancestor_ns =
    let q = prepare_effects sig p in (q, not (sig_ignored q sig from_ancestor_ns))

-- `wants_signal`
unfoldable pub wants_signal : ℕ → Task → Bool
wants_signal sig t =
    if sigismember t.blocked sig
    then false
    else if test_mask t.flags pf_exiting
    then false
    else if sig == sigkill
    then true
    else if task_is_stopped_or_traced t
    then false
    else t.on_cpu || not t.tif_sigpending

-- The search of `complete_signal` through the ring from the place `t` on: at most as many looks as
-- there are threads.
unfoldable pub find_target : ℕ → Process → ℕ → ℕ → Option ℕ
find_target sig p zero t = none
find_target sig p (suc looks) t =
    let later = find_target sig p looks (if t + 1 == nr_threads p then 0 else t + 1) in
    if wants_signal sig (thread p t) then some t else later

-- The found thread becomes the group's target.
abbrev pub note_target : Process → Option ℕ → Option (ℕ × Process)
note_target p none = none
note_target p (some t) = some (t, record p { signal = record p.signal { curr_target = t } })

-- The thread that `complete_signal` chooses, by its place in the ring, and the group with the
-- target that it notes.
unfoldable pub choose_target : ℕ → Process → Bool → Option (ℕ × Process)
unfolding find_target wants_signal
choose_target sig p group =
    if wants_signal sig p.self
    then some (0, p)
    else if not group || thread_group_empty p
    then none
    else note_target p (find_target sig p (nr_threads p) p.signal.curr_target)

-- `sig_fatal`
abbrev pub sig_fatal : Process → ℕ → Bool
sig_fatal p sig =
    not (sig_kernel_ignore sig || sig_kernel_stop sig) && is_sig_dfl (sig_handler p sig)

-- The condition under which `complete_signal` takes the whole group down.
unfoldable pub takes_group_down : ℕ → Process → Task → Bool
takes_group_down sig p t =
    (sig_fatal p sig && not (test_mask p.signal.flags (signal_unkillable ++ signal_group_exit)))
    && (not (sigismember t.real_blocked sig) && (sig == sigkill || not t.ptraced))
    && not (sig_kernel_coredump sig)

-- What a thread of a group that is taken down gets.
unfoldable pub kill_thread : Task → Task
kill_thread t =
    let t' = task_clear_jobctl_pending t jobctl_pending_mask in
    signal_wake_up
      (record t' { pending = record t'.pending { signal = sigaddset t'.pending.signal sigkill } })
      true

-- The change of one thread of the ring.
unfoldable pub update_thread : Process → ℕ → Task → Process
update_thread p zero t = record p { self = t }
update_thread p (suc i) t = record p { others = set p.others i t }

-- `complete_signal` behind its search
unfoldable pub wake_target : ℕ → ℕ → Process → Process
unfolding update_thread
wake_target sig i p =
    if takes_group_down sig p (thread p i)
    then record p {
      signal = record p.signal {
        flags = of_mask signal_group_exit;
        group_exit_code = sig;
        group_stop_count = 0;
      };
      self = kill_thread p.self;
      others = map kill_thread p.others;
    }
    else update_thread p i (signal_wake_up (thread p i) (sig == sigkill))

abbrev pub wake_chosen : ℕ → Process → Option (ℕ × Process) → Process
wake_chosen sig p none = p
wake_chosen sig p (some (i, q)) = wake_target sig i q

-- `complete_signal`
unfoldable pub complete_signal : ℕ → Process → Bool → Process
complete_signal sig p group = wake_chosen sig p (choose_target sig p group)
