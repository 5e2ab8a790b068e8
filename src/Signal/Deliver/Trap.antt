-- ===== src/Signal/Deliver/Trap.antt =====
-- Stops for a tracer (signal.c, lines 1755-1941 and 2091-2154).
use linux_ker_dev.Prelude.{
  ℕ, zero, suc, ◌+◌, ◌*◌, ◌/◌, ◌^◌, Bool, true, false, not, ◌||◌, ◌&&◌, List, [], ◌∷◌, Option, none,
  some, ℤ, pos, negsuc, Word, of_mask, no_bits, test_mask, set_mask, clear_mask, ◌==◌,
  if◌then◌else◌,
}
use linux_ker_dev.Signal.Numbers.{
  sigkill, sigtrap, si_user, task_traced, jobctl_stop_pending, jobctl_stop_dequeued,
  jobctl_trap_stop, jobctl_trap_notify, jobctl_listening, signal_stop_stopped, cld_stopped,
  cld_trapped,
}
use linux_ker_dev.Signal.Types.{Siginfo, siginfo, Task, Process, sigismember}
use linux_ker_dev.Signal.Jobctl.{
  task_participate_group_stop, task_clear_jobctl_pending, task_clear_jobctl_trapping,
}
use linux_ker_dev.Signal.Enqueue.{send_signal}
use linux_ker_dev.Signal.Dequeue.{recalc_sigpending_tsk}
use linux_ker_dev.Signal.Deliver.{Host}

-- `may_ptrace_stop`
abbrev pub may_ptrace_stop : Host → Process → Bool
may_ptrace_stop host p = if not p.self.ptraced then false else not host.core_shared

-- `sigkill_pending`
abbrev pub sigkill_pending : Process → Bool
sigkill_pending p =
    sigismember p.self.pending.signal sigkill || sigismember p.signal.shared_pending.signal sigkill

-- A call of `do_notify_parent_cldstop`: whether it is for the tracer, and why.
abbrev pub Notice : Type 0
Notice = Bool × ℤ

-- The reason CLD_STOPPED or CLD_TRAPPED of a trap
pub data Why : Type 0 where
  for_stop for_trap : Why

abbrev pub code_of : Why → ℤ
code_of for_stop = cld_stopped
code_of for_trap = cld_trapped

abbrev pub is_stop : Why → Bool
is_stop for_stop = true
is_stop for_trap = false

-- `info && info->si_code >> 8 == PTRACE_EVENT_STOP`
abbrev pub is_event_stop : Host → Option Siginfo → Bool
is_event_stop host none = false
is_event_stop host (some info) = elim info.si_code [
  | pos n ↦ n / 2 ^ 8 == host.event_stop
  | negsuc n ↦ false
]

-- `ptrace_stop` up to its release of the lock, and whether the group has stopped
unfoldable pub enter_trap : Host → ℕ → Why → Option Siginfo → Process → Process × Bool
enter_trap host exit_code why info p =
    let traced : Task = record p.self {
      state = of_mask task_traced;
      last_siginfo = info;
      exit_code = exit_code;
    } in
    let (t, s, done) =
      if is_stop why && test_mask traced.jobctl jobctl_stop_pending
      then task_participate_group_stop traced p.signal
      else (traced, p.signal, false) in
    let t' = task_clear_jobctl_pending t jobctl_trap_stop in
    let t'' =
      if is_event_stop host info then task_clear_jobctl_pending t' jobctl_trap_notify else t' in
    (record p { self = task_clear_jobctl_trapping t''; signal = s }, done)

-- The middle of `ptrace_stop`: the notices, and the sleep or the way around it
unfoldable pub hold_trap : Host → Why → Bool → Process × Bool → Process × List Notice
hold_trap host why clear_code (p, done) =
    if may_ptrace_stop host p
    then (
      host.tracing p,
      (true, code_of why) ∷ (if done && host.reparented then (false, code_of why) ∷ [] else []),
    )
    else (
      record p {
        self = record p.self {
          state = no_bits;
          exit_code = if clear_code then 0 else p.self.exit_code;
        };
      },
      if done then (false, code_of why) ∷ [] else [],
    )

-- The end of `ptrace_stop`
unfoldable pub leave_trap : Process → Process
leave_trap p =
    (recalc_sigpending_tsk (record p {
      self = record p.self {
        last_siginfo = none;
        jobctl = clear_mask p.self.jobctl jobctl_listening;
      };
    })).0

-- `ptrace_stop` behind the hook of the architecture
abbrev pub trap : Host → ℕ → Why → Bool → Option Siginfo → Process → Process × List Notice
trap host exit_code why clear_code info p =
    let (q, notices) = hold_trap host why clear_code (enter_trap host exit_code why info p) in
    (leave_trap q, notices)

-- `ptrace_stop`
unfoldable pub ptrace_stop :
    Host → ℕ → Why → Bool → Option Siginfo → Process → Process × List Notice
ptrace_stop host exit_code why clear_code info p =
    if host.arch_needed
    then (let q = host.arch_stop p in
        if sigkill_pending q then (q, []) else trap host exit_code why clear_code info q)
    else trap host exit_code why clear_code info p

-- `ptrace_do_notify`
unfoldable pub ptrace_do_notify : Host → ℕ → ℕ → Why → Process → Process × List Notice
ptrace_do_notify host signr exit_code why p =
    ptrace_stop host exit_code why true
      (some (record {
        si_signo = signr;
        si_errno = 0;
        si_code = pos exit_code;
        si_pid = host.pid;
        si_uid = host.uid;
        si_status = 0;
      }))
      p

-- `ptrace_notify`
abbrev pub ptrace_notify : Host → ℕ → Process → Process × List Notice
ptrace_notify host exit_code p = ptrace_do_notify host sigtrap exit_code for_trap p

-- The number in the `n` bits of a word from the place `i` on.
unfoldable pub number_from : ℕ → ℕ → Word → ℕ
number_from zero i w = 0
number_from (suc n) i w = (if w i then 2 ^ i else 0) + number_from n (i + 1) w

-- `current->exit_code = 0`
abbrev pub clear_exit_code : Process → Process
clear_exit_code p = record p { self = record p.self { exit_code = 0 } }

-- `do_jobctl_trap`; the number of a signal is below 256, and `|` adds what stands above it.
unfoldable pub do_jobctl_trap : Host → Process → Process × List Notice
do_jobctl_trap host p =
    let signr = number_from 16 0 p.self.jobctl in
    if p.self.seized
    then (let sig =
          if p.signal.group_stop_count == 0 && not (test_mask p.signal.flags signal_stop_stopped)
          then sigtrap
          else signr in
        ptrace_do_notify host sig (sig + host.event_stop * 2 ^ 8) for_stop p)
    else (let (q, notices) = ptrace_stop host signr for_stop false none p in
        (clear_exit_code q, notices))

-- The record of a signal that the tracer has changed.
abbrev pub changed_info : Host → ℕ → Siginfo → Siginfo
changed_info host signr info = if signr == info.si_signo then info else record {
  si_signo = signr;
  si_errno = 0;
  si_code = si_user;
  si_pid = host.parent_pid;
  si_uid = host.parent_uid;
  si_status = info.si_status;
}

-- `ptrace_signal` behind its trap: the process, the signal that is left with its record
unfoldable pub resume_signal : Host → Siginfo → Process → Process × ℕ × Siginfo
resume_signal host info p =
    let signr = p.self.exit_code in
    if signr == 0
    then (p, 0, info)
    else (let q = clear_exit_code p in
        let info' = changed_info host signr info in
        if sigismember q.self.blocked signr
        then ((send_signal host.sender signr (siginfo info') q false).0, 0, info')
        else (q, signr, info'))

-- `ptrace_signal`
unfoldable pub ptrace_signal : Host → ℕ → Siginfo → Process → (Process × ℕ × Siginfo) × List Notice
ptrace_signal host signr info p =
    let marked : Process = record p {
      self = record p.self { jobctl = set_mask p.self.jobctl jobctl_stop_dequeued };
    } in
    let (q, notices) = ptrace_stop host signr for_trap false (some info) marked in
    (resume_signal host (host.edited info) q, notices)
