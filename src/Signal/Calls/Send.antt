-- ===== src/Signal/Calls/Send.antt =====
-- The calls that send a signal (signal.c, lines 1367-1375 and 2750-2897). None for a whole result is
-- a write beyond the end of a table of counters.
pub mod Targets
pub mod Genuine
use linux_ker_dev.Prelude.{
  ℕ, Bool, false, not, ◌||◌, ◌&&◌, List, [], Option, none, some, ℤ, pos, is_nonzero, is_le_zero,
  is_ge_zero, same_int, ◌==◌, if◌then◌else◌,
}
use linux_ker_dev.Signal.Numbers.{si_user, si_tkill, esrch, eperm, einval, efault}
use linux_ker_dev.Signal.Types.{Siginfo, Info, siginfo, Users, Process}
use linux_ker_dev.Signal.Enqueue.{do_send_sig_info}
use linux_ker_dev.Signal.Kill.{
  Caller, Target, Lookup, check_kill_permission, kill_pid_info, kill_something_info,
}
use linux_ker_dev.Signal.Calls.{Source, holds}

-- `task_tgid_vnr(current)`, and the caller's other traits
pub record Self : Type 0 where
  pub caller : Caller
  pub tgid : ℕ

-- The record of `kill` and `do_tkill`.
abbrev pub own_info : Self → ℕ → ℤ → Siginfo
own_info me sig code = record {
  si_signo = sig;
  si_errno = 0;
  si_code = code;
  si_pid = me.tgid;
  si_uid = me.caller.cred.uid;
  si_status = 0;
}

-- `kill`
unfoldable pub sys_kill : Self → ℤ → ℕ → Lookup → Users → Option (List Process × ℤ)
sys_kill me pid sig l users =
    kill_something_info sig (siginfo (own_info me sig si_user)) me.caller pid l users

-- A thread that `find_task_by_vpid` finds, with the number of its group.
pub record Found : Type 0 where
  pub target : Target
  pub tgid : ℕ

-- A target that is gone counts as one that died behind the signal.
abbrev pub forgive : Option (Process × ℤ) → Option (Option Process × ℤ)
forgive none = none
forgive (some (p, error)) = some (some p, if same_int error esrch then pos 0 else error)

-- `do_send_specific`: the target, if one is found, and the value
unfoldable pub do_send_specific : Caller → ℤ → Option Found → ℕ → Info → Option (Option Process × ℤ)
do_send_specific caller tgid none sig info = some (none, esrch)
do_send_specific caller tgid (some f) sig info =
    let error = check_kill_permission sig info caller f.target in
    if is_le_zero tgid || same_int (pos f.tgid) tgid
    then if not (is_nonzero error) && not (sig == 0)
      then forgive (do_send_sig_info f.target.sender sig info f.target.process false)
      else some (some f.target.process, error)
    else some (some f.target.process, esrch)

-- `do_tkill`
unfoldable pub do_tkill : Self → ℤ → Option Found → ℕ → Option (Option Process × ℤ)
do_tkill me tgid found sig =
    do_send_specific me.caller tgid found sig (siginfo (own_info me sig si_tkill))

-- `tgkill` and `tkill`
unfoldable pub tgkill : Self → ℤ → ℤ → Option Found → ℕ → Option (Option Process × ℤ)
tgkill me tgid pid found sig =
    if is_le_zero pid || is_le_zero tgid then some (none, einval) else do_tkill me tgid found sig

unfoldable pub tkill : Self → ℤ → Option Found → ℕ → Option (Option Process × ℤ)
tkill me pid found sig =
    if is_le_zero pid then some (none, einval) else do_tkill me (pos 0) found sig

-- `info.si_code >= 0 || info.si_code == SI_TKILL`
abbrev pub impersonates : Siginfo → Bool
impersonates info = is_ge_zero info.si_code || same_int info.si_code si_tkill

-- `rt_sigqueueinfo`, with `kill_proc_info`
abbrev pub queue_to : ℕ → Siginfo → Caller → Lookup → Users → Option (List Process × ℤ)
queue_to sig info caller l users =
    if impersonates info
    then some ([], eperm)
    else kill_pid_info sig (siginfo (record info { si_signo = sig })) caller l.by_pid users

unfoldable pub rt_sigqueueinfo :
    Self → ℕ → Source Siginfo → Lookup → Users → Option (List Process × ℤ)
rt_sigqueueinfo me sig (holds info) l users = queue_to sig info me.caller l users
rt_sigqueueinfo me sig _ l users = some ([], efault)

-- `do_rt_tgsigqueueinfo`
unfoldable pub do_rt_tgsigqueueinfo :
    Self → ℤ → ℤ → Option Found → ℕ → Siginfo → Option (Option Process × ℤ)
do_rt_tgsigqueueinfo me tgid pid found sig info =
    if is_le_zero pid || is_le_zero tgid
    then some (none, einval)
    else if impersonates info
    then some (none, eperm)
    else do_send_specific me.caller tgid found sig (siginfo (record info { si_signo = sig }))

-- `rt_tgsigqueueinfo`
unfoldable pub rt_tgsigqueueinfo :
    Self → ℤ → ℤ → Option Found → ℕ → Source Siginfo → Option (Option Process × ℤ)
rt_tgsigqueueinfo me tgid pid found sig (holds info) =
    do_rt_tgsigqueueinfo me tgid pid found sig info
rt_tgsigqueueinfo me tgid pid found sig _ = some (none, efault)
