-- ===== src/Signal/Notify.antt =====
-- Letting a parent know about its child (signal.c, lines 1597-1753). The parent is the group that
-- gets the signal; its `wait` calls are woken in any case, and the times of the child are left out.
pub mod Status
use linux_ker_dev.Prelude.{
  ℕ, ◌+◌, ◌*◌, ◌/◌, ◌%◌, ◌^◌, ◌-◌, Bool, true, false, not, ◌||◌, ◌&&◌, ℤ, pos, ◌==◌, if◌then◌else◌,
  List, [], ◌∷◌,
}
use linux_ker_dev.Signal.Numbers.{
  sigchld, sigcont, cld_exited, cld_killed, cld_dumped, cld_trapped, cld_stopped, cld_continued,
}
use linux_ker_dev.Signal.Types.{Siginfo, siginfo, Process, KSigaction}
use linux_ker_dev.Signal.Send.{is_sig_ign}
use linux_ker_dev.Signal.Enqueue.{Sender, send_signal}
use linux_ker_dev.Signal.Actions.{valid_signal}

-- What the functions read of the child: its exit code, whether it is traced, whether its parent has
-- changed its security domain (`parent_exec_id`), its number as the parent sees it and its user,
-- and the exit code of its group.
pub record Child : Type 0 where
  pub exit_code : ℕ
  pub ptraced : Bool
  pub domain_changed : Bool
  pub pid : ℕ
  pub uid : ℕ
  pub group_exit_code : ℕ

-- The bits SA_NOCLDSTOP and SA_NOCLDWAIT of `sa_flags`
abbrev pub has_nocldstop : KSigaction → Bool
has_nocldstop ka = ka.sa_flags % 2 == 1

abbrev pub has_nocldwait : KSigaction → Bool
has_nocldwait ka = ka.sa_flags / 2 % 2 == 1

abbrev pub chld_action : Process → KSigaction
chld_action parent = parent.action (sigchld - 1)

-- `info.si_code` and `info.si_status` of a child that has died
unfoldable pub exit_status : ℕ → ℤ × ℕ
exit_status exit_code =
    if exit_code / 2 ^ 7 % 2 == 1
    then (cld_dumped, exit_code % 2 ^ 7)
    else if not (exit_code % 2 ^ 7 == 0)
    then (cld_killed, exit_code % 2 ^ 7)
    else (cld_exited, exit_code / 2 ^ 8)

abbrev pub child_info : Child → ℕ → ℤ × ℕ → Siginfo
child_info child sig (code, status) = record {
  si_signo = sig;
  si_errno = 0;
  si_code = code;
  si_pid = child.pid;
  si_uid = child.uid;
  si_status = status;
}

-- The signal that is asked for, or SIGCHLD where the parent has changed its domain.
abbrev pub exit_signal : Child → ℕ → ℕ
exit_signal child sig = if not (sig == sigchld) && child.domain_changed then sigchld else sig

-- The parent does not care about the death of its children.
abbrev pub reaps_itself : Process → Child → ℕ → Bool
reaps_itself parent child sig =
    (not child.ptraced && sig == sigchld)
    && (is_sig_ign (chld_action parent).sa_handler || has_nocldwait (chld_action parent))

-- `__group_send_sig_info`, whose value is not read
abbrev pub group_send : Sender → ℕ → Siginfo → Process → Process
group_send sender sig info parent = (send_signal sender sig (siginfo info) parent true).0

-- `do_notify_parent`: the parent, and `autoreap`
unfoldable pub do_notify_parent : Sender → Child → ℕ → Process → Process × Bool
do_notify_parent sender child sig parent =
    let sig' = exit_signal child sig in
    let info = child_info child sig' (exit_status child.exit_code) in
    let autoreap = reaps_itself parent child sig' in
    let final = if autoreap && is_sig_ign (chld_action parent).sa_handler then 0 else sig' in
    (
      if valid_signal final && not (final == 0)
          then group_send sender final info parent
          else parent,
      autoreap,
    )

-- What is reported of a child that lives
pub data Change : Type 0 where
  continued stopped trapped : Change

abbrev pub change_status : Child → Change → ℤ × ℕ
change_status child continued = (cld_continued, sigcont)
change_status child stopped = (cld_stopped, child.group_exit_code % 2 ^ 7)
change_status child trapped = (cld_trapped, child.exit_code % 2 ^ 7)

-- `do_notify_parent_cldstop`, at the child and the parent that `for_ptracer` chooses
unfoldable pub do_notify_parent_cldstop : Sender → Child → Change → Process → Process
do_notify_parent_cldstop sender child why parent =
    if not (is_sig_ign (chld_action parent).sa_handler) && not (has_nocldstop (chld_action parent))
    then group_send sender sigchld (child_info child sigchld (change_status child why)) parent
    else parent
