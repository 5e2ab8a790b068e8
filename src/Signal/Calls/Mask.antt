-- ===== src/Signal/Calls/Mask.antt =====
-- The calls that read and change what a thread blocks, and the actions of its process (signal.c,
-- lines 512-536, 2507-2559, 3016-3150 and 3173-3192).
pub mod Unblockable
use linux_ker_dev.Prelude.{
  ℕ, ◌*◌, ◌-◌, Bool, true, false, not, ◌||◌, ◌&&◌, List, [], ◌∷◌, Option, none, some, ℤ, pos,
  negsuc, is_nonzero, Word, Mask, no_bits, clear_mask, or_word, and_word, and_not_word, ltb, ◌==◌,
  if◌then◌else◌, of_mask,
}
use linux_ker_dev.Signal.Numbers.{sigkill, sigstop, einval, efault, task_interruptible}
use linux_ker_dev.Signal.Types.{Handler, KSigaction, Process}
use linux_ker_dev.Signal.Dequeue.{
  How, sig_block, sig_unblock, sig_setmask, other_how, Notifier, set_task_blocked, sigprocmask,
  recalc_sigpending,
}
use linux_ker_dev.Signal.Actions.{do_sigaction}
use linux_ker_dev.Signal.Calls.{
  Source, null_source, unreadable, holds, Dest, null_dest, unwritable, writable, Reply, plain,
  write_out,
}

-- `sizeof(sigset_t)`, in bytes
abbrev pub sigset_size : ℕ
sigset_size = 8

-- `sigmask(SIGKILL) | sigmask(SIGSTOP)`
abbrev pub kernel_mask : Mask
kernel_mask = (sigkill - 1) ∷ (sigstop - 1) ∷ []

abbrev pub erestartnohand : ℤ
erestartnohand = negsuc 513

-- `rt_sigprocmask` behind a successful change
abbrev pub give_old : Process → Dest → Word → Reply Word
give_old p oset old = write_out p oset old (pos 0)

-- What `rt_sigprocmask` makes of the value of `sigprocmask`.
abbrev pub after_change : Dest → Word → Process × Word × ℤ → Reply Word
after_change oset old (p, before, error) =
    if is_nonzero error then plain p error else give_old p oset old

abbrev pub change_mask : Bool → How → Source Word → Dest → Process → Reply Word
change_mask freezing how null_source oset p = give_old p oset p.self.blocked
change_mask freezing how unreadable oset p = plain p efault
change_mask freezing how (holds set) oset p =
    after_change oset p.self.blocked (sigprocmask freezing how (clear_mask set kernel_mask) p)

-- `rt_sigprocmask`
unfoldable pub rt_sigprocmask : Bool → How → Source Word → Dest → ℕ → Process → Reply Word
rt_sigprocmask freezing how nset oset sigsetsize p =
    if not (sigsetsize == sigset_size) then plain p einval else change_mask freezing how nset oset p

-- What the switch of the system call `sigprocmask` computes; none is its default.
abbrev pub new_blocked : How → Word → Word → Option Word
new_blocked sig_block set old = some (or_word old set)
new_blocked sig_unblock set old = some (and_not_word old set)
new_blocked sig_setmask set old = some set
new_blocked other_how set old = none

abbrev pub set_and_give : Bool → Dest → Option Word → Process → Reply Word
set_and_give freezing oset none p = plain p einval
set_and_give freezing oset (some w) p = give_old (set_task_blocked freezing w p) oset p.self.blocked

-- The system call `sigprocmask`
unfoldable pub sys_sigprocmask : Bool → How → Source Word → Dest → Process → Reply Word
sys_sigprocmask freezing how null_source oset p = give_old p oset p.self.blocked
sys_sigprocmask freezing how unreadable oset p = plain p efault
sys_sigprocmask freezing how (holds set) oset p =
    set_and_give freezing oset (new_blocked how (clear_mask set kernel_mask) p.self.blocked) p

-- A word of 64 bits made an `int`, as the word that the `int` is extended to.
abbrev pub int_word : Word → Word
int_word w i = if ltb i 32 then w i else w 31

-- `sgetmask` and `ssetmask`, with the sets for their values; `newmask` and `old` are `int`s.
abbrev pub sgetmask : Process → Word
sgetmask p = p.self.blocked

unfoldable pub ssetmask : Bool → Word → Process → Process × Word
ssetmask freezing newmask p = (
  set_task_blocked freezing (clear_mask (int_word newmask) kernel_mask) p,
  int_word p.self.blocked,
)

-- `rt_sigsuspend` up to its sleep; the value is that after it.
abbrev pub suspend_with : Bool → Source Word → Process → Reply Word
suspend_with freezing null_source p = plain p efault
suspend_with freezing unreadable p = plain p efault
suspend_with freezing (holds newset) p =
    let saved : Process = record p { self = record p.self { saved_sigmask = p.self.blocked } } in
    let q = set_task_blocked freezing (clear_mask newset kernel_mask) saved in
    plain (record q { self = record q.self { state = of_mask task_interruptible } }) erestartnohand

unfoldable pub rt_sigsuspend : Bool → Source Word → ℕ → Process → Reply Word
rt_sigsuspend freezing unewset sigsetsize p =
    if not (sigsetsize == sigset_size) then plain p einval else suspend_with freezing unewset p

-- The first `size` bytes of a set.
abbrev pub first_bytes : Word → ℕ → Word
first_bytes w size i = w i && ltb i (size * 8)

-- `copy_to_user` of a set, or of its first bytes, and what it makes of the value of its caller
abbrev pub copy_set : Dest → Word → Process → Reply Word
copy_set null_dest w p = plain p efault
copy_set set w p = write_out p set w (pos 0)

-- `do_sigpending`; `sigpending` calls it for the size of a set of the old type.
unfoldable pub do_sigpending : Dest → ℕ → Process → Reply Word
do_sigpending set sigsetsize p =
    let pending = or_word p.self.pending.signal p.signal.shared_pending.signal in
    if ltb sigset_size sigsetsize
    then plain p einval
    else if sigsetsize == 0
    then plain p (pos 0)
    else copy_set set (first_bytes (and_word p.self.blocked pending) sigsetsize) p

abbrev pub sigpending : Dest → Process → Reply Word
sigpending set p = do_sigpending set sigset_size p

-- `rt_sigaction` behind its reading of `act`
abbrev pub given_old : Dest → Process × Option KSigaction × ℤ → Reply KSigaction
given_old oact (p, none, ret) = plain p ret
given_old oact (p, some old, ret) = write_out p oact old ret

abbrev pub action_with : ℕ → Source KSigaction → Dest → Process → Reply KSigaction
action_with sig null_source oact p = given_old oact (do_sigaction sig none p)
action_with sig unreadable oact p = plain p efault
action_with sig (holds act) oact p = given_old oact (do_sigaction sig (some act) p)

unfoldable pub rt_sigaction : ℕ → Source KSigaction → Dest → ℕ → Process → Reply KSigaction
rt_sigaction sig act oact sigsetsize p =
    if not (sigsetsize == sigset_size) then plain p einval else action_with sig act oact p

-- SA_ONESHOT | SA_NOMASK
abbrev pub oneshot_nomask : ℕ
oneshot_nomask = 0xC0000000

-- The system call `signal`: the old handler, or an error
unfoldable pub sys_signal : ℕ → Handler → Process → Process × Option Handler × ℤ
sys_signal sig handler p =
    let (q, old, ret) =
      do_sigaction sig
        (some (record { sa_handler = handler; sa_flags = oneshot_nomask; sa_mask = no_bits })) p in
    (q, elim old [ none ↦ none | some a ↦ some a.sa_handler ], ret)

-- `block_all_signals` and `unblock_all_signals`, with the notifier that they leave
abbrev pub block_all_signals : Notifier → Process → Process × Option Notifier
block_all_signals n p = (p, some n)

abbrev pub unblock_all_signals : Bool → Process → Process × Option Notifier
unblock_all_signals freezing p = (recalc_sigpending freezing p, none)
