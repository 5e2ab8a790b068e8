-- ===== src/Signal/Numbers.antt =====
-- Signal numbers and sets of the x86-64 ABI as signal(7) gives them, error numbers, and the flags
-- of sched.h (lines 184-194, 672-682, 1773 and 1829-1849), as the places of their bits.
use linux_ker_dev.Prelude.{ℕ, ◌-◌, Bool, [], ◌∷◌, ℤ, pos, negsuc, Mask, has_bit, ◌&&◌, ltb}

abbrev pub nsig : ℕ
nsig = 64

abbrev pub sigrtmin : ℕ
sigrtmin = 32

abbrev pub sigkill : ℕ
sigkill = 9

abbrev pub sigsegv : ℕ
sigsegv = 11

abbrev pub sigalrm : ℕ
sigalrm = 14

abbrev pub sigtrap : ℕ
sigtrap = 5

abbrev pub sigchld : ℕ
sigchld = 17

abbrev pub sigcont : ℕ
sigcont = 18

abbrev pub sigstop : ℕ
sigstop = 19

-- `sigmask(sig)`
abbrev pub sigmask : ℕ → Mask
sigmask sig = (sig - 1) ∷ []

-- SIGSEGV, SIGBUS, SIGILL, SIGTRAP and SIGFPE
abbrev pub synchronous_mask : Mask
synchronous_mask = 10 ∷ 6 ∷ 3 ∷ 4 ∷ 7 ∷ []

-- SIGSTOP, SIGTSTP, SIGTTIN and SIGTTOU
abbrev pub sig_kernel_stop_mask : Mask
sig_kernel_stop_mask = 18 ∷ 19 ∷ 20 ∷ 21 ∷ []

-- SIGCONT, SIGCHLD, SIGWINCH and SIGURG
abbrev pub sig_kernel_ignore_mask : Mask
sig_kernel_ignore_mask = 17 ∷ 16 ∷ 27 ∷ 22 ∷ []

-- SIGQUIT, SIGILL, SIGTRAP, SIGABRT, SIGFPE, SIGSEGV, SIGBUS, SIGSYS, SIGXCPU and SIGXFSZ
abbrev pub sig_kernel_coredump_mask : Mask
sig_kernel_coredump_mask = 2 ∷ 3 ∷ 4 ∷ 5 ∷ 7 ∷ 10 ∷ 6 ∷ 30 ∷ 23 ∷ 24 ∷ []

-- A signal below the real-time ones that is in the mask.
abbrev pub sig_in_mask : ℕ → Mask → Bool
sig_in_mask sig mask = ltb sig sigrtmin && has_bit mask (sig - 1)

abbrev pub sig_kernel_stop : ℕ → Bool
sig_kernel_stop sig = sig_in_mask sig sig_kernel_stop_mask

abbrev pub sig_kernel_ignore : ℕ → Bool
sig_kernel_ignore sig = sig_in_mask sig sig_kernel_ignore_mask

abbrev pub sig_kernel_coredump : ℕ → Bool
sig_kernel_coredump sig = sig_in_mask sig sig_kernel_coredump_mask

abbrev pub si_user : ℤ
si_user = pos 0

abbrev pub si_kernel : ℤ
si_kernel = pos 0x80

abbrev pub si_timer : ℤ
si_timer = pos 0x1FFFE

abbrev pub si_tkill : ℤ
si_tkill = negsuc 5

-- The codes of SIGCHLD, with the bits of __SI_CHLD.
abbrev pub cld_exited : ℤ
cld_exited = pos 0x40001

abbrev pub cld_killed : ℤ
cld_killed = pos 0x40002

abbrev pub cld_dumped : ℤ
cld_dumped = pos 0x40003

abbrev pub cld_trapped : ℤ
cld_trapped = pos 0x40004

abbrev pub cld_stopped : ℤ
cld_stopped = pos 0x40005

abbrev pub cld_continued : ℤ
cld_continued = pos 0x40006

abbrev pub eperm : ℤ
eperm = negsuc 0

abbrev pub esrch : ℤ
esrch = negsuc 2

abbrev pub eagain : ℤ
eagain = negsuc 10

abbrev pub enomem : ℤ
enomem = negsuc 11

abbrev pub efault : ℤ
efault = negsuc 13

abbrev pub eintr : ℤ
eintr = negsuc 3

abbrev pub einval : ℤ
einval = negsuc 21

abbrev pub task_interruptible : Mask
task_interruptible = 0 ∷ []

abbrev pub task_stopped_bit : Mask
task_stopped_bit = 2 ∷ []

abbrev pub task_traced_bit : Mask
task_traced_bit = 3 ∷ []

abbrev pub exit_zombie_dead : Mask
exit_zombie_dead = 4 ∷ 5 ∷ []

abbrev pub task_wakekill : Mask
task_wakekill = 7 ∷ []

-- TASK_STOPPED and TASK_TRACED
abbrev pub task_stopped : Mask
task_stopped = 7 ∷ 2 ∷ []

abbrev pub task_traced : Mask
task_traced = 7 ∷ 3 ∷ []

abbrev pub pf_signaled : Mask
pf_signaled = 10 ∷ []

abbrev pub pf_exiting : Mask
pf_exiting = 2 ∷ []

abbrev pub signal_stop_stopped : Mask
signal_stop_stopped = 0 ∷ []

abbrev pub signal_stop_continued : Mask
signal_stop_continued = 1 ∷ []

abbrev pub signal_group_exit : Mask
signal_group_exit = 2 ∷ []

abbrev pub signal_cld_stopped : Mask
signal_cld_stopped = 4 ∷ []

abbrev pub signal_cld_continued : Mask
signal_cld_continued = 5 ∷ []

abbrev pub signal_unkillable : Mask
signal_unkillable = 6 ∷ []

abbrev pub jobctl_stop_sigmask : Mask
jobctl_stop_sigmask = 0 ∷ 1 ∷ 2 ∷ 3 ∷ 4 ∷ 5 ∷ 6 ∷ 7 ∷ 8 ∷ 9 ∷ 10 ∷ 11 ∷ 12 ∷ 13 ∷ 14 ∷ 15 ∷ []

abbrev pub jobctl_stop_dequeued : Mask
jobctl_stop_dequeued = 16 ∷ []

abbrev pub jobctl_stop_pending : Mask
jobctl_stop_pending = 17 ∷ []

abbrev pub jobctl_stop_consume : Mask
jobctl_stop_consume = 18 ∷ []

abbrev pub jobctl_trap_stop : Mask
jobctl_trap_stop = 19 ∷ []

abbrev pub jobctl_trap_notify : Mask
jobctl_trap_notify = 20 ∷ []

abbrev pub jobctl_trapping : Mask
jobctl_trapping = 21 ∷ []

abbrev pub jobctl_listening : Mask
jobctl_listening = 22 ∷ []

abbrev pub jobctl_pending_mask : Mask
jobctl_pending_mask = 17 ∷ 19 ∷ 20 ∷ []
