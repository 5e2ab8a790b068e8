-- ===== src/Signal/Types.antt =====
-- The state that signal.c works on: the parts that it reads and writes of the structures of
-- sched.h, and the queue entries.
use linux_ker_dev.Prelude.{
  ℕ, ◌-◌, ◌+◌, Bool, true, false, ◌&&◌, List, [], ◌∷◌, ◌++◌, ℤ, Option, ◌||◌, Word, Mask, update,
  length, ◌==◌, if◌then◌else◌, test_mask, no_bits, is_le_zero, get_or,
}
use linux_ker_dev.Signal.Numbers.{
  task_interruptible, task_wakekill, task_traced_bit, task_stopped_bit, sigkill, signal_group_exit,
}

pub data Handler : Type 0 where
  sig_dfl sig_ign : Handler
  user_handler : ℕ → Handler

pub record KSigaction : Type 0 where
  pub sa_handler : Handler
  pub sa_flags : ℕ
  pub sa_mask : Word

pub record Siginfo : Type 0 where
  pub si_signo : ℕ
  pub si_errno : ℕ
  pub si_code : ℤ
  pub si_pid : ℕ
  pub si_uid : ℕ
  pub si_status : ℕ

-- The `struct siginfo *` that a sender hands over: one of the three special values, or a record.
pub data Info : Type 0 where
  send_sig_noinfo send_sig_priv send_sig_forced : Info
  siginfo : Siginfo → Info

-- `struct sigqueue`; `prealloc` is its flag SIGQUEUE_PREALLOC, and `user` the one who is charged.
pub record Sigqueue : Type 0 where
  pub info : Siginfo
  pub prealloc : Bool
  pub user : ℕ

pub record Sigpending : Type 0 where
  pub signal : Word
  pub queue : List Sigqueue

-- `struct task_struct`. `on_cpu` is `task_curr`, `wakes` lists the states handed to
-- `wake_up_state` and `trap_wakes` counts the calls of `wake_up_bit`.
pub record Task : Type 0 where
  pub pending : Sigpending
  pub blocked : Word
  pub real_blocked : Word
  pub jobctl : Word
  pub flags : Word
  pub state : Word
  pub exit_state : Word
  pub ptraced : Bool
  pub seized : Bool
  pub on_cpu : Bool
  pub tif_sigpending : Bool
  pub user : ℕ
  pub rlimit_sigpending : ℕ
  pub wakes : List Mask
  pub trap_wakes : ℕ
  pub exit_code : ℕ
  pub last_siginfo : Option Siginfo
  pub saved_sigmask : Word
  pub sas_ss_sp : ℕ
  pub sas_ss_size : ℕ

-- `struct signal_struct`; `group_exit_task` says whether there is one, and `curr_target` is a place in the ring of threads.
pub record SignalStruct : Type 0 where
  pub flags : Word
  pub group_exit_code : ℕ
  pub group_exit_task : Bool
  pub group_stop_count : ℕ
  pub curr_target : ℕ
  pub shared_pending : Sigpending

-- `user->sigpending` of every user.
abbrev pub Users : Type 0
Users = ℕ → ℕ

-- A thread group as a call sees it that is given the thread `p`: the ring of threads is read from
-- `p` on, `self` and then the `others`. `action` and `counters` are the tables of
-- `struct sighand_struct`, and `sighand` says whether the task still has one.
pub record Process : Type 0 where
  pub signal : SignalStruct
  pub self : Task
  pub others : List Task
  pub sighand : Bool
  pub action : ℕ → KSigaction
  pub counters : List ℕ
  pub users : Users

abbrev pub sigismember : Word → ℕ → Bool
sigismember s sig = s (sig - 1)

abbrev pub sigaddset : Word → ℕ → Word
sigaddset s sig = update s (sig - 1) true

abbrev pub sigdelset : Word → ℕ → Word
sigdelset s sig = update s (sig - 1) false

-- `is_si_special`
abbrev pub is_si_special : Info → Bool
is_si_special (siginfo i) = false
is_si_special _ = true

-- `si_fromuser`
abbrev pub si_fromuser : Info → Bool
si_fromuser send_sig_noinfo = true
si_fromuser (siginfo i) = is_le_zero i.si_code
si_fromuser _ = false

-- `wake_up_state`, and the kick where that finds nothing to wake: a thread that sleeps in one of the
-- states of the mask runs again, as the kernel's scheduler promises.
abbrev pub wake_up_state : Task → Mask → Task
wake_up_state t state = record t {
  wakes = t.wakes ++ state ∷ [];
  state = if test_mask t.state state then no_bits else t.state;
}

-- `signal_wake_up_state`
abbrev pub signal_wake_up_state : Task → Mask → Task
signal_wake_up_state t state =
    wake_up_state (record t { tif_sigpending = true }) (state ++ task_interruptible)

-- `signal_wake_up`
abbrev pub signal_wake_up : Task → Bool → Task
signal_wake_up t resume = signal_wake_up_state t (if resume then task_wakekill else [])

-- `ptrace_signal_wake_up`
abbrev pub ptrace_signal_wake_up : Task → Bool → Task
ptrace_signal_wake_up t resume = signal_wake_up_state t (if resume then task_traced_bit else [])

-- `signal_pending` and `fatal_signal_pending`
abbrev pub fatal_signal_pending : Task → Bool
fatal_signal_pending t = t.tif_sigpending && sigismember t.pending.signal sigkill

-- `task_is_stopped_or_traced`
abbrev pub task_is_stopped_or_traced : Task → Bool
task_is_stopped_or_traced t = test_mask t.state (task_stopped_bit ++ task_traced_bit)

-- `task_is_stopped`
abbrev pub task_is_stopped : Task → Bool
task_is_stopped t = test_mask t.state task_stopped_bit

-- `signal_group_exit`
abbrev pub is_group_exit : SignalStruct → Bool
is_group_exit s = test_mask s.flags signal_group_exit || s.group_exit_task

-- `thread_group_empty`
abbrev pub thread_group_empty : Process → Bool
thread_group_empty p = length p.others == 0

abbrev pub nr_threads : Process → ℕ
nr_threads p = length p.others + 1

-- The thread at a place of the ring.
abbrev pub thread : Process → ℕ → Task
thread p i = get_or (p.self ∷ p.others) i p.self
