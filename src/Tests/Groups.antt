-- ===== src/Tests/Groups.antt =====
-- A group of two threads, with SIGINT and SIGSEGV pending for the first and SIGCONT for the group.
use linux_ker_dev.Prelude.{ℕ, true, false, List, [], ◌∷◌, none, some, pos, no_bits, of_mask}
use linux_ker_dev.Signal.Numbers.{jobctl_stop_consume}
use linux_ker_dev.Signal.Types.{
  KSigaction, Siginfo, Sigqueue, Sigpending, Task, SignalStruct, Process, Users, sig_dfl,
}
use linux_ker_dev.Signal.Enqueue.{Sender}
use linux_ker_dev.Signal.Kill.{Caller, Target}

abbrev pub sigint : ℕ
sigint = 2

abbrev pub from_kill : ℕ → Siginfo
from_kill sig = record {
  si_signo = sig;
  si_errno = 0;
  si_code = pos 0;
  si_pid = 100;
  si_uid = 1000;
  si_status = 0;
}

abbrev pub entry : ℕ → Sigqueue
entry sig = record { info = from_kill sig; prealloc = false; user = 0 }

-- SIGINT and SIGSEGV
abbrev pub two : Sigpending
two = record { signal = of_mask (1 ∷ 10 ∷ []); queue = entry 11 ∷ entry 2 ∷ [] }

abbrev pub continued : Sigpending
continued = record { signal = of_mask (17 ∷ []); queue = entry 18 ∷ [] }

abbrev pub nothing : Sigpending
nothing = record { signal = no_bits; queue = [] }

abbrev pub task : Sigpending → Task
task pending = record {
  pending = pending;
  blocked = no_bits;
  real_blocked = no_bits;
  jobctl = of_mask jobctl_stop_consume;
  flags = no_bits;
  state = no_bits;
  exit_state = no_bits;
  ptraced = false;
  seized = false;
  on_cpu = false;
  tif_sigpending = false;
  user = 0;
  rlimit_sigpending = 1024;
  wakes = [];
  trap_wakes = 0;
  exit_code = 0;
  last_siginfo = none;
  saved_sigmask = no_bits;
  sas_ss_sp = 0;
  sas_ss_size = 0;
}

abbrev pub users : Users
users u = 3

abbrev pub plain_action : KSigaction
plain_action = record { sa_handler = sig_dfl; sa_flags = 0; sa_mask = no_bits }

abbrev pub signals : SignalStruct
signals = record {
  flags = no_bits;
  group_exit_code = 0;
  group_exit_task = false;
  group_stop_count = 2;
  curr_target = 1;
  shared_pending = continued;
}

abbrev pub group_of : List Task → Process
group_of others = record {
  signal = signals;
  self = task two;
  others = others;
  sighand = true;
  action = λ i. plain_action;
  counters = 0 ∷ 5 ∷ 7 ∷ [];
  users = users;
}

abbrev pub pair : Process
pair = group_of (task nothing ∷ [])

abbrev pub single : Process
single = group_of []

abbrev pub sender : Sender
sender = record { pid_in_ns = 100; uid = 1000; memory = true }

abbrev pub caller : Caller
caller = record { cred = record { user_ns = 0; uid = 1000; euid = 1000; suid = 1000 }; session = 4 }

abbrev pub target : ℕ → Target
target uid = record {
  process = pair;
  sender = sender;
  cred = record { user_ns = 0; uid = uid; euid = uid; suid = uid };
  capable = false;
  same_group = false;
  session = some 5;
  pid_vnr = 200;
  audit = pos 0;
  security = pos 0;
}
