-- ===== src/Signal/Enqueue.antt =====
-- Queueing a signal and delivering it to a process (signal.c, lines 145-149, 352-385, 1014-1124,
-- 1171-1185 and 1198-1246; line 1180 counts the signals of a process).
pub mod Rules
pub mod Counting
pub mod Exclusive
pub mod Zap
pub mod Forced
pub mod Records
pub mod Posting
pub mod Roundtrip
use linux_ker_dev.Prelude.{
  ℕ, zero, suc, ◌-◌, ◌+◌, ◌%◌, ◌^◌, Bool, true, false, not, ◌||◌, ◌&&◌, List, [], ◌∷◌, ◌++◌, Option,
  none, some, Mask, test_mask, clear_mask, update, ltb, leb, ◌==◌, if◌then◌else◌, ℤ, pos, negsuc,
  is_ge_zero, length, get_elem?, set, map,
}
use linux_ker_dev.Signal.Numbers.{
  sigrtmin, sigkill, si_user, si_kernel, eagain, esrch, signal_unkillable, jobctl_pending_mask,
  exit_zombie_dead,
}
use linux_ker_dev.Signal.Types.{
  sig_dfl, KSigaction, Siginfo, Info, send_sig_noinfo, send_sig_priv, send_sig_forced, siginfo,
  Sigqueue, Sigpending, Task, Users, Process, sigismember, sigaddset, sigdelset, is_si_special,
  si_fromuser, signal_wake_up,
}
use linux_ker_dev.Signal.Jobctl.{task_clear_jobctl_pending}
use linux_ker_dev.Signal.Pending.{has_pending_signals}
use linux_ker_dev.Signal.Send.{
  is_sig_dfl, is_sig_ign, sig_handler, prepare_signal, complete_signal, kill_thread,
}

-- What the code asks of the sender and of the allocator: the number of the sender's process as the
-- target's namespace sees it, 0 if it does not, its user, and whether there is memory for an
-- entry.
pub record Sender : Type 0 where
  pub pid_in_ns : ℕ
  pub uid : ℕ
  pub memory : Bool

-- `__sigqueue_alloc`: the user who is charged for an entry, if there is one, and the counts.
unfoldable pub sigqueue_alloc : Sender → Task → Bool → Users → Option ℕ × Users
sigqueue_alloc sender t override_rlimit users =
    let charged = update users t.user (users t.user + 1) in
    if (override_rlimit || leb (charged t.user) t.rlimit_sigpending) && sender.memory
    then (some t.user, charged)
    else (none, update charged t.user (charged t.user - 1))

-- `legacy_queue`
abbrev pub legacy_queue : Sigpending → ℕ → Bool
legacy_queue s sig = ltb sig sigrtmin && sigismember s.signal sig

-- The record that goes into the queue.
abbrev pub entry_info : Sender → ℕ → Info → Bool → Siginfo
entry_info sender sig (siginfo i) from_ancestor_ns =
    if from_ancestor_ns then record i { si_pid = 0 } else i
entry_info sender sig send_sig_noinfo from_ancestor_ns = record {
  si_signo = sig;
  si_errno = 0;
  si_code = si_user;
  si_pid = sender.pid_in_ns;
  si_uid = sender.uid;
  si_status = 0;
}
entry_info sender sig _ from_ancestor_ns = record {
  si_signo = sig;
  si_errno = 0;
  si_code = si_kernel;
  si_pid = 0;
  si_uid = 0;
  si_status = 0;
}

abbrev pub is_forced : Info → Bool
is_forced send_sig_forced = true
is_forced _ = false

-- `is_si_special(info) || info->si_code >= 0`
abbrev pub may_override : Info → Bool
may_override (siginfo i) = is_ge_zero i.si_code
may_override _ = true

-- `info->si_code != SI_USER` of a record
abbrev pub not_from_kill : Info → Bool
not_from_kill (siginfo i) = elim i.si_code [ pos n ↦ not (n == 0) | negsuc n ↦ true ]
not_from_kill _ = false

-- The end of the queueing, by the user whom an entry was charged to, if there is one: the new set,
-- the counts, and none for the set if the signal is refused for want of an entry.
unfoldable pub enqueue_charged :
    Sender → ℕ → Info → Bool → Sigpending → Option ℕ × Users → Option Sigpending × Users
enqueue_charged sender sig info from_ancestor_ns s (some user, users) = (
  some (record {
    signal = sigaddset s.signal sig;
    queue =
        s.queue
        ++ record {
          info = entry_info sender sig info from_ancestor_ns;
          prealloc = false;
          user = user;
        }
          ∷ [];
  }),
  users,
)
enqueue_charged sender sig info from_ancestor_ns s (none, users) =
    if not (is_si_special info) && (leb sigrtmin sig && not_from_kill info)
    then (none, users)
    else (some (record s { signal = sigaddset s.signal sig }), users)

-- `__send_signal` from the test for SEND_SIG_FORCED to `sigaddset`
unfoldable pub enqueue :
    Sender → ℕ → Info → Bool → Task → Sigpending → Users → Option Sigpending × Users
enqueue sender sig info from_ancestor_ns t s users =
    if is_forced info
    then (some (record s { signal = sigaddset s.signal sig }), users)
    else enqueue_charged sender sig info from_ancestor_ns s
        (sigqueue_alloc sender t (if ltb sig sigrtmin then may_override info else false) users)

-- `pending = group ? &t->signal->shared_pending : &t->pending`
abbrev pub pending_of : Process → Bool → Sigpending
pending_of p true = p.signal.shared_pending
pending_of p false = p.self.pending

abbrev pub with_pending : Process → Bool → Sigpending → Users → Process
with_pending p true s users = record p {
  signal = record p.signal { shared_pending = s };
  users = users;
}
with_pending p false s users = record p { self = record p.self { pending = s }; users = users }

-- `__send_signal` from `sigaddset` on, or from the refusal
unfoldable pub post_with : ℕ → Process → Bool → Option Sigpending × Users → Process × ℤ
post_with sig p group (none, users) = (record p { users = users }, eagain)
post_with sig p group (some s, users) =
    (complete_signal sig (with_pending p group s users) group, pos 0)

-- `__send_signal` behind `prepare_signal`
unfoldable pub post_signal : Sender → ℕ → Info → Process → Bool → Bool → Process × ℤ
post_signal sender sig info p group from_ancestor_ns =
    if legacy_queue (pending_of p group) sig
    then (p, pos 0)
    else post_with sig p group
        (enqueue sender sig info from_ancestor_ns p.self (pending_of p group) p.users)

-- `__send_signal`
unfoldable pub send_signal_ns : Sender → ℕ → Info → Process → Bool → Bool → Process × ℤ
send_signal_ns sender sig info p group from_ancestor_ns =
    let (q, deliver) = prepare_signal sig p from_ancestor_ns in
    if deliver then post_signal sender sig info q group from_ancestor_ns else (q, pos 0)

-- `send_signal`, with namespaces configured
unfoldable pub send_signal : Sender → ℕ → Info → Process → Bool → Process × ℤ
send_signal sender sig info p group =
    send_signal_ns sender sig info p group (si_fromuser info && sender.pid_in_ns == 0)

-- `counters[sig] = counters[sig] + 1` of an `unsigned int`; there is no such element beyond the
-- end of the table.
unfoldable pub count_signal : ℕ → List ℕ → Option (List ℕ)
count_signal sig counters = elim (get_elem? counters sig) [
  | none ↦ none
  | some n ↦ some (set counters sig ((n + 1) % 2 ^ 32))
]

abbrev pub with_count : Process × ℤ → Option (List ℕ) → Option (Process × ℤ)
with_count r none = none
with_count r (some counters) = some (record r.0 { counters = counters }, r.1)

-- `do_send_sig_info`; none is a write beyond the end of the table.
unfoldable pub do_send_sig_info : Sender → ℕ → Info → Process → Bool → Option (Process × ℤ)
do_send_sig_info sender sig info p group =
    if p.sighand
    then (let r = send_signal sender sig info p group in
        with_count r (count_signal sig r.0.counters))
    else some (p, esrch)

-- `recalc_sigpending_and_wake`; the bits of pending job control count as a pending signal.
unfoldable pub recalc_sigpending_and_wake : Process → Process
recalc_sigpending_and_wake p =
    if test_mask p.self.jobctl jobctl_pending_mask
      || (has_pending_signals p.self.pending.signal p.self.blocked
          || has_pending_signals p.signal.shared_pending.signal p.self.blocked)
    then record p { self = signal_wake_up (record p.self { tif_sigpending = true }) false }
    else p

-- `force_sig_info` up to the test for the default action: a signal that is blocked or ignored gets
-- its default action and is no longer blocked.
unfoldable pub open_forced : ℕ → Process → Process
open_forced sig p =
    let ignored = is_sig_ign (sig_handler p sig) in
    let blocked = sigismember p.self.blocked sig in
    let reset : Process = record p {
      action = update p.action (sig - 1) (record (p.action (sig - 1)) { sa_handler = sig_dfl });
    } in
    let opened : Process =
      if blocked
      then recalc_sigpending_and_wake
          (record reset { self = record p.self { blocked = sigdelset p.self.blocked sig } })
      else reset in
    if blocked || ignored then opened else p

-- `force_sig_info` from there to the sending: the default action is not to be refused.
unfoldable pub make_killable : ℕ → Process → Process
make_killable sig p =
    if is_sig_dfl (sig_handler p sig)
    then record p {
      signal = record p.signal { flags = clear_mask p.signal.flags signal_unkillable };
    }
    else p

-- `force_sig_info`
unfoldable pub force_sig_info : Sender → ℕ → Info → Process → Process × ℤ
force_sig_info sender sig info p =
    send_signal sender sig info (make_killable sig (open_forced sig p)) false

-- The change that `zap_other_threads` makes of one thread; the places of `exit_state` that can be
-- set are those of EXIT_ZOMBIE and EXIT_DEAD.
unfoldable pub zap_thread : Task → Task
zap_thread t =
    let t' = task_clear_jobctl_pending t jobctl_pending_mask in
    if test_mask t'.exit_state exit_zombie_dead
    then t'
    else signal_wake_up
        (record t' { pending = record t'.pending { signal = sigaddset t'.pending.signal sigkill } })
        true

-- `zap_other_threads`
unfoldable pub zap_other_threads : Process → Process × ℕ
unfolding zap_thread
zap_other_threads p = (
  record p { signal = record p.signal { group_stop_count = 0 }; others = map zap_thread p.others },
  length p.others,
)
