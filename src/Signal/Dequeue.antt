-- ===== src/Signal/Dequeue.antt =====
-- Taking a signal off a process, and changing what it blocks (signal.c, lines 125-156, 575-669,
-- 2341-2366 and 2437-2498). The thread `self` is `current`.
pub mod Retarget
pub mod Taken
pub mod Blocked
pub mod Keeps
pub mod Weight
use linux_ker_dev.Prelude.{
  ℕ, ◌/◌, ◌%◌, ◌^◌, Bool, true, false, not, ◌||◌, ◌&&◌, List, [], ◌∷◌, Option, none, some, Word,
  test_mask, set_mask, and_word, or_word, and_not_word, ◌==◌, if◌then◌else◌, ℤ, pos, negsuc,
}
use linux_ker_dev.Signal.Numbers.{
  sigalrm, sig_kernel_stop, pf_exiting, jobctl_pending_mask, jobctl_stop_dequeued, einval,
}
use linux_ker_dev.Signal.Types.{
  Siginfo, Sigpending, Task, Process, sigismember, signal_wake_up, thread_group_empty,
}
use linux_ker_dev.Signal.Pending.{has_pending_signals, is_nonempty, next_signal, collect_signal}
use linux_ker_dev.Signal.Enqueue.{pending_of, with_pending}

-- The condition of `recalc_sigpending_tsk`
abbrev pub has_work : Process → Bool
has_work p =
    test_mask p.self.jobctl jobctl_pending_mask
    || (has_pending_signals p.self.pending.signal p.self.blocked
        || has_pending_signals p.signal.shared_pending.signal p.self.blocked)

abbrev pub with_flag : Process → Bool → Process
with_flag p flag = record p { self = record p.self { tif_sigpending = flag } }

-- `recalc_sigpending_tsk`
unfoldable pub recalc_sigpending_tsk : Process → Process × Bool
recalc_sigpending_tsk p = if has_work p then (with_flag p true, true) else (p, false)

-- `recalc_sigpending`, by what `freezing(current)` answers
unfoldable pub recalc_sigpending : Bool → Process → Process
unfolding recalc_sigpending_tsk
recalc_sigpending freezing p =
    let (q, found) = recalc_sigpending_tsk p in
    if not found && not freezing then with_flag q false else q

-- The notifier of a driver: its mask, and whether it lets a signal of the mask through.
pub record Notifier : Type 0 where
  pub mask : Word
  pub lets_through : Bool

abbrev pub holds_back : Option Notifier → ℕ → Bool
holds_back none sig = false
holds_back (some n) sig = sigismember n.mask sig && not n.lets_through

-- `__dequeue_signal` on the private set, or on the shared one
unfoldable pub dequeue_from :
    Option Notifier → Word → Process → Bool → Process × Option (ℕ × Siginfo)
dequeue_from notifier mask p group =
    let sig = next_signal (pending_of p group) mask in
    if sig == 0
    then (p, none)
    else if holds_back notifier sig
    then (with_flag p false, none)
    else (let (s, info, users) = collect_signal sig (pending_of p group) p.users in
        (with_pending p group s users, some (sig, info)))

-- The interval timer of the process, and whether the record that is taken asks a POSIX timer to be
-- set again (`si_sys_private`).
pub record Timers : Type 0 where
  pub is_queued : Bool
  pub has_increment : Bool
  pub sys_private : Bool

-- What `dequeue_signal` leaves: the process, the signal with its record, whether the interval timer
-- was restarted, and whether `do_schedule_next_timer` was called.
pub record Dequeued : Type 0 where
  pub process : Process
  pub taken : Option (ℕ × Siginfo)
  pub timer_restarted : Bool
  pub next_scheduled : Bool

-- `(info->si_code & __SI_MASK) == __SI_TIMER`
abbrev pub is_timer_code : ℤ → Bool
is_timer_code (pos n) = n / 2 ^ 16 % 2 ^ 16 == 1
is_timer_code (negsuc n) = false

abbrev pub is_alarm : Option (ℕ × Siginfo) → Bool
is_alarm none = false
is_alarm (some (sig, info)) = sig == sigalrm

-- `current->jobctl |= JOBCTL_STOP_DEQUEUED`
abbrev pub mark_stop : ℕ → Process → Process
mark_stop sig p =
    if sig_kernel_stop sig
    then record p { self = record p.self { jobctl = set_mask p.self.jobctl jobctl_stop_dequeued } }
    else p

-- `dequeue_signal` behind its two looks
unfoldable pub finish_dequeue : Bool → Timers → Bool → Process × Option (ℕ × Siginfo) → Dequeued
finish_dequeue freezing timers restarted (p, none) = record {
  process = recalc_sigpending freezing p;
  taken = none;
  timer_restarted = restarted;
  next_scheduled = false;
}
finish_dequeue freezing timers restarted (p, some (sig, info)) = record {
  process = mark_stop sig (recalc_sigpending freezing p);
  taken = some (sig, info);
  timer_restarted = restarted;
  next_scheduled = is_timer_code info.si_code && timers.sys_private;
}

-- The second look of `dequeue_signal`, after a first one that found nothing, or none.
unfoldable pub look_shared :
    Option Notifier → Word → Bool → Timers → Process × Option (ℕ × Siginfo) → Dequeued
look_shared notifier mask freezing timers (p, some found) =
    finish_dequeue freezing timers false (p, some found)
look_shared notifier mask freezing timers (p, none) =
    let r = dequeue_from notifier mask p true in
    finish_dequeue freezing timers (is_alarm r.1 && (not timers.is_queued && timers.has_increment))
      r

-- `dequeue_signal`
unfoldable pub dequeue_signal : Option Notifier → Word → Bool → Timers → Process → Dequeued
dequeue_signal notifier mask freezing timers p =
    look_shared notifier mask freezing timers (dequeue_from notifier mask p false)

-- The loop of `retarget_shared_pending` over the other threads.
unfoldable pub retarget_threads : Word → List Task → List Task
retarget_threads retarget [] = []
retarget_threads retarget (t ∷ ts) =
    let later = and_word retarget t.blocked in
    let skipped = retarget_threads retarget ts in
    let rest = retarget_threads later ts in
    if test_mask t.flags pf_exiting
    then t ∷ skipped
    else if not (has_pending_signals retarget t.blocked)
    then t ∷ skipped
    else (let woken = if t.tif_sigpending then t else signal_wake_up t false in
        if is_nonempty later then woken ∷ rest else woken ∷ ts)

-- `retarget_shared_pending`
unfoldable pub retarget_shared_pending : Process → Word → Process
retarget_shared_pending p which =
    let retarget = and_word p.signal.shared_pending.signal which in
    if is_nonempty retarget then record p { others = retarget_threads retarget p.others } else p

-- `__set_task_blocked`, which is `set_current_blocked` under its lock
unfoldable pub set_task_blocked : Bool → Word → Process → Process
set_task_blocked freezing newset p =
    let q =
      if p.self.tif_sigpending && not (thread_group_empty p)
      then retarget_shared_pending p (and_not_word newset p.self.blocked)
      else p in
    recalc_sigpending freezing (record q { self = record q.self { blocked = newset } })

pub data How : Type 0 where
  sig_block sig_unblock sig_setmask other_how : How

-- `sigprocmask`: the process, the set for `oldset`, and the value
unfoldable pub sigprocmask : Bool → How → Word → Process → Process × Word × ℤ
sigprocmask freezing sig_block set p =
    (set_task_blocked freezing (or_word p.self.blocked set) p, p.self.blocked, pos 0)
sigprocmask freezing sig_unblock set p =
    (set_task_blocked freezing (and_not_word p.self.blocked set) p, p.self.blocked, pos 0)
sigprocmask freezing sig_setmask set p = (set_task_blocked freezing set p, p.self.blocked, pos 0)
sigprocmask freezing other_how set p = (p, p.self.blocked, einval)
