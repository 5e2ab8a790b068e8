-- ===== src/Signal/Calls/Wait.antt =====
-- Waiting for a signal (signal.c, lines 2652-2743).
pub mod Restores
use linux_ker_dev.Prelude.{
  ℕ, ◌+◌, ◌^◌, ◌-◌, Bool, true, false, not, ◌||◌, ◌&&◌, Option, none, some, ℤ, pos, Word, no_bits,
  clear_mask, and_word, ◌==◌, if◌then◌else◌,
}
use linux_ker_dev.Signal.Numbers.{einval, efault, eintr, eagain}
use linux_ker_dev.Signal.Types.{Siginfo, Process}
use linux_ker_dev.Signal.Dequeue.{
  Notifier, Timers, Dequeued, dequeue_signal, set_task_blocked, recalc_sigpending,
}
use linux_ker_dev.Signal.Stop.{not_word}
use linux_ker_dev.Signal.Calls.{
  Source, null_source, unreadable, holds, Dest, Reply, plain, write_out,
}
use linux_ker_dev.Signal.Calls.Mask.{kernel_mask, sigset_size}

pub record Timespec : Type 0 where
  pub tv_sec : ℕ
  pub tv_nsec : ℕ

-- What the code asks outside of signal.c: the notifier, the freezer, the timers, `timespec_valid`,
-- `timespec_to_jiffies`, and `schedule_timeout_interruptible`, with the time that it leaves.
pub record Surroundings : Type 0 where
  pub notifier : Option Notifier
  pub freezing : Bool
  pub timers : Timers
  pub is_valid : Timespec → Bool
  pub to_jiffies : Timespec → ℕ
  pub sleep : ℕ → Process → Process × ℕ

-- MAX_SCHEDULE_TIMEOUT
abbrev pub max_timeout : ℕ
max_timeout = 2 ^ 63 - 1

-- The timeout of `do_sigtimedwait`; none for a bad one
abbrev pub timeout_of : Surroundings → Option Timespec → Option ℕ
timeout_of around none = some max_timeout
timeout_of around (some ts) =
    if not (around.is_valid ts)
    then none
    else some (
        if not (ts.tv_sec == 0) || not (ts.tv_nsec == 0)
        then around.to_jiffies ts + 1
        else around.to_jiffies ts)

abbrev pub look : Surroundings → Word → Process → Dequeued
look around mask p = dequeue_signal around.notifier mask around.freezing around.timers p

-- What is dequeued, or else whether time was left.
abbrev pub wait_reply : Dequeued → ℕ → Reply (ℕ × Siginfo)
wait_reply d timeout = elim d.taken [
  | some (sig, info) ↦ record { process = d.process; written = some (sig, info); value = pos sig }
  | none ↦ plain d.process (if timeout == 0 then eagain else eintr)
]

-- Before the sleep, the signals that are waited for are unblocked.
unfoldable pub fall_asleep : Surroundings → Word → Process → Process
fall_asleep around mask p = recalc_sigpending around.freezing (record p {
  self = record p.self { real_blocked = p.self.blocked; blocked = and_word p.self.blocked mask };
})

-- After it, the set is put back.
unfoldable pub wake_again : Surroundings → Process → Process
wake_again around p =
    let q = set_task_blocked around.freezing p.self.real_blocked p in
    record q { self = record q.self { real_blocked = no_bits } }

-- `do_sigtimedwait` from the sleep on
unfoldable pub wait_on : Surroundings → Word → ℕ → Process → Reply (ℕ × Siginfo)
wait_on around mask timeout p =
    let (q, left) = around.sleep timeout (fall_asleep around mask p) in
    wait_reply (look around mask (wake_again around q)) left

-- `do_sigtimedwait` behind its first look, by what that has found
abbrev pub wait_for :
    Surroundings → Word → ℕ → Dequeued → Option (ℕ × Siginfo) → Reply (ℕ × Siginfo)
wait_for around mask timeout d (some found) = wait_reply d timeout
wait_for around mask timeout d none =
    if timeout == 0 then wait_reply d timeout else wait_on around mask timeout d.process

abbrev pub wait_until : Surroundings → Word → Option ℕ → Process → Reply (ℕ × Siginfo)
wait_until around mask none p = plain p einval
wait_until around mask (some timeout) p =
    let d = look around mask p in wait_for around mask timeout d d.taken

-- `do_sigtimedwait`
unfoldable pub do_sigtimedwait :
    Surroundings → Word → Option Timespec → Process → Reply (ℕ × Siginfo)
do_sigtimedwait around which ts p =
    wait_until around (not_word (clear_mask which kernel_mask)) (timeout_of around ts) p

-- `rt_sigtimedwait` behind `do_sigtimedwait`
abbrev pub give_info : Dest → Reply (ℕ × Siginfo) → Reply Siginfo
give_info uinfo r = elim r.written [
  | none ↦ plain r.process r.value
  | some (sig, info) ↦ write_out r.process uinfo info r.value
]

abbrev pub with_time : Surroundings → Word → Dest → Source Timespec → Process → Reply Siginfo
with_time around these uinfo null_source p = give_info uinfo (do_sigtimedwait around these none p)
with_time around these uinfo unreadable p = plain p efault
with_time around these uinfo (holds ts) p =
    give_info uinfo (do_sigtimedwait around these (some ts) p)

abbrev pub with_set : Surroundings → Source Word → Dest → Source Timespec → Process → Reply Siginfo
with_set around (holds these) uinfo uts p = with_time around these uinfo uts p
with_set around _ uinfo uts p = plain p efault

-- `rt_sigtimedwait`
unfoldable pub rt_sigtimedwait :
    Surroundings → Source Word → Dest → Source Timespec → ℕ → Process → Reply Siginfo
rt_sigtimedwait around uthese uinfo uts sigsetsize p =
    if not (sigsetsize == sigset_size) then plain p einval else with_set around uthese uinfo uts p
