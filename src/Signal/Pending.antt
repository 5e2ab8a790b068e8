-- ===== src/Signal/Pending.antt =====
-- Sets of pending signals with their queues (signal.c, lines 97-121, 160-208, 387-406, 427-448,
-- 538-573 and 705-745).
pub mod Choice
pub mod Shape
pub mod Collect
use linux_ker_dev.Prelude.{
  ℕ, zero, suc, ◌-◌, ◌+◌, Bool, true, false, not, ◌||◌, ◌&&◌, List, [], ◌∷◌, ◌++◌, Option, none,
  some, Word, Mask, no_bits, of_mask, test_mask, clear_mask, keep_mask, or_word, and_word,
  and_not_word, has_bit, lowest_bit_from, update, ltb, ◌==◌, if◌then◌else◌, ℤ,
}
use linux_ker_dev.Signal.Numbers.{nsig, sigrtmin, sigmask, synchronous_mask, si_user, si_timer}
use linux_ker_dev.Signal.Types.{
  Siginfo, Sigqueue, Sigpending, Users, sigismember, sigaddset, sigdelset,
}

-- The lowest bit of a word of 64 bits.
abbrev pub lowest_bit : Word → Option ℕ
lowest_bit w = lowest_bit_from w 0 nsig

abbrev pub is_nonempty : Word → Bool
is_nonempty w = elim (lowest_bit w) [ none ↦ false | some b ↦ true ]

-- `has_pending_signals`, at the one word that a set has
unfoldable pub has_pending_signals : Word → Word → Bool
has_pending_signals signal blocked = is_nonempty (and_not_word signal blocked)

-- `ffz(~x) + 1`
abbrev pub first_signal : Word → ℕ
first_signal w = elim (lowest_bit w) [ none ↦ 0 | some b ↦ suc b ]

-- `next_signal`, at the one word that a set has
unfoldable pub next_signal : Sigpending → Word → ℕ
next_signal pending mask =
    let x = and_not_word pending.signal mask in
    if is_nonempty x
    then first_signal (if test_mask x synchronous_mask then keep_mask x synchronous_mask else x)
    else 0

-- `__sigqueue_free`
unfoldable pub sigqueue_free : Sigqueue → Users → Users
sigqueue_free q users = if q.prealloc then users else update users q.user (users q.user - 1)

unfoldable pub free_all : List Sigqueue → Users → Users
free_all [] users = users
free_all (q ∷ qs) users = free_all qs (sigqueue_free q users)

-- `flush_sigqueue`
unfoldable pub flush_sigqueue : Sigpending → Users → Sigpending × Users
unfolding free_all sigqueue_free
flush_sigqueue s users = (record { signal = no_bits; queue = [] }, free_all s.queue users)

abbrev pub is_entry_of : ℕ → Sigqueue → Bool
is_entry_of sig q = q.info.si_signo == sig

-- The first entry for a signal, and the queue without it.
unfoldable pub take_first : ℕ → List Sigqueue → Option (Sigqueue × List Sigqueue)
take_first sig [] = none
take_first sig (q ∷ qs) =
    let later = take_first sig qs in
    if is_entry_of sig q
    then some (q, qs)
    else elim later [ none ↦ none | some (r, rest) ↦ some (r, q ∷ rest) ]

unfoldable pub has_entry : ℕ → List Sigqueue → Bool
has_entry sig [] = false
has_entry sig (q ∷ qs) = is_entry_of sig q || has_entry sig qs

-- The record that stands for a signal without an entry.
abbrev pub bare_info : ℕ → Siginfo
bare_info sig = record {
  si_signo = sig;
  si_errno = 0;
  si_code = si_user;
  si_pid = 0;
  si_uid = 0;
  si_status = 0;
}

-- `collect_signal`
unfoldable pub collect_signal : ℕ → Sigpending → Users → Sigpending × Siginfo × Users
unfolding take_first has_entry sigqueue_free
collect_signal sig s users = elim (take_first sig s.queue) [
  | none ↦ (record s { signal = sigdelset s.signal sig }, bare_info sig, users)
  | some (q, rest) ↦ (
    record {
      signal = if has_entry sig rest then s.signal else sigdelset s.signal sig;
      queue = rest;
    },
    q.info,
    sigqueue_free q users,
  )
]

-- The entries that `rm_from_queue` takes off, and those that it leaves.
abbrev pub is_removed : Mask → Sigqueue → Bool
is_removed mask q = ltb q.info.si_signo sigrtmin && has_bit mask (q.info.si_signo - 1)

unfoldable pub kept : (Sigqueue → Bool) → List Sigqueue → List Sigqueue
kept out [] = []
kept out (q ∷ qs) = let rest = kept out qs in if out q then rest else q ∷ rest

unfoldable pub freed : (Sigqueue → Bool) → List Sigqueue → Users → Users
unfolding sigqueue_free
freed out [] users = users
freed out (q ∷ qs) users = freed out qs (if out q then sigqueue_free q users else users)

-- `rm_from_queue`, whose value no caller in the model reads
unfoldable pub rm_from_queue : Mask → Sigpending → Users → Sigpending × Users
unfolding kept freed
rm_from_queue mask s users =
    if test_mask s.signal mask
    then (
      record { signal = clear_mask s.signal mask; queue = kept (is_removed mask) s.queue },
      freed (is_removed mask) s.queue users,
    )
    else (s, users)

-- `rm_from_queue_full`
unfoldable pub rm_from_queue_full : Word → Sigpending → Users → Sigpending × Users × Bool
unfolding kept freed
rm_from_queue_full mask s users =
    if is_nonempty (and_word mask s.signal)
    then (
      record {
        signal = and_not_word s.signal mask;
        queue = kept (λ q. sigismember mask q.info.si_signo) s.queue;
      },
      freed (λ q. sigismember mask q.info.si_signo) s.queue users,
      true,
    )
    else (s, users, false)

abbrev pub is_timer : ℤ → Bool
is_timer (ℤ.pos n) = n == 0x1FFFE
is_timer _ = false

-- The two sets of `__flush_itimer_signals` after its pass over the queue.
unfoldable pub itimer_sets : List Sigqueue → Word × Word → Word × Word
itimer_sets [] (signal, retain) = (signal, retain)
itimer_sets (q ∷ qs) (signal, retain) = itimer_sets qs (
    if is_timer q.info.si_code
    then (sigdelset signal q.info.si_signo, retain)
    else (signal, sigaddset retain q.info.si_signo))

-- `__flush_itimer_signals`
unfoldable pub flush_itimer_pending : Sigpending → Users → Sigpending × Users
unfolding itimer_sets kept freed
flush_itimer_pending s users =
    let (signal, retain) = itimer_sets s.queue (s.signal, no_bits) in
    (
      record {
        signal = or_word signal retain;
        queue = kept (λ q. is_timer q.info.si_code) s.queue;
      },
      freed (λ q. is_timer q.info.si_code) s.queue users,
    )
