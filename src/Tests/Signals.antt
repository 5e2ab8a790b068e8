-- ===== src/Tests/Signals.antt =====
-- The theorems on signal.c and on the system calls at concrete inputs.
use linux_ker_dev.Prelude.{
  ℕ, ◌+◌, ◌-◌, ◌%◌, ◌^◌, ◌==◌, if◌then◌else◌, ◌≡◌, ◌≢◌, ◌≤◌, refl, inr, true, false, not, ◌&&◌, [],
  ◌∷◌, none, some, arith, any, All, pos, ℤ, is_nonzero, Word, no_bits, of_mask, has_bit, get_elem?,
  set,
}
use linux_ker_dev.Signal.Numbers.{sigcont, sigmask}
use linux_ker_dev.Signal.Types.{
  Info, siginfo, Sigpending, thread, send_sig_priv, KSigaction, send_sig_noinfo, Process, Users,
  sig_ign, sigismember,
}
use linux_ker_dev.Signal.Pending.{rm_from_queue, collect_signal}
use linux_ker_dev.Signal.Pending.Shape.{IsPending, IsLegacy, rm_from_queue_lem}
use linux_ker_dev.Signal.Pending.Collect.{Collected, collect_signal_lem}
use linux_ker_dev.Signal.Send.{wants_signal, complete_signal}
use linux_ker_dev.Signal.Send.GroupDown.{HasDied, complete_signal_group_down}
use linux_ker_dev.Signal.Enqueue.{
  enqueue, send_signal_ns, send_signal, force_sig_info, do_send_sig_info,
}
use linux_ker_dev.Signal.Enqueue.Exclusive.{Exclusive, send_signal_ns-Exclusive}
use linux_ker_dev.Signal.Enqueue.Forced.{force_sig_info_delivers}
use linux_ker_dev.Signal.Enqueue.Rules.{Balanced, EnqueueOutcome, enqueue_outcome}
use linux_ker_dev.Signal.Enqueue.Roundtrip.{enqueue_collects}
use linux_ker_dev.Signal.Enqueue.Counting.{do_send_sig_info_counts, sent_is_counted}
use linux_ker_dev.Signal.Dequeue.Blocked.{asked, IsCurrent, sigprocmask_lem}
use linux_ker_dev.Signal.Dequeue.{
  sig_block, other_how, sigprocmask, Timers, dequeue_signal, retarget_shared_pending,
}
use linux_ker_dev.Signal.Dequeue.Retarget.{will_take, retarget_shared_pending_lem}
use linux_ker_dev.Signal.Dequeue.Taken.{IsTaken, dequeue_signal_lem}
use linux_ker_dev.Signal.Actions.{do_sigaction}
use linux_ker_dev.Signal.Actions.Discard.{Gone, do_sigaction_discards}
use linux_ker_dev.Signal.Kill.{Sent, kill_pgrp_info}
use linux_ker_dev.Signal.Kill.Group.{refuses, kill_pgrp_info_probes}
use linux_ker_dev.Signal.Syscalls.{
  smunch, smunch_driver, smunch_kill, smunch_pend, unchanged, is_dead, asks_kill, get_sigcounter,
  init_sigcounter,
}
use linux_ker_dev.Signal.Syscalls.Effects.{
  IsMarked, HasJoined, ends_with, smunch_versions, init_sigcounter_overruns,
}
use linux_ker_dev.Tests.Groups.{
  from_kill, caller, target, sigint, two, nothing, task, users, pair, single, sender,
}

two-IsPending : IsPending two
two-IsPending = record {
  backed = (omega arith, refl, (omega arith, refl, tt));
  single = λ sig h. ground arith;
}

cont-IsLegacy : IsLegacy (sigmask sigcont)
cont-IsLegacy = λ b h. ground arith

rm_from_queue_lem_example :
    IsPending (rm_from_queue (sigmask sigcont) two users).0
    × ((sig : ℕ)
        → sigismember (rm_from_queue (sigmask sigcont) two users).0.signal sig
          ≡ (sigismember two.signal sig && not (has_bit (sigmask sigcont) (sig - 1))))
rm_from_queue_lem_example =
    rm_from_queue_lem (sigmask sigcont) two users cont-IsLegacy two-IsPending

collect_signal_lem_example : Collected 11 two (collect_signal 11 two users)
collect_signal_lem_example = collect_signal_lem 11 two users (omega arith) two-IsPending

-- The first thread blocks SIGINT, so that the search finds the other one.
abbrev half_blocked : Process
half_blocked = record pair { self = record (task two) { blocked = of_mask (1 ∷ []) } }

other_wants : wants_signal 2 (thread half_blocked 1) ≡ true
unfolding wants_signal
other_wants = refl

complete_signal_group_down_example : HasDied 2 (complete_signal 2 half_blocked true)
complete_signal_group_down_example =
    complete_signal_group_down 2 1 half_blocked (omega arith) (omega arith) other_wants
      (refl, refl, refl) ((refl, refl), ((refl, refl), tt))

pair-Exclusive : Exclusive pair
pair-Exclusive =
    inr (record {
      shared = λ b h. ground arith;
      own = λ b h. ground arith;
      others = (λ b h. refl, tt);
    })

send_signal_ns-Exclusive_example :
    Exclusive (send_signal_ns sender 20 send_sig_noinfo pair true false).0
send_signal_ns-Exclusive_example =
    send_signal_ns-Exclusive sender 20 send_sig_noinfo pair true false refl (omega arith)
      pair-Exclusive

abbrev other_charges : Users
other_charges u = if u == 0 then 1 else 3

two_charged : Balanced other_charges two.queue users
two_charged = λ u. ground arith

enqueue_outcome_example :
    EnqueueOutcome 15 send_sig_noinfo two other_charges
      (enqueue sender 15 send_sig_noinfo false (task two) two users)
enqueue_outcome_example =
    enqueue_outcome sender 15 send_sig_noinfo false two other_charges (omega arith) tt refl
      two-IsPending (task two) users two_charged

-- A record of SIGHUP, which is not among the signals that are pending
abbrev hangup : Info
hangup = siginfo (from_kill 1)

enqueue_collects_example :
    (q : Sigpending) × (charges : Users) × (enqueue sender 1 hangup false (task two) two users
      ≡ (some q, charges))
    × (collect_signal 1 q charges ≡ (two, from_kill 1, users))
enqueue_collects_example =
    enqueue_collects sender 1 hangup false (task two) two users refl refl refl (omega arith)
      two-IsPending refl

do_send_sig_info_counts_example :
    ((n : ℕ)
      → get_elem? (0 ∷ 5 ∷ 7 ∷ []) 2 ≡ some n
      → do_send_sig_info sender 2 send_sig_noinfo pair true
        ≡ some (
          record (send_signal sender 2 send_sig_noinfo pair true).0 {
            counters = set (0 ∷ 5 ∷ 7 ∷ []) 2 ((n + 1) % 2 ^ 32);
          },
          (send_signal sender 2 send_sig_noinfo pair true).1,
        ))
    × (3 ≤ 2 → do_send_sig_info sender 2 send_sig_noinfo pair true ≡ none)
do_send_sig_info_counts_example = do_send_sig_info_counts sender 2 send_sig_noinfo pair true refl

sent_is_counted_example :
    (q : Process) × (do_send_sig_info sender 2 send_sig_noinfo pair true
      ≡ some (q, (send_signal sender 2 send_sig_noinfo pair true).1))
    × (get_sigcounter q (pos 2) ≡ some (pos 8))
    × ((o : ℤ) → pos sigint ≢ o → get_sigcounter q o ≡ get_sigcounter pair o)
sent_is_counted_example =
    sent_is_counted sender 2 (pos 7) send_sig_noinfo pair true refl
      (unfold get_sigcounter linux_ker_dev.Signal.Syscalls.as_int in refl)

-- SIGSEGV is both blocked and ignored.
abbrev guarded : Process
guarded = record pair {
  self = record (task nothing) { blocked = of_mask (10 ∷ []) };
  action = λ i. record { sa_handler = sig_ign; sa_flags = 0; sa_mask = no_bits };
}

force_sig_info_delivers_example :
    (sigismember (force_sig_info sender 11 send_sig_priv guarded).0.self.pending.signal 11 ≡ true)
    × ((force_sig_info sender 11 send_sig_priv guarded).1 ≡ pos 0)
force_sig_info_delivers_example =
    force_sig_info_delivers sender 11 send_sig_priv guarded (omega arith) refl refl refl refl

other_valid : sig_block ≢ other_how
other_valid h = cc

sigprocmask_lem_example :
    IsCurrent
      (asked sig_block (of_mask (10 ∷ [])) no_bits)
      (sigprocmask false sig_block (of_mask (10 ∷ [])) pair).0
    × ((sigprocmask false sig_block (of_mask (10 ∷ [])) pair).1 ≡ no_bits)
    × ((sigprocmask false sig_block (of_mask (10 ∷ [])) pair).2 ≡ pos 0)
sigprocmask_lem_example = sigprocmask_lem sig_block (of_mask (10 ∷ [])) pair other_valid

abbrev timers : Timers
timers = record { is_queued = false; has_increment = true; sys_private = false }

dequeue_signal_lem_example :
    IsTaken no_bits pair (dequeue_signal none no_bits false timers pair).taken
dequeue_signal_lem_example = dequeue_signal_lem no_bits false timers pair

retarget_shared_pending_lem_example :
    any (will_take 17) (retarget_shared_pending pair (of_mask (17 ∷ []))).others ≡ true
retarget_shared_pending_lem_example =
    retarget_shared_pending_lem 17 pair (of_mask (17 ∷ [])) (omega arith) refl refl refl

abbrev ignoring : KSigaction
ignoring = record { sa_handler = sig_ign; sa_flags = 0; sa_mask = no_bits }

do_sigaction_discards_example :
    ((do_sigaction 2 (some ignoring) pair).2 ≡ pos 0)
    × Gone 2 (do_sigaction 2 (some ignoring) pair).0.signal.shared_pending
    × All
        (λ t. Gone 2 t.pending)
        ((do_sigaction 2 (some ignoring) pair).0.self
          ∷ (do_sigaction 2 (some ignoring) pair).0.others)
do_sigaction_discards_example =
    do_sigaction_discards 2 ignoring pair (omega arith) (omega arith) refl refl
      (omega arith, refl, tt) (two-IsPending.backed, (tt, tt))

kill_pgrp_info_probes_example :
    (r : Sent) × (value : ℤ) × (kill_pgrp_info 0 send_sig_noinfo caller
        (target 0 ∷ target 1000 ∷ [])
        users
      ≡ some (r, value))
    × (r.done ≡ pair ∷ pair ∷ [])
    × (is_nonzero value
        ≡ not (any (λ t. not (refuses 0 send_sig_noinfo caller t)) (target 0 ∷ target 1000 ∷ [])))
kill_pgrp_info_probes_example =
    kill_pgrp_info_probes send_sig_noinfo caller (target 0 ∷ target 1000 ∷ []) users

abbrev only_int : Word
only_int = of_mask (1 ∷ [])

smunch_versions_example :
    (is_dead single.self ≡ true
      → asks_kill only_int ≡ true
      → (smunch (some single) only_int
          ≡ record { process = some single; released = true; value = pos 0 })
        × (smunch_driver (some single) only_int
            ≡ record { process = some single; released = true; value = pos 0 }))
    × (is_dead single.self ≡ false
        → asks_kill only_int ≡ true
        → (q : Process) × (smunch (some single) only_int ≡ ends_with q)
          × (smunch_driver (some single) only_int ≡ ends_with q)
          × IsMarked single q)
    × (is_dead single.self ≡ false
        → asks_kill only_int ≡ false
        → (q : Process) × (smunch (some single) only_int ≡ ends_with q)
          × (smunch_driver (some single) only_int ≡ ends_with q)
          × HasJoined only_int single q)
    × (is_dead single.self ≡ true
        → asks_kill only_int ≡ false
        → ((q : Process) × (smunch (some single) only_int ≡ ends_with q)
            × HasJoined only_int single q)
          × (smunch_driver (some single) only_int ≡ ends_with single))
smunch_versions_example = smunch_versions single only_int refl refl

init_sigcounter_overruns_example : init_sigcounter single ≡ none
init_sigcounter_overruns_example = init_sigcounter_overruns single (omega arith)
