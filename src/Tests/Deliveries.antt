-- ===== src/Tests/Deliveries.antt =====
-- The theorems on group stops, on the system calls of signal.c and on delivery at concrete inputs.
use linux_ker_dev.Prelude.{
  ℕ, ◌≡◌, refl, true, false, List, [], ◌∷◌, none, some, arith, inl, inr, Word, no_bits, of_mask,
  get_or, test_mask, ◌==◌,
}
use linux_ker_dev.Signal.Numbers.{jobctl_stop_dequeued, signal_stop_stopped}
use linux_ker_dev.Signal.Types.{Task, Process}
use linux_ker_dev.Signal.Dequeue.{sig_block}
use linux_ker_dev.Signal.Stop.{do_signal_stop, slept}
use linux_ker_dev.Signal.Stop.Enlist.{consumes, idle-IsOrderly}
use linux_ker_dev.Signal.Stop.Count.{IsStopCounted, participants}
use linux_ker_dev.Signal.Stop.Steps.{
  turn, stop, Reach, here, further, turned, stop_count_lem, stop_reports_once,
}
use linux_ker_dev.Signal.Calls.{holds, Source, Dest, null_dest, writable, unreadable}
use linux_ker_dev.Signal.Calls.Mask.Unblockable.{
  IsStoppable, MaskCall, rt_procmask, suspend, set_whole_mask, made_all, mask_calls_lem,
}
use linux_ker_dev.Signal.Calls.Wait.{Surroundings, Timespec, do_sigtimedwait}
use linux_ker_dev.Signal.Calls.Wait.Restores.{IsRestored, do_sigtimedwait_restores}
use linux_ker_dev.Signal.Calls.Stack.{StackT, IsUsable, do_sigaltstack, do_sigaltstack_roundtrip}
use linux_ker_dev.Signal.Notify.{exit_status}
use linux_ker_dev.Signal.Notify.Status.{wait_status, exit_status_roundtrip}
use linux_ker_dev.Signal.Deliver.{Host}
use linux_ker_dev.Signal.Deliver.Loop.{rounds, loop_round}
use linux_ker_dev.Signal.Deliver.Loop.Ends.{HasEnded, rounds_end}
use linux_ker_dev.Signal.Deliver.Loop.Chosen.{IsFitting, round_fits}
use linux_ker_dev.Signal.Dequeue.Weight.{bits}
use linux_ker_dev.Tests.Groups.{nothing, task, signals, group_of, pair, sender}

-- A thread that takes part in no stop, and one that has dequeued a stop signal.
abbrev calm : Task
calm = record (task nothing) { jobctl = no_bits }

abbrev halting : Task
halting = record (task nothing) { jobctl = of_mask jobctl_stop_dequeued }

abbrev quiet : Process
quiet = record (group_of (calm ∷ [])) {
  signal = record signals { group_stop_count = 0 };
  self = halting;
}

quiet-IsStopCounted : IsStopCounted quiet
quiet-IsStopCounted = record {
  own = idle-IsOrderly halting refl (λ k. cc);
  others = (idle-IsOrderly calm refl (λ k. cc), tt);
  counted = refl;
}

-- The first thread stops by SIGTSTP, and the other one has its turn.
abbrev half_stopped : Process
half_stopped = (do_signal_stop 20 quiet).0

abbrev asked_thread : Task
asked_thread = get_or half_stopped.others 0 calm

abbrev other_turn : Process
other_turn = turned half_stopped asked_thread []

one_asked : half_stopped.others ≡ asked_thread ∷ []
unfolding do_signal_stop linux_ker_dev.Signal.Stop.join_stop linux_ker_dev.Signal.Stop.initiate_stop
    linux_ker_dev.Signal.Jobctl.task_set_jobctl_pending linux_ker_dev.Signal.Stop.enlist_others
one_asked = refl

quiet-reaches : Reach quiet other_turn
quiet-reaches =
    further quiet half_stopped other_turn
      (further quiet quiet half_stopped (here quiet) (stop quiet 20 refl))
      (turn half_stopped asked_thread [] one_asked)

stop_count_lem_example : IsStopCounted other_turn
stop_count_lem_example = stop_count_lem quiet other_turn quiet-reaches quiet-IsStopCounted

asked_facts :
    (other_turn.self.ptraced ≡ false)
    × (consumes other_turn.self ≡ true)
    × (test_mask other_turn.signal.flags signal_stop_stopped ≡ false)
unfolding do_signal_stop linux_ker_dev.Signal.Stop.join_stop linux_ker_dev.Signal.Stop.initiate_stop
    linux_ker_dev.Signal.Jobctl.task_set_jobctl_pending linux_ker_dev.Signal.Stop.enlist_others
    linux_ker_dev.Signal.Stop.enlist_other linux_ker_dev.Signal.Jobctl.task_participate_group_stop
    linux_ker_dev.Signal.Jobctl.task_clear_jobctl_pending
    linux_ker_dev.Signal.Jobctl.task_clear_jobctl_trapping linux_ker_dev.Signal.Stop.bits_from
asked_facts = (refl, refl, refl)

stop_reports_once_example :
    (do_signal_stop 0 other_turn).1 ≡ slept (participants other_turn.others == 0)
stop_reports_once_example =
    stop_reports_once quiet other_turn 0 quiet-IsStopCounted quiet-reaches asked_facts.0
      asked_facts.1 asked_facts.2

-- A thread asks to block everything, and then to wait with everything blocked.
abbrev everything : Word
everything i = true

abbrev block_calls : List MaskCall
block_calls =
    rt_procmask sig_block (holds everything) null_dest 8
    ∷ suspend (holds everything) 8
    ∷ set_whole_mask everything
    ∷ []

mask_calls_lem_example : IsStoppable (made_all false block_calls pair)
mask_calls_lem_example =
    mask_calls_lem false block_calls pair (record { blocked = (refl, refl); saved = (refl, refl) })

-- Nothing comes while the thread sleeps, and no time is left afterwards.
abbrev around : Surroundings
around = record {
  notifier = none;
  freezing = false;
  timers = record { is_queued = false; has_increment = false; sys_private = false };
  is_valid = λ ts. true;
  to_jiffies = λ ts. 4;
  sleep = λ timeout p. (p, 0);
}

abbrev ten_seconds : Timespec
ten_seconds = record { tv_sec = 10; tv_nsec = 0 }

do_sigtimedwait_restores_example :
    IsRestored no_bits (do_sigtimedwait around (of_mask (4 ∷ [])) (some ten_seconds) pair).process
do_sigtimedwait_restores_example =
    do_sigtimedwait_restores around (of_mask (4 ∷ [])) (some ten_seconds) pair (λ timeout p. refl)
      refl

abbrev big_stack : StackT
big_stack = record { ss_sp = 0x10000; ss_flags = 0; ss_size = 8192 }

abbrev no_stack : StackT
no_stack = record { ss_sp = 0; ss_flags = 2; ss_size = 0 }

abbrev away : ℕ
away = 0x80000

do_sigaltstack_roundtrip_example :
    (do_sigaltstack
      (holds no_stack)
      null_dest
      away
      (do_sigaltstack (holds big_stack) writable away pair).process).process
    ≡ pair
do_sigaltstack_roundtrip_example =
    do_sigaltstack_roundtrip pair big_stack no_stack writable null_dest away away (inl (refl, refl))
      (unfold do_sigaltstack linux_ker_dev.Signal.Calls.Stack.set_stack in refl)
      (unfold do_sigaltstack linux_ker_dev.Signal.Calls.Stack.set_stack in refl)

abbrev dumped_code : ℕ
dumped_code = 139

exit_status_roundtrip_example : wait_status (exit_status dumped_code) ≡ dumped_code
exit_status_roundtrip_example = exit_status_roundtrip dumped_code (inr (omega arith))

-- Nobody traces, and nothing happens while a lock is dropped.
abbrev host : Host
host = record {
  notifier = none;
  freezing = false;
  timers = record { is_queued = false; has_increment = false; sys_private = false };
  sender = sender;
  pid = 100;
  uid = 1000;
  event_stop = 128;
  arch_needed = false;
  arch_stop = λ p. p;
  core_shared = false;
  reparented = false;
  leader_reparented = false;
  parent_pid = 1;
  parent_uid = 0;
  tracing = λ p. p;
  edited = λ info. info;
  stopping = λ p. p;
  window = λ p. p;
  orphaned = false;
}

rounds_end_example : HasEnded (rounds host 7 pair [])
rounds_end_example = rounds_end host 7 pair [] (λ q. refl) refl (unfold bits in omega arith)

round_fits_example : IsFitting host pair (loop_round host pair).verdict
round_fits_example = round_fits host pair refl refl
