-- ===== src/Signal/Deliver.antt =====
-- Taking a signal for delivery (signal.c, lines 2156-2334): the calls that are in no file of the
-- repository, and what others do while the thread sleeps or has dropped its lock, are a parameter.
pub mod Trap
pub mod Loop
use linux_ker_dev.Prelude.{ℕ, Bool, Option}
use linux_ker_dev.Signal.Types.{Siginfo, Process}
use linux_ker_dev.Signal.Dequeue.{Notifier, Timers}
use linux_ker_dev.Signal.Enqueue.{Sender}

-- What the code asks, and what happens around it: the notifier of a driver, `freezing`, the timers,
-- the thread as its own sender with its process number, PTRACE_EVENT_STOP,
-- `arch_ptrace_stop_needed` and `arch_ptrace_stop`, whether the tracer shares the memory that is
-- being dumped, `ptrace_reparented` of the thread and of its leader, the parent's number and user,
-- what happens in a trap, what the tracer makes of the record there, what happens in a stop and in the window around `is_current_pgrp_orphaned`, and the
-- answer of this.
pub record Host : Type 0 where
  pub notifier : Option Notifier
  pub freezing : Bool
  pub timers : Timers
  pub sender : Sender
  pub pid : ℕ
  pub uid : ℕ
  pub event_stop : ℕ
  pub arch_needed : Bool
  pub arch_stop : Process → Process
  pub core_shared : Bool
  pub reparented : Bool
  pub leader_reparented : Bool
  pub parent_pid : ℕ
  pub parent_uid : ℕ
  pub tracing : Process → Process
  pub edited : Siginfo → Siginfo
  pub stopping : Process → Process
  pub window : Process → Process
  pub orphaned : Bool
