-- ===== src/Lib.antt =====
-- Two parts of linuxKerDev, a collection of kernel work, as definitions that compute, with the
-- theorems that make them correct.
--
-- The driver of the kyouko2 graphics card (linuxKerDev/graphicDriver/dmaBuffer). A process maps the
-- card's registers and eight DMA buffers (`open`, `mmap`, the `ioctl` BIND_DMA), fills a buffer and
-- submits it (START_DMA); the driver keeps the submitted buffers on a ring, gives the oldest to
-- the card, and the card's interrupt takes it off and starts the next.
--   Kyouko/Regs    regdmaBuffer.h and macrodmaBuffer.h: register offsets, BUFFERS
--   Kyouko/Device  the structure p_kyouko2_device with `fill`, `drain` and `size`, and K_READ_REG,
--                  K_WRITE_REG and `sync`
--   Kyouko/Sync    the wait of `sync` for the card's own queue to run empty
--   Kyouko/Ring    `initiateTransfer` and `dma_interrupt`; below it Spec, the ring as a queue of
--                  byte counts; Queue, Retire and Contract, each operation against that queue;
--                  System, one process and the card in every order of their steps; Races, two
--                  ways in which the sleep of `initiateTransfer` goes wrong
--   Kyouko/Ioctl   `kyouko2_ioctl` with `graphicsOn`
--   Kyouko/Files   `kyouko2_open`, `kyouko2_release`, `kyouko2_mmap`
--   Kyouko/Load    `dmaBuffer_init`, `dmaBuffer_exit`, `kyouko2_probe`
--   Kyouko/Second  driver.c, a second driver of the card beside dmaBuffer.c: its ring and `ioctl`;
--                  below it Files, its files and its loading, and Agrees, the two rings
--   Kyouko/Triangle  drawLineTriangle.c, the driver without DMA (graphicDriver/drawLineTriangle)
--   Kyouko/Contact contactWithGraphicCard.c, which only maps the registers, and launchModule.c
--
-- The signals of the kernel (linuxKerDev/syscallSignals). signal.c is the kernel's, with a table of
-- counters added to `struct sighand_struct` (sched.h) and to `do_send_sig_info`; RW holds the
-- system calls that read and clear that table, and `smunch`, which sends a set of signals.
--   Signal/Numbers, Signal/Types  signal numbers, flags, and the parts of task_struct,
--                  signal_struct, sighand_struct and user_struct that the code works on
--   Signal/Jobctl  the flags of job control; GroupStop, who completes a group stop
--   Signal/Pending sets of pending signals with their queues: `next_signal`, `collect_signal`,
--                  `rm_from_queue` and the flushes
--   Signal/Send    `sig_ignored`, `prepare_signal`, `complete_signal`
--   Signal/Enqueue `__send_signal`, `do_send_sig_info`, `force_sig_info`, `zap_other_threads`;
--                  Records and Posting, what sending keeps of the queued records;
--                  Roundtrip, a record queued and collected again
--   Signal/Dequeue `dequeue_signal`, `retarget_shared_pending`, `sigprocmask`
--   Signal/Actions `flush_signals`, `ignore_signals`, `flush_signal_handlers`, `do_sigaction`
--   Signal/Kill    `check_kill_permission` and the functions that send to processes and groups;
--                  Kernel, those by which the kernel itself sends
--   Signal/Stop    `do_signal_stop` and `exit_signals`; Steps, the threads of a group under stops
--   Signal/Notify  `do_notify_parent` and `do_notify_parent_cldstop`
--   Signal/Deliver `get_signal_to_deliver` (Loop) and the traps for a tracer (Trap)
--   Signal/Calls   the system calls on masks and actions (Mask), on waiting (Wait), that send
--                  (Send; below it Genuine, whom a queued record names as its sender), and on the
--                  alternate stack (Stack)
--   Signal/Syscalls  `smunch` in both versions, `get_sigcounter`, `init_sigcounter`, `goober`
--
-- Prelude holds the Boolean tests, lists and words that both parts use, and Tests the theorems at
-- concrete inputs.
--
-- How the code is read. An array of the driver is a function of its index; an unsigned int that is
-- stored in a register is taken modulo 2 ^ 32. What the card answers is a list for each register,
-- and what the driver does outside is a log. A function of the driver ends with its value, with
-- an access through a mapping that is gone, or with a wait for the card that does not end.
-- `initiateTransfer` is cut where it sleeps, so that interrupts can come in between. A
-- set of signals is one word of 64 bits (_NSIG_WORDS is 1), as a function from the place of a bit;
-- a mask is the list of its bits. The numbers of the signals and the sets of their default actions,
-- which the code takes from the kernel's headers, are those of signal(7) for x86-64. A thread group
-- is seen from the thread that a call is given: `self`, then the others in the order of the ring.
-- A thread that `wake_up_state` finds in a state of its mask runs again, as the scheduler promises.
-- What the code asks of the rest of the kernel (addresses, credentials, whether memory is there,
-- whether a task is freezing) is an argument.
--
-- Where signal.c sleeps or drops its lock (`do_signal_stop`, `ptrace_stop`, `do_sigtimedwait`, the
-- window around `is_current_pgrp_orphaned`), what others do meanwhile is a function of the model's
-- surroundings, or the model ends there with the answer; a pointer of a process is null, bad, or
-- what it points to.
--
-- Bounds. `sync_rounds` runs once more than there are answers left, and every round takes one,
-- so it never stops for want of rounds. `find_target` looks as often as there are threads, which
-- is once around the ring. The rounds of `get_signal_to_deliver` run by fuel; for an untraced
-- thread as much as it has signals pending, and one more, is enough. Its turns through `relock` have
-- fuel of their own: how many there are depends on others. Loops over buffers, actions and counters
-- run by the rounds that the source gives them.
--
-- Not modelled: locks and RCU, which the cut of `initiateTransfer` and the steps of System stand
-- for; reference counts, tracing, audit records, signalfd and printk; BUG_ON and WARN_ON; CPU times.
-- Of signal.c the preallocated queue entries, `restart_syscall`, `pause` and `copy_siginfo_to_user`
-- are left out, and `deepsleep`, which only calls `sleep_on`. dataTypes.h, which driver.c includes,
-- is not in the repository: its constants are a parameter.
pub mod Prelude
pub mod Kyouko
pub mod Signal
pub mod Tests
