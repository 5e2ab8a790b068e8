-- ===== src/Signal/Deliver/Loop.antt =====
-- `get_signal_to_deliver` (signal.c, lines 2156-2334).
pub mod Ends
pub mod Chosen
use linux_ker_dev.Prelude.{
  ℕ, zero, suc, ◌-◌, Bool, true, false, not, ◌||◌, ◌&&◌, List, [], ◌∷◌, ◌++◌, Option, none, some, ℤ,
  Mask, update, test_mask, set_mask, clear_mask, ◌==◌, if◌then◌else◌, ◌/◌, ◌^◌, ◌%◌,
}
use linux_ker_dev.Signal.Numbers.{
  sigkill, sigstop, sig_kernel_stop, sig_kernel_ignore, sig_kernel_coredump, signal_cld_stopped,
  signal_cld_continued, signal_unkillable, jobctl_stop_pending, pf_signaled, cld_continued,
  cld_stopped,
}
use linux_ker_dev.Signal.Types.{Siginfo, KSigaction, sig_dfl, Process}
use linux_ker_dev.Signal.Send.{is_sig_dfl, is_sig_ign}
use linux_ker_dev.Signal.Dequeue.{Dequeued, dequeue_signal}
use linux_ker_dev.Signal.Actions.{sig_kernel_only}
use linux_ker_dev.Signal.Stop.{StopReply, not_stopped, slept, do_signal_stop}
use linux_ker_dev.Signal.Deliver.{Host}
use linux_ker_dev.Signal.Deliver.Trap.{Notice, do_jobctl_trap, ptrace_signal}

-- JOBCTL_TRAP_MASK and SIGNAL_CLD_MASK
abbrev pub jobctl_trap_mask : Mask
jobctl_trap_mask = 19 ∷ 20 ∷ []

abbrev pub signal_cld_mask : Mask
signal_cld_mask = signal_cld_stopped ++ signal_cld_continued

-- How a round of the loop ends: with `continue`; with `goto relock`; with no signal; with a signal
-- for a handler; with the death of the group by a signal, with the code for `do_group_exit` and
-- whether a core is dumped.
pub data Verdict : Type 0 where
  again relock nothing : Verdict
  run_handler : ℕ → Siginfo → KSigaction → Verdict
  group_exit : ℕ → ℕ → Bool → Verdict

pub record Round : Type 0 where
  pub process : Process
  pub notices : List Notice
  pub verdict : Verdict

abbrev pub round : Process → List Notice → Verdict → Round
round p notices verdict = record { process = p; notices = notices; verdict = verdict }

-- SA_ONESHOT
abbrev pub is_oneshot : KSigaction → Bool
is_oneshot ka = ka.sa_flags / 2 ^ 31 % 2 == 1

-- What the round does with the answer of `do_signal_stop`.
abbrev pub after_stop : Host → List Notice → Verdict → Process × StopReply → Round
after_stop host notices v (p, not_stopped) = round p notices v
after_stop host notices v (p, slept notify) =
    round (host.stopping p) (notices ++ (if notify then (false, cld_stopped) ∷ [] else [])) relock

-- The default action of a stop signal
unfoldable pub stop_by : Host → List Notice → ℕ → Siginfo → Process → Round
stop_by host notices signr info p =
    if not (signr == sigstop)
    then if host.orphaned
      then round (host.window p) notices relock
      else after_stop host notices again (do_signal_stop info.si_signo (host.window p))
    else after_stop host notices again (do_signal_stop info.si_signo p)

-- The default action
unfoldable pub default_action : Host → List Notice → ℕ → Siginfo → Process → Round
default_action host notices signr info p =
    if sig_kernel_ignore signr
    then round p notices again
    else if test_mask p.signal.flags signal_unkillable && not (sig_kernel_only signr)
    then round p notices again
    else if sig_kernel_stop signr
    then stop_by host notices signr info p
    else round (record p { self = record p.self { flags = set_mask p.self.flags pf_signaled } })
        notices (group_exit signr info.si_signo (sig_kernel_coredump signr))

-- A handler is run.
abbrev pub hand_over : List Notice → ℕ → Siginfo → Process → Round
hand_over notices signr info p =
    let ka = p.action (signr - 1) in
    round
      (if is_oneshot ka
        then record p { action = update p.action (signr - 1) (record ka { sa_handler = sig_dfl }) }
        else p)
      notices (run_handler signr info ka)

-- The round from the look at the action on
unfoldable pub act_on : Host → List Notice → ℕ → Siginfo → Process → Round
act_on host notices signr info p =
    let ka = p.action (signr - 1) in
    if is_sig_ign ka.sa_handler
    then round p notices again
    else if not (is_sig_dfl ka.sa_handler)
    then hand_over notices signr info p
    else default_action host notices signr info p

-- The round behind the tracer's look at the signal
abbrev pub act_unless : Host → (Process × ℕ × Siginfo) × List Notice → Round
act_unless host ((p, signr, info), notices) =
    if signr == 0 then round p notices again else act_on host notices signr info p

-- The round with a signal at hand
unfoldable pub take_signal : Host → ℕ → Siginfo → Process → Round
take_signal host signr info p =
    if p.self.ptraced && not (signr == sigkill)
    then act_unless host (ptrace_signal host signr info p)
    else act_on host [] signr info p

abbrev pub dequeue_next : Host → Process → Dequeued
dequeue_next host p = dequeue_signal host.notifier p.self.blocked host.freezing host.timers p

abbrev pub with_taken : Host → Process → Option (ℕ × Siginfo) → Round
with_taken host p none = round p [] nothing
with_taken host p (some (signr, info)) = take_signal host signr info p

-- The round from the test for a trap on
unfoldable pub look_for_signal : Host → Process → Round
look_for_signal host p =
    if test_mask p.self.jobctl jobctl_trap_mask
    then (let (q, notices) = do_jobctl_trap host p in round q notices relock)
    else (let d = dequeue_next host p in with_taken host d.process d.taken)

-- What follows the answer of `do_signal_stop(0)`
abbrev pub unless_slept : Host → Process × StopReply → Round
unless_slept host (p, not_stopped) = look_for_signal host p
unless_slept host (p, slept notify) = after_stop host [] relock (p, slept notify)

-- One round of the loop
unfoldable pub loop_round : Host → Process → Round
loop_round host p =
    if test_mask p.self.jobctl jobctl_stop_pending
    then unless_slept host (do_signal_stop 0 p)
    else look_for_signal host p

-- The report at `relock` of a group that was continued or has stopped, if there is one to make
unfoldable pub take_report : Process → Option (Process × ℤ)
take_report p =
    if test_mask p.signal.flags signal_cld_mask
    then some (
      record p { signal = record p.signal { flags = clear_mask p.signal.flags signal_cld_mask } },
      if test_mask p.signal.flags signal_cld_continued then cld_continued else cld_stopped,
    )
    else none

-- The rounds up to one that does not end with `continue`, by fuel
unfoldable pub rounds : Host → ℕ → Process → List Notice → Option Round
rounds host zero p notices = none
rounds host (suc fuel) p notices =
    let r = loop_round host p in
    elim r.verdict [
      | again ↦ rounds host fuel r.process (notices ++ r.notices)
      | _ ↦ some (round r.process (notices ++ r.notices) r.verdict)
    ]

-- The notices of a report
abbrev pub report_notices : Host → ℤ → List Notice
report_notices host why = (false, why) ∷ (if host.leader_reparented then (true, why) ∷ [] else [])

-- `get_signal_to_deliver`, by fuel for the turns through `relock` and for the rounds of each
unfoldable pub get_signal_to_deliver : Host → ℕ → ℕ → Process → List Notice → Option Round
get_signal_to_deliver host zero fuel p notices = none
get_signal_to_deliver host (suc turns) fuel p notices = elim (take_report p) [
  | some (q, why) ↦ get_signal_to_deliver host turns fuel q (notices ++ report_notices host why)
  | none ↦ elim (rounds host fuel p notices) [
    | none ↦ none
    | some r ↦ elim r.verdict [
      | relock ↦ get_signal_to_deliver host turns fuel r.process r.notices
      | _ ↦ some r
    ]
  ]
]
