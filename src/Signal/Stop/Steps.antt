-- ===== src/Signal/Stop/Steps.antt =====
-- A thread group under group stops: the runs of its threads through the stop code of signal.c.
use linux_ker_dev.Prelude.{
  ℕ, ◌+◌, ◌-◌, ◌≡◌, refl, Bool, true, false, not, List, [], ◌∷◌, ◌++◌, inl, inr, arith, test_mask,
  Bool-cases, count_if-append, if-cases, ap, subst, All, ◌==◌,
}
use linux_ker_dev.Signal.Numbers.{sigcont, signal_stop_stopped}
use linux_ker_dev.Signal.Types.{Task, Process, is_group_exit, thread_group_empty, thread}
use linux_ker_dev.Signal.Jobctl.{task_participate_group_stop}
use linux_ker_dev.Signal.Send.{prepare_effects, takes_group_down, wake_target}
use linux_ker_dev.Signal.Stop.{StopReply, slept, do_signal_stop, join_stop, exit_signals}
use linux_ker_dev.Signal.Stop.Enlist.{IsOrderly, consumes, share}
use linux_ker_dev.Signal.Stop.Count.{
  participants, participants-cons, IsCounted, IsStopCounted, stop-IsStopCounted,
}
use linux_ker_dev.Signal.Stop.Leave.{exit_signals-IsStopCounted, exit_signals-idle}
use linux_ker_dev.Signal.Stop.Cancel.{continue-IsStopCounted, kill-IsStopCounted}

-- The next thread of the ring is the one at hand.
abbrev pub turned : Process → Task → List Task → Process
turned p t ts = record p { self = t; others = ts ++ p.self ∷ [] }

-- What can happen to a group: another thread is at hand; an untraced thread runs `do_signal_stop`; a
-- thread that is not the last one exits while the group does not; a thread that takes part in no
-- stop exits, at any time; SIGCONT is generated; a signal takes the group down.
pub data Step : Process → Process → Type 0 where
  turn : (p : Process) (t : Task) (ts : List Task) → p.others ≡ t ∷ ts → Step p (turned p t ts)
  stop : (p : Process) (signr : ℕ) → p.self.ptraced ≡ false → Step p (do_signal_stop signr p).0
  leave :
      (p : Process)
      → thread_group_empty p ≡ false
      → is_group_exit p.signal ≡ false
      → Step p (exit_signals p).0
  leave_idle : (p : Process) → consumes p.self ≡ false → Step p (exit_signals p).0
  continue : (p : Process) → Step p (prepare_effects sigcont p)
  kill :
      (p : Process) (sig i : ℕ)
      → takes_group_down sig p (thread p i) ≡ true
      → Step p (wake_target sig i p)

pub data Reach : Process → Process → Type 0 where
  here : (p : Process) → Reach p p
  further : (p q r : Process) → Reach p q → Step q r → Reach p r

All-snoc :
    (ts : List Task) (u : Task) → All IsOrderly ts → IsOrderly u → All IsOrderly (ts ++ u ∷ [])
All-snoc [] u a h = (h, tt)
All-snoc (t ∷ ts) u a h = (a.0, All-snoc ts u a.1 h)

turned-IsStopCounted :
    (p : Process) (t : Task) (ts : List Task)
    → p.others ≡ t ∷ ts
    → IsStopCounted p
    → IsStopCounted (turned p t ts)
turned-IsStopCounted p t ts e g =
    let others : All IsOrderly (t ∷ ts) = subst (All IsOrderly) e g.others in
    let count : p.signal.group_stop_count ≡ share p.self + participants (t ∷ ts) =
      subst (λ os. p.signal.group_stop_count ≡ share p.self + participants os) e
        (omega (arith, g.counted, participants-cons p.self p.others)) in
    record {
      own = others.0;
      others = All-snoc ts p.self others.1 g.own;
      counted = omega (
        arith,
        count,
        participants-cons t ts,
        participants-cons t (ts ++ p.self ∷ []),
        count_if-append consumes ts (p.self ∷ []),
        participants-cons p.self [],
      );
    }

advance_keeps : (p q : Process) → Step p q → IsStopCounted p → IsStopCounted q
advance_keeps _ _ (turn p t ts e) g = turned-IsStopCounted p t ts e g
advance_keeps _ _ (stop p signr u) g = stop-IsStopCounted signr p u g
advance_keeps _ _ (leave p more stays) g = exit_signals-IsStopCounted p more stays g
advance_keeps _ _ (leave_idle p idle) g = exit_signals-idle p idle g
advance_keeps _ _ (continue p) g = continue-IsStopCounted p g
advance_keeps _ _ (kill p sig i e) g = kill-IsStopCounted sig i p e

-- From a group whose threads are in order and whose count of a stop is the number of the threads
-- that still take part in it, every group is counted in the same way, with its threads in order,
-- that can be reached by untraced threads running `do_signal_stop`, by threads other than the last
-- exiting while the group is not flagged to exit, and by threads that take part in no stop exiting
-- at any time, in any order of the threads, with SIGCONT generated and signals taking the group
-- down in between.
pub stop_count_lem : (p q : Process) → Reach p q → IsStopCounted p → IsStopCounted q
stop_count_lem _ _ (here p) g = g
stop_count_lem _ _ (further p q r reach step) g =
    advance_keeps q r step (stop_count_lem p q reach g)

-- The reply of `task_participate_group_stop` to a thread that takes part.
participate-last :
    (p : Process)
    → consumes p.self ≡ true
    → test_mask p.signal.flags signal_stop_stopped ≡ false
    → IsCounted p
    → (task_participate_group_stop p.self p.signal).2 ≡ (participants p.others == 0)
unfolding task_participate_group_stop
participate-last p c f h =
    let one : share p.self ≡ 1 = rw c refl in
    let count : p.signal.group_stop_count - 1 ≡ participants p.others =
      omega (arith, h, one, participants-cons p.self p.others) in
    rw (c, f, count)
      (elim (Bool-cases (participants p.others == 0)) [ inl e ↦ rw e refl | inr e ↦ rw e refl ])

join-last :
    (p : Process) (last : Bool)
    → p.self.ptraced ≡ false
    → (task_participate_group_stop p.self p.signal).2 ≡ last
    → (join_stop p).1 ≡ slept last
unfolding join_stop
join-last p last u told =
    if-cases (λ (r : Process × StopReply). r.1 ≡ slept last) (not p.self.ptraced) _ _
      (λ e. ap slept told) (λ e. absurd (ground (arith, u, e)))

-- In a group that is reached in such a way, an untraced thread that takes part in a stop, of a
-- group that is not marked as stopped, goes to sleep in `do_signal_stop`, and reports the stop to
-- the parent exactly if no other thread takes part in it any more.
pub stop_reports_once :
    (p q : Process) (signr : ℕ)
    → IsStopCounted p
    → Reach p q
    → q.self.ptraced ≡ false
    → consumes q.self ≡ true
    → test_mask q.signal.flags signal_stop_stopped ≡ false
    → (do_signal_stop signr q).1 ≡ slept (participants q.others == 0)
unfolding do_signal_stop
stop_reports_once p q signr g reach u c f =
    let h = stop_count_lem p q reach g in
    let told = participate-last q c f h.counted in
    rw (h.own.asked c) (join-last q (participants q.others == 0) u told)
