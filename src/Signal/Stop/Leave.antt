-- ===== src/Signal/Stop/Leave.antt =====
-- A thread that exits, SIGCONT and the death of the group keep the count of a group stop (signal.c,
-- `exit_signals`, `prepare_signal` and `complete_signal`).
use linux_ker_dev.Prelude.{
  ◌≡◌, refl, Bool, true, false, not, ◌||◌, List, [], ◌∷◌, arith, Word, test_mask, and_word,
  if-either, if-cases, Bool-cases, inl, inr, if◌then◌else◌, All,
}
use linux_ker_dev.Signal.Numbers.{sigkill, pf_exiting, jobctl_stop_pending, task_interruptible}
use linux_ker_dev.Signal.Types.{
  Task, Process, sigismember, is_group_exit, signal_wake_up, thread_group_empty,
}
use linux_ker_dev.Signal.Jobctl.{task_participate_group_stop}
use linux_ker_dev.Signal.Pending.{has_pending_signals, is_nonempty}
use linux_ker_dev.Signal.Dequeue.{retarget_threads, retarget_shared_pending}
use linux_ker_dev.Signal.Stop.{mark_exiting, leave_stop, exit_signals, not_word}
use linux_ker_dev.Signal.Stop.Enlist.{IsOrderly, idle-IsOrderly, consumes, woken_runs}
use linux_ker_dev.Signal.Stop.Count.{
  participants, IsCounted, IsStopCounted, participants-cons, parted-IsStopCounted,
}

-- A thread that is told to look for signals stays in order.
woken-IsOrderly : (t : Task) → IsOrderly t → IsOrderly (signal_wake_up t false)
woken-IsOrderly t o = record {
  kill_flagged = λ k. refl;
  flagged = λ c. refl;
  asked = o.asked;
  stays = o.stays;
  runs = λ c. woken_runs t.state task_interruptible (o.runs c);
  lives = o.lives;
}

-- Threads in order, with as many participants as others.
abbrev pub StillCounted : List Task → List Task → Type 0
StillCounted ts us = All IsOrderly us × (participants us ≡ participants ts)

cons-StillCounted :
    (t u : Task) (ts us : List Task)
    → IsOrderly u
    → consumes u ≡ consumes t
    → StillCounted ts us
    → StillCounted (t ∷ ts) (u ∷ us)
cons-StillCounted t u ts us o c s =
    ((o, s.0), rw c (omega (arith, s.1, participants-cons t us, participants-cons t ts)))

retarget_threads-StillCounted :
    (retarget : Word) (ts : List Task)
    → All IsOrderly ts
    → StillCounted ts (retarget_threads retarget ts)
unfolding retarget_threads
retarget_threads-StillCounted r [] a = (tt, refl)
retarget_threads-StillCounted r (t ∷ ts) a =
    let woken : Task = if t.tif_sigpending then t else signal_wake_up t false in
    let later = and_word r t.blocked in
    let skipped =
      cons-StillCounted t t ts (retarget_threads r ts) a.0 refl
        (retarget_threads-StillCounted r ts a.1) in
    let ready : IsOrderly woken =
      if-either IsOrderly t.tif_sigpending t (signal_wake_up t false) a.0 (woken-IsOrderly t a.0) in
    let same : consumes woken ≡ consumes t =
      if-either (λ u. consumes u ≡ consumes t) t.tif_sigpending t (signal_wake_up t false) refl
        refl in
    if-either (StillCounted (t ∷ ts)) (test_mask t.flags pf_exiting) (t ∷ retarget_threads r ts) _
      skipped
      (if-either (StillCounted (t ∷ ts)) (not (has_pending_signals r t.blocked))
        (t ∷ retarget_threads r ts) _ skipped
        (if-either (StillCounted (t ∷ ts)) (is_nonempty later) (woken ∷ retarget_threads later ts)
          (woken ∷ ts)
          (cons-StillCounted t woken ts (retarget_threads later ts) ready same
            (retarget_threads-StillCounted later ts a.1))
          (cons-StillCounted t woken ts ts ready same (a.1, refl))))

leave_stop-IsStopCounted :
    (q : Process)
    → (sigismember q.self.pending.signal sigkill ≡ true → q.self.tif_sigpending ≡ true)
    → (consumes q.self ≡ true → test_mask q.self.jobctl jobctl_stop_pending ≡ true)
    → All IsOrderly q.others
    → IsCounted q
    → IsStopCounted (leave_stop q).0
unfolding leave_stop
leave_stop-IsStopCounted q k asked a c =
    if-cases (λ (r : Process × Bool). IsStopCounted r.0)
      (test_mask q.self.jobctl jobctl_stop_pending) _ _
      (λ e. parted-IsStopCounted q (task_participate_group_stop q.self q.signal).0.state k a c)
      (λ e. record {
        own = idle-IsOrderly q.self (ground (arith, asked, e)) k;
        others = a;
        counted = c;
      })

-- `exit_signals` of a thread that is not the last of its group keeps the group counted.
pub exit_signals-IsStopCounted :
    (p : Process)
    → thread_group_empty p ≡ false
    → is_group_exit p.signal ≡ false
    → IsStopCounted p
    → IsStopCounted (exit_signals p).0
unfolding exit_signals retarget_shared_pending
exit_signals-IsStopCounted p more stays g =
    let q = mark_exiting p in
    let retarget = and_word p.signal.shared_pending.signal (not_word p.self.blocked) in
    let told = retarget_threads-StillCounted retarget p.others g.others in
    if-cases (λ (r : Process × Bool). IsStopCounted r.0)
      (thread_group_empty p || is_group_exit p.signal) _ _
      (λ e. absurd (ground (arith, more, stays, e)))
      (λ e.
        if-cases (λ (r : Process × Bool). IsStopCounted r.0) (not p.self.tif_sigpending) _ _
          (λ f. record {
            own = idle-IsOrderly q.self (ground (arith, g.own.flagged, f)) g.own.kill_flagged;
            others = g.others;
            counted = g.counted;
          })
          (λ f.
            if-either (λ r. IsStopCounted (leave_stop r).0) (is_nonempty retarget)
              (record q { others = retarget_threads retarget p.others }) q
              (leave_stop-IsStopCounted (record q { others = retarget_threads retarget p.others })
                g.own.kill_flagged g.own.asked told.0
                (omega (
                  arith,
                  g.counted,
                  told.1,
                  participants-cons p.self p.others,
                  participants-cons p.self (retarget_threads retarget p.others),
                )))
              (leave_stop-IsStopCounted q g.own.kill_flagged g.own.asked g.others g.counted)))

quiet_exit :
    (p : Process)
    → (thread_group_empty p || is_group_exit p.signal) ≡ true
    → consumes p.self ≡ false
    → IsStopCounted p
    → IsStopCounted (exit_signals p).0
unfolding exit_signals
quiet_exit p e idle g = rw e (record {
  own = idle-IsOrderly (mark_exiting p).self idle g.own.kill_flagged;
  others = g.others;
  counted = g.counted;
})

-- So does that of a thread that takes part in no stop, also the last one or in a group that exits.
pub exit_signals-idle :
    (p : Process) → consumes p.self ≡ false → IsStopCounted p → IsStopCounted (exit_signals p).0
exit_signals-idle p idle g = elim (Bool-cases (thread_group_empty p || is_group_exit p.signal)) [
  | inl e ↦ quiet_exit p e idle g
  | inr e ↦ exit_signals-IsStopCounted p (ground (arith, e)) (ground (arith, e)) g
]
