-- ===== src/Signal/Stop/Count.antt =====
-- The count of a group stop is the number of the threads that still take part in it (signal.c,
-- `do_signal_stop`, `exit_signals` and `task_participate_group_stop`).
use linux_ker_dev.Prelude.{
  ℕ, ◌+◌, ◌-◌, ◌≡◌, refl, sym, ap, Bool, true, false, not, ◌||◌, ◌&&◌, List, [], ◌∷◌, inl, inr,
  arith, Word, test_mask, clear_mask, of_mask, Bool-cases, if-either, if-cases, count_if, All, ◌==◌,
}
use linux_ker_dev.Signal.Numbers.{
  sigkill, pf_exiting, jobctl_stop_pending, signal_stop_stopped, jobctl_stop_dequeued,
  jobctl_pending_mask, task_stopped,
}
use linux_ker_dev.Signal.Types.{
  Task, SignalStruct, Process, sigismember, fatal_signal_pending, is_group_exit,
}
use linux_ker_dev.Signal.Jobctl.{
  masks_meet, task_participate_group_stop, task_clear_jobctl_pending, task_clear_jobctl_trapping,
}
use linux_ker_dev.Signal.Jobctl.Clear.{SameBut, clear-SameBut}
use linux_ker_dev.Signal.Stop.{
  stop_mask, enlist, enlist_other, enlist_others, initiate_stop, join_stop, StopReply,
  do_signal_stop,
}
use linux_ker_dev.Signal.Stop.Enlist.{
  IsOrderly, idle-IsOrderly, enlist_other_lem, share, set-SameRest, refused-consumes,
  enlisted-consumes, set_done, consumes,
}

-- The number of the threads that take part.
abbrev pub participants : List Task → ℕ
participants ts = count_if consumes ts

-- The count of the stop is right.
abbrev pub IsCounted : Process → Type 0
IsCounted p = p.signal.group_stop_count ≡ participants (p.self ∷ p.others)

-- Every thread is in order, and the count of the stop is right.
pub record IsStopCounted (p : Process) : Type 0 where
  pub own : IsOrderly p.self
  pub others : All IsOrderly p.others
  pub counted : IsCounted p

pub participants-cons :
    (t : Task) (ts : List Task) → participants (t ∷ ts) ≡ share t + participants ts
participants-cons t ts = ground arith

pub enlist_others_lem :
    (signr : ℕ) (ts : List Task)
    → All IsOrderly ts
    → All IsOrderly (enlist_others signr ts).0
      × ((enlist_others signr ts).1 ≡ participants (enlist_others signr ts).0)
unfolding enlist_others
enlist_others_lem signr [] a = (tt, refl)
enlist_others_lem signr (t ∷ ts) a =
    let (first, one) = enlist_other_lem signr t a.0 in
    let (rest, more) = enlist_others_lem signr ts a.1 in
    (
      (first, rest),
      omega
          (arith, one, more, participants-cons (enlist_other signr t).0 (enlist_others signr ts).0),
    )

-- Clearing a pending stop ends the part that the thread takes.
trapping-jobctl :
    (t : Task) → t.jobctl 18 ≡ false → (task_clear_jobctl_trapping t).jobctl 18 ≡ false
unfolding task_clear_jobctl_trapping
trapping-jobctl t h = ground (arith, h)

pub clear-consumes : (t : Task) → consumes (task_clear_jobctl_pending t jobctl_stop_pending) ≡ false
unfolding task_clear_jobctl_pending
clear-consumes t =
    let cleared : Task = record t { jobctl = clear_mask t.jobctl (17 ∷ 18 ∷ 16 ∷ []) } in
    if-either (λ u. consumes u ≡ false) (test_mask cleared.jobctl jobctl_pending_mask) cleared
      (task_clear_jobctl_trapping cleared) (ground arith)
      (ground (arith, trapping-jobctl cleared (ground arith)))

-- What taking part does: the thread no longer takes part, and the count goes down by its share.
pub record IsParted (t : Task) (s : SignalStruct) (r : Task × SignalStruct × Bool) : Type 0 where
  pub same : SameBut t r.0
  pub idle : consumes r.0 ≡ false
  pub count : r.1.group_stop_count ≡ s.group_stop_count - share t

pub participate-IsParted :
    (t : Task) (s : SignalStruct) → IsParted t s (task_participate_group_stop t s)
unfolding task_participate_group_stop
participate-IsParted t s =
    let same = clear-SameBut t jobctl_stop_pending in
    let idle = clear-consumes t in
    elim (Bool-cases (consumes t)) [
      | inl c ↦ rw c (
          if-either (IsParted t s)
            (s.group_stop_count - 1 == 0 && not (test_mask s.flags signal_stop_stopped))
            (
              task_clear_jobctl_pending t jobctl_stop_pending,
              record s {
                group_stop_count = s.group_stop_count - 1;
                flags = of_mask signal_stop_stopped;
              },
              true,
            )
            (
              task_clear_jobctl_pending t jobctl_stop_pending,
              record s { group_stop_count = s.group_stop_count - 1 },
              false,
            )
            (record { same = same; idle = idle; count = rw c refl })
            (record { same = same; idle = idle; count = rw c refl }))
      | inr c ↦ rw c (record { same = same; idle = idle; count = rw c (omega arith) })
    ]

-- The thread at hand takes part; the count is then that of the others.
module _ (p : Process) where
  abbrev pub parted : Task × SignalStruct × Bool
  parted = task_participate_group_stop p.self p.signal

  parted-count : IsCounted p → parted.1.group_stop_count ≡ participants p.others
  parted-count c =
      omega
        (arith, (participate-IsParted p.self p.signal).count, c, participants-cons p.self p.others)

  parted-flagged :
      (sigismember p.self.pending.signal sigkill ≡ true → p.self.tif_sigpending ≡ true)
      → sigismember parted.0.pending.signal sigkill ≡ true
      → parted.0.tif_sigpending ≡ true
  parted-flagged k e =
      let same = (participate-IsParted p.self p.signal).same in
      rw same.tif_sigpending (k (rw (sym (ap (λ s. sigismember s.signal sigkill) same.pending)) e))

  -- Whatever state the thread is left in, the group is counted.
  pub parted-IsStopCounted :
      (state : Word)
      → (sigismember p.self.pending.signal sigkill ≡ true → p.self.tif_sigpending ≡ true)
      → All IsOrderly p.others
      → IsCounted p
      → IsStopCounted (record p { self = record parted.0 { state = state }; signal = parted.1 })
  parted-IsStopCounted state k a c =
      let idle = (participate-IsParted p.self p.signal).idle in
      record {
        own = idle-IsOrderly (record parted.0 { state = state }) idle (parted-flagged k);
        others = a;
        counted = rw idle (parted-count c);
      }

-- A group whose stop has just been started.
initiate-IsCounted :
    (signr : ℕ) (p : Process)
    → IsOrderly p.self
    → All IsOrderly p.others
    → IsCounted (initiate_stop signr p)
unfolding initiate_stop
initiate-IsCounted signr p o a =
    let (rest, more) = enlist_others_lem signr p.others a in
    elim (Bool-cases (fatal_signal_pending p.self || test_mask p.self.flags pf_exiting)) [
      | inl e ↦
          let same : (enlist signr p.self).0 ≡ p.self =
            unfold linux_ker_dev.Signal.Jobctl.task_set_jobctl_pending in rw e refl in
          rw (set_done p.self (stop_mask signr), e, same, refused-consumes p.self o e)
            (omega (arith, more))
      | inr e ↦
          rw (set_done p.self (stop_mask signr), e, enlisted-consumes signr p.self e)
            (omega (arith, more))
    ]

join-IsStopCounted :
    (p : Process)
    → p.self.ptraced ≡ false
    → (sigismember p.self.pending.signal sigkill ≡ true → p.self.tif_sigpending ≡ true)
    → All IsOrderly p.others
    → IsCounted p
    → IsStopCounted (join_stop p).0
unfolding join_stop
join-IsStopCounted p u k a c =
    if-cases (λ (r : Process × StopReply). IsStopCounted r.0) (not p.self.ptraced) _ _
      (λ e. parted-IsStopCounted p (of_mask task_stopped) k a c)
      (λ e. absurd (ground (arith, u, e)))

enlist-untraced : (signr : ℕ) (t : Task) → t.ptraced ≡ false → (enlist signr t).0.ptraced ≡ false
unfolding linux_ker_dev.Signal.Jobctl.task_set_jobctl_pending
enlist-untraced signr t u = ground (arith, u)

pub initiate-untraced :
    (signr : ℕ) (p : Process)
    → p.self.ptraced ≡ false
    → (initiate_stop signr p).self.ptraced ≡ false
unfolding initiate_stop
initiate-untraced signr p u = enlist-untraced signr p.self u

initiate-joined :
    (signr : ℕ) (p : Process)
    → p.self.ptraced ≡ false
    → IsStopCounted p
    → IsStopCounted (join_stop (initiate_stop signr p)).0
initiate-joined signr p u g =
    let same = set-SameRest p.self (stop_mask signr) in
    join-IsStopCounted (initiate_stop signr p) (initiate-untraced signr p u)
      (unfold initiate_stop in rw (same.pending, same.tif_sigpending) g.own.kill_flagged)
      (unfold initiate_stop in (enlist_others_lem signr p.others g.others).0)
      (initiate-IsCounted signr p g.own g.others)

-- `do_signal_stop` by an untraced thread keeps a group counted.
pub stop-IsStopCounted :
    (signr : ℕ) (p : Process)
    → p.self.ptraced ≡ false
    → IsStopCounted p
    → IsStopCounted (do_signal_stop signr p).0
unfolding do_signal_stop
stop-IsStopCounted signr p u g =
    if-either (λ r. IsStopCounted r.0) (test_mask p.self.jobctl jobctl_stop_pending) (join_stop p) _
      (join-IsStopCounted p u g.own.kill_flagged g.others g.counted)
      (if-either (λ r. IsStopCounted r.0)
        (not (test_mask p.self.jobctl jobctl_stop_dequeued) || is_group_exit p.signal) _
        (join_stop (initiate_stop signr p)) g (initiate-joined signr p u g))
