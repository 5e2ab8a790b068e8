-- ===== src/Signal/Enqueue/Records.antt =====
-- What holds of every queued record of a group, and of the record that is sent, holds of every
-- queued record after the sending (signal.c, `__send_signal`).
use linux_ker_dev.Prelude.{
  ℕ, zero, suc, sym, subst, Bool, List, [], ◌∷◌, Mask, test_mask, ◌==◌, All, All-set, All-get_or,
  if-either,
}
use linux_ker_dev.Signal.Numbers.{
  sigcont, sigmask, sig_kernel_stop, sig_kernel_stop_mask, signal_group_exit, jobctl_pending_mask,
  jobctl_stop_pending,
}
use linux_ker_dev.Signal.Types.{
  Siginfo, Sigqueue, Sigpending, Task, Users, Process, signal_wake_up, thread,
}
use linux_ker_dev.Signal.Jobctl.{task_clear_jobctl_pending}
use linux_ker_dev.Signal.Jobctl.Clear.{clear-SameBut}
use linux_ker_dev.Signal.Pending.{kept, rm_from_queue, is_removed}
use linux_ker_dev.Signal.Send.{
  stop_thread, continue_thread, each_thread, over_group, rm_shared, kill_thread, update_thread,
  prepare_effects,
}
use linux_ker_dev.Signal.Send.Prepare.{continue_wake-pending, report_continued-pending}

module _ (P : Siginfo → Type 0) where
  -- Every record of the queue of a set.
  abbrev pub Records : Sigpending → Type 0
  Records s = All (λ (e : Sigqueue). P e.info) s.queue

  -- Every record that is queued for the group or for a thread of it.
  pub record Throughout (p : Process) : Type 0 where
    pub shared : Records p.signal.shared_pending
    pub own : Records p.self.pending
    pub others : All (λ (t : Task). Records t.pending) p.others

  kept-All :
      (out : Sigqueue → Bool) (qs : List Sigqueue)
      → All (λ (e : Sigqueue). P e.info) qs
      → All (λ (e : Sigqueue). P e.info) (kept out qs)
  unfolding kept
  kept-All out [] h = tt
  kept-All out (q ∷ qs) h =
      if-either (All (λ (e : Sigqueue). P e.info)) (out q) _ _ (kept-All out qs h.1)
        (h.0, kept-All out qs h.1)

  rm_from_queue-Records :
      (mask : Mask) (s : Sigpending) (users : Users)
      → Records s
      → Records (rm_from_queue mask s users).0
  unfolding rm_from_queue
  rm_from_queue-Records mask s users h =
      if-either (λ (r : Sigpending × Users). Records r.0) (test_mask s.signal mask) _ _
        (kept-All (is_removed mask) s.queue h) h

  -- A body of the loop over the threads that keeps the records of each
  abbrev Keeps : (Task → Users → Task × Users) → Type 0
  Keeps body = (t : Task) (users : Users) → Records t.pending → Records (body t users).0.pending

  stop_thread-Keeps : Keeps stop_thread
  stop_thread-Keeps t users h = rm_from_queue-Records (sigmask sigcont) t.pending users h

  continue_thread-Keeps : Keeps continue_thread
  continue_thread-Keeps t users h =
      let t' = task_clear_jobctl_pending t jobctl_stop_pending in
      let s = (rm_from_queue sig_kernel_stop_mask t'.pending users).0 in
      subst Records (sym (continue_wake-pending (record t' { pending = s }))) (
        rm_from_queue-Records sig_kernel_stop_mask t'.pending users
          (subst Records (sym (clear-SameBut t jobctl_stop_pending).pending) h))

  each_thread-Keeps :
      (body : Task → Users → Task × Users)
      → Keeps body
      → (ts : List Task) (users : Users) → All (λ (t : Task). Records t.pending) ts
      → All (λ (t : Task). Records t.pending) (each_thread body ts users).0
  unfolding each_thread
  each_thread-Keeps body k [] users h = tt
  each_thread-Keeps body k (t ∷ ts) users h =
      (k t users h.0, each_thread-Keeps body k ts (body t users).1 h.1)

  over_group-Throughout :
      (mask : Mask) (body : Task → Users → Task × Users) (p : Process)
      → Keeps body
      → Throughout p
      → Throughout (over_group body (rm_shared mask p))
  unfolding over_group rm_shared
  over_group-Throughout mask body p k h =
      let users = (rm_from_queue mask p.signal.shared_pending p.users).1 in
      record {
        shared = rm_from_queue-Records mask p.signal.shared_pending p.users h.shared;
        own = k p.self users h.own;
        others = each_thread-Keeps body k p.others (body p.self users).1 h.others;
      }

  pub prepare-Throughout :
      (sig : ℕ) (p : Process) → Throughout p → Throughout (prepare_effects sig p)
  unfolding prepare_effects
  prepare-Throughout sig p h =
      let n =
        over_group-Throughout sig_kernel_stop_mask continue_thread p continue_thread-Keeps h in
      if-either Throughout (test_mask p.signal.flags signal_group_exit) _ _ h (
        if-either Throughout (sig_kernel_stop sig) _ _
          (over_group-Throughout (sigmask sigcont) stop_thread p stop_thread-Keeps h)
          (if-either Throughout (sig == sigcont) _ _
            (record {
              shared = subst Records (sym (report_continued-pending _)) n.shared;
              own = n.own;
              others = n.others;
            })
            h))

  pub kill_thread-Records : (t : Task) → Records t.pending → Records (kill_thread t).pending
  unfolding kill_thread
  kill_thread-Records t h = subst Records (sym (clear-SameBut t jobctl_pending_mask).pending) h

  pub woken-Throughout :
      (p : Process) (i : ℕ) (b : Bool)
      → Throughout p
      → Throughout (update_thread p i (signal_wake_up (thread p i) b))
  unfolding update_thread
  woken-Throughout p zero b h = record { shared = h.shared; own = h.own; others = h.others }
  woken-Throughout p (suc i) b h = record {
    shared = h.shared;
    own = h.own;
    others =
        All-set (λ (t : Task). Records t.pending) p.others i _
          (All-get_or (λ (t : Task). Records t.pending) p.others i p.self h.own h.others) h.others;
  }
