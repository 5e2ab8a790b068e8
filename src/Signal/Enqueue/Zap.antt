-- ===== src/Signal/Enqueue/Zap.antt =====
-- The other threads of a group are killed (signal.c, `zap_other_threads`).
use linux_ker_dev.Prelude.{
  ◌≡◌, refl, false, All, All-map, All-All, length, test_mask, Bool-cases, inl, inr,
}
use linux_ker_dev.Signal.Numbers.{exit_zombie_dead, jobctl_pending_mask}
use linux_ker_dev.Signal.Types.{Task, Process}
use linux_ker_dev.Signal.Jobctl.{task_clear_jobctl_pending}
use linux_ker_dev.Signal.Pending.Choice.{true_ne_false}
use linux_ker_dev.Signal.Send.GroupDown.{IsKilled, unstopped_lem}
use linux_ker_dev.Signal.Enqueue.{zap_thread, zap_other_threads}

-- A thread behind `zap_other_threads`: no stop or trap is pending, and it is killed if it was
-- not dead.
pub record IsZapped (t : Task) : Type 0 where
  pub unstopped : test_mask t.jobctl jobctl_pending_mask ≡ false
  pub killed : test_mask t.exit_state exit_zombie_dead ≡ false → IsKilled t

zap_thread-IsZapped : (t : Task) → IsZapped (zap_thread t)
unfolding zap_thread
zap_thread-IsZapped t =
    elim (Bool-cases
      (test_mask (task_clear_jobctl_pending t jobctl_pending_mask).exit_state exit_zombie_dead)) [
        | inl dead ↦ rw dead (record {
          unstopped = unstopped_lem t;
          killed = λ alive. absurd (true_ne_false dead alive);
        })
        | inr alive ↦ rw alive (record {
          unstopped = unstopped_lem t;
          killed = λ a. record { killed = refl; flagged = refl; unstopped = unstopped_lem t };
        })
      ]

-- After `zap_other_threads` no other thread of the group has a stop or a trap pending, and each
-- that is not dead has SIGKILL pending and is flagged; the calling thread is as it was, no stop is
-- waited for, and the value is the number of the other threads.
pub zap_other_threads_lem :
    (p : Process)
    → All IsZapped (zap_other_threads p).0.others
      × ((zap_other_threads p).0.self ≡ p.self)
      × ((zap_other_threads p).0.signal.group_stop_count ≡ 0)
      × ((zap_other_threads p).1 ≡ length p.others)
unfolding zap_other_threads
zap_other_threads_lem p = (
  All-map (λ t. Unit {0}) IsZapped zap_thread p.others (λ t u. zap_thread-IsZapped t)
      (All-All (λ t. Unit {0}) p.others (λ t. tt)),
  refl,
  refl,
  refl,
)
