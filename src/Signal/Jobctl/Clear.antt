-- ===== src/Signal/Jobctl/Clear.antt =====
-- What clearing job control bits leaves alone (signal.c, `task_clear_jobctl_pending`).
use linux_ker_dev.Prelude.{◌≡◌, refl, Mask, if-either, ◌+◌, clear_mask, test_mask}
use linux_ker_dev.Signal.Numbers.{jobctl_trapping}
use linux_ker_dev.Signal.Types.{Task}
use linux_ker_dev.Signal.Jobctl.{task_clear_jobctl_pending, task_clear_jobctl_trapping}

-- The task with other job control bits and another count of woken waiters.
pub record SameBut (t u : Task) : Type 0 where
  pub pending : u.pending ≡ t.pending
  pub flags : u.flags ≡ t.flags
  pub exit_state : u.exit_state ≡ t.exit_state
  pub state : u.state ≡ t.state
  pub tif_sigpending : u.tif_sigpending ≡ t.tif_sigpending

trapping-SameBut : (t : Task) → SameBut t (task_clear_jobctl_trapping t)
unfolding task_clear_jobctl_trapping
trapping-SameBut t =
    if-either (SameBut t) (test_mask t.jobctl jobctl_trapping)
      (record t { jobctl = clear_mask t.jobctl jobctl_trapping; trap_wakes = t.trap_wakes + 1 }) t
      (record {
        pending = refl;
        flags = refl;
        exit_state = refl;
        state = refl;
        tif_sigpending = refl;
      })
      (record {
        pending = refl;
        flags = refl;
        exit_state = refl;
        state = refl;
        tif_sigpending = refl;
      })

pub clear-SameBut : (t : Task) (m : Mask) → SameBut t (task_clear_jobctl_pending t m)
unfolding task_clear_jobctl_pending
clear-SameBut t m =
    if-either (SameBut t) _ _ _
      (record {
        pending = refl;
        flags = refl;
        exit_state = refl;
        state = refl;
        tif_sigpending = refl;
      })
      (let s = trapping-SameBut _ in
        record {
          pending = s.pending;
          flags = s.flags;
          exit_state = s.exit_state;
          state = s.state;
          tif_sigpending = s.tif_sigpending;
        })
