-- ===== src/Signal/Jobctl.antt =====
-- Job control (signal.c, lines 241-345).
pub mod Clear
pub mod GroupStop
use linux_ker_dev.Prelude.{
  ℕ, zero, suc, ◌-◌, ◌+◌, Bool, true, false, not, ◌||◌, ◌&&◌, List, [], ◌∷◌, ◌++◌, Word, Mask,
  of_mask, test_mask, set_mask, clear_mask, ◌==◌, if◌then◌else◌, has_bit,
}
use linux_ker_dev.Signal.Numbers.{
  pf_exiting, jobctl_stop_sigmask, jobctl_stop_dequeued, jobctl_stop_pending, jobctl_stop_consume,
  jobctl_trapping, jobctl_pending_mask, signal_stop_stopped,
}
use linux_ker_dev.Signal.Types.{Task, SignalStruct, fatal_signal_pending}

-- Do the masks meet?
abbrev pub masks_meet : Mask → Mask → Bool
masks_meet m [] = false
masks_meet m (b ∷ n) = has_bit m b || masks_meet m n

-- `task_set_jobctl_pending`
unfoldable pub task_set_jobctl_pending : Task → Mask → Task × Bool
task_set_jobctl_pending t mask =
    if fatal_signal_pending t || test_mask t.flags pf_exiting then (t, false) else (
      let jobctl =
            if masks_meet mask jobctl_stop_sigmask
            then clear_mask t.jobctl jobctl_stop_sigmask
            else t.jobctl in
          record t { jobctl = set_mask jobctl mask },
      true,
    )

-- `task_clear_jobctl_trapping`
unfoldable pub task_clear_jobctl_trapping : Task → Task
task_clear_jobctl_trapping t =
    if test_mask t.jobctl jobctl_trapping
    then record t { jobctl = clear_mask t.jobctl jobctl_trapping; trap_wakes = t.trap_wakes + 1 }
    else t

-- `task_clear_jobctl_pending`
unfoldable pub task_clear_jobctl_pending : Task → Mask → Task
task_clear_jobctl_pending t mask =
    let wide =
      if masks_meet mask jobctl_stop_pending
      then mask ++ jobctl_stop_consume ++ jobctl_stop_dequeued
      else mask in
    let cleared : Task = record t { jobctl = clear_mask t.jobctl wide } in
    if test_mask cleared.jobctl jobctl_pending_mask
    then cleared
    else task_clear_jobctl_trapping cleared

-- `task_participate_group_stop`; the count is not taken below 0.
unfoldable pub task_participate_group_stop : Task → SignalStruct → Task × SignalStruct × Bool
task_participate_group_stop t sig =
    let t' = task_clear_jobctl_pending t jobctl_stop_pending in
    if not (test_mask t.jobctl jobctl_stop_consume)
    then (t', sig, false)
    else (let count = sig.group_stop_count - 1 in
        if count == 0 && not (test_mask sig.flags signal_stop_stopped)
        then (
          t',
          record sig { group_stop_count = count; flags = of_mask signal_stop_stopped },
          true,
        )
        else (t', record sig { group_stop_count = count }, false))
