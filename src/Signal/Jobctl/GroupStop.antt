-- ===== src/Signal/Jobctl/GroupStop.antt =====
-- A group stop is complete when its last participant has stopped (signal.c,
-- `task_participate_group_stop`).
use linux_ker_dev.Prelude.{
  ℕ, zero, suc, ◌-◌, ◌<◌, ◌≡◌, refl, Bool, true, false, List, [], ◌∷◌, arith, of_mask, test_mask,
  All, length,
}
use linux_ker_dev.Signal.Numbers.{jobctl_stop_consume, signal_stop_stopped}
use linux_ker_dev.Signal.Types.{Task, SignalStruct}
use linux_ker_dev.Signal.Jobctl.{task_participate_group_stop}

-- The threads of a group take part in its stop, one after another; the list says which of them
-- are told to notify the parent.
abbrev pub participate_all : List Task → SignalStruct → SignalStruct × List Bool
participate_all [] s = (s, [])
participate_all (t ∷ ts) s =
    let (t', s', told) = task_participate_group_stop t s in
    let (s'', more) = participate_all ts s' in (s'', told ∷ more)

participate_step :
    (t : Task) (s : SignalStruct)
    → test_mask t.jobctl jobctl_stop_consume ≡ true
    → test_mask s.flags signal_stop_stopped ≡ false
    → 1 < s.group_stop_count
    → ((task_participate_group_stop t s).1 ≡ record s { group_stop_count = s.group_stop_count - 1 })
      × ((task_participate_group_stop t s).2 ≡ false)
unfolding task_participate_group_stop
participate_step t s c f h = ground arith

participate_last :
    (t : Task) (s : SignalStruct)
    → test_mask t.jobctl jobctl_stop_consume ≡ true
    → test_mask s.flags signal_stop_stopped ≡ false
    → s.group_stop_count ≡ 1
    → ((task_participate_group_stop t s).1
        ≡ record s { group_stop_count = 0; flags = of_mask signal_stop_stopped })
      × ((task_participate_group_stop t s).2 ≡ true)
unfolding task_participate_group_stop
participate_last t s c f h = ground arith

-- The answers of a group of which only the last of `n + 1` threads notifies the parent.
abbrev pub last_only : ℕ → List Bool
last_only zero = true ∷ []
last_only (suc n) = false ∷ last_only n

participate_all_cons :
    (t : Task) (ts : List Task) (s : SignalStruct)
    → {s' : SignalStruct} {b : Bool} {r : SignalStruct × List Bool}
    → (task_participate_group_stop t s).1 ≡ s'
    → (task_participate_group_stop t s).2 ≡ b
    → participate_all ts s' ≡ r
    → participate_all (t ∷ ts) s ≡ (r.0, b ∷ r.1)
participate_all_cons t ts s state told rest = rw (state, told, rest) refl

-- If every thread of a group consumes the count of a stop, the group is not marked as stopped and
-- the count is the number of the threads, then, taking part one after another, the last thread and
-- no other is told to notify the parent; the count is then 0 and the group is marked as stopped.
pub participate_all_lem :
    (t : Task) (ts : List Task) (s : SignalStruct)
    → All (λ u. test_mask u.jobctl jobctl_stop_consume ≡ true) (t ∷ ts)
    → test_mask s.flags signal_stop_stopped ≡ false
    → s.group_stop_count ≡ length (t ∷ ts)
    → participate_all (t ∷ ts) s ≡ (
      record s { group_stop_count = 0; flags = of_mask signal_stop_stopped },
      last_only (length ts),
    )
participate_all_lem t [] s c f h = ground (arith, participate_last t s)
participate_all_lem t (u ∷ ts) s c f h =
    let (state, told) = participate_step t s c.0 f (omega arith) in
    let rest =
      participate_all_lem u ts (record s { group_stop_count = s.group_stop_count - 1 }) c.1 f
        (omega arith) in
    participate_all_cons t (u ∷ ts) s state told rest
