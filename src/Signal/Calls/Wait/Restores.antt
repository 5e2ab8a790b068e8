-- ===== src/Signal/Calls/Wait/Restores.antt =====
-- Waiting for a signal leaves what the thread blocks as it was (signal.c, `do_sigtimedwait`).
use linux_ker_dev.Prelude.{
  ℕ, ◌≡◌, refl, ◌∙◌, subst, Option, none, some, inl, inr, Word, no_bits, clear_mask, Option-cases,
  if-either, ◌==◌,
}
use linux_ker_dev.Signal.Types.{Siginfo, Process}
use linux_ker_dev.Signal.Dequeue.{Dequeued}
use linux_ker_dev.Signal.Dequeue.Keeps.{dequeue_signal-Unmoved}
use linux_ker_dev.Signal.Stop.{not_word}
use linux_ker_dev.Signal.Calls.{Reply}
use linux_ker_dev.Signal.Calls.Mask.{kernel_mask}
use linux_ker_dev.Signal.Calls.Mask.Unblockable.{recalc-IsChanged, set_task_blocked-IsChanged}
use linux_ker_dev.Signal.Calls.Wait.{
  Surroundings, Timespec, timeout_of, look, wait_reply, fall_asleep, wake_again, wait_on, wait_for,
  do_sigtimedwait,
}

reply-process : (d : Dequeued) (timeout : ℕ) → (wait_reply d timeout).process ≡ d.process
reply-process d timeout = elim (Option-cases d.taken) [
  | inl e ↦ rw e refl
  | inr (found, e) ↦ rw e refl
]

-- What others do while the thread sleeps leaves alone the set that it is to put back.
abbrev pub KeepsReal : Surroundings → Type 0
KeepsReal around =
    (timeout : ℕ) (p : Process) → (around.sleep timeout p).0.self.real_blocked ≡ p.self.real_blocked

-- The thread blocks the set, and no other in reserve.
pub record IsRestored (w : Word) (q : Process) : Type 0 where
  pub blocked : q.self.blocked ≡ w
  pub real : q.self.real_blocked ≡ no_bits

asleep-real :
    (around : Surroundings) (mask : Word) (p : Process)
    → (fall_asleep around mask p).self.real_blocked ≡ p.self.blocked
unfolding fall_asleep
asleep-real around mask p = (recalc-IsChanged around.freezing _).real

awake-blocked :
    (around : Surroundings) (q : Process) → IsRestored q.self.real_blocked (wake_again around q)
unfolding wake_again
awake-blocked around q = record {
  blocked = (set_task_blocked-IsChanged around.freezing q.self.real_blocked q).blocked;
  real = refl;
}

wait_on-IsRestored :
    (around : Surroundings) (mask : Word) (timeout : ℕ) (p : Process)
    → KeepsReal around
    → IsRestored p.self.blocked (wait_on around mask timeout p).process
unfolding wait_on
wait_on-IsRestored around mask timeout p keeps =
    let (q, left) = around.sleep timeout (fall_asleep around mask p) in
    let put : q.self.real_blocked ≡ p.self.blocked =
      keeps timeout (fall_asleep around mask p) ∙ asleep-real around mask p in
    let awake = awake-blocked around q in
    let same =
      dequeue_signal-Unmoved around.notifier mask around.freezing around.timers
        (wake_again around q) in
    rw (reply-process (look around mask (wake_again around q)) left)
      (record { blocked = same.blocked ∙ awake.blocked ∙ put; real = same.real ∙ awake.real })

wait_for-IsRestored :
    (around : Surroundings) (mask : Word) (timeout : ℕ) (w : Word) (d : Dequeued)
    (taken : Option (ℕ × Siginfo))
    → KeepsReal around
    → IsRestored w d.process
    → IsRestored w (wait_for around mask timeout d taken).process
wait_for-IsRestored around mask timeout w d (some found) keeps done =
    rw (reply-process d timeout) done
wait_for-IsRestored around mask timeout w d none keeps done =
    if-either (λ (q : Reply (ℕ × Siginfo)). IsRestored w q.process) (timeout == 0)
      (wait_reply d timeout) (wait_on around mask timeout d.process)
      (rw (reply-process d timeout) done)
      (subst (λ v. IsRestored v (wait_on around mask timeout d.process).process) done.blocked
        (wait_on-IsRestored around mask timeout d.process keeps))

-- If what others do while the thread sleeps leaves alone the set that it is to put back, and no
-- such set is in use before, then whatever `do_sigtimedwait` returns, the thread blocks afterwards
-- what it blocked before, and no set is in use.
pub do_sigtimedwait_restores :
    (around : Surroundings) (which : Word) (ts : Option Timespec) (p : Process)
    → KeepsReal around
    → p.self.real_blocked ≡ no_bits
    → IsRestored p.self.blocked (do_sigtimedwait around which ts p).process
unfolding do_sigtimedwait
do_sigtimedwait_restores around which ts p keeps r =
    let mask = not_word (clear_mask which kernel_mask) in
    let d = look around mask p in
    let same = dequeue_signal-Unmoved around.notifier mask around.freezing around.timers p in
    let done : IsRestored p.self.blocked d.process = record {
      blocked = same.blocked;
      real = same.real ∙ r;
    } in
    elim (Option-cases (timeout_of around ts)) [
      | inl e ↦ rw e (record { blocked = refl; real = r })
      | inr (timeout, e) ↦
          rw e (wait_for-IsRestored around mask timeout p.self.blocked d d.taken keeps done)
    ]
