-- ===== src/Signal/Dequeue/Blocked.antt =====
-- Changing the blocked signals of the current thread (signal.c, `sigprocmask`).
use linux_ker_dev.Prelude.{
  ◌≡◌, refl, sym, false, ◌≢◌, Word, or_word, and_not_word, pos, Bool-cases, inl, inr,
}
use linux_ker_dev.Signal.Types.{Process}
use linux_ker_dev.Signal.Dequeue.{
  How, sig_block, sig_unblock, sig_setmask, other_how, has_work, recalc_sigpending,
  set_task_blocked, sigprocmask,
}

-- The set that a valid `how` asks for.
abbrev pub asked : How → Word → Word → Word
asked sig_block set old = or_word old set
asked sig_unblock set old = and_not_word old set
asked sig_setmask set old = set
asked other_how set old = old

-- The thread blocks the set, and is flagged exactly if there is work for it.
pub record IsCurrent (blocked : Word) (p : Process) : Type 0 where
  pub blocks : p.self.blocked ≡ blocked
  pub flagged : p.self.tif_sigpending ≡ has_work p

recalc-IsCurrent :
    (w : Word) (p : Process) → p.self.blocked ≡ w → IsCurrent w (recalc_sigpending false p)
unfolding recalc_sigpending
recalc-IsCurrent w p b = elim (Bool-cases (has_work p)) [
  | inl h ↦ rw h (record { blocks = b; flagged = sym h })
  | inr h ↦ rw h (record { blocks = b; flagged = sym h })
]

set-IsCurrent : (w : Word) (p : Process) → IsCurrent w (set_task_blocked false w p)
unfolding set_task_blocked
set-IsCurrent w p = recalc-IsCurrent w _ refl

-- For a valid `how` and a task that is not freezing, `sigprocmask` returns 0 and the old set;
-- afterwards the thread blocks the set that was asked for, and is flagged to look for signals
-- exactly if job control or a pending signal that is not blocked gives it work.
pub sigprocmask_lem :
    (how : How) (set : Word) (p : Process)
    → how ≢ other_how
    → IsCurrent (asked how set p.self.blocked) (sigprocmask false how set p).0
      × ((sigprocmask false how set p).1 ≡ p.self.blocked)
      × ((sigprocmask false how set p).2 ≡ pos 0)
unfolding sigprocmask
sigprocmask_lem sig_block set p v = (set-IsCurrent _ p, refl, refl)
sigprocmask_lem sig_unblock set p v = (set-IsCurrent _ p, refl, refl)
sigprocmask_lem sig_setmask set p v = (set-IsCurrent _ p, refl, refl)
sigprocmask_lem other_how set p v = absurd (v refl)
