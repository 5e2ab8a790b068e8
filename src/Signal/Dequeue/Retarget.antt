-- ===== src/Signal/Dequeue/Retarget.antt =====
-- Blocking signals loses no shared signal (signal.c, `retarget_shared_pending`).
use linux_ker_dev.Prelude.{
  ℕ, ◌<◌, ◌≡◌, refl, Bool, true, false, not, ◌&&◌, List, [], ◌∷◌, inl, inr, Word, arith, any,
  and_word, and_not_word, test_mask, Bool-cases,
}
use linux_ker_dev.Signal.Numbers.{nsig, pf_exiting}
use linux_ker_dev.Signal.Types.{Task, Process}
use linux_ker_dev.Signal.Pending.{has_pending_signals}
use linux_ker_dev.Signal.Pending.Choice.{is_nonempty_holds}
use linux_ker_dev.Signal.Dequeue.{retarget_threads, retarget_shared_pending}

has_pending_holds :
    (r blocked : Word) (b : ℕ)
    → b < nsig
    → r b ≡ true
    → blocked b ≡ false
    → has_pending_signals r blocked ≡ true
unfolding has_pending_signals
has_pending_holds r blocked b l h k =
    is_nonempty_holds (and_not_word r blocked) b l (rw (h, k) refl)

-- A thread that could take the signal at place `b` of a set.
abbrev pub can_take : ℕ → Task → Bool
can_take b t = not (test_mask t.flags pf_exiting) && not (t.blocked b)

-- A thread that could take it, and that has been told to look.
abbrev pub will_take : ℕ → Task → Bool
will_take b t = can_take b t && t.tif_sigpending

retarget_threads_lem :
    (b : ℕ) (retarget : Word) (ts : List Task)
    → b < nsig
    → retarget b ≡ true
    → any (can_take b) ts ≡ true
    → any (will_take b) (retarget_threads retarget ts) ≡ true
unfolding retarget_threads
retarget_threads_lem b r [] l h a = a
retarget_threads_lem b r (t ∷ ts) l h a = elim (Bool-cases (t.blocked b)) [
  | inl k ↦
      let more = is_nonempty_holds (and_word r t.blocked) b l (rw (h, k) refl) in
      let skipped = retarget_threads_lem b r ts l h in
      let rest = retarget_threads_lem b (and_word r t.blocked) ts l (rw (h, k) refl) in
      elim (Bool-cases t.tif_sigpending) [
        | inl f ↦ rw (more, f) (ground (arith, skipped, rest))
        | inr f ↦ rw (more, f) (ground (arith, skipped, rest))
      ]
  | inr k ↦
      let found = has_pending_holds r t.blocked b l h k in
      let skipped = retarget_threads_lem b r ts l h in
      elim (Bool-cases t.tif_sigpending) [
        | inl f ↦ rw (found, f) (ground (arith, skipped))
        | inr f ↦ rw (found, f) (ground (arith, skipped))
      ]
]

-- If a shared signal is pending that is among those to be blocked, and another thread that is not
-- exiting does not block it, then after `retarget_shared_pending` some such thread is flagged to
-- look for signals.
pub retarget_shared_pending_lem :
    (b : ℕ) (p : Process) (which : Word)
    → b < nsig
    → p.signal.shared_pending.signal b ≡ true
    → which b ≡ true
    → any (can_take b) p.others ≡ true
    → any (will_take b) (retarget_shared_pending p which).others ≡ true
unfolding retarget_shared_pending
retarget_shared_pending_lem b p which l h w a =
    let retarget : Word = and_word p.signal.shared_pending.signal which in
    let both : retarget b ≡ true = rw (h, w) refl in
    rw (is_nonempty_holds retarget b l both) (retarget_threads_lem b retarget p.others l both a)
